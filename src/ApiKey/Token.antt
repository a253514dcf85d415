-- ===== src/ApiKey/Token.antt =====
-- The text of a key: generate_key and could_be_valid of api/api_key/schemas.py, reinject_dash and the
-- match in get_and_check_api_key of api/api_key/util.py. Texts are lists of code points.
pub mod Uuids
pub mod RoundTrip
use chutes_api.Base.{
  ℕ, Text, zero, suc, ◌+◌, ◌-◌, Bool, true, false, ◌&&◌, ◌||◌, not, List, [], ◌∷◌, ◌++◌, Option,
  none, some, keep, length, take, leb, ◌==◌, is_prefix, codes, if◌then◌else◌,
}

abbrev pub dash : ℕ
dash = b'-'

abbrev pub dot : ℕ
dot = b'.'

abbrev pub prefix : Text
prefix = codes "cpk_"

unfoldable pub is_hex : ℕ → Bool
is_hex c = (leb b'a' c && leb c b'f') || (leb b'0' c && leb c b'9')

unfoldable pub is_alphanumeric : ℕ → Bool
is_alphanumeric c =
    (leb b'a' c && leb c b'z') || (leb b'A' c && leb c b'Z') || (leb b'0' c && leb c b'9')

-- `s.replace('-', '')`
pub remove_dashes : Text → Text
unfolding keep
remove_dashes = keep (λ c. not (c == dash))

-- `secret` is 32 random letters and digits. The class method is called with the key's identifier first.
pub generate_key : (first second secret : Text) → Text
generate_key first second secret =
    prefix ++ (remove_dashes first ++ (dot ∷ (remove_dashes second ++ (dot ∷ secret))))

abbrev pub drop : ℕ → Text → Text
drop zero s = s
drop (suc n) [] = []
drop (suc n) (c ∷ s) = drop n s

-- `s[lo:hi]`
abbrev slice : ℕ → ℕ → Text → Text
slice lo hi s = take (hi - lo) (drop lo s)

pub reinject_dash : Text → Text
reinject_dash s =
    slice 0 8 s
    ++ (dash
        ∷ (slice 8 12 s
            ++ (dash ∷ (slice 12 16 s ++ (dash ∷ (slice 16 20 s ++ (dash ∷ slice 20 32 s)))))))

-- `[class]{n}` at the start of a text: what it matches, and the rest.
pub match_class : ℕ → (ℕ → Bool) → Text → Option (Text × Text)
match_class zero class s = some ([], s)
match_class (suc n) class [] = none
match_class (suc n) class (c ∷ s) =
    let rest = match_class n class s in
    if class c then elim rest [ none ↦ none | some (m, t) ↦ some (c ∷ m, t) ] else none

-- One literal character.
pub match_code : ℕ → Text → Option Text
match_code d [] = none
match_code d (c ∷ s) = if c == d then some s else none

infixl 5 ◌>>=◌
abbrev ◌>>=◌ {ℓ κ} : {A : Type ℓ} {B : Type κ} → Option A → (A → Option B) → Option B
none >>= f = none
some a >>= f = f a

pub match_text : Text → Text → Option Text
match_text [] s = some s
match_text (d ∷ ds) s = do s' ← match_code d s; match_text ds s'

-- `$` also matches before a final line feed.
pub match_end : Text → Option (Unit {0})
match_end [] = some tt
match_end (c ∷ []) = if c == 10 then some tt else none
match_end (c ∷ d ∷ s) = none

-- The groups of `^cpk_([a-f0-9]{32})\.([a-f0-9]{32})\.([a-zA-Z0-9]{32})$`.
pub match_key : Text → Option (Text × Text × Text)
match_key s = do
  after_prefix ← match_text prefix s
  a ← match_class 32 is_hex after_prefix
  after_first ← match_code dot a.1
  b ← match_class 32 is_hex after_first
  after_second ← match_code dot b.1
  c ← match_class 32 is_alphanumeric after_second
  u ← match_end c.1
  some (a.0, b.0, c.0)

abbrev is_match : Option (Text × Text × Text) → Bool
is_match none = false
is_match (some groups) = true

pub could_be_valid : Text → Bool
could_be_valid key = is_prefix prefix key && length key == 102 && is_match (match_key key)

-- The token and user identifiers that get_and_check_api_key looks up, if it gets that far.
pub identify : Text → Option (Text × Text)
identify key =
    if could_be_valid key
    then (do m ← match_key key; some (reinject_dash m.0, reinject_dash m.1))
    else none
