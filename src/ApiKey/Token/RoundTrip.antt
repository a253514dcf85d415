-- ===== src/ApiKey/Token/RoundTrip.antt =====
-- A key that is made is taken apart into the identifiers it was made from.
use chutes_api.Base.{
  Text, ℕ, zero, suc, Bool, true, [], ◌∷◌, ◌++◌, some, length, length-append, All, is_prefix, ◌≡◌,
  refl, arith,
}
use chutes_api.ApiKey.Token.{
  dot, prefix, is_hex, is_alphanumeric, generate_key, reinject_dash, match_class, match_code,
  match_text, match_end, match_key, could_be_valid, identify,
}
use chutes_api.ApiKey.Token.Uuids.{
  IsGroup, Uuid, uuid_text, digits, remove_dashes-uuid, digits-IsGroup, reinject_dash-digits,
}

match_class-append :
    (n : ℕ) (class : ℕ → Bool) (g rest : Text)
    → length g ≡ n
    → All (λ c. class c ≡ true) g
    → match_class n class (g ++ rest) ≡ some (g, rest)
unfolding match_class
match_class-append zero class [] rest e h = refl
match_class-append zero class (c ∷ g) rest e h = absurd (omega arith)
match_class-append (suc n) class [] rest e h = absurd (omega arith)
match_class-append (suc n) class (c ∷ g) rest e h =
    rw (h.0, match_class-append n class g rest (omega arith) h.1)

match_text-prefix : (s : Text) → match_text prefix (prefix ++ s) ≡ some s
unfolding match_text match_code
match_text-prefix s = refl

match_code_self : (d : ℕ) (s : Text) → match_code d (d ∷ s) ≡ some s
unfolding match_code
match_code_self d s = ground arith

match_class-exact :
    (n : ℕ) (class : ℕ → Bool) (g : Text)
    → length g ≡ n
    → All (λ c. class c ≡ true) g
    → match_class n class g ≡ some (g, [])
unfolding match_class
match_class-exact zero class [] e h = refl
match_class-exact zero class (c ∷ g) e h = absurd (omega arith)
match_class-exact (suc n) class [] e h = absurd (omega arith)
match_class-exact (suc n) class (c ∷ g) e h =
    rw (h.0, match_class-exact n class g (omega arith) h.1)

match_end-nothing : match_end [] ≡ some tt
unfolding match_end
match_end-nothing = refl

-- What matches the regular expression, piece by piece.
match_key-pieces :
    (a b c : Text)
    → IsGroup 32 a
    → IsGroup 32 b
    → length c ≡ 32
    → All (λ d. is_alphanumeric d ≡ true) c
    → match_key (prefix ++ (a ++ (dot ∷ (b ++ (dot ∷ c))))) ≡ some (a, b, c)
unfolding match_key
match_key-pieces a b c ga gb lc hc = rw (
  match_text-prefix (a ++ (dot ∷ (b ++ (dot ∷ c)))),
  match_class-append 32 is_hex a (dot ∷ (b ++ (dot ∷ c))) ga.0 ga.1,
  match_code_self dot (b ++ (dot ∷ c)),
  match_class-append 32 is_hex b (dot ∷ c) gb.0 gb.1,
  match_code_self dot c,
  match_class-exact 32 is_alphanumeric c lc hc,
  match_end-nothing,
)

generate_key-pieces :
    (first second : Uuid) (secret : Text)
    → generate_key (uuid_text first) (uuid_text second) secret
      ≡ prefix ++ (digits first ++ (dot ∷ (digits second ++ (dot ∷ secret))))
unfolding generate_key
generate_key-pieces first second secret = rw (remove_dashes-uuid first, remove_dashes-uuid second)

length-pieces :
    (a b c : Text)
    → length a ≡ 32
    → length b ≡ 32
    → length c ≡ 32
    → length (prefix ++ (a ++ (dot ∷ (b ++ (dot ∷ c))))) ≡ 102
length-pieces a b c e f g =
    omega (arith, length-append a (dot ∷ (b ++ (dot ∷ c))), length-append b (dot ∷ c))

is_prefix-pieces : (s : Text) → is_prefix prefix (prefix ++ s) ≡ true
unfolding is_prefix
is_prefix-pieces s = refl

identify-pieces :
    (a b c : Text)
    → IsGroup 32 a
    → IsGroup 32 b
    → length c ≡ 32
    → All (λ d. is_alphanumeric d ≡ true) c
    → identify (prefix ++ (a ++ (dot ∷ (b ++ (dot ∷ c))))) ≡ some (reinject_dash a, reinject_dash b)
unfolding identify could_be_valid
identify-pieces a b c ga gb lc hc = rw (
  match_key-pieces a b c ga gb lc hc,
  is_prefix-pieces (a ++ (dot ∷ (b ++ (dot ∷ c)))),
  length-pieces a b c ga.0 gb.0 lc,
)

-- A key that generate_key makes from two identifiers and a secret of 32 letters and digits is one
-- that could be valid, and the identifiers that are looked up for it are those two.
pub identify-generate_key :
    (first second : Uuid) (secret : Text)
    → length secret ≡ 32
    → All (λ d. is_alphanumeric d ≡ true) secret
    → identify (generate_key (uuid_text first) (uuid_text second) secret)
      ≡ some (uuid_text first, uuid_text second)
identify-generate_key first second secret e h = rw (
  generate_key-pieces first second secret,
  identify-pieces (digits first) (digits second) secret (digits-IsGroup first)
      (digits-IsGroup second) e h,
  reinject_dash-digits first,
  reinject_dash-digits second,
)
