-- ===== src/ApiKey/Token/Uuids.antt =====
-- Identifiers with their dashes and without them.
use chutes_api.Base.{
  Text, ℕ, zero, suc, ◌+◌, true, not, [], ◌∷◌, ◌++◌, keep_self, length, length-append, All,
  All-append, All-imp, take, ◌==◌, ◌≡◌, refl, ap, ◌∙◌, arith,
}
use chutes_api.ApiKey.Token.{dash, is_hex, remove_dashes, drop, reinject_dash}

-- `str(uuid.uuid4())`: five groups of lower-case hexadecimal digits.
abbrev pub IsGroup : ℕ → Text → Type 0
IsGroup n g = (length g ≡ n) × All (λ c. is_hex c ≡ true) g

pub record Uuid : Type 0 where
  pub time_low : Text
  pub time_mid : Text
  pub time_high : Text
  pub clock : Text
  pub node : Text
  pub low_IsGroup : IsGroup 8 time_low
  pub mid_IsGroup : IsGroup 4 time_mid
  pub high_IsGroup : IsGroup 4 time_high
  pub clock_IsGroup : IsGroup 4 clock
  pub node_IsGroup : IsGroup 12 node

abbrev pub uuid_text : Uuid → Text
uuid_text u =
    u.time_low
    ++ (dash ∷ (u.time_mid ++ (dash ∷ (u.time_high ++ (dash ∷ (u.clock ++ (dash ∷ u.node)))))))

abbrev pub digits : Uuid → Text
digits u = u.time_low ++ (u.time_mid ++ (u.time_high ++ (u.clock ++ u.node)))

remove_dashes-append : (s t : Text) → remove_dashes (s ++ t) ≡ remove_dashes s ++ remove_dashes t
unfolding remove_dashes
remove_dashes-append [] t = refl
remove_dashes-append (c ∷ s) t = ground (arith, remove_dashes-append s t)

remove_dashes-dash : (t : Text) → remove_dashes (dash ∷ t) ≡ remove_dashes t
unfolding remove_dashes
remove_dashes-dash t = refl

remove_dashes-hex : (g : Text) → All (λ c. is_hex c ≡ true) g → remove_dashes g ≡ g
unfolding remove_dashes
remove_dashes-hex g h = keep_self _ g (All-imp _ _ g (λ c e. no_dash c e) h)
  where
    no_dash : (c : ℕ) → is_hex c ≡ true → not (c == dash) ≡ true
    no_dash c e = unfold is_hex in ground arith

pub remove_dashes-uuid : (u : Uuid) → remove_dashes (uuid_text u) ≡ digits u
remove_dashes-uuid u = simp (
  remove_dashes-append,
  remove_dashes-dash,
  remove_dashes-hex u.time_low u.low_IsGroup.1,
  remove_dashes-hex u.time_mid u.mid_IsGroup.1,
  remove_dashes-hex u.time_high u.high_IsGroup.1,
  remove_dashes-hex u.clock u.clock_IsGroup.1,
  remove_dashes-hex u.node u.node_IsGroup.1,
)

pub digits-IsGroup : (u : Uuid) → IsGroup 32 (digits u)
digits-IsGroup u = (
  omega (
    arith,
    length-append u.time_low (u.time_mid ++ (u.time_high ++ (u.clock ++ u.node))),
    length-append u.time_mid (u.time_high ++ (u.clock ++ u.node)),
    length-append u.time_high (u.clock ++ u.node),
    length-append u.clock u.node,
    u.low_IsGroup.0,
    u.mid_IsGroup.0,
    u.high_IsGroup.0,
    u.clock_IsGroup.0,
    u.node_IsGroup.0,
  ),
  All-append Hex u.time_low _ u.low_IsGroup.1 (
      All-append Hex u.time_mid _ u.mid_IsGroup.1 (
        All-append Hex u.time_high _ u.high_IsGroup.1
          (All-append Hex u.clock u.node u.clock_IsGroup.1 u.node_IsGroup.1))),
)
  where
    Hex : ℕ → Type 0
    Hex c = is_hex c ≡ true

take-append : (n : ℕ) (s t : Text) → length s ≡ n → take n (s ++ t) ≡ s
take-append zero [] t e = refl
take-append zero (c ∷ s) t e = absurd (omega arith)
take-append (suc n) [] t e = absurd (omega arith)
take-append (suc n) (c ∷ s) t e = ap (◌∷◌ c) (take-append n s t (omega arith))

take-all : (n : ℕ) (s : Text) → length s ≡ n → take n s ≡ s
take-all zero [] e = refl
take-all zero (c ∷ s) e = absurd (omega arith)
take-all (suc n) [] e = absurd (omega arith)
take-all (suc n) (c ∷ s) e = ap (◌∷◌ c) (take-all n s (omega arith))

drop-append : (n : ℕ) (s t : Text) (k : ℕ) → n ≡ length s + k → drop n (s ++ t) ≡ drop k t
drop-append n [] t k e = let same : n ≡ k = omega arith in ap (λ m. drop m t) same
drop-append zero (c ∷ s) t k e = absurd (omega arith)
drop-append (suc n) (c ∷ s) t k e = drop-append n s t k (omega arith)

abbrev from_clock : Uuid → Text
from_clock u = u.clock ++ u.node

abbrev from_high : Uuid → Text
from_high u = u.time_high ++ from_clock u

abbrev from_mid : Uuid → Text
from_mid u = u.time_mid ++ from_high u

pub reinject_dash-digits : (u : Uuid) → reinject_dash (digits u) ≡ uuid_text u
unfolding reinject_dash
reinject_dash-digits u = rw (
  at_8,
  at_12,
  at_16,
  at_20,
  take-append 8 u.time_low (from_mid u) u.low_IsGroup.0,
  take-append 4 u.time_mid (from_high u) u.mid_IsGroup.0,
  take-append 4 u.time_high (from_clock u) u.high_IsGroup.0,
  take-append 4 u.clock u.node u.clock_IsGroup.0,
  take-all 12 u.node u.node_IsGroup.0,
)
  where
    at_8 : drop 8 (digits u) ≡ from_mid u
    at_8 = drop-append 8 u.time_low (from_mid u) 0 (omega (arith, u.low_IsGroup.0))

    at_12 : drop 12 (digits u) ≡ from_high u
    at_12 =
        drop-append 12 u.time_low (from_mid u) 4 (omega (arith, u.low_IsGroup.0))
        ∙ drop-append 4 u.time_mid (from_high u) 0 (omega (arith, u.mid_IsGroup.0))

    at_16 : drop 16 (digits u) ≡ from_clock u
    at_16 =
        drop-append 16 u.time_low (from_mid u) 8 (omega (arith, u.low_IsGroup.0))
        ∙ drop-append 8 u.time_mid (from_high u) 4 (omega (arith, u.mid_IsGroup.0))
        ∙ drop-append 4 u.time_high (from_clock u) 0 (omega (arith, u.high_IsGroup.0))

    at_20 : drop 20 (digits u) ≡ u.node
    at_20 =
        drop-append 20 u.time_low (from_mid u) 12 (omega (arith, u.low_IsGroup.0))
        ∙ drop-append 12 u.time_mid (from_high u) 8 (omega (arith, u.mid_IsGroup.0))
        ∙ drop-append 8 u.time_high (from_clock u) 4 (omega (arith, u.high_IsGroup.0))
        ∙ drop-append 4 u.clock u.node 0 (omega (arith, u.clock_IsGroup.0))
