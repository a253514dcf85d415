-- ===== src/Base/Keyed.antt =====
-- Lists of items that carry a text identifier, no two the same.
use Prim.Native.Nat.{ℕ, zero, suc, ◌%◌}
use Prim.Native.String.{String}
use mathlib.Core.Path.{◌≡◌, refl}
use mathlib.Core.Bool.{Bool, true, false, not}
use mathlib.Core.List.{List, [], ◌∷◌, map}
use native.Mathlib.Omega.{arith}
use text.Mathlib.TextEquality.{eq_iff}
use chutes_api.Base.Tests.{str_eq, str_eq_self}
use chutes_api.Base.Lists.{length, keep, All}
use chutes_api.Base.Maps.{contains}

-- The item at a position counted round the list `x ∷ xs`: what a random choice may return.
module _ {ℓ} {A : Type ℓ} where
  unfoldable pub nth_or : A → List A → ℕ → A
  nth_or d [] n = d
  nth_or d (x ∷ xs) zero = x
  nth_or d (x ∷ xs) (suc n) = nth_or d xs n

  unfoldable pub choose : A → List A → ℕ → A
  unfolding nth_or
  choose x xs n = nth_or x (x ∷ xs) (n % suc (length xs))

  nth_or-All {κ} :
      (P : A → Type κ) (d : A) (xs : List A) (n : ℕ) → P d → All P xs → P (nth_or d xs n)
  unfolding nth_or
  nth_or-All P d [] n p h = p
  nth_or-All P d (x ∷ xs) zero p h = h.0
  nth_or-All P d (x ∷ xs) (suc n) p h = nth_or-All P d xs n p h.1

  -- A choice has what all the items have.
  pub choose-All {κ} :
      (P : A → Type κ) (x : A) (xs : List A) (n : ℕ) → All P (x ∷ xs) → P (choose x xs n)
  unfolding choose
  choose-All P x xs n h = nth_or-All P x (x ∷ xs) (n % suc (length xs)) h.0 h

module _ {ℓ} {A : Type ℓ} (key : A → String) where
  abbrev pub keys : List A → List String
  keys xs = map key xs

  abbrev pub IsDistinct : List A → Type 0
  IsDistinct [] = Unit
  IsDistinct (x ∷ xs) = (contains (keys xs) (key x) ≡ false) × IsDistinct xs

  pub keep-absent :
      (test : A → Bool) (k : String) (xs : List A)
      → contains (keys xs) k ≡ false
      → contains (keys (keep test xs)) k ≡ false
  unfolding keep contains
  keep-absent test k [] h = refl
  keep-absent test k (x ∷ xs) h = ground (arith, keep-absent test k xs)

  pub keep-IsDistinct : (test : A → Bool) (xs : List A) → IsDistinct xs → IsDistinct (keep test xs)
  unfolding keep
  keep-IsDistinct test [] h = tt
  keep-IsDistinct test (x ∷ xs) h =
      ground (arith, keep-IsDistinct test xs h.1, keep-absent test (key x) xs h.0)

  keep-without :
      (k : String) (xs : List A)
      → contains (keys xs) k ≡ false
      → keep (λ x. not (str_eq k (key x))) xs ≡ xs
  unfolding keep contains
  keep-without k [] h = refl
  keep-without k (x ∷ xs) h = ground (arith, keep-without k xs, eq_iff k (key x), eq_iff (key x) k)

  -- Taking out one identifier that is there makes the list shorter by one.
  pub length-keep-without :
      (k : String) (xs : List A)
      → IsDistinct xs
      → contains (keys xs) k ≡ true
      → suc (length (keep (λ x. not (str_eq k (key x))) xs)) ≡ length xs
  unfolding keep contains
  length-keep-without k [] h m = ground arith
  length-keep-without k (x ∷ xs) h m =
      ground
        (arith, length-keep-without k xs h.1, keep-without k xs, eq_iff k (key x), eq_iff (key x) k)

  weaken :
      (j : String) (js : List String) (xs : List A)
      → All (λ x. contains js (key x) ≡ true) xs
      → All (λ x. contains (j ∷ js) (key x) ≡ true) xs
  unfolding contains
  weaken j js [] h = tt
  weaken j js (x ∷ xs) h = (ground arith, weaken j js xs h.1)

  pub All-present : (xs : List A) → All (λ x. contains (keys xs) (key x) ≡ true) xs
  unfolding contains
  All-present [] = tt
  All-present (x ∷ xs) =
      (ground (arith, str_eq_self (key x)), weaken (key x) (keys xs) xs (All-present xs))
