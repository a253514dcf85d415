-- ===== src/Base/Rows.antt =====
-- Dictionaries as tables of rows: what removing and changing a row does to all of them.
use Prim.Native.String.{String}
use mathlib.Core.Path.{◌≡◌}
use mathlib.Core.Bool.{Bool, true, not}
use mathlib.Core.List.{[], ◌∷◌}
use mathlib.Core.Option.{Option, none, some}
use native.Mathlib.Omega.{arith}
use text.Mathlib.TextEquality.{eq_iff}
use mathlib.Core.Logic.{◌⊎◌, inl, inr}
use chutes_api.Base.Tests.{str_eq, Bool-cases, if◌then◌else◌}
use chutes_api.Base.Lists.{keep}
use chutes_api.Base.Maps.{Dict, lookup, insert, lookup-insert}

module _ {ℓ} {V : Type ℓ} where
  -- `del d[key]`, where no key is also accepted.
  unfoldable pub remove : String → Dict V → Dict V
  remove key d = keep (λ e. not (str_eq key e.0)) d

  -- The first row, in the order of the dictionary, that passes the test.
  unfoldable pub first_where : (V → Bool) → Dict V → Option V
  first_where test [] = none
  first_where test ((key, held) ∷ rest) =
      let later = first_where test rest in if test held then some held else later

  pub lookup-remove :
      (key other : String) (d : Dict V)
      → lookup other (remove key d) ≡ (if str_eq key other then none else lookup other d)
  unfolding lookup remove keep
  lookup-remove key other [] = ground arith
  lookup-remove key other ((first, held) ∷ rest) =
      ground (
        arith,
        lookup-remove key other rest,
        eq_iff key other,
        eq_iff first key,
        eq_iff first other,
      )

  -- A row of the changed table is the new one, or was there.
  pub lookup-insert_cases :
      (key other : String) (value held : V) (d : Dict V)
      → lookup other (insert key value d) ≡ some held
      → ((key ≡ other) × (value ≡ held)) ⊎ (lookup other d ≡ some held)
  lookup-insert_cases key other value held d e = elim (Bool-cases (str_eq key other)) [
    | inl same ↦ inl ((eq_iff key other).0 same, ground (arith, lookup-insert key other value d))
    | inr differ ↦ inr (ground (arith, lookup-insert key other value d))
  ]

  abbrev pub AllRows {κ} : (V → Type κ) → Dict V → Type κ
  AllRows P [] = Unit
  AllRows P ((key, held) ∷ rest) = P held × AllRows P rest

  pub AllRows-insert {κ} :
      (P : V → Type κ) (key : String) (value : V) (d : Dict V)
      → P value
      → AllRows P d
      → AllRows P (insert key value d)
  unfolding insert
  AllRows-insert P key value [] p h = (p, tt)
  AllRows-insert P key value ((first, held) ∷ rest) p h =
      ground (arith, AllRows-insert P key value rest p h.1)

  pub AllRows-lookup {κ} :
      (P : V → Type κ) (key : String) (v : V) (d : Dict V)
      → AllRows P d
      → lookup key d ≡ some v
      → P v
  unfolding lookup
  AllRows-lookup P key v [] h e = absurd cc
  AllRows-lookup P key v ((first, held) ∷ rest) h e =
      ground (arith, AllRows-lookup P key v rest h.1)

  pub AllRows-remove {κ} :
      (P : V → Type κ) (key : String) (d : Dict V) → AllRows P d → AllRows P (remove key d)
  unfolding remove keep
  AllRows-remove P key [] h = tt
  AllRows-remove P key ((first, held) ∷ rest) h = ground (arith, AllRows-remove P key rest h.1)

  pub AllRows-imp {κ μ} :
      (P : V → Type κ) (Q : V → Type μ) (d : Dict V)
      → ((v : V) → P v → Q v)
      → AllRows P d
      → AllRows Q d
  AllRows-imp P Q [] f h = tt
  AllRows-imp P Q ((key, held) ∷ rest) f h = (f held h.0, AllRows-imp P Q rest f h.1)

  -- What is found passes the test and has what all rows have.
  pub first_where-found {κ} :
      (P : V → Type κ) (test : V → Bool) (d : Dict V) (v : V)
      → AllRows P d
      → first_where test d ≡ some v
      → (test v ≡ true) × P v
  unfolding first_where
  first_where-found P test [] v h e = absurd cc
  first_where-found P test ((key, held) ∷ rest) v h e =
      ground (arith, first_where-found P test rest v h.1)
