-- ===== src/Quotas/Discounts/Changes.antt =====
-- `admin_discounts_change` of api/user/router.py: an administrator replaces the discounts of a user.
use chutes_api.Base.{
  ℕ, ◌≡◌, refl, Bool, true, false, ◌&&◌, ◌||◌, List, [], ◌∷◌, none, String, Dict, lookup,
  lookup-remove, remove, contains, map, subst, arith, eq_iff, str_eq, ltb, Bool-cases, inl, inr,
  if◌then◌else◌,
}
use chutes_api.Quotas.Changes.{Change, changed, guarded, guarded-changed, purge_cache}
use chutes_api.Quotas.Discounts.{Entry, discount_of}

-- A value of the JSON object that is posted: a float that is not negative, in millionths, or another.
pub data Value : Type 0 where
  float : ℕ → Value
  other : Value

-- The rows of the user, and the entries of memcache under `idiscount:{user_id}:`, by the chute.
pub record Account : Type 0 where
  pub rows : Dict ℕ
  pub cache : Dict Entry

-- `isinstance(value, float) and 0.0 < value < 1.0`
abbrev is_discount : Value → Bool
is_discount (float d) = ltb 0 d && ltb d 1000000
is_discount other = false

-- "Validate payload."
is_valid : (is_uuid : String → Bool) → Dict Value → Bool
is_valid is_uuid [] = true
is_valid is_uuid ((key, value) ∷ rest) =
    is_discount value && ((str_eq key "*" || is_uuid key) && is_valid is_uuid rest)

-- "Add the new values."
new_rows : Dict Value → Dict ℕ
new_rows [] = []
new_rows ((key, float d) ∷ rest) = (key, d) ∷ new_rows rest
new_rows ((key, other) ∷ rest) = new_rows rest

admin_discounts_change :
    (is_billing_admin : Bool) (is_uuid : String → Bool) (user_exists : Bool)
    (discounts : Dict Value)
    → Account
    → Change Account
unfolding is_valid new_rows
admin_discounts_change is_billing_admin is_uuid user_exists discounts s =
    guarded is_billing_admin (is_valid is_uuid discounts) user_exists (record {
      rows = new_rows discounts;
      cache = purge_cache (map (λ row. row.0) s.rows) s.cache;
    })

lookup-purge_cache :
    (ids : List String) (chute_id : String) (cache : Dict Entry)
    → lookup chute_id (purge_cache ids cache)
      ≡ (if contains ids chute_id then none else lookup chute_id cache)
unfolding purge_cache contains
lookup-purge_cache [] c cache = refl
lookup-purge_cache (i ∷ is) c cache =
    ground (arith, lookup-purge_cache is c (remove i cache), lookup-remove i c cache, eq_iff i c)

abbrev AnswersFrom : (defaults : Dict ℕ) (before after : Account) (chute_id : String) → Type 0
AnswersFrom defaults before after chute_id =
    let rows = (λ (k : String). lookup k after.rows) in
    discount_of (lookup chute_id after.cache) rows defaults chute_id ≡ (
      if contains (map (λ row. row.0) before.rows) chute_id
      then discount_of none rows defaults chute_id
      else discount_of (lookup chute_id before.cache) rows defaults chute_id)

-- A change of the discounts that is made: the chutes that had a row are answered from the new rows at once,
-- the others only when what memcache has for them is gone.
admin_discounts_change-discount_of :
    (is_billing_admin user_exists : Bool) (is_uuid : String → Bool) (discounts : Dict Value)
    (defaults : Dict ℕ) (before after : Account) (chute_id : String)
    → admin_discounts_change is_billing_admin is_uuid user_exists discounts before ≡ changed after
    → AnswersFrom defaults before after chute_id
unfolding admin_discounts_change
admin_discounts_change-discount_of admin exists is_uuid discounts defaults before after c h =
    let ids = map (λ row. row.0) before.rows in
    let (_, _, _, same) = guarded-changed admin (is_valid is_uuid discounts) exists _ after h in
    subst (λ (s : Account). AnswersFrom defaults before s c) same
      (elim (Bool-cases (contains ids c)) [
        | inl held ↦ rw (lookup-purge_cache ids c before.cache, held) refl
        | inr new ↦ rw (lookup-purge_cache ids c before.cache, new) refl
      ])
