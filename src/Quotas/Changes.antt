-- ===== src/Quotas/Changes.antt =====
-- `admin_quotas_change` of api/user/router.py: an administrator replaces the quotas of a user.
pub mod Samples
use chutes_api.Base.{
  ℕ, All, ◌⊎◌, inl, inr, ◌≡◌, refl, ap, ◌∙◌, sym, Bool, true, false, not, ◌&&◌, ◌||◌, List, [], ◌∷◌,
  Option, none, some, String, Dict, lookup, remove, map, subst, get_or, arith, eq_iff, str_eq,
  Bool-cases, if◌then◌else◌,
}
use chutes_api.Base.Int.{ℤ, pos, negsuc}
use chutes_api.Quotas.{QuotaType, quota_type, quota_key, stored_quota, invocation_quota}

-- A value of the JSON object that is posted. (Python's `isinstance` takes a Boolean for an int, too.)
pub data Value : Type 0 where
  number : ℤ → Value
  other : Value

-- The rows of the user, and the entries of memcache under `qta:{user_id}:`, `quota_type:{user_id}:` and
-- `quota:{user_id}:`, by the chute.
pub record Account : Type 0 where
  pub rows : Dict ℕ
  pub qta : Dict ℕ
  pub quota_type : Dict QuotaType
  pub quota : Dict ℕ

pub data Change (A : Type 0) : Type 0 where
  forbidden bad_request not_found : Change A
  changed : A → Change A

-- The checks of the caller, the payload and the user, and what is left by a change that passes them.
pub guarded : {A : Type 0} → (is_billing_admin valid user_exists : Bool) → A → Change A
guarded is_billing_admin valid user_exists s =
    if not is_billing_admin
    then forbidden
    else if not valid
    then bad_request
    else if not user_exists
    then not_found
    else changed s

-- `isinstance(value, int) and not value < 0`
abbrev is_quota : Value → Bool
is_quota (number (pos n)) = true
is_quota (number (negsuc n)) = false
is_quota other = false

-- "Validate payload."
pub is_valid : (is_uuid : String → Bool) → Dict Value → Bool
is_valid is_uuid [] = true
is_valid is_uuid ((key, value) ∷ rest) =
    is_quota value && ((str_eq key "*" || is_uuid key) && is_valid is_uuid rest)

-- "Add the new values."
pub new_rows : Dict Value → Dict ℕ
new_rows [] = []
new_rows ((key, number (pos n)) ∷ rest) = (key, n) ∷ new_rows rest
new_rows ((key, number (negsuc n)) ∷ rest) = new_rows rest
new_rows ((key, other) ∷ rest) = new_rows rest

-- "Purge the cache."
unfoldable pub purge_cache {ℓ} : {V : Type ℓ} → (deleted_chute_ids : List String) → Dict V → Dict V
purge_cache [] cache = cache
purge_cache (chute_id ∷ rest) cache = purge_cache rest (remove chute_id cache)

pub admin_quotas_change :
    (is_billing_admin : Bool) (is_uuid : String → Bool) (user_exists : Bool) (quotas : Dict Value)
    → Account
    → Change Account
unfolding guarded is_valid new_rows purge_cache
admin_quotas_change is_billing_admin is_uuid user_exists quotas s =
    guarded is_billing_admin (is_valid is_uuid quotas) user_exists (record s {
      rows = new_rows quotas;
      -- The key is `quota:{user_id}:{chute_id}`.
      quota = purge_cache (map (λ row. row.0) s.rows) s.quota;
    })

-- The quota that the object has for a chute.
abbrev posted : Option Value → Option ℕ
posted (some (number (pos n))) = some n
posted (some (number (negsuc n))) = none
posted (some other) = none
posted none = none

-- A quota of zero or more, for "*" or for a chute that is named by a UUID.
abbrev pub IsPostable : (is_uuid : String → Bool) → String × Value → Type 0
IsPostable is_uuid (key, value) =
    ((n : ℕ) × (value ≡ number (pos n))) × ((key ≡ "*") ⊎ (is_uuid key ≡ true))

is_valid-All :
    (is_uuid : String → Bool) (quotas : Dict Value)
    → is_valid is_uuid quotas ≡ true
    → All (IsPostable is_uuid) quotas
unfolding is_valid
is_valid-All is_uuid [] h = tt
is_valid-All is_uuid ((key, number (pos n)) ∷ rest) h = (
  (
    (n, refl),
    elim (Bool-cases (str_eq key "*")) [
      | inl e ↦ inl (ground (arith, eq_iff key "*"))
      | inr e ↦ inr (ground arith)
    ],
  ),
  is_valid-All is_uuid rest (ground arith),
)
is_valid-All is_uuid ((key, number (negsuc n)) ∷ rest) h = absurd (ground arith)
is_valid-All is_uuid ((key, other) ∷ rest) h = absurd (ground arith)

lookup-new_rows :
    (is_uuid : String → Bool) (quotas : Dict Value) (chute_id : String)
    → is_valid is_uuid quotas ≡ true
    → lookup chute_id (new_rows quotas) ≡ posted (lookup chute_id quotas)
unfolding is_valid new_rows lookup
lookup-new_rows is_uuid [] c h = refl
lookup-new_rows is_uuid ((key, number (pos n)) ∷ rest) c h =
    ground (arith, lookup-new_rows is_uuid rest c)
lookup-new_rows is_uuid ((key, number (negsuc n)) ∷ rest) c h = absurd (ground arith)
lookup-new_rows is_uuid ((key, other) ∷ rest) c h = absurd (ground arith)

-- A change is made where none of the three guards refuses it.
module _ {A : Type 0} where
  abbrev left_by : Change A → A → A
  left_by (changed s) otherwise = s
  left_by forbidden otherwise = otherwise
  left_by bad_request otherwise = otherwise
  left_by not_found otherwise = otherwise

  pub guarded-changed :
      (admin valid exists : Bool) (s s' : A)
      → guarded admin valid exists s ≡ changed s'
      → (admin ≡ true) × (exists ≡ true) × (valid ≡ true) × (s ≡ s')
  unfolding guarded
  guarded-changed true true true s s' h = (refl, refl, refl, ap (λ (c : Change A). left_by c s) h)
  guarded-changed true true false s s' h = absurd (ground arith)
  guarded-changed true false exists s s' h = absurd (ground arith)
  guarded-changed false valid exists s s' h = absurd (ground arith)

cached-invocation_quota :
    (cached : Option ℕ) (rows : String → Option ℕ) (defaults : Dict ℕ) (chute_id : String)
    → (invocation_quota cached rows defaults chute_id).0
      ≡ get_or cached (stored_quota rows defaults chute_id)
unfolding invocation_quota
cached-invocation_quota none rows defaults chute_id = refl
cached-invocation_quota (some quota) rows defaults chute_id = refl

module _ (is_uuid : String → Bool) (quotas : Dict Value) (defaults : Dict ℕ) where
  abbrev rows_of : Account → String → Option ℕ
  rows_of s chute_id = lookup chute_id s.rows

  -- What the account answers for a chute after the change: memcache before the new rows.
  abbrev pub AnswersFrom : (before after : Account) (date user_id chute_id : String) → Type 0
  AnswersFrom before after date user_id c =
      ((invocation_quota (lookup c after.qta) (rows_of after) defaults c).0
        ≡ get_or (lookup c before.qta) (stored_quota (rows_of after) defaults c))
      × ((quota_key (lookup c after.quota_type) (rows_of after) defaults date user_id c).1
          ≡ get_or (lookup c before.quota_type) (quota_type (rows_of after) defaults c))

  abbrev pub Has : (after : Account) (chute_id : String) → Type 0
  Has after c = lookup c after.rows ≡ posted (lookup c quotas)

  -- A change that is made was asked for by a billing administrator, for a user that exists, with a quota
  -- of zero or more for "*" or for chutes that are named by a UUID. Afterwards the user has for each chute
  -- the row that was posted, and none where none was; but as long as memcache has a quota or a type of
  -- quota for the chute, it is answered as before the change, and only then as the new rows say.
  pub admin_quotas_change-Answers :
      (is_billing_admin user_exists : Bool) (before after : Account)
      (date user_id chute_id : String)
      → admin_quotas_change is_billing_admin is_uuid user_exists quotas before ≡ changed after
      → (is_billing_admin ≡ true)
        × (user_exists ≡ true)
        × All (IsPostable is_uuid) quotas
        × (Has after chute_id × AnswersFrom before after date user_id chute_id)
  unfolding admin_quotas_change quota_key
  admin_quotas_change-Answers is_billing_admin user_exists before after date user_id c h =
      let (admin, exists, valid, same) =
        guarded-changed is_billing_admin (is_valid is_uuid quotas) user_exists _ after h in
      (
        admin,
        exists,
        is_valid-All is_uuid quotas valid,
        subst (λ (s : Account). Has s c × AnswersFrom before s date user_id c) same
            (
              lookup-new_rows is_uuid quotas c valid,
              (cached-invocation_quota _ _ defaults c, refl),
            ),
      )
