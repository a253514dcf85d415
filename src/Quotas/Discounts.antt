-- ===== src/Quotas/Discounts.antt =====
-- `InvocationDiscount.get` and `PriceOverride.get` of api/user/schemas.py. Both keep their values under
-- one memcache key, and each deletes what it cannot read: the text of a discount is no JSON object, and
-- that of an object no number. Discounts are counted in millionths.
pub mod Cached
pub mod Changes
pub mod Samples
use chutes_api.Base.{ℕ, Option, none, some, String, Dict, get_or}
use chutes_api.Quotas.{db_chute_id, row_of, default_for}

pub record Override : Type 0 where
  pub user_id : String
  pub chute_id : String
  pub per_request : Option ℕ
  pub per_million_in : Option ℕ
  pub per_million_out : Option ℕ
  pub per_step : Option ℕ

-- What memcache has under the key.
pub data Entry : Type 0 where
  discount_text : ℕ → Entry
  override_json : Override → Entry

pub stored_discount : (rows : String → Option ℕ) (defaults : Dict ℕ) (chute_id : String) → ℕ
stored_discount rows defaults chute_id =
    get_or (row_of rows (db_chute_id rows chute_id)) (default_for defaults 200000000 chute_id)

-- The discount, and what memcache has afterwards.
pub discount_of :
    (cached : Option Entry) (rows : String → Option ℕ) (defaults : Dict ℕ) (chute_id : String)
    → ℕ × Option Entry
discount_of (some (discount_text d)) rows defaults chute_id = (d, some (discount_text d))
discount_of (some (override_json o)) rows defaults chute_id =
    let d = stored_discount rows defaults chute_id in (d, some (discount_text d))
discount_of none rows defaults chute_id =
    let d = stored_discount rows defaults chute_id in (d, some (discount_text d))

abbrev first_of : Option Override → Option Override → Option Override
first_of none other = other
first_of (some o) other = some o

-- The user's own row for the chute before the row of the user "*".
pub stored_override : (rows : String → Option Override) (user_id : String) → Option Override
stored_override rows user_id = first_of (rows user_id) (rows "*")

abbrev pub keep_json : Option Override → Option Entry
keep_json none = none
keep_json (some o) = some (override_json o)

-- The override, and what memcache has afterwards.
pub override_of :
    (cached : Option Entry) (rows : String → Option Override) (user_id : String)
    → Option Override × Option Entry
override_of (some (override_json o)) rows user_id = (some o, some (override_json o))
override_of (some (discount_text d)) rows user_id =
    let o = stored_override rows user_id in (o, keep_json o)
override_of none rows user_id = let o = stored_override rows user_id in (o, keep_json o)
