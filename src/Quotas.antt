-- ===== src/Quotas.antt =====
-- The quotas of api/user/schemas.py: how many requests and jobs a user has for a chute, and under which
-- redis key the requests are counted. The database's rows of a user are given by their chute, and
-- memcache by the value that it returns, if it has one.
pub mod Shared
pub mod Discounts
pub mod Changes
pub mod Samples
use chutes_api.Base.{
  ℕ, Bool, true, false, ◌||◌, Option, none, some, String, Dict, lookup, get_or, is_none, not,
  str_eq, if◌then◌else◌,
}

-- The chute of the row that the query selects: the chute's own row before the row "*".
unfoldable pub db_chute_id : (rows : String → Option ℕ) (chute_id : String) → Option String
db_chute_id rows chute_id =
    if not (is_none (rows chute_id))
    then some chute_id
    else if not (is_none (rows "*"))
    then some "*"
    else none

abbrev pub row_of : (rows : String → Option ℕ) → Option String → Option ℕ
row_of rows none = none
row_of rows (some chute_id) = rows chute_id

-- `defaults.get(chute_id, defaults.get("*", fallback))`
unfoldable pub default_for : (defaults : Dict ℕ) (fallback : ℕ) (chute_id : String) → ℕ
default_for defaults fallback chute_id =
    get_or (lookup chute_id defaults) (get_or (lookup "*" defaults) fallback)

-- JobQuota.get
unfoldable pub job_quota : (rows : String → Option ℕ) (defaults : Dict ℕ) (chute_id : String) → ℕ
job_quota rows defaults chute_id =
    get_or (row_of rows (db_chute_id rows chute_id)) (default_for defaults 0 chute_id)

abbrev pub stored_quota : (rows : String → Option ℕ) (defaults : Dict ℕ) (chute_id : String) → ℕ
stored_quota rows defaults chute_id =
    get_or (row_of rows (db_chute_id rows chute_id)) (default_for defaults 200 chute_id)

-- InvocationQuota.get: the quota, and what memcache has afterwards.
pub invocation_quota :
    (cached : Option ℕ) (rows : String → Option ℕ) (defaults : Dict ℕ) (chute_id : String)
    → ℕ × Option ℕ
invocation_quota (some quota) rows defaults chute_id = (quota, some quota)
invocation_quota none rows defaults chute_id =
    let quota = stored_quota rows defaults chute_id in (quota, some quota)

pub data QuotaType : Type 0 where
  specific wildcard default_specific default_wildcard no_type : QuotaType

abbrev is_id : Option String → String → Bool
is_id none s = false
is_id (some t) s = str_eq t s

pub quota_type : (rows : String → Option ℕ) (defaults : Dict ℕ) (chute_id : String) → QuotaType
quota_type rows defaults chute_id =
    let found = db_chute_id rows chute_id in
    if is_id found chute_id
    then specific
    else if is_id found "*"
    then wildcard
    else if not (is_none (lookup chute_id defaults))
    then default_specific
    else if not (is_none (lookup "*" defaults))
    then default_wildcard
    else no_type

-- The last part of the key `q:{date}:{user_id}:...`.
abbrev pub counter_of : QuotaType → (chute_id : String) → String
counter_of specific chute_id = chute_id
counter_of default_specific chute_id = chute_id
counter_of wildcard chute_id = "__default__"
counter_of default_wildcard chute_id = "__default__"
counter_of no_type chute_id = "__default__"

pub record QuotaKey : Type 0 where
  pub date : String
  pub user_id : String
  pub counter : String

-- InvocationQuota.quota_key, and the type that memcache has afterwards.
pub quota_key :
    (cached : Option QuotaType) (rows : String → Option ℕ) (defaults : Dict ℕ)
    → (date user_id chute_id : String) → QuotaKey × QuotaType
quota_key cached rows defaults date user_id chute_id =
    let found = get_or cached (quota_type rows defaults chute_id) in
    (record { date = date; user_id = user_id; counter = counter_of found chute_id }, found)
