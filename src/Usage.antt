-- ===== src/Usage.antt =====
-- What the users are charged for, api/payment/usage_tracker.py: the small amounts that the API leaves in
-- redis under `balance:{user_id}:{chute_id}` become rows of usage_data and deductions from balances.
-- Amounts are exact numbers of the smallest unit. They may be negative: the owner of a chute is credited
-- with what the others pay for it.
pub mod Totals
pub mod Cleared
pub mod Samples
use chutes_api.Base.{
  ℕ, ◌+◌, ◌*◌, ◌/◌, Bool, true, false, not, ◌&&◌, List, [], ◌∷◌, Option, none, some, String, Dict,
  lookup, insert, remove, get_or, is_none, str_eq, ◌==◌, if◌then◌else◌,
}
use chutes_api.Base.Int.{ℤ, pos, ◌+ℤ◌, ◌-ℤ◌}

-- The redis key, split at its colons.
pub record BalanceKey : Type 0 where
  pub user_id : String
  pub chute_id : String

-- The hash under a key; a field that is missing counts as 0.
pub record Pending : Type 0 where
  pub amount : ℤ
  pub count : ℕ
  pub timestamp : ℕ
  pub input_tokens : ℕ
  pub output_tokens : ℕ

abbrev pub no_values : Pending
no_values = record { amount = pos 0; count = 0; timestamp = 0; input_tokens = 0; output_tokens = 0 }

pub record User : Type 0 where
  pub free_account : Bool
  pub invoice_billing : Bool
  pub balance : ℤ

pub record UsageData : Type 0 where
  pub user_id : String
  pub chute_id : String
  pub bucket : ℕ
  pub amount : ℤ
  pub count : ℕ
  pub input_tokens : ℕ
  pub output_tokens : ℕ

unfoldable pub same_key : BalanceKey → BalanceKey → Bool
same_key k l = str_eq k.user_id l.user_id && str_eq k.chute_id l.chute_id

-- HGETALL, with the defaults of `values.get`.
pub hgetall : BalanceKey → List (BalanceKey × Pending) → Pending
hgetall key [] = no_values
hgetall key ((other, values) ∷ rest) =
    let later = hgetall key rest in if same_key other key then values else later

-- "The usage data is tracked at hour granularity."
hour_bucket : ℕ → ℕ
hour_bucket timestamp = timestamp / 3600 * 3600

abbrev same_row : UsageData → (user_id chute_id : String) (bucket : ℕ) → Bool
same_row row user_id chute_id bucket =
    str_eq row.user_id user_id && (str_eq row.chute_id chute_id && row.bucket == bucket)

abbrev new_row : BalanceKey → Pending → UsageData
new_row key values = record {
  user_id = key.user_id;
  chute_id = key.chute_id;
  bucket = hour_bucket values.timestamp;
  amount = values.amount;
  count = values.count;
  input_tokens = values.input_tokens;
  output_tokens = values.output_tokens;
}

abbrev grow_row : Pending → UsageData → UsageData
grow_row values row = record row {
  amount = row.amount +ℤ values.amount;
  count = row.count + values.count;
  input_tokens = row.input_tokens + values.input_tokens;
  output_tokens = row.output_tokens + values.output_tokens;
}

-- INSERT ... ON CONFLICT (user_id, chute_id, bucket) DO UPDATE
pub upsert : BalanceKey → Pending → List UsageData → List UsageData
upsert key values [] = new_row key values ∷ []
upsert key values (row ∷ rows) =
    let later = upsert key values rows in
    if same_row row key.user_id key.chute_id (hour_bucket values.timestamp)
    then grow_row values row ∷ rows
    else row ∷ later

-- The upsert's `WHERE EXISTS (SELECT 1 FROM users ...)`.
pub track : Dict User → BalanceKey → Pending → List UsageData → List UsageData
track users key values usage =
    if is_none (lookup key.user_id users) then usage else upsert key values usage

-- `user_totals[user_id] += amount`
pub add_total : BalanceKey → Pending → Dict ℤ → Dict ℤ
add_total key values totals =
    insert key.user_id (get_or (lookup key.user_id totals) (pos 0) +ℤ values.amount) totals

-- The loop over the keys.
pub track_all :
    Dict User
    → List (BalanceKey × Pending)
    → List BalanceKey
    → List UsageData
    → Dict ℤ
    → List UsageData × Dict ℤ
track_all users redis [] usage totals = (usage, totals)
track_all users redis (key ∷ keys) usage totals =
    track_all users redis keys (track users key (hgetall key redis) usage)
      (add_total key (hgetall key redis) totals)

-- `user.balance -= amount`: not of free accounts, unless they are billed by invoice.
pub is_charged : User → Bool
is_charged user = not (user.free_account && not user.invoice_billing)

pub charge : (amount : ℤ) → User → User
charge amount user =
    if is_charged user then record user { balance = user.balance -ℤ amount } else user

pub deduct : (user_id : String) (amount : ℤ) → Option User → Dict User → Dict User
deduct user_id amount none users = users
deduct user_id amount (some user) users = insert user_id (charge amount user) users

-- "Update user balances"
pub deduct_all : Dict ℤ → Dict User → Dict User
deduct_all [] users = users
deduct_all ((user_id, amount) ∷ rest) users =
    deduct_all rest (deduct user_id amount (lookup user_id users) users)

-- "Delete processed keys from Redis"
pub delete_key : BalanceKey → List (BalanceKey × Pending) → List (BalanceKey × Pending)
delete_key key [] = []
delete_key key ((other, values) ∷ rest) =
    let later = delete_key key rest in if same_key other key then later else (other, values) ∷ later

pub delete_keys : List BalanceKey → List (BalanceKey × Pending) → List (BalanceKey × Pending)
delete_keys [] redis = redis
delete_keys (key ∷ keys) redis = delete_keys keys (delete_key key redis)

pub record Ledger : Type 0 where
  pub users : Dict User
  pub usage : List UsageData
  pub redis : List (BalanceKey × Pending)

-- One pass: `keys` are those that the scan returned, `l.redis` has the values that the pass reads, and
-- `later` is redis when the pass deletes the keys.
pub process_balance_changes :
    (keys : List BalanceKey) (later : List (BalanceKey × Pending)) → Ledger → Ledger
process_balance_changes keys later l =
    let (usage, totals) = track_all l.users l.redis keys l.usage [] in
    record { users = deduct_all totals l.users; usage = usage; redis = delete_keys keys later }
