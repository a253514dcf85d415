-- ===== src/Payments.antt =====
-- The payment watcher, api/payment/watcher.py: transfers on the chain become credits of users.
-- Money is exact here: `amount * fmv / 1e9` dollars are counted in units of a rao times the grid of the
-- price, so that a payment of `amount` is worth `amount * fmv` units. A balance is counted from
-- what it was at the start; what usage takes off it is not the watcher's.
pub mod Settled
pub mod Growth
pub mod Again
pub mod Totals
pub mod Watch
pub mod Samples
use chutes_api.Base.{
  ℕ, ◌+◌, ◌*◌, Bool, true, false, ◌&&◌, List, [], ◌∷◌, ◌++◌, Option, none, some, String, Dict, Text,
  codes, lookup, insert, get_or, contains, map, str_eq, ltb, leb, if◌then◌else◌,
}

pub data Purpose : Type 0 where
  credits developer : Purpose

pub record User : Type 0 where
  pub user_id : String
  pub payment_address : String
  pub developer_payment_address : Option String
  pub balance : ℕ
  pub is_developer : Bool

pub record Payment : Type 0 where
  pub payment_id : String
  pub payer : String
  pub source_address : String
  pub block : ℕ
  pub rao_amount : ℕ
  pub usd_amount : ℕ
  pub purpose : Purpose

-- The tables, and the autostaking tasks that were queued.
pub record Ledger : Type 0 where
  pub users : List User
  pub payments : List Payment
  pub wallet_balances : Dict ℕ
  pub stakes : List String

pub record Transfer : Type 0 where
  pub source : String
  pub target : String
  pub amount : ℕ

-- uuid.uuid5 in NAMESPACE_OID, `str` of a number, and settings.developer_deposit in the units of money.
pub record Services : Type 0 where
  pub uuid5 : Text → String
  pub str : ℕ → Text
  pub developer_deposit : ℕ

-- f"{block}:{to_address}:{from_address}:{amount}"
pub payment_id_of : Services → (block : ℕ) → Transfer → String
payment_id_of services block t = services.uuid5 (
    services.str block
    ++ (codes ":"
        ++ (codes t.target
            ++ (codes ":" ++ (codes t.source ++ (codes ":" ++ services.str t.amount))))))

-- The queries for a user by one of the addresses.
pub find_user : (User → Bool) → List User → Option User
find_user test [] = none
find_user test (u ∷ us) = let rest = find_user test us in if test u then some u else rest

abbrev pub has_address : String → User → Bool
has_address address u = str_eq u.payment_address address

abbrev pub is_text : Option String → String → Bool
is_text none s = false
is_text (some r) s = str_eq r s

abbrev pub has_developer_address : String → User → Bool
has_developer_address address u = is_text u.developer_payment_address address

-- The row of the user that a query finds.
pub update_user : (User → Bool) → (User → User) → List User → List User
update_user test change [] = []
update_user test change (u ∷ us) =
    let rest = update_user test change us in if test u then change u ∷ us else u ∷ rest

abbrev pub has_id : List Payment → String → Bool
has_id payments id = contains (map (λ (p : Payment). p.payment_id) payments) id

-- INSERT INTO wallet_balances ... ON CONFLICT DO UPDATE
pub add_wallet : (wallet_id : String) → (amount : ℕ) → Dict ℕ → Dict ℕ
add_wallet wallet_id amount wallets =
    insert wallet_id (get_or (lookup wallet_id wallets) 0 + amount) wallets

abbrev pub dust : ℕ
dust = 7000000

-- The row of a transfer.
abbrev pub payment_row : Services → (fmv block : ℕ) → Transfer → User → Purpose → Payment
payment_row services fmv block t u purpose = record {
  payment_id = payment_id_of services block t;
  payer = u.user_id;
  source_address = t.source;
  block = block;
  rao_amount = t.amount;
  usd_amount = t.amount * fmv;
  purpose = purpose;
}

abbrev pub raise_balance : (delta : ℕ) → User → User
raise_balance delta u = record u { balance = u.balance + delta }

abbrev pub credited : Services → (fmv block : ℕ) → Transfer → User → Ledger → Ledger
credited services fmv block t u l = record {
  users = update_user (has_address t.target) (raise_balance (t.amount * fmv)) l.users;
  payments = payment_row services fmv block t u credits ∷ l.payments;
  wallet_balances = add_wallet u.payment_address t.amount l.wallet_balances;
  stakes = u.user_id ∷ l.stakes;
}

-- Where the key of the new row is taken, the transaction is rolled back.
pub credit : Services → (fmv block : ℕ) → Transfer → User → Ledger → Ledger
credit services fmv block t u l =
    if has_id l.payments (payment_id_of services block t)
    then l
    else credited services fmv block t u l

pub pay : Services → (fmv block : ℕ) → Transfer → Option User → Ledger → Ledger
pay services fmv block t none l = l
pay services fmv block t (some u) l =
    if ltb t.amount dust then l else credit services fmv block t u l

-- _handle_payment
pub handle_payment : Services → (fmv block : ℕ) → Transfer → Ledger → Ledger
handle_payment services fmv block t l =
    pay services fmv block t (find_user (has_address t.target) l.users) l

abbrev pub is_deposit : Purpose → Bool
is_deposit credits = false
is_deposit developer = true

-- The sum of the deposits of a user so far.
pub total_deposits : (user_id : String) → List Payment → ℕ
total_deposits user_id [] = 0
total_deposits user_id (p ∷ ps) =
    let rest = total_deposits user_id ps in
    if str_eq p.payer user_id && is_deposit p.purpose then p.usd_amount + rest else rest

pub enable_developer : Services → (new_total : ℕ) → User → User
enable_developer services new_total u =
    if leb services.developer_deposit new_total then record u { is_developer = true } else u

abbrev pub new_total_of : Services → (fmv : ℕ) → Transfer → User → Ledger → ℕ
new_total_of services fmv t u l = total_deposits u.user_id l.payments + t.amount * fmv

abbrev pub deposited : Services → (fmv block : ℕ) → Transfer → User → Ledger → Ledger
deposited services fmv block t u l = record l {
  users =
      update_user (has_developer_address t.target)
        (enable_developer services (new_total_of services fmv t u l)) l.users;
  payments = payment_row services fmv block t u developer ∷ l.payments;
}

pub deposit : Services → (fmv block : ℕ) → Transfer → Option User → Ledger → Ledger
deposit services fmv block t none l = l
deposit services fmv block t (some u) l =
    if has_id l.payments (payment_id_of services block t)
    then l
    else deposited services fmv block t u l

-- _handle_developer_deposit
pub handle_developer_deposit : Services → (fmv block : ℕ) → Transfer → Ledger → Ledger
handle_developer_deposit services fmv block t l =
    deposit services fmv block t (find_user (has_developer_address t.target) l.users) l

-- The addresses that _refresh_addresses has read.
pub record Known : Type 0 where
  pub payment_addresses : List String
  pub developer_payment_addresses : List String

-- One transfer event of a block: the two tests of its target.
pub to_payments : Services → Known → (fmv block : ℕ) → Transfer → Ledger → Ledger
to_payments services known fmv block t l =
    if contains known.payment_addresses t.target then handle_payment services fmv block t l else l

pub to_deposits : Services → Known → (fmv block : ℕ) → Transfer → Ledger → Ledger
to_deposits services known fmv block t l =
    if contains known.developer_payment_addresses t.target
    then handle_developer_deposit services fmv block t l
    else l

pub process_transfer : Services → Known → (fmv block : ℕ) → Transfer → Ledger → Ledger
process_transfer services known fmv block t l =
    to_deposits services known fmv block t (to_payments services known fmv block t l)

pub process_transfers : Services → Known → (fmv block : ℕ) → List Transfer → Ledger → Ledger
process_transfers services known fmv block [] l = l
process_transfers services known fmv block (t ∷ ts) l =
    process_transfers services known fmv block ts (process_transfer services known fmv block t l)
