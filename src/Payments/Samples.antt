-- ===== src/Payments/Samples.antt =====
-- A user, two transfers to her, and a watcher.
use chutes_api.Base.{is_prefix, if◌then◌else◌, ℕ, true, false, [], ◌∷◌, some, codes}
use chutes_api.Payments.{User, Ledger, Transfer, Services, Known}
use chutes_api.Payments.Watch.{State, Chain}

services : Services
services = record {
  uuid5 = λ text. if is_prefix (codes "7:5Ada") text then "p1" else "p2";
  str = λ n. codes "7";
  developer_deposit = 1000;
}

abbrev ada : User
ada = record {
  user_id = "u1";
  payment_address = "5Ada";
  developer_payment_address = some "5Dev";
  balance = 0;
  is_developer = false;
}

abbrev ledger : Ledger
ledger = record { users = ada ∷ []; payments = []; wallet_balances = []; stakes = [] }

abbrev known : Known
known = record { payment_addresses = "5Ada" ∷ []; developer_payment_addresses = "5Dev" ∷ [] }

abbrev paid : Transfer
paid = record { source = "5Bob"; target = "5Ada"; amount = 8000000 }

abbrev deposited : Transfer
deposited = record { source = "5Bob"; target = "5Dev"; amount = 9000000 }

abbrev chain : Chain
chain block = paid ∷ deposited ∷ []

abbrev state : State
state = record {
  block_number = 6;
  is_locked = true;
  lock_holder = some "w1";
  last_updated_at = 1000;
}

abbrev steady : ℕ → ℕ
steady block = 300

abbrev dearer : ℕ → ℕ
dearer block = 350
