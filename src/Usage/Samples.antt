-- ===== src/Usage/Samples.antt =====
-- Two users, one of them with a free account, and three keys; the second is a credit of 7.
use chutes_api.Base.{◌≡◌, refl, true, false, [], ◌∷◌, some, List, if◌then◌else◌, lookup, inl}
use chutes_api.Base.Int.{pos, negsuc, ◌+ℤ◌}
use chutes_api.Usage.Cleared.{has_key, process_balance_changes-clears}
use chutes_api.Usage.{no_values, hgetall, BalanceKey, User, Ledger, process_balance_changes}
use chutes_api.Usage.Totals.{
  amount_read, charged_by, usage_of, process_balance_changes-charges,
  process_balance_changes-agrees,
}

abbrev key_1 : BalanceKey
key_1 = record { user_id = "u1"; chute_id = "c1" }

abbrev key_2 : BalanceKey
key_2 = record { user_id = "u1"; chute_id = "c2" }

abbrev key_3 : BalanceKey
key_3 = record { user_id = "u2"; chute_id = "c1" }

abbrev user_1 : User
user_1 = record { free_account = false; invoice_billing = false; balance = pos 10 }

abbrev scanned : List BalanceKey
scanned = key_1 ∷ key_3 ∷ key_2 ∷ []

abbrev ledger : Ledger
ledger = record {
  users =
      ("u1", user_1)
      ∷ ("u2", record { free_account = true; invoice_billing = false; balance = pos 0 })
      ∷ [];
  usage = [];
  redis =
      (
        key_1,
        record { amount = pos 5; count = 1; timestamp = 7205; input_tokens = 3; output_tokens = 4 },
      )
      ∷ (
        key_2,
        record {
          amount = negsuc 6;
          count = 2;
          timestamp = 7300;
          input_tokens = 1;
          output_tokens = 0;
        },
      )
      ∷ (
        key_3,
        record { amount = pos 9; count = 1; timestamp = 100; input_tokens = 0; output_tokens = 0 },
      )
      ∷ [];
}

process_balance_changes-charges_example :
    lookup "u1" (process_balance_changes scanned ledger.redis ledger).users
    ≡ charged_by (amount_read "u1" ledger.redis scanned) (lookup "u1" ledger.users)
process_balance_changes-charges_example =
    process_balance_changes-charges scanned ledger.redis ledger "u1"

process_balance_changes-agrees_example :
    let next = process_balance_changes scanned ledger.redis ledger in
    (after : User) × (lookup "u1" next.users ≡ some after)
    × (after.balance +ℤ usage_of "u1" next.usage ≡ user_1.balance +ℤ usage_of "u1" ledger.usage)
unfolding lookup
process_balance_changes-agrees_example =
    process_balance_changes-agrees scanned ledger.redis ledger "u1" user_1 refl (inl refl)

process_balance_changes-clears_example :
    hgetall key_2 (process_balance_changes scanned ledger.redis ledger).redis
    ≡ (if has_key key_2 scanned then no_values else hgetall key_2 ledger.redis)
process_balance_changes-clears_example =
    process_balance_changes-clears scanned ledger.redis ledger key_2
