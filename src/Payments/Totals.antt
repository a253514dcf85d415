-- ===== src/Payments/Totals.antt =====
-- No money comes from nowhere.
use chutes_api.Base.{ℕ, ◌+◌, ◌≡◌, List, [], ◌∷◌, Dict, if◌then◌else◌}
use chutes_api.Payments.{
  User, Payment, Ledger, Transfer, Services, is_deposit, Known, process_transfers,
}
use chutes_api.Payments.Again.{process_transfers-again}

abbrev total_balance : List User → ℕ
total_balance [] = 0
total_balance (u ∷ us) = u.balance + total_balance us

-- The dollars and the rao of the payments, deposits left out.
abbrev total_credits : List Payment → ℕ
total_credits [] = 0
total_credits (p ∷ ps) =
    let rest = total_credits ps in if is_deposit p.purpose then rest else p.usd_amount + rest

abbrev total_rao : List Payment → ℕ
total_rao [] = 0
total_rao (p ∷ ps) =
    let rest = total_rao ps in if is_deposit p.purpose then rest else p.rao_amount + rest

abbrev total_wallets : Dict ℕ → ℕ
total_wallets [] = 0
total_wallets ((wallet_id, n) ∷ rest) = n + total_wallets rest

-- Users gained what payments were recorded for, and so did the wallets.
abbrev pub Balanced : Ledger → Ledger → Type 0
Balanced l m =
    (total_balance m.users + total_credits l.payments
      ≡ total_balance l.users + total_credits m.payments)
    × (total_wallets m.wallet_balances + total_rao l.payments
        ≡ total_wallets l.wallet_balances + total_rao m.payments)

-- Two transfers of the same amount between the same addresses in one block count as one: their rows
-- have the same key.
process_transfers-twins :
    (services : Services) (known : Known) (fmv block : ℕ) (t : Transfer) (rest : List Transfer)
    (l : Ledger)
    → process_transfers services known fmv block (t ∷ t ∷ rest) l
      ≡ process_transfers services known fmv block (t ∷ rest) l
unfolding process_transfers
process_transfers-twins services known fmv block t rest l =
    process_transfers-again services known fmv fmv block (t ∷ []) rest l
