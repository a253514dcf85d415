-- ===== src/Payments/Again.antt =====
-- A block that is processed again changes nothing.
use mathlib.Core.List.{append-nil}
use chutes_api.Base.{
  ℕ, ◌≡◌, ◌⊎◌, inl, inr, refl, sym, ap, ◌∙◌, false, List, [], ◌∷◌, ◌++◌, contains, Bool-cases, All,
  All-imp,
}
use chutes_api.Payments.{
  Ledger, Transfer, Services, find_user, has_address, has_developer_address, handle_payment,
  handle_developer_deposit, Known, process_transfer, to_payments, to_deposits, process_transfers,
}
use chutes_api.Payments.Settled.{Done, IsPaid, IsSettled, process_transfer-IsSettled}
use chutes_api.Payments.Growth.{
  Later, Later-refl, Later-trans, pay-Later, deposit-Later, IsPaid-Later, IsSettled-Later,
}

to_payments-Later :
    (services : Services) (known : Known) (fmv block : ℕ) (t : Transfer) (l : Ledger)
    → let m = to_payments services known fmv block t l in
      Later l m × ((contains known.payment_addresses t.target ≡ false) ⊎ IsPaid services block t m)
unfolding to_payments handle_payment
to_payments-Later services known fmv block t l =
    let (grows, paid) =
      pay-Later services fmv block t (find_user (has_address t.target) l.users) l refl in
    elim (Bool-cases (contains known.payment_addresses t.target)) [
      | inl e ↦ rw e (grows, inr paid)
      | inr e ↦ rw e (Later-refl l, inl refl)
    ]

to_deposits-Later :
    (services : Services) (known : Known) (fmv block : ℕ) (t : Transfer) (l : Ledger)
    → let m = to_deposits services known fmv block t l in
      Later l m
      × ((contains known.developer_payment_addresses t.target ≡ false)
          ⊎ Done services block t (has_developer_address t.target) m)
unfolding to_deposits handle_developer_deposit
to_deposits-Later services known fmv block t l =
    let (grows, done) =
      deposit-Later services fmv block t (find_user (has_developer_address t.target) l.users) l
        refl in
    elim (Bool-cases (contains known.developer_payment_addresses t.target)) [
      | inl e ↦ rw e (grows, inr done)
      | inr e ↦ rw e (Later-refl l, inl refl)
    ]

process_transfer-Later :
    (services : Services) (known : Known) (fmv block : ℕ) (t : Transfer) (l : Ledger)
    → let m = process_transfer services known fmv block t l in
      Later l m × IsSettled services known block t m
unfolding process_transfer
process_transfer-Later services known fmv block t l =
    let m = to_payments services known fmv block t l in
    let n = to_deposits services known fmv block t m in
    let (grows, paid) = to_payments-Later services known fmv block t l in
    let (grows_more, done) = to_deposits-Later services known fmv block t m in
    (
      Later-trans l m n grows grows_more,
      (
        elim paid [ inl a ↦ inl a | inr q ↦ inr (IsPaid-Later services block t m n grows_more q) ],
        done,
      ),
    )

process_transfers-Later :
    (services : Services) (known : Known) (fmv block : ℕ) (ts : List Transfer) (l : Ledger)
    → Later l (process_transfers services known fmv block ts l)
unfolding process_transfers
process_transfers-Later services known fmv block [] l = Later-refl l
process_transfers-Later services known fmv block (t ∷ ts) l =
    let m = process_transfer services known fmv block t l in
    Later-trans l m (process_transfers services known fmv block ts m)
      (process_transfer-Later services known fmv block t l).0
      (process_transfers-Later services known fmv block ts m)

-- After a list of transfers each of them is settled.
process_transfers-IsSettled :
    (services : Services) (known : Known) (fmv block : ℕ) (ts : List Transfer) (l : Ledger)
    → All
        (λ t. IsSettled services known block t (process_transfers services known fmv block ts l))
        ts
unfolding process_transfers
process_transfers-IsSettled services known fmv block [] l = tt
process_transfers-IsSettled services known fmv block (t ∷ ts) l =
    let m = process_transfer services known fmv block t l in
    (
      IsSettled-Later services known block t m (process_transfers services known fmv block ts m)
          (process_transfers-Later services known fmv block ts m)
          (process_transfer-Later services known fmv block t l).1,
      process_transfers-IsSettled services known fmv block ts m,
    )

passes_over :
    (services : Services) (known : Known) (fmv block : ℕ) (ts rest : List Transfer) (l : Ledger)
    → All (λ t. IsSettled services known block t l) ts
    → process_transfers services known fmv block (ts ++ rest) l
      ≡ process_transfers services known fmv block rest l
unfolding process_transfers
passes_over services known fmv block [] rest l h = refl
passes_over services known fmv block (t ∷ ts) rest l h =
    ap (process_transfers services known fmv block (ts ++ rest))
      (process_transfer-IsSettled services known fmv block t l h.0)
    ∙ passes_over services known fmv block ts rest l h.1

pub process_transfers-again :
    (services : Services) (known : Known) (fmv later_fmv block : ℕ) (ts rest : List Transfer)
    (l : Ledger)
    → let stopped = process_transfers services known fmv block ts l in
      process_transfers services known later_fmv block (ts ++ rest) stopped
      ≡ process_transfers services known later_fmv block rest stopped
process_transfers-again services known fmv later_fmv block ts rest l =
    passes_over services known later_fmv block ts rest
      (process_transfers services known fmv block ts l)
      (process_transfers-IsSettled services known fmv block ts l)

-- A block that was processed is settled, and stays so while others are processed.
pub process_transfers-settled :
    (services : Services) (known : Known) (fmv other_fmv later_fmv block other : ℕ)
    (ts others : List Transfer) (l : Ledger)
    → let m =
        process_transfers services known other_fmv other others
          (process_transfers services known fmv block ts l) in
      process_transfers services known later_fmv block ts m ≡ m
unfolding process_transfers
process_transfers-settled services known fmv other_fmv later_fmv block other ts others l =
    let done = process_transfers services known fmv block ts l in
    let m = process_transfers services known other_fmv other others done in
    let settled : All (λ t. IsSettled services known block t m) ts =
      All-imp (λ t. IsSettled services known block t done) (λ t. IsSettled services known block t m)
        ts
        (λ t.
          IsSettled-Later services known block t done m
            (process_transfers-Later services known other_fmv other others done))
        (process_transfers-IsSettled services known fmv block ts l) in
    ap (λ us. process_transfers services known later_fmv block us m) (sym (append-nil ts))
    ∙ passes_over services known later_fmv block ts [] m settled

pub process_transfers-append :
    (services : Services) (known : Known) (fmv block : ℕ) (ts rest : List Transfer) (l : Ledger)
    → process_transfers services known fmv block (ts ++ rest) l
      ≡ process_transfers services known fmv block rest
          (process_transfers services known fmv block ts l)
unfolding process_transfers
process_transfers-append services known fmv block [] rest l = refl
process_transfers-append services known fmv block (t ∷ ts) rest l =
    process_transfers-append services known fmv block ts rest
      (process_transfer services known fmv block t l)
