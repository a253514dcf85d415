-- ===== src/Payments/Settled.antt =====
-- What is left to do for a transfer.
use chutes_api.Base.{
  ℕ, ◌≡◌, ◌⊎◌, inl, inr, refl, Bool, true, false, Option, none, some, contains, ltb, arith,
}
use chutes_api.Payments.{
  User, Ledger, Transfer, Services, payment_id_of, find_user, has_address, has_developer_address,
  has_id, credit, pay, handle_payment, deposit, handle_developer_deposit, Known, process_transfer,
  to_payments, to_deposits, dust,
}

-- The row has been stored, or the address is nobody's.
abbrev pub Done : Services → (block : ℕ) → Transfer → (User → Bool) → Ledger → Type 0
Done services block t test l =
    (has_id l.payments (payment_id_of services block t) ≡ true) ⊎ (find_user test l.users ≡ none)

abbrev pub IsPaid : Services → (block : ℕ) → Transfer → Ledger → Type 0
IsPaid services block t l =
    (ltb t.amount dust ≡ true) ⊎ Done services block t (has_address t.target) l

-- Nothing that is left to do for a transfer.
abbrev pub IsSettled : Services → Known → (block : ℕ) → Transfer → Ledger → Type 0
IsSettled services known block t l =
    ((contains known.payment_addresses t.target ≡ false) ⊎ IsPaid services block t l)
    × ((contains known.developer_payment_addresses t.target ≡ false)
        ⊎ Done services block t (has_developer_address t.target) l)

pay-small :
    (services : Services) (fmv block : ℕ) (t : Transfer) (o : Option User) (l : Ledger)
    → ltb t.amount dust ≡ true
    → pay services fmv block t o l ≡ l
unfolding pay
pay-small services fmv block t none l small = refl
pay-small services fmv block t (some u) l small = rw small

pay-stored :
    (services : Services) (fmv block : ℕ) (t : Transfer) (o : Option User) (l : Ledger)
    → has_id l.payments (payment_id_of services block t) ≡ true
    → pay services fmv block t o l ≡ l
unfolding pay credit
pay-stored services fmv block t none l stored = refl
pay-stored services fmv block t (some u) l stored = rw stored (ground arith)

handle_payment-IsPaid :
    (services : Services) (fmv block : ℕ) (t : Transfer) (l : Ledger)
    → IsPaid services block t l
    → handle_payment services fmv block t l ≡ l
unfolding handle_payment
handle_payment-IsPaid services fmv block t l (inl small) = pay-small services fmv block t _ l small
handle_payment-IsPaid services fmv block t l (inr (inl stored)) =
    pay-stored services fmv block t _ l stored
handle_payment-IsPaid services fmv block t l (inr (inr nobody)) = unfold pay in rw nobody

deposit-stored :
    (services : Services) (fmv block : ℕ) (t : Transfer) (o : Option User) (l : Ledger)
    → has_id l.payments (payment_id_of services block t) ≡ true
    → deposit services fmv block t o l ≡ l
unfolding deposit
deposit-stored services fmv block t none l stored = refl
deposit-stored services fmv block t (some u) l stored = rw stored

handle_developer_deposit-Done :
    (services : Services) (fmv block : ℕ) (t : Transfer) (l : Ledger)
    → Done services block t (has_developer_address t.target) l
    → handle_developer_deposit services fmv block t l ≡ l
unfolding handle_developer_deposit
handle_developer_deposit-Done services fmv block t l (inl stored) =
    deposit-stored services fmv block t _ l stored
handle_developer_deposit-Done services fmv block t l (inr nobody) = unfold deposit in rw nobody

-- A settled transfer is passed over.
pub process_transfer-IsSettled :
    (services : Services) (known : Known) (fmv block : ℕ) (t : Transfer) (l : Ledger)
    → IsSettled services known block t l
    → process_transfer services known fmv block t l ≡ l
unfolding process_transfer
process_transfer-IsSettled services known fmv block t l (p, d) = rw (paid p, deposited d)
  where
    paid :
        (contains known.payment_addresses t.target ≡ false) ⊎ IsPaid services block t l
        → to_payments services known fmv block t l ≡ l
    paid (inl a) = unfold to_payments in rw a
    paid (inr q) =
        unfold to_payments in ground (arith, handle_payment-IsPaid services fmv block t l q)

    deposited :
        (contains known.developer_payment_addresses t.target ≡ false)
          ⊎ Done services block t (has_developer_address t.target) l
        → to_deposits services known fmv block t l ≡ l
    deposited (inl a) = unfold to_deposits in rw a
    deposited (inr q) =
        unfold to_deposits in ground (arith, handle_developer_deposit-Done services fmv block t l q)
