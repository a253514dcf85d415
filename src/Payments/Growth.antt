-- ===== src/Payments/Growth.antt =====
-- Rows are only added, and addresses stay.
use chutes_api.Base.{
  ℕ, ◌*◌, ◌≡◌, inl, inr, refl, ap, Bool, true, List, [], ◌∷◌, Option, none, some, String, contains,
  str_eq, str_eq_self, ltb, arith, Bool-cases,
}
use chutes_api.Payments.{
  User, Payment, Ledger, Transfer, Services, payment_id_of, find_user, has_address,
  has_developer_address, is_text, update_user, has_id, credit, credited, deposited, payment_row,
  raise_balance, new_total_of, credits, developer, pay, enable_developer, deposit, Known, dust,
}
use chutes_api.Payments.Settled.{Done, IsPaid, IsSettled}

-- A later ledger: the rows are still there, and nobody has come or gone.
abbrev pub Later : Ledger → Ledger → Type 0
Later l m =
    ((id : String) → has_id l.payments id ≡ true → has_id m.payments id ≡ true)
    × (((address : String)
          → find_user (has_address address) l.users ≡ none
          → find_user (has_address address) m.users ≡ none)
        × ((address : String)
            → find_user (has_developer_address address) l.users ≡ none
            → find_user (has_developer_address address) m.users ≡ none))

find_user-update_user :
    (test pick : User → Bool) (change : User → User) (us : List User)
    → ((u : User) → test (change u) ≡ test u)
    → find_user test us ≡ none
    → find_user test (update_user pick change us) ≡ none
unfolding find_user update_user
find_user-update_user test pick change [] keeps e = refl
find_user-update_user test pick change (u ∷ us) keeps e =
    ground (arith, keeps u, find_user-update_user test pick change us keeps)

pub Later-refl : (l : Ledger) → Later l l
Later-refl l = ((λ id h. h), ((λ a h. h), (λ a h. h)))

pub Later-trans : (l m n : Ledger) → Later l m → Later m n → Later l n
Later-trans l m n a b = (
  (λ id h. b.0 id (a.0 id h)),
  ((λ address h. b.1.0 address (a.1.0 address h)), (λ address h. b.1.1 address (a.1.1 address h))),
)

-- A new row and a change that keeps the addresses.
grown :
    (l m : Ledger) (p : Payment) (pick : User → Bool) (change : User → User)
    → ((u : User) → (change u).payment_address ≡ u.payment_address)
    → ((u : User) → (change u).developer_payment_address ≡ u.developer_payment_address)
    → m.payments ≡ p ∷ l.payments
    → m.users ≡ update_user pick change l.users
    → Later l m
unfolding contains
grown l m p pick change keeps keeps_developer rows users = (
  (λ id h. rw rows (ground (arith, h))),
  (
    (λ address h. rw users (
        find_user-update_user (has_address address) pick change l.users
          (λ u. ap (λ a. str_eq a address) (keeps u)) h)),
    (λ address h. rw users (
        find_user-update_user (has_developer_address address) pick change l.users
          (λ u. ap (λ a. is_text a address) (keeps_developer u)) h)),
  ),
)

-- The row is stored now.
abbrev Stored : Services → (block : ℕ) → Transfer → Ledger → Type 0
Stored services block t l = has_id l.payments (payment_id_of services block t) ≡ true

contains-first : (id : String) (ids : List String) → contains (id ∷ ids) id ≡ true
unfolding contains
contains-first id ids = rw (str_eq_self id)

credit-Later :
    (services : Services) (fmv block : ℕ) (t : Transfer) (u : User) (l : Ledger)
    → let m = credit services fmv block t u l in Later l m × Stored services block t m
unfolding credit
credit-Later services fmv block t u l =
    elim (Bool-cases (has_id l.payments (payment_id_of services block t))) [
      | inl e ↦ rw e (Later-refl l, e)
      | inr e ↦ rw e (
        grown l (credited services fmv block t u l) (payment_row services fmv block t u credits)
            (has_address t.target) (raise_balance (t.amount * fmv)) (λ v. refl) (λ v. refl) refl
            refl,
        contains-first (payment_id_of services block t) _,
      )
    ]

pub pay-Later :
    (services : Services) (fmv block : ℕ) (t : Transfer) (o : Option User) (l : Ledger)
    → find_user (has_address t.target) l.users ≡ o
    → let m = pay services fmv block t o l in Later l m × IsPaid services block t m
unfolding pay
pay-Later services fmv block t none l e = (Later-refl l, inr (inr e))
pay-Later services fmv block t (some u) l e = elim (Bool-cases (ltb t.amount dust)) [
  | inl f ↦ rw f (Later-refl l, inl refl)
  | inr f ↦
      let (grows, stored) = credit-Later services fmv block t u l in rw f (grows, inr (inl stored))
]

enable_developer-keeps :
    (services : Services) (n : ℕ) (u : User)
    → ((enable_developer services n u).payment_address ≡ u.payment_address)
      × ((enable_developer services n u).developer_payment_address ≡ u.developer_payment_address)
unfolding enable_developer
enable_developer-keeps services n u = ground arith

pub deposit-Later :
    (services : Services) (fmv block : ℕ) (t : Transfer) (o : Option User) (l : Ledger)
    → find_user (has_developer_address t.target) l.users ≡ o
    → let m = deposit services fmv block t o l in
      Later l m × Done services block t (has_developer_address t.target) m
unfolding deposit
deposit-Later services fmv block t none l e = (Later-refl l, inr e)
deposit-Later services fmv block t (some u) l e =
    elim (Bool-cases (has_id l.payments (payment_id_of services block t))) [
      | inl f ↦ rw f (Later-refl l, inl f)
      | inr f ↦
          let n = new_total_of services fmv t u l in
          rw f (
            grown l (deposited services fmv block t u l)
                (payment_row services fmv block t u developer) (has_developer_address t.target)
                (enable_developer services n) (λ v. (enable_developer-keeps services n v).0)
                (λ v. (enable_developer-keeps services n v).1) refl refl,
            inl (contains-first (payment_id_of services block t) _),
          )
    ]

pub IsPaid-Later :
    (services : Services) (block : ℕ) (t : Transfer) (l m : Ledger)
    → Later l m
    → IsPaid services block t l
    → IsPaid services block t m
IsPaid-Later services block t l m later (inl small) = inl small
IsPaid-Later services block t l m later (inr (inl stored)) = inr (inl (later.0 _ stored))
IsPaid-Later services block t l m later (inr (inr nobody)) = inr (inr (later.1.0 _ nobody))

Done-Later :
    (services : Services) (block : ℕ) (t : Transfer) (l m : Ledger)
    → Later l m
    → Done services block t (has_developer_address t.target) l
    → Done services block t (has_developer_address t.target) m
Done-Later services block t l m later (inl stored) = inl (later.0 _ stored)
Done-Later services block t l m later (inr nobody) = inr (later.1.1 _ nobody)

pub IsSettled-Later :
    (services : Services) (known : Known) (block : ℕ) (t : Transfer) (l m : Ledger)
    → Later l m
    → IsSettled services known block t l
    → IsSettled services known block t m
IsSettled-Later services known block t l m later (p, d) = (
  elim p [ inl a ↦ inl a | inr q ↦ inr (IsPaid-Later services block t l m later q) ],
  elim d [ inl a ↦ inl a | inr q ↦ inr (Done-Later services block t l m later q) ],
)
