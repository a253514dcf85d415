-- ===== src/Usage/Totals.antt =====
-- Every user is charged the sum of the amounts that were read for that user.
use chutes_api.Base.{
  ◌≡◌, refl, sym, ap, ◌∙◌, true, false, ◌⊎◌, List, [], ◌∷◌, Option, none, some, String, Dict,
  lookup, insert, lookup-insert, get_or, str_eq, Bool-cases, inl, inr, eq_iff, arith, subst,
  if◌then◌else◌,
}
use chutes_api.Usage.{
  BalanceKey, Pending, User, UsageData, hgetall, track, upsert, add_total, track_all, is_charged,
  charge, deduct, deduct_all, Ledger, process_balance_changes,
}
use chutes_api.Base.Int.{ℤ, pos, ◌+ℤ◌, ◌-ℤ◌, int_laws, same_parts}

-- What the keys of one user hold.
abbrev pub amount_read : (user_id : String) → List (BalanceKey × Pending) → List BalanceKey → ℤ
amount_read user_id redis [] = pos 0
amount_read user_id redis (key ∷ keys) =
    (if str_eq key.user_id user_id then (hgetall key redis).amount else pos 0)
    +ℤ amount_read user_id redis keys

-- What a dictionary of totals holds for one user.
abbrev total_in : (user_id : String) → Dict ℤ → ℤ
total_in user_id [] = pos 0
total_in user_id ((other, amount) ∷ rest) =
    (if str_eq other user_id then amount else pos 0) +ℤ total_in user_id rest

total_in-insert :
    (user_id other : String) (n : ℤ) (totals : Dict ℤ)
    → total_in user_id (insert other n totals)
        +ℤ (if str_eq other user_id then get_or (lookup other totals) (pos 0) else pos 0)
      ≡ total_in user_id totals +ℤ (if str_eq other user_id then n else pos 0)
unfolding insert lookup
total_in-insert user_id other n [] = grind int_laws
total_in-insert user_id other n ((first, m) ∷ rest) = elim (Bool-cases (str_eq first other)) [
  | inl e ↦
      let same : first ≡ other = ground (arith, eq_iff first other) in rw (e, same) (omega int_laws)
  | inr e ↦ rw e (omega (int_laws, same_parts (total_in-insert user_id other n rest)))
]

total_in-add_total :
    (user_id : String) (key : BalanceKey) (values : Pending) (totals : Dict ℤ)
    → total_in user_id (add_total key values totals)
      ≡ total_in user_id totals +ℤ (if str_eq key.user_id user_id then values.amount else pos 0)
unfolding add_total
total_in-add_total user_id key values totals = grind (
  int_laws,
  total_in-insert user_id key.user_id (get_or (lookup key.user_id totals) (pos 0) +ℤ values.amount)
      totals,
)

total_in-track_all :
    (user_id : String) (users : Dict User) (redis : List (BalanceKey × Pending))
    (keys : List BalanceKey) (usage : List UsageData) (totals : Dict ℤ)
    → total_in user_id (track_all users redis keys usage totals).1
      ≡ total_in user_id totals +ℤ amount_read user_id redis keys
unfolding track_all
total_in-track_all user_id users redis [] usage totals = omega int_laws
total_in-track_all user_id users redis (key ∷ keys) usage totals = omega (
  int_laws,
  same_parts (
      total_in-track_all user_id users redis keys (track users key (hgetall key redis) usage)
        (add_total key (hgetall key redis) totals)),
  same_parts (total_in-add_total user_id key (hgetall key redis) totals),
)

-- The user after an amount was deducted: a free account that is not billed by invoice stays as it was.
abbrev deducted_from : (amount : ℤ) → User → User
deducted_from amount user = record user { balance = user.balance -ℤ amount }

abbrev pub charged_by : (amount : ℤ) → Option User → Option User
charged_by amount none = none
charged_by amount (some user) = some (
    if user.free_account
    then if user.invoice_billing then deducted_from amount user else user
    else deducted_from amount user)

charge-charged_by :
    (amount : ℤ) (user : User) → some (charge amount user) ≡ charged_by amount (some user)
unfolding charge is_charged
charge-charged_by amount user = elim (Bool-cases user.free_account) [
  | inr f ↦ rw f refl
  | inl f ↦ elim (Bool-cases user.invoice_billing) [
    | inl e ↦ rw (f, e) refl
    | inr e ↦ rw (f, e) refl
  ]
]

charge-charge : (m n : ℤ) (o : Option User) → charged_by n (charged_by m o) ≡ charged_by (m +ℤ n) o
unfolding charge is_charged
charge-charge m n none = refl
charge-charge m n (some user) = grind int_laws

lookup-deduct :
    (user_id other : String) (amount : ℤ) (o : Option User) (users : Dict User)
    → lookup other users ≡ o
    → lookup user_id (deduct other amount o users) ≡ (
        if str_eq other user_id
        then charged_by amount (lookup user_id users)
        else lookup user_id users)
unfolding deduct
lookup-deduct user_id other amount none users e = grind (int_laws, eq_iff other user_id)
lookup-deduct user_id other amount (some user) users e =
    lookup-insert other user_id (charge amount user) users
    ∙ elim (Bool-cases (str_eq other user_id)) [
      | inl h ↦
          let found : lookup user_id users ≡ some user =
            subst (λ k. lookup k users ≡ some user) (ground (arith, eq_iff other user_id)) e in
          rw (h, found) (charge-charged_by amount user)
      | inr h ↦ rw h refl
    ]

charged_by-zero : (o : Option User) → charged_by (pos 0) o ≡ o
unfolding charge
charged_by-zero none = refl
charged_by-zero (some user) = grind int_laws

lookup-deduct_all :
    (user_id : String) (totals : Dict ℤ) (users : Dict User)
    → lookup user_id (deduct_all totals users)
      ≡ charged_by (total_in user_id totals) (lookup user_id users)
unfolding deduct_all
lookup-deduct_all user_id [] users = sym (charged_by-zero (lookup user_id users))
lookup-deduct_all user_id ((other, amount) ∷ rest) users =
    let step = lookup-deduct user_id other amount (lookup other users) users refl in
    lookup-deduct_all user_id rest (deduct other amount (lookup other users) users)
    ∙ (elim (Bool-cases (str_eq other user_id)) [
      | inl e ↦ rw (step, e) (charge-charge amount (total_in user_id rest) (lookup user_id users))
      | inr e ↦ rw (step, e) (ap (λ n. charged_by n (lookup user_id users)) (omega int_laws))
    ])

-- In one pass exactly the sum of the amounts that were read under a user's keys is deducted from the
-- user's balance, which rises where credits outweigh; free accounts that are not billed by invoice stay
-- as they are, and a user that is not known stays unknown. The keys are those that the scan returned.
pub process_balance_changes-charges :
    (keys : List BalanceKey) (later : List (BalanceKey × Pending)) (l : Ledger) (user_id : String)
    → lookup user_id (process_balance_changes keys later l).users
      ≡ charged_by (amount_read user_id l.redis keys) (lookup user_id l.users)
unfolding process_balance_changes
process_balance_changes-charges keys later l user_id =
    lookup-deduct_all user_id (track_all l.users l.redis keys l.usage []).1 l.users
    ∙ ap (λ n. charged_by n (lookup user_id l.users))
        (omega (int_laws, same_parts (total_in-track_all user_id l.users l.redis keys l.usage [])))

-- What the rows of one user say was charged.
abbrev pub usage_of : (user_id : String) → List UsageData → ℤ
usage_of user_id [] = pos 0
usage_of user_id (row ∷ rows) =
    (if str_eq row.user_id user_id then row.amount else pos 0) +ℤ usage_of user_id rows

usage_of-upsert :
    (user_id : String) (key : BalanceKey) (values : Pending) (usage : List UsageData)
    → usage_of user_id (upsert key values usage)
      ≡ usage_of user_id usage +ℤ (if str_eq key.user_id user_id then values.amount else pos 0)
unfolding upsert
usage_of-upsert user_id key values [] = grind int_laws
usage_of-upsert user_id key values (row ∷ rows) =
    grind (int_laws, usage_of-upsert user_id key values rows, eq_iff row.user_id key.user_id)

usage_of-track :
    (user_id : String) (user : User) (users : Dict User) (key : BalanceKey) (values : Pending)
    (usage : List UsageData)
    → lookup user_id users ≡ some user
    → usage_of user_id (track users key values usage)
      ≡ usage_of user_id usage +ℤ (if str_eq key.user_id user_id then values.amount else pos 0)
unfolding track
usage_of-track user_id user users key values usage known =
    grind (int_laws, usage_of-upsert user_id key values usage, eq_iff key.user_id user_id)

usage_of-track_all :
    (user_id : String) (user : User) (users : Dict User) (redis : List (BalanceKey × Pending))
    (keys : List BalanceKey) (usage : List UsageData) (totals : Dict ℤ)
    → lookup user_id users ≡ some user
    → usage_of user_id (track_all users redis keys usage totals).0
      ≡ usage_of user_id usage +ℤ amount_read user_id redis keys
unfolding track_all
usage_of-track_all user_id user users redis [] usage totals known = omega int_laws
usage_of-track_all user_id user users redis (key ∷ keys) usage totals known = omega (
  int_laws,
  same_parts (
      usage_of-track_all user_id user users redis keys (track users key (hgetall key redis) usage)
        (add_total key (hgetall key redis) totals) known),
  same_parts (usage_of-track user_id user users key (hgetall key redis) usage known),
)

-- Not a free account, or one that is billed by invoice.
abbrev pub IsBilled : User → Type 0
IsBilled user = (user.free_account ≡ false) ⊎ (user.invoice_billing ≡ true)

charged_by-IsBilled :
    (amount : ℤ) (user : User)
    → IsBilled user
    → charged_by amount (some user) ≡ some (deducted_from amount user)
charged_by-IsBilled amount user (inl e) = rw e refl
charged_by-IsBilled amount user (inr e) = elim (Bool-cases user.free_account) [
  | inl f ↦ rw (f, e) refl
  | inr f ↦ rw f refl
]

-- The balance and the usage data agree: in one pass the balance of a known user, who has no free account
-- or is billed by invoice, falls by as much as the amounts in the user's rows of usage_data grow; where
-- credits outweigh, it rises by as much as they shrink.
pub process_balance_changes-agrees :
    (keys : List BalanceKey) (later : List (BalanceKey × Pending)) (l : Ledger) (user_id : String)
    (user : User)
    → lookup user_id l.users ≡ some user
    → IsBilled user
    → let next = process_balance_changes keys later l in
      (after : User) × (lookup user_id next.users ≡ some after)
      × (after.balance +ℤ usage_of user_id next.usage ≡ user.balance +ℤ usage_of user_id l.usage)
unfolding process_balance_changes
process_balance_changes-agrees keys later l user_id user known billed = (
  deducted_from (amount_read user_id l.redis keys) user,
  process_balance_changes-charges keys later l user_id
      ∙ ap (λ o. charged_by (amount_read user_id l.redis keys) o) known
      ∙ charged_by-IsBilled (amount_read user_id l.redis keys) user billed,
  omega (
    int_laws,
    same_parts (usage_of-track_all user_id user l.users l.redis keys l.usage [] known),
  ),
)
