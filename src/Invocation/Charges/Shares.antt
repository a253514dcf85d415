-- ===== src/Invocation/Charges/Shares.antt =====
-- What the users of a private chute are charged, its owner is credited.
use chutes_api.Base.{
  ◌≡◌, ◌≢◌, refl, sym, ap, ◌∙◌, inl, inr, Bool, true, false, some, none, String, str_eq,
  str_eq_self, eq_iff, arith, Bool-cases, if◌then◌else◌,
}
use mathlib.Core.Path.{◌≡⟨◌⟩◌, ◌∎}
use chutes_api.Usage.{BalanceKey, same_key}
use chutes_api.Invocation.Charges.{
  Amounts, Rates, Success, Book, Entry, charge, add_balance_to, settle, key_of, change, credit,
  use_entry, transfer_entry,
}

-- Exact arithmetic: the laws of sums and differences.
pub record IsExact (amounts : Amounts) : Type 0 where
  pub plus_zero : (a : amounts.Amount) → amounts.plus a (amounts.of_nat 0) ≡ a
  pub plus_comm : (a b : amounts.Amount) → amounts.plus a b ≡ amounts.plus b a
  pub plus_assoc :
      (a b c : amounts.Amount)
      → amounts.plus (amounts.plus a b) c ≡ amounts.plus a (amounts.plus b c)
  pub plus_minus :
      (a : amounts.Amount) → amounts.plus a (amounts.minus (amounts.of_nat 0) a) ≡ amounts.of_nat 0
  pub zero_of_is_zero : (a : amounts.Amount) → amounts.is_zero a ≡ true → a ≡ amounts.of_nat 0

module _ (amounts : Amounts) (exact : IsExact amounts) where
  open amounts use {Amount, of_nat, plus, minus, is_zero}

  -- What one side loses the other side gains.
  plus-transfer : (a b c : Amount) → plus (plus a c) (plus b (minus (of_nat 0) c)) ≡ plus a b
  plus-transfer a b c =
      plus (plus a c) (plus b (minus (of_nat 0) c))
      ≡⟨ exact.plus_assoc a c (plus b (minus (of_nat 0) c)) ⟩
        plus a (plus c (plus b (minus (of_nat 0) c)))
      ≡⟨ ap (plus a) (ap (plus c) (exact.plus_comm b (minus (of_nat 0) c))) ⟩
        plus a (plus c (plus (minus (of_nat 0) c) b))
      ≡⟨ ap (plus a) (sym (exact.plus_assoc c (minus (of_nat 0) c) b)) ⟩
        plus a (plus (plus c (minus (of_nat 0) c)) b)
      ≡⟨ ap (λ (x : Amount). plus a (plus x b)) (exact.plus_minus c) ⟩ plus a (plus (of_nat 0) b)
      ≡⟨ ap (plus a) (exact.plus_comm (of_nat 0) b ∙ exact.plus_zero b) ⟩ plus a b ∎

  same_key_self : (k : BalanceKey) → same_key k k ≡ true
  unfolding same_key
  same_key_self k = ground (arith, str_eq_self k.user_id, str_eq_self k.chute_id)

  same_key-differ : (k l : BalanceKey) → str_eq k.user_id l.user_id ≡ false → same_key k l ≡ false
  unfolding same_key
  same_key-differ k l e = ground arith

  if-amount :
      (b : Bool) (x y : Entry amounts)
      → (if b then x else y).amount ≡ (if b then x.amount else y.amount)
  if-amount true x y = refl
  if-amount false x y = refl

  module _ (rates : Rates amounts) (s : Success amounts) (book : Book amounts) where
    abbrev user : BalanceKey
    user = key_of amounts s s.user_id

    abbrev owner : BalanceKey
    owner = key_of amounts s s.chute.user_id

    abbrev amount_of : Book amounts → BalanceKey → Amount
    amount_of b k = (b k).amount

    abbrev after : Book amounts
    after = settle amounts rates s book

    abbrev charged : Book amounts
    charged = change amounts user (use_entry amounts rates s) book

    charged-amount :
        (k : BalanceKey)
        → amount_of charged k ≡ (
            if same_key user k
            then plus (amount_of book k) (charge amounts rates s)
            else amount_of book k)
    unfolding change use_entry
    charged-amount k = if-amount (same_key user k) (use_entry amounts rates s (book k)) (book k)

    settle-none : add_balance_to amounts s ≡ none → after ≡ charged
    unfolding settle credit
    settle-none e = rw e refl

    settle-zero :
        (owner_id : String)
        → add_balance_to amounts s ≡ some owner_id
        → is_zero (charge amounts rates s) ≡ true
        → after ≡ charged
    unfolding settle credit
    settle-zero owner_id e z = rw (e, z, credit) refl

    settle-credited :
        add_balance_to amounts s ≡ some s.chute.user_id
        → is_zero (charge amounts rates s) ≡ false
        → after ≡ change amounts owner (transfer_entry amounts (charge amounts rates s)) charged
    unfolding settle credit
    settle-credited e z = rw (e, z, credit) refl

    credited-amount :
        (k : BalanceKey)
        → amount_of
            (change amounts owner (transfer_entry amounts (charge amounts rates s)) charged)
            k
          ≡ (if same_key owner k
              then plus (amount_of charged k) (minus (of_nat 0) (charge amounts rates s))
              else amount_of charged k)
    unfolding change transfer_entry
    credited-amount k =
        if-amount (same_key owner k) (transfer_entry amounts (charge amounts rates s) (charged k))
          (charged k)

    module _ (billed : s.chute.billed ≡ true) where
      charge-own : s.user_id ≡ s.chute.user_id → charge amounts rates s ≡ of_nat 0
      unfolding charge
      charge-own own = rw (billed, own, str_eq_self s.chute.user_id) refl

      add_balance_to-own : s.user_id ≡ s.chute.user_id → add_balance_to amounts s ≡ none
      unfolding add_balance_to
      add_balance_to-own own = rw (billed, own, str_eq_self s.chute.user_id) refl

      -- An owner uses its own chute, and the amounts stay as they are.
      settle-own :
          s.user_id ≡ s.chute.user_id → (k : BalanceKey) → amount_of after k ≡ amount_of book k
      settle-own own k =
          rw (settle-none (add_balance_to-own own), charged-amount k, charge-own own)
            (elim (Bool-cases (same_key user k)) [
              | inl e ↦ rw e (exact.plus_zero (amount_of book k))
              | inr e ↦ rw e refl
            ])

      module _ (others : s.user_id ≢ s.chute.user_id) where
        differ : str_eq s.user_id s.chute.user_id ≡ false
        differ = elim (Bool-cases (str_eq s.user_id s.chute.user_id)) [
          | inl e ↦ absurd (others ((eq_iff s.user_id s.chute.user_id).0 e))
          | inr e ↦ e
        ]

        add_balance_to-others : add_balance_to amounts s ≡ some s.chute.user_id
        unfolding add_balance_to
        add_balance_to-others = rw (billed, differ) refl

        user-owner : same_key user owner ≡ false
        user-owner = same_key-differ user owner differ

        owner-user : same_key owner user ≡ false
        unfolding same_key
        owner-user =
            ground
              (arith, eq_iff s.user_id s.chute.user_id, eq_iff s.chute.user_id s.user_id, differ)

        shared :
            (zero : Bool)
            → is_zero (charge amounts rates s) ≡ zero
            → plus (amount_of after user) (amount_of after owner)
              ≡ plus (amount_of book user) (amount_of book owner)
        shared true e =
            rw
              (
                settle-zero s.chute.user_id add_balance_to-others e,
                charged-amount user,
                charged-amount owner,
                same_key_self user,
                user-owner,
                exact.zero_of_is_zero (charge amounts rates s) e,
              )
              (ap (λ (x : Amount). plus x (amount_of book owner))
                (exact.plus_zero (amount_of book user)))
        shared false e =
            rw
              (
                settle-credited add_balance_to-others e,
                credited-amount user,
                credited-amount owner,
                owner-user,
                same_key_self owner,
                charged-amount user,
                charged-amount owner,
                same_key_self user,
                user-owner,
              )
              (plus-transfer (amount_of book user) (amount_of book owner) (charge amounts rates s))

        elsewhere :
            (k : BalanceKey)
            → same_key user k ≡ false
            → same_key owner k ≡ false
            → (zero : Bool) → is_zero (charge amounts rates s) ≡ zero
            → amount_of after k ≡ amount_of book k
        elsewhere k u o true e =
            rw (settle-zero s.chute.user_id add_balance_to-others e, charged-amount k, u) refl
        elsewhere k u o false e =
            rw (settle-credited add_balance_to-others e, credited-amount k, charged-amount k, u, o)
              refl

      -- A success on a private chute that its owner pays for by time, with exact amounts. If the owner
      -- itself called, the amount under no key changes. If another user called, the amounts under the
      -- keys of the two have the same sum as before, and no other amount changes.
      pub settle-IsShared :
          (s.user_id ≡ s.chute.user_id → (k : BalanceKey) → amount_of after k ≡ amount_of book k)
          × (s.user_id ≢ s.chute.user_id
              → (plus (amount_of after user) (amount_of after owner)
                  ≡ plus (amount_of book user) (amount_of book owner))
                × ((k : BalanceKey)
                    → same_key user k ≡ false
                    → same_key owner k ≡ false
                    → amount_of after k ≡ amount_of book k))
      settle-IsShared = (
        settle-own,
        λ others. (
          shared others (is_zero (charge amounts rates s)) refl,
          λ k u o. elsewhere others k u o (is_zero (charge amounts rates s)) refl,
        ),
      )
