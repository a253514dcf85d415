-- ===== src/Bounties/Listing.antt =====
-- What the list of bounties shows.
use chutes_api.Base.{
  ℕ, ◌≤◌, ◌≡◌, refl, List, [], ◌∷◌, Option, none, some, String, Dict, lookup, leb, All, arith,
  Option-cases, Bool-cases, inl, inr,
}
use chutes_api.Bounties.{
  Bounty, Listed, live_at, fetch, amount_of, amount_at, claim_bounty, entry_of, insert_by_age,
  add_live, list_bounties,
}

-- Every key carries the identifier of its chute.
abbrev pub IsKeyed : Dict Bounty → Type 0
IsKeyed keys = (k : String) (b : Bounty) → lookup k keys ≡ some b → b.chute_id ≡ k

abbrev IsOldestFirst : List Listed → Type 0
IsOldestFirst [] = Unit
IsOldestFirst (b ∷ bs) = All (λ c. b.created_at ≤ c.created_at) bs × IsOldestFirst bs

-- A claim at once would pay what is shown.
abbrev IsPayable : (now : ℕ) → Dict Bounty → Listed → Type 0
IsPayable now keys b = (claim_bounty now b.chute_id keys).1 ≡ some b.bounty_amount

insert_by_age-All :
    (P : Listed → Type 0) (b : Listed) (cs : List Listed)
    → P b
    → All P cs
    → All P (insert_by_age b cs)
unfolding insert_by_age
insert_by_age-All P b [] p h = (p, tt)
insert_by_age-All P b (c ∷ cs) p h = ground (arith, insert_by_age-All P b cs p h.1)

older :
    (b c : Listed) (cs : List Listed)
    → b.created_at ≤ c.created_at
    → All (λ d. c.created_at ≤ d.created_at) cs
    → All (λ d. b.created_at ≤ d.created_at) cs
older b c [] h all = tt
older b c (d ∷ ds) h all = (omega (arith, all.0), older b c ds h all.1)

insert_by_age-IsOldestFirst :
    (b : Listed) (cs : List Listed) → IsOldestFirst cs → IsOldestFirst (insert_by_age b cs)
unfolding insert_by_age
insert_by_age-IsOldestFirst b [] h = (tt, tt)
insert_by_age-IsOldestFirst b (c ∷ cs) h = elim (Bool-cases (leb b.created_at c.created_at)) [
  | inl e ↦ rw e ((ground arith, older b c cs (ground arith) h.0), h)
  | inr e ↦ rw e (
    insert_by_age-All (λ d. c.created_at ≤ d.created_at) b cs (ground arith) h.0,
    insert_by_age-IsOldestFirst b cs h.1,
  )
]

live_at-some : (now : ℕ) (o : Option Bounty) (b : Bounty) → live_at now o ≡ some b → o ≡ some b
unfolding live_at
live_at-some now none b e = absurd cc
live_at-some now (some c) b e = ground arith

fetch-IsPayable :
    (now : ℕ) (key : String) (keys : Dict Bounty) (b : Bounty)
    → IsKeyed keys
    → fetch now key keys ≡ some b
    → IsPayable now keys (entry_of now b)
unfolding claim_bounty entry_of amount_of amount_at
fetch-IsPayable now key keys b keyed e =
    rw (keyed key b (live_at-some now (lookup key keys) b (unfold fetch in e)), e) refl

-- The list is ordered by age, the oldest first, and each entry shows the amount that a claim of that
-- chute's bounty would pay now, whatever keys the scan returns. (Each key carries its chute.)
list_bounties-IsPayable :
    (now : ℕ) (keys_found : List String) (keys : Dict Bounty)
    → IsKeyed keys
    → let shown = list_bounties now keys_found keys in
      IsOldestFirst shown × All (IsPayable now keys) shown
unfolding list_bounties add_live
list_bounties-IsPayable now [] keys keyed = (tt, tt)
list_bounties-IsPayable now (key ∷ others) keys keyed =
    let (sorted, payable) = list_bounties-IsPayable now others keys keyed in
    elim (Option-cases (fetch now key keys)) [
      | inl e ↦ rw e (sorted, payable)
      | inr (b, e) ↦ rw e (
        insert_by_age-IsOldestFirst (entry_of now b) (list_bounties now others keys) sorted,
        insert_by_age-All (IsPayable now keys) (entry_of now b) (list_bounties now others keys)
            (fetch-IsPayable now key keys b keyed e) payable,
      )
    ]
