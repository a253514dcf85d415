-- ===== src/Bounties/Claims.antt =====
-- Who is paid: each bounty once.
use chutes_api.Base.{
  ℕ, ◌+◌, ◌-◌, ◌*◌, ◌≤◌, ◌<◌, min, ◌≡◌, refl, Bool, true, false, List, [], ◌∷◌, Option, none, some,
  String, Dict, lookup, insert, remove, lookup-insert, lookup-remove, is_none, str_eq, Bool-cases,
  inl, inr, str_eq_self, eq_iff, if◌then◌else◌, arith,
}
use chutes_api.Bounties.{
  Bounty, live_at, fetch, create_bounty_if_not_exists, amount_at, amount_of, claim_bounty,
  delete_bounty, get_bounty_amount,
}

-- What is asked of the bounties, and when.
pub data Request : Type 0 where
  create : (now : ℕ) (chute_id : String) (lifetime : ℕ) → Request
  claim : (now : ℕ) (chute_id : String) → Request
  delete : (now : ℕ) (chute_id : String) → Request

-- The keys, and for one chute the number of bounties made and of bounties paid.
pub record Books : Type 0 where
  pub keys : Dict Bounty
  pub made : ℕ
  pub paid : ℕ

abbrev count_if : Bool → ℕ
count_if true = 1
count_if false = 0

abbrev pub holds : String → Dict Bounty → ℕ
holds chute_id keys = if is_none (lookup chute_id keys) then 0 else 1

abbrev serve : (chute_id : String) → Request → Books → Books
serve chute_id (create now other lifetime) b =
    let (keys, is_new) = create_bounty_if_not_exists now other lifetime b.keys in
    record b { keys = keys; made = b.made + (if str_eq other chute_id then count_if is_new else 0) }
serve chute_id (claim now other) b =
    let (keys, amount) = claim_bounty now other b.keys in
    record b {
      keys = keys;
      paid = b.paid + (if str_eq other chute_id then (if is_none amount then 0 else 1) else 0);
    }
serve chute_id (delete now other) b = record b { keys = (delete_bounty now other b.keys).0 }

abbrev pub serve_all : (chute_id : String) → List Request → Books → Books
serve_all chute_id [] b = b
serve_all chute_id (r ∷ rs) b = serve_all chute_id rs (serve chute_id r b)

-- A key that is absent is not live.
live_at-held :
    (now : ℕ) (o : Option Bounty)
    → (if is_none (live_at now o) then 0 else 1) ≤ (if is_none o then 0 else 1)
unfolding live_at
live_at-held now none = omega arith
live_at-held now (some b) = ground arith

amount_of-is_none : (now : ℕ) (o : Option Bounty) → is_none (amount_of now o) ≡ is_none o
unfolding amount_of
amount_of-is_none now none = refl
amount_of-is_none now (some b) = refl

serve-Covered :
    (chute_id : String) (r : Request) (b : Books)
    → b.paid + holds chute_id b.keys ≤ b.made
    → let next = serve chute_id r b in next.paid + holds chute_id next.keys ≤ next.made
unfolding create_bounty_if_not_exists claim_bounty delete_bounty fetch
serve-Covered chute_id (create now other lifetime) b h =
    elim (Bool-cases (is_none (live_at now (lookup other b.keys)))) [
      | inl e ↦ rw e ground (
        arith,
        eq_iff other chute_id,
        lookup-insert other chute_id
            (record { chute_id = other; created_at = now; expires_at = now + lifetime }) b.keys,
      )
      | inr e ↦ rw e ground arith
    ]
serve-Covered chute_id (claim now other) b h = ground (
  arith,
  eq_iff other chute_id,
  lookup-remove other chute_id b.keys,
  amount_of-is_none now (live_at now (lookup other b.keys)),
  live_at-held now (lookup other b.keys),
)
serve-Covered chute_id (delete now other) b h =
    ground (arith, eq_iff other chute_id, lookup-remove other chute_id b.keys)

-- Whatever is asked, and in whatever order: from an empty table on, no more bounties of a chute are
-- paid than were made for it.
pub serve_all-bound :
    (chute_id : String) (rs : List Request) (b : Books)
    → b.paid + holds chute_id b.keys ≤ b.made
    → (serve_all chute_id rs b).paid ≤ (serve_all chute_id rs b).made
serve_all-bound chute_id [] b h = omega arith
serve_all-bound chute_id (r ∷ rs) b h =
    serve_all-bound chute_id rs (serve chute_id r b) (serve-Covered chute_id r b h)

fetch-remove :
    (now : ℕ) (chute_id : String) (keys : Dict Bounty)
    → fetch now chute_id (remove chute_id keys) ≡ none
unfolding fetch live_at
fetch-remove now chute_id keys = rw (lookup-remove chute_id chute_id keys, str_eq_self) refl

fetch-insert :
    (now : ℕ) (bounty : Bounty) (keys : Dict Bounty)
    → now < bounty.expires_at
    → fetch now bounty.chute_id (insert bounty.chute_id bounty keys) ≡ some bounty
unfolding fetch live_at
fetch-insert now bounty keys h =
    rw (lookup-insert bounty.chute_id bounty.chute_id bounty keys, str_eq_self) ground arith

-- A new bounty is paid by the next claim before it expires, by its age and with at most 86400, and
-- by that claim alone.
claim-create :
    (now later : ℕ) (chute_id : String) (lifetime : ℕ) (keys : Dict Bounty)
    → fetch now chute_id keys ≡ none
    → later < now + lifetime
    → let held = (create_bounty_if_not_exists now chute_id lifetime keys).0 in
      let (left, amount) = claim_bounty later chute_id held in
      (amount ≡ some (min (3 * (later - now) + 100) 86400))
      × ((claim_bounty later chute_id left).1 ≡ none)
      × (get_bounty_amount later chute_id left ≡ none)
unfolding create_bounty_if_not_exists claim_bounty get_bounty_amount amount_of amount_at
claim-create now later chute_id lifetime keys absent live =
    let made : Bounty = record {
      chute_id = chute_id;
      created_at = now;
      expires_at = now + lifetime;
    } in
    rw
      (
        absent,
        fetch-insert later made keys live,
        fetch-remove later chute_id (insert chute_id made keys),
      )
      (refl, refl, refl)
