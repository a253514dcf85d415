-- ===== src/Bounties.antt =====
-- The bounties of api/bounty/util.py: redis keys `bounty:{chute_id}`, each with the time at which it was
-- made. A key that has expired is as good as absent. Redis answers; a failing redis is the answer of
-- an absent key.
pub mod Claims
pub mod Listing
pub mod Samples
use chutes_api.Base.{
  ℕ, ◌+◌, ◌-◌, ◌*◌, min, Bool, true, false, List, [], ◌∷◌, Option, none, some, String, Dict, lookup,
  insert, remove, leb, ltb, is_none, not, if◌then◌else◌,
}

-- A key's value, and the time at which redis drops the key.
pub record Bounty : Type 0 where
  pub chute_id : String
  pub created_at : ℕ
  pub expires_at : ℕ

pub live_at : (now : ℕ) → Option Bounty → Option Bounty
live_at now none = none
live_at now (some bounty) = if ltb now bounty.expires_at then some bounty else none

-- The redis command GET.
pub fetch : (now : ℕ) → String → Dict Bounty → Option Bounty
fetch now chute_id keys = live_at now (lookup chute_id keys)

pub create_bounty_if_not_exists :
    (now : ℕ) (chute_id : String) (lifetime : ℕ) → Dict Bounty → Dict Bounty × Bool
create_bounty_if_not_exists now chute_id lifetime keys =
    if is_none (fetch now chute_id keys)
    then (
      insert chute_id
          (record { chute_id = chute_id; created_at = now; expires_at = now + lifetime }) keys,
      true,
    )
    else (keys, false)

-- `min(3 * seconds_elapsed + 100, 86400)`
pub amount_at : (now : ℕ) → Bounty → ℕ
amount_at now bounty = min (3 * (now - bounty.created_at) + 100) 86400

pub amount_of : (now : ℕ) → Option Bounty → Option ℕ
amount_of now none = none
amount_of now (some bounty) = some (amount_at now bounty)

-- The script reads and deletes the key at once.
pub claim_bounty : (now : ℕ) (chute_id : String) → Dict Bounty → Dict Bounty × Option ℕ
claim_bounty now chute_id keys = (remove chute_id keys, amount_of now (fetch now chute_id keys))

pub check_bounty_exists : (now : ℕ) (chute_id : String) → Dict Bounty → Bool
check_bounty_exists now chute_id keys = not (is_none (fetch now chute_id keys))

pub get_bounty_amount : (now : ℕ) (chute_id : String) → Dict Bounty → Option ℕ
get_bounty_amount now chute_id keys = amount_of now (fetch now chute_id keys)

pub delete_bounty : (now : ℕ) (chute_id : String) → Dict Bounty → Dict Bounty × Bool
delete_bounty now chute_id keys = (remove chute_id keys, check_bounty_exists now chute_id keys)

pub record Listed : Type 0 where
  pub chute_id : String
  pub bounty_amount : ℕ
  pub seconds_elapsed : ℕ
  pub time_remaining : ℕ
  pub created_at : ℕ

pub entry_of : (now : ℕ) → Bounty → Listed
entry_of now bounty = record {
  chute_id = bounty.chute_id;
  bounty_amount = amount_at now bounty;
  seconds_elapsed = now - bounty.created_at;
  time_remaining = bounty.expires_at - now;
  created_at = bounty.created_at;
}

-- `bounties.sort(key=lambda x: x["created_at"])`
pub insert_by_age : Listed → List Listed → List Listed
insert_by_age b [] = b ∷ []
insert_by_age b (c ∷ cs) =
    let later = insert_by_age b cs in
    if leb b.created_at c.created_at then b ∷ c ∷ cs else c ∷ later

pub add_live : (now : ℕ) → Option Bounty → List Listed → List Listed
add_live now none found = found
add_live now (some bounty) found = insert_by_age (entry_of now bounty) found

-- The keys that the scan returns, each read as it comes.
pub list_bounties : (now : ℕ) (keys_found : List String) → Dict Bounty → List Listed
list_bounties now [] keys = []
list_bounties now (key ∷ others) keys =
    add_live now (fetch now key keys) (list_bounties now others keys)
