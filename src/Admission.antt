-- ===== src/Admission.antt =====
-- The checks in api/instance/router.py that decide whether a miner may start one more instance of
-- a chute. `locked` is the HTTP 423 answer.
pub mod Capacity
pub mod Permits
pub mod Private
pub mod Samples
use chutes_api.Base.{
  ℕ, is_empty, suc, ◌+◌, ◌-◌, ◌&&◌, ◌||◌, Bool, true, false, not, List, [], ◌∷◌, Option, none, some,
  String, Dict, lookup, insert, get_or, leb, ltb, ◌==◌, if◌then◌else◌,
}

pub data Lock : Type 0 where
  rolling_update at_capacity monopoly underutilized no_bounty : Lock

pub data Verdict : Type 0 where
  allowed : Verdict
  locked : Lock → Verdict

-- The counts of the chute's instances: all, those active and verified, those of the hotkey.
pub record Counts : Type 0 where
  pub total_count : ℕ
  pub active_count : ℕ
  pub hotkey_count : ℕ

-- The target: redis first, then the newest capacity_log row, then the present count.
unfoldable pub target_count : Counts → (scale_value capacity_row : Option ℕ) → ℕ
target_count counts (some n) capacity_row = n
target_count counts none (some n) = n
target_count counts none none = counts.total_count

-- During a rolling update only the hotkeys that had instances before it may replace them. An admission
-- takes one from the permits of the hotkey in the dictionary that was loaded for the request; the column
-- is a plain JSONB, so the change is not written, and the permits stay as they are.
unfoldable pub use_permit : (permitted : Dict ℕ) (hotkey : String) → Verdict
use_permit permitted hotkey =
    let limit = get_or (lookup hotkey permitted) 0 in
    if limit == 0 && not (is_empty permitted) then locked rolling_update else allowed

-- From "Check if scaling is allowed based on target count" on.
pub check_target : Counts → (target : ℕ) → Verdict
check_target counts target =
    if leb target counts.total_count
    then locked at_capacity
    else if leb (target - counts.total_count) 2 && counts.hotkey_count == counts.total_count
    then locked monopoly
    else allowed

-- `rolling` is `chute.rolling_update.permitted`, if there is a rolling update.
pub check_rolling : Counts → (target : ℕ) → Option (Dict ℕ) → (hotkey : String) → Verdict
check_rolling counts target none hotkey = check_target counts target
check_rolling counts target (some permitted) hotkey =
    if leb (target - 2) counts.total_count
    then use_permit permitted hotkey
    else check_target counts target

pub check_scalable :
    Counts
    → (scale_value capacity_row : Option ℕ) → (rolling : Option (Dict ℕ)) → (hotkey : String)
    → Verdict
check_scalable counts scale_value capacity_row rolling hotkey =
    let target = target_count counts scale_value capacity_row in
    if leb counts.total_count (target + 2) && counts.active_count == 0
    then allowed
    else check_rolling counts target rolling hotkey

-- Private chutes billed by time.
pub check_scalable_private :
    (active_count : ℕ) (scale_value : Option ℕ) (bounty_exists : Bool) → Verdict
check_scalable_private active_count scale_value bounty_exists =
    let target = get_or scale_value 0 in
    if active_count == 0 && not bounty_exists
    then locked no_bounty
    else if leb target active_count && ltb 0 target
    then locked at_capacity
    else allowed

-- The second check, when a private instance is activated: `can_scale`.
pub can_activate_private : (active_count : ℕ) (scale_value : Option ℕ) (bounty_exists : Bool) → Bool
can_activate_private active_count scale_value bounty_exists =
    (active_count == 0 && bounty_exists) || ltb active_count (get_or scale_value 0)
