-- ===== src/Autoscaler/Decide.antt =====
-- The body of the loop over the chutes in `perform_autoscale`, branch by branch.
pub mod Balance
pub mod Keys
pub mod Limits
pub mod Steps
use chutes_api.Base.{
  ℕ, ◌+◌, ◌-◌, ◌*◌, ◌/◌, max, ◌&&◌, Bool, true, false, not, List, [], ◌∷◌, Option, none, some,
  String, lower_has, str_eq, ltb, leb, ◌==◌, get_or, if◌then◌else◌,
}
use chutes_api.Autoscaler.Types.{
  Info, Metrics, no_action, scale_up_candidate, scaled_down, skipped_rolling_update, Scale, Outcome,
  underutilized_cap, utilization_scale_up, rate_limit_scale_up, limit_override, failsafe_of,
  has_legacy_private_billing,
}

-- A private chute's key does not expire; the others do after 3700 seconds.
abbrev lasting : ℕ → List Scale
lasting n = record { value = n; expiry = none } ∷ []

abbrev hourly : ℕ → List Scale
hourly n = record { value = n; expiry = some 3700 } ∷ []

-- Private chutes, which their owner is billed for. `bounty` is `check_bounty_exists(chute_id)`.
pub decide_private : Info → Metrics → (bounty : Bool) → Outcome
decide_private info m bounty =
    let count = info.instance_count in
    let basis = max m.utilization_5m m.utilization_15m in
    if ltb 0 count
    then if leb info.scaling_threshold basis && ltb count info.max_instances
      then record {
        writes = lasting (count + 1);
        target = count + 1;
        action = some scale_up_candidate;
        up = none;
        down = none;
      }
      else if ltb basis info.scaling_threshold && ltb 1 count
      then record {
        writes = lasting (count - 1);
        target = count - 1;
        action = some scaled_down;
        up = none;
        down = some 1;
      }
      else record {
        writes = lasting count;
        target = count;
        action = some no_action;
        up = none;
        down = none;
      }
    else if bounty
    then record {
      writes = lasting 1;
      target = 1;
      action = some scale_up_candidate;
      up = none;
      down = none;
    }
    else record { writes = lasting 0; target = 0; action = some no_action; up = none; down = none }

-- A public chute with no instances.
pub revive : (failsafe : Option ℕ) → Outcome
revive failsafe =
    let target_count = max underutilized_cap (get_or failsafe underutilized_cap) in
    record {
      writes = hourly target_count;
      target = target_count;
      action = some scale_up_candidate;
      up = some target_count;
      down = none;
    }

-- How many instances to add at this utilisation, and at this rate of limited requests.
pub utilization_step : (basis count : ℕ) → ℕ
utilization_step basis count =
    if leb 525000 basis
    then max 3 (count / 2)
    else if leb 437500 basis
    then max 2 (count / 4)
    else 1

pub rate_limit_step : (basis count : ℕ) → ℕ
rate_limit_step basis count =
    if leb 200000 basis
    then max 3 (count * 3 / 10)
    else if leb 100000 basis
    then max 2 (count * 3 / 20)
    else max 1 (count / 20)

pub grow : (failsafe : Option ℕ) (count num_to_add : ℕ) → Outcome
grow failsafe count num_to_add =
    let target_count = max (get_or failsafe 0) (count + num_to_add) in
    record {
      writes = hourly target_count;
      target = target_count;
      action = some scale_up_candidate;
      up = some num_to_add;
      down = none;
    }

-- How many instances an underused chute gives up, before the failsafe is looked at.
unfoldable pub removal_step : (basis count : ℕ) → ℕ
removal_step basis count =
    if ltb underutilized_cap count
    then if ltb basis 100000
      then max 1 ((count - underutilized_cap) / 5)
      else if ltb basis 200000
      then max 1 ((count - underutilized_cap) / 10)
      else 1
    else 1

-- The same, cut down so that the failsafe is kept.
unfoldable pub num_to_remove : (failsafe_min basis count : ℕ) → ℕ
unfolding removal_step
num_to_remove failsafe_min basis count =
    let removal = removal_step basis count in
    if ltb (count - removal) failsafe_min
    then if ltb failsafe_min count then count - failsafe_min else 0
    else removal

pub hold : (failsafe_min count : ℕ) → Outcome
hold failsafe_min count =
    let target_count = max failsafe_min count in
    record {
      writes = hourly target_count;
      target = target_count;
      action = some no_action;
      up = none;
      down = none;
    }

unfoldable pub shrink : (failsafe : Option ℕ) (basis count : ℕ) → Outcome
unfolding num_to_remove hold
shrink failsafe basis count =
    let failsafe_min = get_or failsafe underutilized_cap in
    let removal = num_to_remove failsafe_min basis count in
    if ltb 0 removal
    then record {
      writes = hourly (count - removal);
      target = count - removal;
      action = some scaled_down;
      up = none;
      down = some removal;
    }
    else hold failsafe_min count

-- A chute less than three hours old that is not underused.
pub settle_new : (name : String) (failsafe : Option ℕ) (count : ℕ) → Outcome
unfolding lower_has
settle_new name failsafe count =
    let failsafe_min = get_or failsafe underutilized_cap in
    let target_count = if lower_has "affine" name then failsafe_min else max 10 failsafe_min in
    if leb 1 (target_count - count)
    then record {
      writes = hourly target_count;
      target = target_count;
      action = some scale_up_candidate;
      up = some (target_count - count);
      down = none;
    }
    else if ltb target_count count
    then record {
      writes = hourly target_count;
      target = target_count;
      action = some scaled_down;
      up = none;
      down = some (count - target_count);
    }
    else record {
      writes = hourly target_count;
      target = target_count;
      action = some no_action;
      up = none;
      down = none;
    }

abbrev is_override : Option ℕ → Bool
is_override none = false
is_override (some limit) = true

-- From "Check scale up conditions" on.
unfoldable pub by_metrics : Info → Metrics → (override failsafe : Option ℕ) → Outcome
by_metrics info m override failsafe =
    let count = info.instance_count in
    let rate_limit_basis = max m.rate_limit_1h m.rate_limit_15m in
    let basis = max m.utilization_1h m.utilization_15m in
    if leb utilization_scale_up basis
    then grow failsafe count (utilization_step basis count)
    else if leb rate_limit_scale_up rate_limit_basis
    then grow failsafe count (rate_limit_step rate_limit_basis count)
    else if leb underutilized_cap count
        && ltb basis utilization_scale_up
        && m.rate_limit_5m == 0
        && m.rate_limit_15m == 0
        && m.rate_limit_1h == 0
        && not info.new_chute
        && not (is_override override)
    then shrink failsafe basis count
    else if info.new_chute
    then settle_new info.name failsafe count
    else hold (get_or failsafe underutilized_cap) count

-- A chute with a manual limit: at the limit the code goes on to the other conditions.
pub by_override : Info → Metrics → (limit : ℕ) (failsafe : Option ℕ) → Outcome
by_override info m limit failsafe =
    let count = info.instance_count in
    if ltb count limit
    then record {
      writes = hourly limit;
      target = limit;
      action = some scale_up_candidate;
      up = some (limit - count);
      down = none;
    }
    else if ltb limit count
    then record {
      writes = hourly limit;
      target = limit;
      action = some scaled_down;
      up = none;
      down = some (count - limit);
    }
    else (let rest = by_metrics info m (some limit) failsafe in
        record rest { writes = record { value = limit; expiry = some 3700 } ∷ rest.writes })

unfoldable pub decide_running : Info → Metrics → (override failsafe : Option ℕ) → Outcome
decide_running info m none failsafe = by_metrics info m none failsafe
decide_running info m (some limit) failsafe = by_override info m limit failsafe

unfoldable pub decide_public : Info → Metrics → (override failsafe : Option ℕ) → Outcome
decide_public info m override failsafe =
    if info.instance_count == 0
    then revive failsafe
    else if info.has_rolling_update
    then record {
      writes = [];
      target = info.instance_count;
      action = some skipped_rolling_update;
      up = none;
      down = none;
    }
    else decide_running info m override failsafe

-- Private, billed by time, and not the platform's own.
unfoldable pub is_private : (chutes_user_id : String) → Info → Bool
unfolding has_legacy_private_billing
is_private chutes_user_id info =
    not info.public
    && not (has_legacy_private_billing info.public info.name info.created_at)
    && not (str_eq info.user_id chutes_user_id)

-- `chute_info.get(chute_id)` may be missing: then only the target is written.
unfoldable pub decide : (chutes_user_id : String) (bounty : Bool) → Option Info → Metrics → Outcome
decide chutes_user_id bounty none m = record {
  writes = [];
  target = underutilized_cap;
  action = none;
  up = none;
  down = none;
}
decide chutes_user_id bounty (some info) m =
    if is_private chutes_user_id info
    then decide_private info m bounty
    else decide_public info m (limit_override info.chute_id) (failsafe_of info.chute_id)
