-- ===== src/Autoscaler/Decide/Balance.antt =====
-- The numbers in an outcome agree with one another.
use chutes_api.Base.{
  ℕ, ◌+◌, ◌≤◌, ◌<◌, ◌≡◌, ◌≢◌, refl, Option, none, some, String, Bool, Bool-cases, inl, inr, arith,
  max, get_or, sym, ◌==◌, ltb_irrefl, Nat-cases,
}
use chutes_api.Autoscaler.Types.{
  Info, Metrics, Action, scale_up_candidate, scaled_down, Outcome, limit_override, failsafe_of,
  underutilized_cap,
}
use chutes_api.Autoscaler.Decide.{
  removal_step, num_to_remove, utilization_step, rate_limit_step, decide_private, revive, grow,
  shrink, settle_new, hold, by_metrics, by_override, decide_running, decide_public, decide,
  is_private,
}

-- Added instances fit under the target, removed ones lead from the count exactly to it, never are
-- both asked for, and instances are removed if and only if the action says so.
abbrev pub Agrees : (count target : ℕ) (action : Option Action) (up down : Option ℕ) → Type 0
Agrees count target action none none = action ≢ some scaled_down
Agrees count target action (some n) none =
    (0 < n) × (count + n ≤ target) × (action ≡ some scale_up_candidate)
Agrees count target action none (some n) =
    (0 < n) × (target + n ≡ count) × (action ≡ some scaled_down)
Agrees count target action (some n) (some k) = ⊥

abbrev pub IsBalanced : ℕ → Outcome → Type 0
IsBalanced count o = Agrees count o.target o.action o.up o.down

decide_private-IsBalanced :
    (info : Info) (m : Metrics) (bounty : Bool)
    → IsBalanced info.instance_count (decide_private info m bounty)
unfolding decide_private
decide_private-IsBalanced info m bounty = ground arith

revive-IsBalanced : (failsafe : Option ℕ) → IsBalanced 0 (revive failsafe)
unfolding revive
revive-IsBalanced failsafe = ground arith

grow-IsBalanced :
    (failsafe : Option ℕ) (count n : ℕ) → 0 < n → IsBalanced count (grow failsafe count n)
unfolding grow
grow-IsBalanced failsafe count n h = ground arith

pub utilization_step-pos : (basis count : ℕ) → 0 < utilization_step basis count
unfolding utilization_step
utilization_step-pos basis count = ground arith

rate_limit_step-pos : (basis count : ℕ) → 0 < rate_limit_step basis count
unfolding rate_limit_step
rate_limit_step-pos basis count = ground arith

removal_step-le : (basis count : ℕ) → 0 < count → removal_step basis count ≤ count
unfolding removal_step
removal_step-le basis count h = ground arith

num_to_remove-le :
    (failsafe_min basis count : ℕ) → 0 < count → num_to_remove failsafe_min basis count ≤ count
unfolding num_to_remove
num_to_remove-le failsafe_min basis count h = ground (arith, removal_step-le basis count)

shrink-IsBalanced :
    (failsafe : Option ℕ) (basis count : ℕ)
    → 0 < count
    → IsBalanced count (shrink failsafe basis count)
unfolding shrink
shrink-IsBalanced failsafe basis count h =
    ground (arith, num_to_remove-le (get_or failsafe underutilized_cap) basis count)

settle_new-IsBalanced :
    (name : String) (failsafe : Option ℕ) (count : ℕ)
    → IsBalanced count (settle_new name failsafe count)
unfolding settle_new
settle_new-IsBalanced name failsafe count = ground arith

hold-IsBalanced : (failsafe_min count : ℕ) → IsBalanced count (hold failsafe_min count)
unfolding hold
hold-IsBalanced failsafe_min count = ground arith

by_metrics-IsBalanced :
    (info : Info) (m : Metrics) (override failsafe : Option ℕ)
    → 0 < info.instance_count
    → IsBalanced info.instance_count (by_metrics info m override failsafe)
unfolding by_metrics
by_metrics-IsBalanced info m override failsafe h = ground (
  arith,
  grow-IsBalanced failsafe info.instance_count
      (utilization_step (max m.utilization_1h m.utilization_15m) info.instance_count)
      (utilization_step-pos (max m.utilization_1h m.utilization_15m) info.instance_count),
  grow-IsBalanced failsafe info.instance_count
      (rate_limit_step (max m.rate_limit_1h m.rate_limit_15m) info.instance_count)
      (rate_limit_step-pos (max m.rate_limit_1h m.rate_limit_15m) info.instance_count),
  shrink-IsBalanced failsafe (max m.utilization_1h m.utilization_15m) info.instance_count h,
  settle_new-IsBalanced info.name failsafe info.instance_count,
  hold-IsBalanced (get_or failsafe underutilized_cap) info.instance_count,
)

by_override-IsBalanced :
    (info : Info) (m : Metrics) (limit : ℕ) (failsafe : Option ℕ)
    → 0 < info.instance_count
    → IsBalanced info.instance_count (by_override info m limit failsafe)
unfolding by_override
by_override-IsBalanced info m limit failsafe h =
    let rest = by_metrics-IsBalanced info m (some limit) failsafe h in
    elim (Nat-cases info.instance_count limit) [
      | inl lt ↦ ground arith
      | inr (inl gt) ↦ ground arith
      | inr (inr e) ↦ rw (ltb_irrefl _ _ e, ltb_irrefl _ _ (sym e), by_override) rest
    ]

decide_running-IsBalanced :
    (info : Info) (m : Metrics) (override failsafe : Option ℕ)
    → 0 < info.instance_count
    → IsBalanced info.instance_count (decide_running info m override failsafe)
unfolding decide_running
decide_running-IsBalanced info m none failsafe h = by_metrics-IsBalanced info m none failsafe h
decide_running-IsBalanced info m (some limit) failsafe h =
    by_override-IsBalanced info m limit failsafe h

decide_public-IsBalanced :
    (info : Info) (m : Metrics) (override failsafe : Option ℕ)
    → IsBalanced info.instance_count (decide_public info m override failsafe)
unfolding decide_public
decide_public-IsBalanced info m override failsafe = elim (Bool-cases (info.instance_count == 0)) [
  | inl e ↦ rw (e, decide_public) (ground (arith, revive-IsBalanced failsafe))
  | inr e ↦ ground (arith, decide_running-IsBalanced info m override failsafe (ground arith))
]

-- In every decision about a chute that the query found: instances to add are more than none and
-- fit under the new target, instances to remove are more than none and lead from the present count
-- exactly to the new target, no decision asks for both, and it asks for a removal if and only if
-- its action is `scaled_down`.
pub decide-IsBalanced :
    (chutes_user_id : String) (bounty : Bool) (info : Info) (m : Metrics)
    → IsBalanced info.instance_count (decide chutes_user_id bounty (some info) m)
unfolding decide
decide-IsBalanced chutes_user_id bounty info m =
    elim (Bool-cases (is_private chutes_user_id info)) [
      | inl e ↦ rw (e, decide) (decide_private-IsBalanced info m bounty)
      | inr e ↦
          rw (e, decide)
            (decide_public-IsBalanced info m (limit_override info.chute_id)
              (failsafe_of info.chute_id))
    ]

-- A chute that the query did not find is never scaled down.
pub decide_missing :
    (chutes_user_id : String) (bounty : Bool) (m : Metrics)
    → (decide chutes_user_id bounty none m).down ≡ none
unfolding decide
decide_missing chutes_user_id bounty m = refl
