-- ===== src/Autoscaler/Decide/Limits.antt =====
-- How far a decision may go: failsafe minimums, private chutes, manual limits, new chutes.
use chutes_api.Base.{
  ℕ, ◌+◌, ◌-◌, ◌≤◌, ◌<◌, max, ◌≡◌, ◌⊎◌, refl, Option, none, some, String, Bool, true, false, arith,
  get_or, if◌then◌else◌, lower_has, le→leb, lt→leb_false,
}
use chutes_api.Autoscaler.Types.{
  Info, Metrics, scale_up_candidate, Outcome, underutilized_cap, utilization_scale_up,
  rate_limit_scale_up,
}
use chutes_api.Autoscaler.Decide.{
  revive, grow, num_to_remove, shrink, settle_new, hold, decide_private, by_metrics, by_override,
  decide_running, decide_public, utilization_step, rate_limit_step,
}
use chutes_api.Autoscaler.Decide.Balance.{utilization_step-pos}

-- A removal stops at the minimum.
abbrev Keeps : (least : ℕ) → Outcome → Type 0
Keeps least o = (n : ℕ) → o.down ≡ some n → least ≤ o.target

num_to_remove-Keeps :
    (failsafe_min basis count : ℕ)
    → 0 < num_to_remove failsafe_min basis count
    → failsafe_min ≤ count - num_to_remove failsafe_min basis count
unfolding num_to_remove
num_to_remove-Keeps failsafe_min basis count h = ground arith

shrink-Keeps :
    (failsafe : Option ℕ) (basis count : ℕ)
    → Keeps (get_or failsafe underutilized_cap) (shrink failsafe basis count)
unfolding shrink
shrink-Keeps failsafe basis count n e =
    ground (arith, num_to_remove-Keeps (get_or failsafe underutilized_cap) basis count)

settle_new-Keeps :
    (name : String) (failsafe : Option ℕ) (count : ℕ)
    → Keeps (get_or failsafe underutilized_cap) (settle_new name failsafe count)
unfolding settle_new
settle_new-Keeps name failsafe count n e = ground arith

grow-Keeps : (least : ℕ) (failsafe : Option ℕ) (count k : ℕ) → Keeps least (grow failsafe count k)
unfolding grow
grow-Keeps least failsafe count k n e = cc

hold-Keeps : (least failsafe_min count : ℕ) → Keeps least (hold failsafe_min count)
unfolding hold
hold-Keeps least failsafe_min count n e = cc

by_metrics-Keeps :
    (info : Info) (m : Metrics) (override failsafe : Option ℕ)
    → Keeps (get_or failsafe underutilized_cap) (by_metrics info m override failsafe)
unfolding by_metrics
by_metrics-Keeps info m override failsafe n e =
    let least = get_or failsafe underutilized_cap in
    let count = info.instance_count in
    let limited = max m.rate_limit_1h m.rate_limit_15m in
    let basis = max m.utilization_1h m.utilization_15m in
    ground (
      arith,
      grow-Keeps least failsafe count (utilization_step basis count) n,
      grow-Keeps least failsafe count (rate_limit_step limited count) n,
      shrink-Keeps failsafe basis count n,
      settle_new-Keeps info.name failsafe count n,
      hold-Keeps least least count n,
    )

-- A public chute with no manual limit is never scaled down below its failsafe minimum, which is
-- UNDERUTILIZED_CAP where FAILSAFE has no entry.
pub decide_public-Keeps :
    (info : Info) (m : Metrics) (failsafe : Option ℕ) (n : ℕ)
    → (decide_public info m none failsafe).down ≡ some n
    → get_or failsafe underutilized_cap ≤ (decide_public info m none failsafe).target
unfolding decide_public decide_running revive
decide_public-Keeps info m failsafe n e = ground (arith, by_metrics-Keeps info m none failsafe n)

-- A private chute with no instances gets a target of one if it has a bounty and of none otherwise; one
-- with running instances moves by at most one instance in a pass, never to none and never above
-- the larger of its present count and its `max_instances`.
decide_private-bounds :
    (info : Info) (m : Metrics) (bounty : Bool)
    → let o = decide_private info m bounty in
      ((info.instance_count ≡ 0) × (o.target ≡ (if bounty then 1 else 0)))
      ⊎ ((o.target ≤ info.instance_count + 1)
          × (info.instance_count ≤ o.target + 1)
          × (0 < o.target)
          × (o.target ≤ max info.instance_count info.max_instances))
unfolding decide_private
decide_private-bounds info m bounty = ground arith

-- Which branch is taken, while the rest stays shut.
decide_public-runs :
    (info : Info) (m : Metrics) (override failsafe : Option ℕ)
    → 0 < info.instance_count
    → info.has_rolling_update ≡ false
    → decide_public info m override failsafe ≡ decide_running info m override failsafe
unfolding decide_public
decide_public-runs info m override failsafe pos still = ground arith

by_override-at_limit :
    (info : Info) (m : Metrics) (limit : ℕ) (failsafe : Option ℕ)
    → info.instance_count ≡ limit
    → let rest = by_metrics info m (some limit) failsafe in
      let o = by_override info m limit failsafe in
      (o.target ≡ rest.target) × (o.action ≡ rest.action)
unfolding by_override
by_override-at_limit info m limit failsafe at = ground arith

by_metrics-busy :
    (info : Info) (m : Metrics) (override failsafe : Option ℕ)
    → utilization_scale_up ≤ max m.utilization_1h m.utilization_15m
    → by_metrics info m override failsafe
      ≡ grow failsafe info.instance_count
          (utilization_step (max m.utilization_1h m.utilization_15m) info.instance_count)
unfolding by_metrics
by_metrics-busy info m override failsafe busy = rw (le→leb _ _ busy)

by_metrics-new :
    (info : Info) (m : Metrics) (override failsafe : Option ℕ)
    → info.new_chute ≡ true
    → max m.utilization_1h m.utilization_15m < utilization_scale_up
    → max m.rate_limit_1h m.rate_limit_15m < rate_limit_scale_up
    → by_metrics info m override failsafe ≡ settle_new info.name failsafe info.instance_count
unfolding by_metrics
by_metrics-new info m override failsafe fresh idle limited =
    rw (lt→leb_false _ _ idle, lt→leb_false _ _ limited, fresh) (ground arith)

-- A chute that runs exactly as many instances as its manual limit and is used above the threshold is
-- given a target above that limit, and is listed for scaling up.
decide_public-passes_limit :
    (info : Info) (m : Metrics) (limit : ℕ) (failsafe : Option ℕ)
    → info.instance_count ≡ limit
    → 0 < limit
    → info.has_rolling_update ≡ false
    → utilization_scale_up ≤ max m.utilization_1h m.utilization_15m
    → let o = decide_public info m (some limit) failsafe in
      (limit < o.target) × (o.action ≡ some scale_up_candidate)
unfolding decide_running grow
decide_public-passes_limit info m limit failsafe at pos still busy =
    let basis = max m.utilization_1h m.utilization_15m in
    let (target, action) = by_override-at_limit info m limit failsafe at in
    rw
      (
        decide_public-runs info m (some limit) failsafe (omega arith) still,
        target,
        action,
        by_metrics-busy info m (some limit) failsafe busy,
      )
      (omega (arith, utilization_step-pos basis info.instance_count), refl)

-- A new chute that is not one of affine's, has no manual limit, is used below the threshold and is not
-- rate limited, is scaled down at once to the larger of 10 and its failsafe minimum, however
-- many more instances it has: its present count does not enter the target.
decide_public-new_chute :
    (info : Info) (m : Metrics) (failsafe : Option ℕ)
    → info.new_chute ≡ true
    → info.has_rolling_update ≡ false
    → lower_has "affine" info.name ≡ false
    → max m.utilization_1h m.utilization_15m < utilization_scale_up
    → max m.rate_limit_1h m.rate_limit_15m < rate_limit_scale_up
    → max 10 (get_or failsafe underutilized_cap) < info.instance_count
    → let o = decide_public info m none failsafe in
      let target = max 10 (get_or failsafe underutilized_cap) in
      (o.target ≡ target) × (o.down ≡ some (info.instance_count - target))
unfolding decide_running
decide_public-new_chute info m failsafe fresh still name idle limited above =
    rw
      (
        decide_public-runs info m none failsafe (omega arith) still,
        by_metrics-new info m none failsafe fresh idle limited,
      )
      (unfold settle_new in ground arith)
