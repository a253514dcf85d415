-- ===== src/Autoscaler/Decide/Steps.antt =====
-- How the size of a step depends on the load.
use chutes_api.Base.{ℕ, ◌-◌, ◌*◌, ◌≤◌, max, arith}
use chutes_api.Autoscaler.Types.{underutilized_cap}
use chutes_api.Autoscaler.Decide.{num_to_remove}

-- A lower load never removes fewer instances, and a removal takes at most a fifth of the instances
-- above UNDERUTILIZED_CAP, or one.
num_to_remove-anti :
    (failsafe_min u v n : ℕ)
    → u ≤ v
    → (num_to_remove failsafe_min v n ≤ num_to_remove failsafe_min u n)
      × (5 * num_to_remove failsafe_min u n ≤ max 5 (n - underutilized_cap))
unfolding num_to_remove
num_to_remove-anti failsafe_min u v n h = ground arith
