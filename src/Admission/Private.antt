-- ===== src/Admission/Private.antt =====
-- Private chutes: the check at the launch and the check at the activation.
use chutes_api.Base.{
  ℕ, ◌+◌, ◌≤◌, max, Option, get_or, ◌<◌, ◌≡◌, ◌≢◌, ◌⊎◌, Bool, true, false, some, arith, ◌↔◌,
}
use chutes_api.Admission.{allowed, check_scalable_private, can_activate_private}

-- A launch is admitted exactly when there is a bounty or an active instance, and the active ones are
-- below the target or the target is zero. Instances still pending do not count.
check_scalable_private-allowed :
    (active target : ℕ) (bounty : Bool)
    → (check_scalable_private active (some target) bounty ≡ allowed)
      ↔ (((active ≢ 0) ⊎ (bounty ≡ true)) × ((target ≡ 0) ⊎ (active < target)))
unfolding check_scalable_private
check_scalable_private-allowed active target bounty = (λ e. ground arith, λ h. ground arith)

-- With instances active and a target of zero a launch is admitted that no activation will accept.
launch_without_activation :
    (active : ℕ) (bounty : Bool)
    → active ≢ 0
    → (check_scalable_private active (some 0) bounty ≡ allowed)
      × (can_activate_private active (some 0) bounty ≡ false)
unfolding check_scalable_private can_activate_private
launch_without_activation active bounty busy = (ground arith, ground arith)

pub can_activate_private-below :
    (active : ℕ) (scale_value : Option ℕ) (bounty : Bool)
    → can_activate_private active scale_value bounty ≡ true
    → active + 1 ≤ max 1 (get_or scale_value 0)
unfolding can_activate_private
can_activate_private-below active scale_value bounty e = ground arith
