-- ===== src/Admission/Samples.antt =====
-- Requests for one more instance.
use chutes_api.Base.{lookup, insert}
use chutes_api.Admission.{
  target_count, use_permit, check_target, check_rolling, check_scalable, can_activate_private,
}
use chutes_api.Admission.Capacity.{Pool}

admission : Unit {0}
unfolding check_scalable check_rolling check_target use_permit target_count can_activate_private
    insert lookup
admission = tt

abbrev pending_one : Pool
pending_one = record { pending = 1; active = 0 }

abbrev active_one : Pool
active_one = record { pending = 0; active = 1 }
