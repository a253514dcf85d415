-- ===== src/Launch/Activate/Samples.antt =====
-- The activation of a verified launch.
use chutes_api.Base.{◌≡◌, refl, true, [], ◌∷◌, some, String, Option, lookup, first_where}
use chutes_api.Launch.{LaunchConfig, Instance, Store, go, is_billed}
use chutes_api.Launch.Entry.Loading.{load_launch_config-again}
use chutes_api.Launch.Course.{committed}
use chutes_api.Launch.Activate.{may_activate, activate_launch_config_instance}
use chutes_api.Launch.Activate.Bounds.{IsActivated, activate_launch_config_instance-bound}
use chutes_api.Launch.Activate.Succeeds.{
  IsReady, IsActiveIn, activate_launch_config_instance-succeeds,
}
use chutes_api.Launch.Samples.{chute}
use chutes_api.Launch.Verify.Samples.{retrieved, instance, claimed_store}

abbrev verified : LaunchConfig
verified = record retrieved { verified_at = some 60 }

abbrev proved : Instance
proved = record instance { verified = true }

abbrev proved_store : Store
proved_store = record claimed_store {
  configs = ("k1", verified) ∷ [];
  instances = ("i1", proved) ∷ [];
}

abbrev opens : String → Option String
opens token = some "k1"

is_ready : IsReady "chutes" opens "k1" "token" proved_store proved
unfolding lookup first_where is_billed
is_ready = record {
  config = verified;
  chute = chute;
  start = 25;
  verified = 60;
  opens = refl;
  row = refl;
  was_retrieved = refl;
  was_verified = refl;
  has_instance = refl;
  is_row = refl;
  is_chute = refl;
  unbilled = refl;
}

activate_launch_config_instance-succeeds_example :
    (t : Store) × (activate_launch_config_instance 70 "chutes" opens "k1" "token" proved_store
      ≡ go t)
    × IsActiveIn t proved
activate_launch_config_instance-succeeds_example =
    activate_launch_config_instance-succeeds 70 "chutes" opens "k1" "token" proved_store proved
      is_ready

abbrev active_store : Store
active_store =
    committed (λ t. t) (activate_launch_config_instance 70 "chutes" opens "k1" "token" proved_store)

accepts :
    activate_launch_config_instance 70 "chutes" opens "k1" "token" proved_store ≡ go active_store
unfolding activate_launch_config_instance may_activate is_billed lookup first_where
accepts =
    rw (load_launch_config-again 70 opens "k1" "token" proved_store verified 25 refl refl refl) refl

activate_launch_config_instance-bound_example : IsActivated "chutes" "k1" proved_store active_store
activate_launch_config_instance-bound_example =
    activate_launch_config_instance-bound 70 "chutes" opens "k1" "token" proved_store active_store
      accepts
