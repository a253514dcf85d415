-- ===== src/Launch/Activate/Succeeds.antt =====
-- A launch that has come so far comes to its end.
use chutes_api.Base.{
  ℕ, ◌≡◌, refl, true, false, Option, some, String, lookup, lookup-insert_self, Bool-cases,
  first_where, inl, inr, if◌then◌else◌,
}
use chutes_api.Launch.{Chute, LaunchConfig, Instance, Store, go, is_billed}
use chutes_api.Launch.Entry.Loading.{load_launch_config-again}
use chutes_api.Launch.Verify.{of_config}
use chutes_api.Launch.Activate.{may_activate, activate, activate_launch_config_instance}

-- A verified launch with its instance, of a chute that is public or not billed by time.
pub record IsReady (chutes_user : String) (decode : String → Option String)
    (config_id token : String) (s : Store) (instance : Instance) : Type 0 where
  pub config : LaunchConfig
  pub chute : Chute
  pub start : ℕ
  pub verified : ℕ
  pub opens : decode token ≡ some config_id
  pub row : lookup config_id s.configs ≡ some config
  pub was_retrieved : config.retrieved_at ≡ some start
  pub was_verified : config.verified_at ≡ some verified
  pub has_instance : first_where (of_config config.config_id) s.instances ≡ some instance
  pub is_row : lookup instance.instance_id s.instances ≡ some instance
  pub is_chute : lookup instance.chute_id s.chutes ≡ some chute
  pub unbilled : is_billed chutes_user chute ≡ false

abbrev pub IsActiveIn : Store → Instance → Type 0
IsActiveIn t instance =
    (i : Instance) × (lookup instance.instance_id t.instances ≡ some i)
    × (i.active ≡ true)
    × (i.chute_id ≡ instance.chute_id)

activate-IsActiveIn :
    (now : ℕ) (chutes_user : String) (chute : Chute) (config : LaunchConfig) (instance : Instance)
    (s : Store)
    → lookup instance.instance_id s.instances ≡ some instance
    → IsActiveIn
        (if instance.active then s else activate now chutes_user chute config instance s)
        instance
unfolding activate
activate-IsActiveIn now chutes_user chute config instance s row =
    elim (Bool-cases instance.active) [
      | inl e ↦ rw e (instance, row, e, refl)
      | inr e ↦ rw e (_, lookup-insert_self instance.instance_id _ s.instances, refl, refl)
    ]

-- A verified launch whose instance is there is activated, if the chute is public or not billed by
-- time: the request is accepted, and afterwards the instance is active.
pub activate_launch_config_instance-succeeds :
    (now : ℕ) (chutes_user : String) (decode : String → Option String) (config_id token : String)
    (s : Store) (instance : Instance)
    → IsReady chutes_user decode config_id token s instance
    → (t : Store) × (activate_launch_config_instance now chutes_user decode config_id token s
        ≡ go t)
      × IsActiveIn t instance
unfolding activate_launch_config_instance may_activate
activate_launch_config_instance-succeeds now chutes_user decode config_id token s instance r = (
  if instance.active then s else activate now chutes_user r.chute r.config instance s,
  rw
      (
        load_launch_config-again now decode config_id token s r.config r.start r.opens r.row
            r.was_retrieved,
        r.was_verified,
        r.has_instance,
        r.is_chute,
        r.unbilled,
      )
      refl,
  activate-IsActiveIn now chutes_user r.chute r.config instance s r.is_row,
)
