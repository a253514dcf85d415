-- ===== src/Launch/Activate/Keeps.antt =====
-- The activation and the deletion of an instance keep the invariant; how many become active.
use chutes_api.Base.{
  ℕ, ◌≡◌, refl, ◌∙◌, Bool, true, false, Option, some, String, lookup, first_where,
  first_where-found, eq_iff, if◌then◌else◌,
}
use chutes_api.Admission.{at_capacity}
use chutes_api.Launch.{
  Chute, LaunchConfig, Instance, Store, forbidden, not_found, server_error, locked, is_some,
}
use chutes_api.Launch.Keeps.{
  Ends, >>=-Ends, require-Ends, the-Ends, IsTracked, Inv, remove_instance-Inv, Inv-others,
}
use chutes_api.Launch.Entry.{load_launch_config}
use chutes_api.Launch.Entry.Keeps.{load_launch_config-Loaded}
use chutes_api.Launch.Verify.{of_config, of_instance}
use chutes_api.Launch.Verify.Keeps.{mark-Inv}
use chutes_api.Launch.Activate.{
  may_activate, activate, activate_launch_config_instance, fail_job, of_miner, delete_instance,
}

activate-Inv :
    (now : ℕ) (chutes_user : String) (chute : Chute) (config : LaunchConfig) (instance : Instance)
    (s : Store)
    → Inv s
    → lookup instance.config_id s.configs ≡ some config
    → is_some config.verified_at ≡ true
    → IsTracked s.configs instance
    → Inv (activate now chutes_user chute config instance s)
unfolding activate
activate-Inv now chutes_user chute config instance s h row verified t =
    let next = activate now chutes_user chute config instance s in
    Inv-others (record s { instances = next.instances }) next refl refl
      (mark-Inv instance _ config s h refl row verified t)

if-Inv : (b : Bool) (s t : Store) → Inv s → Inv t → Inv (if b then s else t)
if-Inv true s t h k = h
if-Inv false s t h k = k

-- Whatever comes of an activation, the invariant stays.
pub activate_launch_config_instance-Inv :
    (now : ℕ) (chutes_user : String) (decode : String → Option String) (config_id token : String)
    (s : Store)
    → Inv s
    → Ends Inv Inv (activate_launch_config_instance now chutes_user decode config_id token s)
unfolding activate_launch_config_instance
activate_launch_config_instance-Inv now chutes_user decode config_id token s h =
    >>=-Ends Inv Inv (load_launch_config now decode config_id token true s) _
      (load_launch_config-Loaded Inv now decode config_id token true s h h)
      (λ loaded l.
        let config = loaded.0 in
        let noted = loaded.1 in
        require-Ends Inv Inv (is_some config.verified_at) s forbidden _ h (λ verified.
          the-Ends Inv Inv (first_where (of_config config.config_id) noted.instances) s not_found _
            h
            (λ instance found.
              the-Ends Inv Inv (lookup instance.chute_id noted.chutes) s server_error _ h
                (λ chute known.
                  require-Ends Inv Inv (may_activate now chutes_user chute noted) s
                    (locked at_capacity) _ h
                    (λ room.
                      let (mine, tracked) =
                        first_where-found (IsTracked noted.configs) (of_config config.config_id)
                          noted.instances instance l.inv.tracked found in
                      let same : instance.config_id ≡ config_id =
                        (eq_iff instance.config_id config.config_id).0 mine ∙ l.is_key in
                      if-Inv instance.active noted
                        (activate now chutes_user chute config instance noted) l.inv
                        (activate-Inv now chutes_user chute config instance noted l.inv
                          (rw same l.row) verified tracked))))))

-- A miner may delete its instances at any time.
pub delete_instance-Inv :
    (now : ℕ) (chute_id instance_id hotkey : String) (s : Store)
    → Inv s
    → Ends Inv Inv (delete_instance now chute_id instance_id hotkey s)
unfolding delete_instance
delete_instance-Inv now chute_id instance_id hotkey s h =
    the-Ends Inv Inv (of_miner instance_id chute_id hotkey (lookup instance_id s.instances)) s
      not_found _ h
      (λ instance mine.
        let jobs = fail_job now (first_where (of_instance instance_id) s.jobs) s.jobs in
        remove_instance-Inv instance_id (record s { jobs = jobs })
          (Inv-others s (record s { jobs = jobs }) refl refl h))
