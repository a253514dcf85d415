-- ===== src/Launch/Claim/Keeps.antt =====
-- A claim keeps the invariant, whatever comes of it.
use chutes_api.Base.{
  ℕ, ◌≡◌, refl, sym, ap, ◌∙◌, subst, Bool, true, false, not, ◌&&◌, ◌||◌, Option, none, some, String,
  lookup, insert, is_none, get_or, str_eq, Bool-cases, AllRows-insert, inl, inr, arith,
}
use chutes_api.Launch.{
  Chute, LaunchConfig, Instance, Store, forbidden, not_found, conflict, server_error, go, is_some,
  save_config,
}
use chutes_api.Launch.Keeps.{
  Ends, Checked, >>-Ends, require-Ends, the-Ends, require-Checked, IsSound, IsTracked, Inv,
  save_config-Inv, fail_config-Inv, Inv-others, SameRows,
}
use chutes_api.Launch.Entry.Keeps.{Loaded}
use chutes_api.Launch.Claim.{
  LaunchConfigArgs, Services, read_source, check_environment, is_value, check_filesystem, take_job,
  assign_job, received, same_ports, attach_job, fail_row, note_retrieval,
}

-- The launch of a claim has not been retrieved before, so it is not verified.
pub Loaded-unverified :
    (s : Store) (config_id : String) (found : LaunchConfig × Store)
    → Inv s
    → Loaded false s config_id found
    → is_none found.0.verified_at ≡ true
Loaded-unverified s config_id found h l = elim l.first [
  | inl e ↦ absurd cc
  | inr e ↦
      let was : IsSound config_id l.old = h.sound config_id l.old l.was in
      elim (Bool-cases (is_none l.old.verified_at)) [
        | inl v ↦ rw l.same_verified v
        | inr v ↦
            let r : is_some l.old.retrieved_at ≡ true = was.retrieved (rw v refl) in
            absurd (ground arith)
      ]
]

pub check_environment-Checked :
    (P : Store → Type 0) (services : Services) (chute : Chute) (config : LaunchConfig)
    (args : LaunchConfigArgs) (failed : Store)
    → P failed
    → Checked P (check_environment services chute config args failed)
unfolding check_environment
check_environment-Checked P services chute config args failed h =
    elim (Bool-cases services.envdump_unlock) [
      | inr e ↦ rw e tt
      | inl e ↦
          rw e
            let U : Unit {0} → Type 0 = λ _. Unit {0} in
              the-Ends P U (services.decrypt config.env_key args.env) failed forbidden _ h
                (λ dump ok.
                  the-Ends P U (read_source services (services.decrypt config.env_key args.code))
                    failed forbidden _ h
                    (λ code ok.
                      >>-Ends P U _ _
                        (require-Checked P
                          (services.expected_command dump chute config.miner_hotkey) failed
                          forbidden h)
                        (>>-Ends P U _ _
                          (require-Checked P (str_eq code chute.code) failed forbidden h)
                          (require-Checked P (services.kubernetes_env chute dump) failed forbidden
                            h))))
    ]

pub check_filesystem-Checked :
    (P : Store → Type 0) (services : Services) (chute : Chute) (config : LaunchConfig)
    (args : LaunchConfigArgs) (failed : Store)
    → P failed
    → Checked P (check_filesystem services chute config args failed)
unfolding check_filesystem
check_filesystem-Checked P services chute config args failed h =
    require-Checked P
      (not (services.recent chute.chutes_version && services.cfsv_op)
        || is_value args.fsv (services.fs_hash chute config.config_id))
      failed forbidden h

pub assign_job-SameRows :
    (P : Store → Type 0) (config : LaunchConfig) (job_id : Option String) (s failed : Store)
    → P failed
    → Ends P (SameRows s) (assign_job config job_id s failed)
unfolding assign_job
assign_job-SameRows P config none s failed h = (refl, refl)
assign_job-SameRows P config (some job_id) s failed h =
    the-Ends P (SameRows s) (take_job config.miner_hotkey (lookup job_id s.jobs)) failed conflict _
      h (λ job free. (refl, refl))

pub attach_job-SameRows :
    (P : Store → Type 0) (taken : Bool) (chute : Chute) (instance : Instance)
    (job_id : Option String) (s rolled_back : Store)
    → P rolled_back
    → Ends P (SameRows s) (attach_job taken chute instance job_id s rolled_back)
unfolding attach_job
attach_job-SameRows P taken chute instance none s rolled_back h = (refl, refl)
attach_job-SameRows P taken chute instance (some job_id) s rolled_back h =
    require-Ends P (SameRows s) (not taken) rolled_back server_error _ h (λ free.
      the-Ends P (SameRows s) (lookup job_id s.jobs) rolled_back not_found _ h (λ job found.
        the-Ends P (SameRows s) (lookup job.method chute.jobs) rolled_back server_error _ h
          (λ expected known.
            require-Ends P (SameRows s) (same_ports expected (received instance.port_mappings))
              rolled_back forbidden (go _) h (λ same. (refl, refl)))))

-- The row of a launch that fails alone is not verified.
pub fail_row-Inv :
    (now : ℕ) (config_id : String) (o : Option LaunchConfig) (s : Store)
    → lookup config_id s.configs ≡ o
    → ((c : LaunchConfig) → o ≡ some c → is_none c.verified_at ≡ true)
    → Inv s
    → Inv (fail_row now o s)
fail_row-Inv now config_id none s e unverified h = h
fail_row-Inv now config_id (some c) s e unverified h =
    fail_config-Inv now c s
      (subst (λ k. lookup k s.configs ≡ some c) (sym (h.sound config_id c e).is_key) e)
      (unverified c refl) h

pub note_retrieval-Inv :
    (later : ℕ) (config_id : String) (o : Option LaunchConfig) (s : Store)
    → lookup config_id s.configs ≡ o
    → Inv s
    → Inv (note_retrieval later o s)
note_retrieval-Inv later config_id none s e h = h
note_retrieval-Inv later config_id (some c) s e h =
    let was : IsSound config_id c = h.sound config_id c e in
    save_config-Inv c (record c { retrieved_at = some later }) s
      (subst (λ k. lookup k s.configs ≡ some c) (sym was.is_key) e)
      (record {
        same_id = refl;
        still_retrieved = λ r. refl;
        still_verified = λ v. v;
        retrieved = λ v. refl;
        not_failed = was.not_failed;
      })
      h

-- The new instance, before it is verified.
pub add_instance-Inv :
    (instance : Instance) (config : LaunchConfig) (s t : Store)
    → Inv s
    → SameRows s t
    → lookup instance.config_id s.configs ≡ some config
    → is_some config.retrieved_at ≡ true
    → instance.verified ≡ false
    → instance.active ≡ false
    → Inv (record t { instances = insert instance.instance_id instance t.instances })
add_instance-Inv instance config s t h same row retrieved v a =
    let h' : Inv t = Inv-others s t same.0 same.1 h in
    let found : (c : LaunchConfig) → lookup instance.config_id t.configs ≡ some c → config ≡ c =
      λ c. λ e.
        ap (λ o. get_or o config) (sym row ∙ (ap (lookup instance.config_id) (sym same.0) ∙ e)) in
    record {
      sound = h'.sound;
      tracked =
          AllRows-insert (IsTracked t.configs) instance.instance_id instance t.instances
            (record {
              retrieved =
                  λ c. λ e. subst (λ d. is_some d.retrieved_at ≡ true) (found c e) retrieved;
              passed = λ c. λ e. λ v_or_a. absurd (ground arith);
            })
            h'.tracked;
    }

pub save_seed-Inv :
    (config : LaunchConfig) (seed : ℕ) (s : Store)
    → lookup config.config_id s.configs ≡ some config
    → is_none config.verified_at ≡ true
    → Inv s
    → Inv (save_config (record config { seed = seed }) s)
save_seed-Inv config seed s row unverified h =
    save_config-Inv config (record config { seed = seed }) s row
      (record {
        same_id = refl;
        still_retrieved = λ r. r;
        still_verified = λ v. v;
        retrieved = λ v. absurd (ground arith);
        not_failed = λ v. absurd (ground arith);
      })
      h
