-- ===== src/Launch/Claim/Outcome.antt =====
-- The outcome of a claim: where it is granted, the invariant stays; where it is refused, the tables are
-- those of before or those of a launch that failed.
use chutes_api.Base.{
  ◌⊎◌, ℕ, ◌≡◌, refl, sym, ap, ◌∙◌, subst, true, false, some, String, lookup, insert, is_none,
  get_or, inl, inr,
}
use chutes_api.Gpus.{supported, compute_multiplier}
use chutes_api.Launch.{
  Chute, LaunchConfig, Instance, Store, bad_request, not_found, server_error, Run, go, halt,
  fail_config,
}
use chutes_api.Launch.Keeps.{
  Ends, >>=-Ends, >>-Ends, require-Ends, the-Ends, Inv, fail_config-Inv, Inv-others,
}
use chutes_api.Launch.Entry.{load_launch_config}
use chutes_api.Launch.Entry.Keeps.{Loaded, load_launch_config-Loaded, admission-Checked}
use chutes_api.Launch.Nodes.{is_taken, validate_nodes}
use chutes_api.Launch.Nodes.Keeps.{validate_nodes-SameRows}
use chutes_api.Launch.Claim.Keeps.{
  Loaded-unverified, check_environment-Checked, check_filesystem-Checked, assign_job-SameRows,
  attach_job-SameRows, fail_row-Inv, note_retrieval-Inv, add_instance-Inv, save_seed-Inv,
}
use chutes_api.Launch.Claim.{
  LaunchConfigArgs, Services, check_filesystem, assign_job, first_port, new_instance, attach_job,
  same_address, fail_afterwards, create_instance, claim_launch_config,
}
use chutes_api.Launch.Entry.Noted.{IsFailed, read-IsNoted, fail_config-IsFailed}

module _ (P : Store → Type 0) (now : ℕ) (config_id : String) (s : Store) (h : Inv s) (p : P s)
    (fails : (config : LaunchConfig) (noted : Store)
      → config.config_id ≡ config_id
      → Loaded false s config.config_id (config, noted)
      → P (fail_config now config noted))
    (fails_afterwards : (config : LaunchConfig) (noted : Store)
      → config.config_id ≡ config_id
      → Loaded false s config.config_id (config, noted)
      → P (fail_afterwards now config.config_id s)) where
  create_instance-Ends :
      (services : Services) (instance_id key : String) (chute : Chute) (config : LaunchConfig)
      (args : LaunchConfigArgs) (noted : Store)
      → config.config_id ≡ config_id
      → Loaded false s config.config_id (config, noted)
      → Ends P
          (λ r. Inv r.0)
          (create_instance services now instance_id key chute config args noted s)
  unfolding create_instance new_instance
  create_instance-Ends services instance_id key chute config args noted is_key l =
      let R : Store × Instance → Type 0 = λ r. Inv r.0 in
      let unverified = Loaded-unverified s config.config_id (config, noted) h l in
      >>=-Ends P R (assign_job config config.job_id noted (fail_config now config noted)) _
        (assign_job-SameRows P config config.job_id noted (fail_config now config noted)
          (fails config noted is_key l))
        (λ assigned same_1.
          the-Ends P R (first_port args.port_mappings) s server_error _ p (λ port has_port.
            the-Ends P R (compute_multiplier supported chute.node_selector) s server_error _ p
              (λ multiplier known.
                let instance =
                  new_instance services instance_id key chute config args port multiplier in
                let taken = is_taken instance noted.instances in
                >>=-Ends P R (attach_job taken chute instance config.job_id assigned s) _
                  (attach_job-SameRows P taken chute instance config.job_id assigned s p)
                  (λ attached same_2.
                    let added : Store = record attached {
                      instances = insert instance_id instance attached.instances;
                    } in
                    let failed = fail_afterwards now config.config_id s in
                    >>=-Ends P R
                      (validate_nodes taken chute args.gpus config.miner_hotkey instance added
                        failed)
                      _
                      (validate_nodes-SameRows P failed (fails_afterwards config noted is_key l)
                        taken chute args.gpus config.miner_hotkey instance added)
                      (λ validated same_3.
                        the-Ends P R (services.encrypt validated.1) s server_error _ p (λ seed made.
                          save_seed-Inv config seed validated.0
                            (subst (λ c. lookup config.config_id c ≡ some config)
                              (sym (same_3.0 ∙ same_2.0 ∙ same_1.0)) l.row)
                            unverified
                            (Inv-others added validated.0 same_3.0 same_3.1 (
                              add_instance-Inv instance config noted attached l.inv
                                (same_2.0 ∙ same_1.0, same_2.1 ∙ same_1.1) l.row l.now_retrieved
                                refl refl))))))))

  pub claim_launch_config-Ends :
      (services : Services) (later : ℕ) (instance_id key token ip : String)
      (args : LaunchConfigArgs)
      → Ends P
          (λ r. Inv r.0)
          (claim_launch_config services now later instance_id key config_id token ip args s)
  unfolding claim_launch_config
  claim_launch_config-Ends services later instance_id key token ip args =
      let R : Store × Instance → Type 0 = λ r. Inv r.0 in
      >>=-Ends P R (load_launch_config now services.decode config_id token false s) _
        (load_launch_config-Loaded P now services.decode config_id token false s h p)
        (λ loaded l.
          let config = loaded.0 in
          let noted = loaded.1 in
          let failed = fail_config now config noted in
          let l' : Loaded false s config.config_id (config, noted) =
            subst (λ k. Loaded false s k (config, noted)) (sym l.is_key) l in
          let failed_kept : P failed = fails config noted l.is_key l' in
          the-Ends P R (lookup config.chute_id noted.chutes) s not_found _ p (λ chute found.
            >>-Ends P R _ _
              (admission-Checked P now services.chutes_user chute config.miner_hotkey config.job_id
                noted s p)
              (require-Ends P R (same_address config.job_id ip args.host) s bad_request _ p (λ same.
                >>-Ends P R _ _
                  (check_environment-Checked P services chute config args failed failed_kept)
                  (>>-Ends P R (check_filesystem services chute config args failed) _
                    (check_filesystem-Checked P services chute config args failed failed_kept)
                    (>>=-Ends P R
                      (create_instance services now instance_id key chute config args noted s) _
                      (create_instance-Ends services instance_id key chute config args noted
                        l.is_key l')
                      (λ created inv.
                        note_retrieval-Inv later config_id (lookup config_id created.0.configs)
                          created.0 refl inv)))))))

-- The row that the token opens is not verified, as it was before it was noted.
was_unverified :
    (s : Store) (config_id : String) (found : LaunchConfig × Store)
    → Inv s
    → Loaded false s config_id found
    → (c : LaunchConfig) → lookup config_id s.configs ≡ some c
    → is_none c.verified_at ≡ true
was_unverified s config_id found h l c e =
    subst (λ d. is_none d.verified_at ≡ true) (ap (λ o. get_or o l.old) (sym l.was ∙ e))
      (rw (sym l.same_verified) (Loaded-unverified s config_id found h l))

-- Whatever comes of a claim, the invariant stays.
pub claim_launch_config-Inv :
    (services : Services) (now later : ℕ) (instance_id key config_id token ip : String)
    (args : LaunchConfigArgs) (s : Store)
    → Inv s
    → Ends Inv
        (λ r. Inv r.0)
        (claim_launch_config services now later instance_id key config_id token ip args s)
claim_launch_config-Inv services now later instance_id key config_id token ip args s h =
    claim_launch_config-Ends Inv now config_id s h h
      (λ config noted is_key l.
        fail_config-Inv now config noted l.row
          (Loaded-unverified s config.config_id (config, noted) h l) l.inv)
      (λ config noted is_key l.
        fail_row-Inv now config.config_id (lookup config.config_id s.configs) s refl
          (was_unverified s config.config_id (config, noted) h l) h)
      services later instance_id key token ip args

abbrev pub IsUndone : (config_id : String) (s t : Store) → Type 0
IsUndone config_id s t = (t ≡ s) ⊎ IsFailed config_id s t

Ends-any :
    {A : Type 0} (P : Store → Type 0) (Q : A → Type 0) (m : Run A)
    → Ends P Q m
    → Ends P (λ _. Unit {0}) m
Ends-any P Q (go a) h = tt
Ends-any P Q (halt s r) h = h

-- A claim that is refused commits nothing, or only the failure of its launch: the row of its launch says
-- that it failed, and is as it was but for that and the time of its retrieval; the job of the launch, if
-- it has one, is left without a miner and an instance, whoever held it; and every other row of every
-- table is as it was. (The tables have the invariant of the launches.)
pub claim_launch_config-refused :
    (services : Services) (now later : ℕ) (instance_id key config_id token ip : String)
    (args : LaunchConfigArgs) (s : Store)
    → Inv s
    → Ends
        (IsUndone config_id s)
        (λ _. Unit {0})
        (claim_launch_config services now later instance_id key config_id token ip args s)
claim_launch_config-refused services now later instance_id key config_id token ip args s h =
    Ends-any (IsUndone config_id s) (λ r. Inv r.0)
      (claim_launch_config services now later instance_id key config_id token ip args s)
      (claim_launch_config-Ends (IsUndone config_id s) now config_id s h (inl refl)
        (λ config noted is_key l. inr (
          subst (λ k. IsFailed k s (fail_config now config noted)) is_key
            (fail_config-IsFailed now config.config_id l.old config s noted l.was refl l.noted)))
        (λ config noted is_key l. inr (
          rw l.was (
            subst (λ k. IsFailed k s (fail_config now l.old s)) is_key
              (fail_config-IsFailed now config.config_id l.old l.old s s l.was
                (h.sound config.config_id l.old l.was).is_key
                (read-IsNoted config.config_id l.old s l.was)))))
        services later instance_id key token ip args)
