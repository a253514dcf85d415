-- ===== src/Launch/Verify/Keeps.antt =====
-- The proof of work keeps the invariant, whatever comes of it.
use chutes_api.Base.{
  ℕ, ◌≡◌, refl, sym, ap, ◌∙◌, subst, true, not, ◌||◌, Option, none, some, String, lookup, insert,
  lookup-insert_self, is_none, get_or, str_eq, Bool-cases, AllRows-insert, first_where,
  first_where-found, inl, inr, eq_iff,
}
use chutes_api.Launch.{
  Chute, LaunchConfig, Instance, JobRow, Store, bad_request, forbidden, not_found, server_error, go,
  is_some, save_config, fail_config,
}
use chutes_api.Launch.Keeps.{
  Ends, Checked, >>=-Ends, >>-Ends, require-Ends, the-Ends, require-Checked, IsTracked, Inv,
  Follows, IsTracked-insert, save_config-Inv, fail_config-Inv, remove_instance-Inv, Inv-others,
  SameRows,
}
use chutes_api.Launch.Entry.{load_launch_config}
use chutes_api.Launch.Entry.Keeps.{load_launch_config-Loaded}
use chutes_api.Launch.Verify.{
  estimates, Response, Checks, of_config, nodes_of, first_node, drawn_node, in_time, answers,
  proves, punish, check_fsv, ports_open, of_instance, start_job, accept, check_work, started_at,
  verify_launch_config_instance,
}

check_fsv-Checked :
    (checks : Checks) (chute : Chute) (config : LaunchConfig) (response : Response)
    (s failed : Store)
    → Inv s
    → Inv failed
    → Checked Inv (check_fsv checks chute config response s failed)
unfolding check_fsv
check_fsv-Checked checks chute config response s failed h f =
    elim (Bool-cases (checks.recent chute.chutes_version || not checks.cfsv_op)) [
      | inl e ↦ rw e tt
      | inr e ↦ rw e (
          the-Ends Inv (λ _. Unit {0}) response.fsv s server_error _ h
            (λ fsv sent.
              require-Checked Inv (str_eq (checks.fs_hash chute config.seed) fsv) failed forbidden
                f))
    ]

check_work-Checked :
    (checks : Checks) (now start : ℕ) (config : LaunchConfig) (instance : Instance)
    (response : Response) (noted s : Store)
    → Inv s
    → Inv (punish now config instance noted)
    → Checked Inv (check_work checks now start config instance response noted s)
unfolding check_work
check_work-Checked checks now start config instance response noted s h f =
    let U : Unit {0} → Type 0 = λ _. Unit {0} in
    let nodes = nodes_of instance.instance_id noted.instance_nodes noted.nodes in
    let failed = punish now config instance noted in
    the-Ends Inv U (first_node nodes) s server_error _ h (λ node there.
      the-Ends Inv U (lookup node.gpu_identifier estimates) s server_error _ h (λ estimate known.
        require-Ends Inv U (in_time estimate start now) failed forbidden _ f (λ fast.
          require-Ends Inv U (answers checks config instance response) failed forbidden _ f
            (λ right.
              require-Ends Inv U (proves checks config (drawn_node checks.draw nodes) response)
                failed forbidden _ f
                (λ proof.
                  the-Ends Inv U (lookup instance.chute_id noted.chutes) s server_error _ h
                    (λ chute found.
                      check_fsv-Checked checks chute config response s failed h f))))))

start_job-SameRows :
    (checks : Checks) (now : ℕ) (instance : Instance) (o : Option JobRow) (s rolled_back : Store)
    → Inv rolled_back
    → Ends Inv (SameRows s) (start_job checks now instance o s rolled_back)
unfolding start_job
start_job-SameRows checks now instance none s rolled_back h = (refl, refl)
start_job-SameRows checks now instance (some job) s rolled_back h =
    require-Ends Inv (SameRows s) (ports_open checks instance instance.port_mappings) rolled_back
      forbidden (go _) h (λ open_ports. (refl, refl))

-- An instance of a verified launch may be marked.
pub mark-Inv :
    (old new : Instance) (config : LaunchConfig) (s : Store)
    → Inv s
    → new.config_id ≡ old.config_id
    → lookup old.config_id s.configs ≡ some config
    → is_some config.verified_at ≡ true
    → IsTracked s.configs old
    → Inv (record s { instances = insert new.instance_id new s.instances })
mark-Inv old new config s h same row verified t = record {
  sound = h.sound;
  tracked =
      AllRows-insert (IsTracked s.configs) new.instance_id new s.instances
        (record {
          retrieved = λ c. λ e. t.retrieved c (rw (sym same) e);
          passed = λ c. λ e. λ v.
              subst (λ d. is_some d.verified_at ≡ true)
                (ap (λ o. get_or o config)
                  (sym row ∙ (ap (λ k. lookup k s.configs) (sym same) ∙ e)))
                verified;
        })
        h.tracked;
}

is_none-eq : {A : Type 0} (o : Option A) → is_none o ≡ true → o ≡ none
is_none-eq none e = refl
is_none-eq (some a) e = absurd cc

accept-Inv :
    (checks : Checks) (now : ℕ) (config : LaunchConfig) (instance : Instance) (noted s : Store)
    → Inv s
    → Inv noted
    → lookup config.config_id noted.configs ≡ some config
    → is_some config.retrieved_at ≡ true
    → config.failed_at ≡ none
    → instance.config_id ≡ config.config_id
    → IsTracked noted.configs instance
    → Ends Inv Inv (accept checks now config instance noted s)
unfolding accept save_config
accept-Inv checks now config instance noted s h n row retrieved unfailed same t =
    let verified : LaunchConfig = record config { verified_at = some now } in
    let passed = save_config verified noted in
    let f : Follows config verified = record {
      same_id = refl;
      still_retrieved = λ r. r;
      still_verified = λ v. refl;
      retrieved = λ v. retrieved;
      not_failed = λ v. unfailed;
    } in
    let job = first_where (of_instance instance.instance_id) noted.jobs in
    >>=-Ends Inv Inv (start_job checks now instance job passed s) _
      (start_job-SameRows checks now instance job passed s h)
      (λ started rows.
        mark-Inv instance (record instance { verified = true }) verified started
          (Inv-others passed started rows.0 rows.1 (save_config-Inv config verified noted row f n))
          refl (rw (rows.0, same) (lookup-insert_self config.config_id verified noted.configs)) refl
          (rw rows.0 (IsTracked-insert noted.configs config verified instance row f t)))

-- Whatever comes of the proof of work, the invariant stays.
pub verify_launch_config_instance-Inv :
    (checks : Checks) (now : ℕ) (config_id token : String) (response : Response) (s : Store)
    → Inv s
    → Ends Inv Inv (verify_launch_config_instance checks now config_id token response s)
unfolding verify_launch_config_instance punish
verify_launch_config_instance-Inv checks now config_id token response s h =
    >>=-Ends Inv Inv (load_launch_config now checks.decode config_id token true s) _
      (load_launch_config-Loaded Inv now checks.decode config_id token true s h h)
      (λ loaded l.
        let config = loaded.0 in
        let noted = loaded.1 in
        let row : lookup config.config_id noted.configs ≡ some config =
          subst (λ k. lookup k noted.configs ≡ some config) (sym l.is_key) l.row in
        require-Ends Inv Inv (is_none config.verified_at) s bad_request _ h (λ unverified.
          let failed_kept : Inv (fail_config now config noted) =
            fail_config-Inv now config noted row unverified l.inv in
          require-Ends Inv Inv (is_none config.failed_at) s forbidden _ h (λ unfailed.
            the-Ends Inv Inv (started_at (lookup config_id s.configs)) s server_error _ h
              (λ start noted_before.
                the-Ends Inv Inv (first_where (of_config config.config_id) noted.instances)
                  (fail_config now config noted) not_found _ failed_kept
                  (λ instance found.
                    let (mine, tracked) =
                      first_where-found (IsTracked noted.configs) (of_config config.config_id)
                        noted.instances instance l.inv.tracked found in
                    >>-Ends Inv Inv (check_work checks now start config instance response noted s) _
                      (check_work-Checked checks now start config instance response noted s h (
                        remove_instance-Inv instance.instance_id (fail_config now config noted)
                          failed_kept))
                      (accept-Inv checks now config instance noted s h l.inv row l.now_retrieved
                        (is_none-eq config.failed_at unfailed)
                        ((eq_iff instance.config_id config.config_id).0 mine) tracked))))))
