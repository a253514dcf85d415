-- ===== src/Launch/Verify/Accepted.antt =====
-- What an accepted proof of work has shown.
use chutes_api.Base.{
  ℕ, ◌-◌, ◌*◌, ◌<◌, ◌≡◌, refl, sym, subst, lookup-insert_self, true, Option, none, some, String,
  lookup, is_none, first_where, arith, ◌⊎◌, inl, inr,
}
use chutes_api.Launch.{
  LaunchConfig, Instance, Node, Store, JobRow, forbidden, bad_request, not_found, server_error, Run,
  go, halt, fail_config, save_config,
}
use chutes_api.Launch.Keeps.{Anything, Ends, Ends-go, >>=-Ends, require-Ends, the-Ends}
use chutes_api.Launch.Entry.{load_launch_config}
use chutes_api.Launch.Entry.Loading.{IsLoaded, load_launch_config-IsLoaded}
use chutes_api.Launch.Verify.{
  estimates, Response, Checks, of_config, nodes_of, first_node, drawn_node, in_time, answers,
  proves, punish, check_fsv, ports_open, of_instance, start_job, accept, check_work, started_at,
  verify_launch_config_instance,
}

-- The conditions under which the work of a launch is accepted.
pub record IsWork (checks : Checks) (now start : ℕ) (config : LaunchConfig) (instance : Instance)
    (response : Response) (s : Store) : Type 0 where
  pub node : Node
  pub estimate : ℕ
  pub is_first : first_node (nodes_of instance.instance_id s.instance_nodes s.nodes) ≡ some node
  pub is_estimate : lookup node.gpu_identifier estimates ≡ some estimate
  pub quick : (now - start) * 100 < estimate * 215
  pub answered : answers checks config instance response ≡ true
  pub proven :
      proves checks config
        (drawn_node checks.draw (nodes_of instance.instance_id s.instance_nodes s.nodes))
        response
      ≡ true

any-Ends : (Q : Type 0) (m : Run (Unit {0})) → Q → Ends Anything (λ _. Q) m
any-Ends Q (go u) q = q
any-Ends Q (halt s r) q = tt

check_work-IsWork :
    (checks : Checks) (now start : ℕ) (config : LaunchConfig) (instance : Instance)
    (response : Response) (noted s : Store)
    → Ends Anything
        (λ _. IsWork checks now start config instance response noted)
        (check_work checks now start config instance response noted s)
unfolding check_work in_time
check_work-IsWork checks now start config instance response noted s =
    let W : Unit {0} → Type 0 = λ _. IsWork checks now start config instance response noted in
    let nodes = nodes_of instance.instance_id noted.instance_nodes noted.nodes in
    let failed = punish now config instance noted in
    the-Ends Anything W (first_node nodes) s server_error _ tt (λ node is_first.
      the-Ends Anything W (lookup node.gpu_identifier estimates) s server_error _ tt
        (λ estimate is_estimate.
          require-Ends Anything W (in_time estimate start now) failed forbidden _ tt (λ quick.
            require-Ends Anything W (answers checks config instance response) failed forbidden _ tt
              (λ answered.
                require-Ends Anything W
                  (proves checks config (drawn_node checks.draw nodes) response) failed forbidden _
                  tt
                  (λ proven.
                    the-Ends Anything W (lookup instance.chute_id noted.chutes) s server_error _ tt
                      (λ chute found.
                        any-Ends (IsWork checks now start config instance response noted)
                          (check_fsv checks chute config response s failed)
                          (record {
                            node = node;
                            estimate = estimate;
                            is_first = is_first;
                            is_estimate = is_estimate;
                            quick = ground arith;
                            answered = answered;
                            proven = proven;
                          })))))))

start_job-configs :
    (checks : Checks) (now : ℕ) (instance : Instance) (o : Option JobRow) (s rolled_back : Store)
    → Ends Anything
        (λ t.
          (t.configs ≡ s.configs)
          × ((o ≡ none) ⊎ (ports_open checks instance instance.port_mappings ≡ true)))
        (start_job checks now instance o s rolled_back)
unfolding start_job
start_job-configs checks now instance none s rolled_back = (refl, inl refl)
start_job-configs checks now instance (some job) s rolled_back =
    require-Ends Anything
      (λ t.
        (t.configs ≡ s.configs)
        × ((some job ≡ none) ⊎ (ports_open checks instance instance.port_mappings ≡ true)))
      (ports_open checks instance instance.port_mappings) rolled_back forbidden (go _) tt
      (λ all. (refl, inr all))

-- What is known of the launch before an accepted proof, and after it.
pub record IsAccepted (checks : Checks) (now : ℕ) (config_id : String) (response : Response)
    (s t : Store) : Type 0 where
  pub config : LaunchConfig
  pub instance : Instance
  pub start : ℕ
  pub row : lookup config_id s.configs ≡ some config
  pub unverified : config.verified_at ≡ none
  pub unfailed : config.failed_at ≡ none
  pub was_retrieved : config.retrieved_at ≡ some start
  pub has_instance : first_where (of_config config.config_id) s.instances ≡ some instance
  pub work : IsWork checks now start config instance response s
  pub ports :
      (first_where (of_instance instance.instance_id) s.jobs ≡ none)
      ⊎ (ports_open checks instance instance.port_mappings ≡ true)
  pub verified : lookup config.config_id t.configs ≡ some (record config { verified_at = some now })

is_none-eq_none : {A : Type 0} (o : Option A) → is_none o ≡ true → o ≡ none
is_none-eq_none none e = refl
is_none-eq_none (some a) e = absurd cc

-- The config, as it was loaded, with what was checked of it.
record IsChecked (checks : Checks) (now start : ℕ) (instance : Instance) (response : Response)
    (found : LaunchConfig × Store) : Type 0 where
  pub unverified : is_none found.0.verified_at ≡ true
  pub unfailed : is_none found.0.failed_at ≡ true
  pub has_instance : first_where (of_config found.0.config_id) found.1.instances ≡ some instance
  pub work : IsWork checks now start found.0 instance response found.1

accept-checked :
    (checks : Checks) (now start : ℕ) (config_id : String) (config : LaunchConfig)
    (instance : Instance) (response : Response) (s : Store)
    → lookup config_id s.configs ≡ some config
    → config.retrieved_at ≡ some start
    → IsChecked checks now start instance response (config, s)
    → Ends Anything
        (IsAccepted checks now config_id response s)
        (accept checks now config instance s s)
unfolding accept save_config
accept-checked checks now start config_id config instance response s row was_retrieved c =
    let verified : LaunchConfig = record config { verified_at = some now } in
    let job = first_where (of_instance instance.instance_id) s.jobs in
    >>=-Ends Anything (IsAccepted checks now config_id response s)
      (start_job checks now instance job (save_config verified s) s) _
      (start_job-configs checks now instance job (save_config verified s) s)
      (λ started known. record {
        config = config;
        instance = instance;
        start = start;
        row = row;
        unverified = is_none-eq_none config.verified_at c.unverified;
        unfailed = is_none-eq_none config.failed_at c.unfailed;
        was_retrieved = was_retrieved;
        has_instance = c.has_instance;
        work = c.work;
        ports = known.1;
        verified = rw known.0 (lookup-insert_self config.config_id verified s.configs);
      })

accept-loaded :
    (checks : Checks) (now start : ℕ) (config_id : String) (found : LaunchConfig × Store)
    (instance : Instance) (response : Response) (s : Store)
    → IsLoaded s config_id found
    → started_at (lookup config_id s.configs) ≡ some start
    → IsChecked checks now start instance response found
    → Ends Anything
        (IsAccepted checks now config_id response s)
        (accept checks now found.0 instance found.1 s)
accept-loaded checks now start config_id found instance response s (old, row, inl e) was c =
    let never : old.retrieved_at ≡ some start = subst (λ o. started_at o ≡ some start) row was in
    absurd (ground arith)
accept-loaded checks now start config_id found instance response s (old, row, inr e) was c =
    subst
      (λ (f : LaunchConfig × Store).
        Ends Anything (IsAccepted checks now config_id response s)
          (accept checks now f.0 instance f.1 s))
      (sym e)
      (accept-checked checks now start config_id old instance response s row
        (subst (λ o. started_at o ≡ some start) row was)
        (subst (λ (f : LaunchConfig × Store). IsChecked checks now start instance response f) e c))

verify-IsAccepted :
    (checks : Checks) (now : ℕ) (config_id token : String) (response : Response) (s : Store)
    → Ends Anything
        (IsAccepted checks now config_id response s)
        (verify_launch_config_instance checks now config_id token response s)
unfolding verify_launch_config_instance
verify-IsAccepted checks now config_id token response s =
    let A = IsAccepted checks now config_id response s in
    >>=-Ends Anything A (load_launch_config now checks.decode config_id token true s) _
      (load_launch_config-IsLoaded now checks.decode config_id token s)
      (λ loaded l.
        let config = loaded.0 in
        let noted = loaded.1 in
        require-Ends Anything A (is_none config.verified_at) s bad_request _ tt (λ unverified.
          require-Ends Anything A (is_none config.failed_at) s forbidden _ tt (λ unfailed.
            the-Ends Anything A (started_at (lookup config_id s.configs)) s server_error _ tt
              (λ start was_retrieved.
                the-Ends Anything A (first_where (of_config config.config_id) noted.instances)
                  (fail_config now config noted) not_found _ tt
                  (λ instance has_instance.
                    >>=-Ends Anything A
                      (check_work checks now start config instance response noted s) _
                      (check_work-IsWork checks now start config instance response noted s)
                      (λ _ work.
                        accept-loaded checks now start config_id loaded instance response s l
                          was_retrieved
                          (record {
                            unverified = unverified;
                            unfailed = unfailed;
                            has_instance = has_instance;
                            work = work;
                          })))))))

-- A proof of work that is accepted was given for a launch that was retrieved, had an instance, had not
-- been verified and had not failed; in less than 2.15 times the estimate for the first GPU, with the
-- right answer and a proof for the node drawn; and if the instance has a job, all its ports were
-- open. Afterwards the launch is verified.
pub verify_launch_config_instance-IsAccepted :
    (checks : Checks) (now : ℕ) (config_id token : String) (response : Response) (s t : Store)
    → verify_launch_config_instance checks now config_id token response s ≡ go t
    → IsAccepted checks now config_id response s t
verify_launch_config_instance-IsAccepted checks now config_id token response s t =
    Ends-go Anything (IsAccepted checks now config_id response s)
      (verify_launch_config_instance checks now config_id token response s) t
      (verify-IsAccepted checks now config_id token response s)
