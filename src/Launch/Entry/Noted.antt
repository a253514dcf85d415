-- ===== src/Launch/Entry/Noted.antt =====
-- What a launch config is noted to be, row by row: its own row, and the job that the trigger resets.
use chutes_api.Base.{
  ℕ, ◌≡◌, refl, ap, ◌∙◌, subst, true, ◌&&◌, Option, none, some, String, Dict, lookup, insert,
  lookup-insert, str_eq, eq_iff, arith, ◌⊎◌, inl, inr, Bool-cases, if◌then◌else◌,
}
use chutes_api.Launch.{
  LaunchConfig, JobRow, Store, is_some, is_named, save_config, fail_config, reset_job, change_job,
  unassign,
}

-- A job without its miner and its instance.
abbrev pub unheld : Option JobRow → Option JobRow
unheld none = none
unheld (some job) = some (record job { miner_hotkey = none; instance_id = none })

abbrev pub IsRow : (config_id : String) → LaunchConfig → (before after : Dict LaunchConfig) → Type 0
IsRow config_id config before after =
    (k : String) → lookup k after ≡ (if str_eq config_id k then some config else lookup k before)

-- The tables after the launch config was read and its retrieval noted.
pub record IsNoted (s : Store) (config_id : String) (old config : LaunchConfig) (t : Store)
    : Type 0 where
  pub same : config ≡ record old { retrieved_at = config.retrieved_at }
  pub rows : IsRow config_id config s.configs t.configs
  pub jobs :
      (k : String)
      → (lookup k t.jobs ≡ lookup k s.jobs)
        ⊎ ((is_named old.job_id k ≡ true) × (lookup k t.jobs ≡ unheld (lookup k s.jobs)))
  pub same_else : t ≡ record s { configs = t.configs; jobs = t.jobs }

-- The tables after a launch failed: its row says so and is else as it was, but for the retrieval; its
-- job has no miner and no instance; every other row of every table is as it was.
pub record IsFailed (config_id : String) (s t : Store) : Type 0 where
  pub old : LaunchConfig
  pub was : lookup config_id s.configs ≡ some old
  pub config : LaunchConfig
  pub same :
      config ≡ record old { retrieved_at = config.retrieved_at; failed_at = config.failed_at }
  pub failed : is_some config.failed_at ≡ true
  pub rows : IsRow config_id config s.configs t.configs
  pub jobs :
      (k : String)
      → lookup k t.jobs
        ≡ (if is_named old.job_id k then unheld (lookup k s.jobs) else lookup k s.jobs)
  pub same_else : t ≡ record s { configs = t.configs; jobs = t.jobs }

lookup-change_job :
    (k id : String) (o : Option JobRow) (jobs : Dict JobRow)
    → lookup id jobs ≡ o
    → lookup k (change_job id unassign o jobs)
      ≡ (if str_eq id k then unheld (lookup k jobs) else lookup k jobs)
lookup-change_job k id none jobs e = elim (Bool-cases (str_eq id k)) [
  | inl h ↦
      let none_there : lookup k jobs ≡ none =
        subst (λ n. lookup n jobs ≡ none) (ground (arith, eq_iff id k)) e in
      rw (h, none_there) refl
  | inr h ↦ rw h refl
]
lookup-change_job k id (some job) jobs e =
    lookup-insert id k (unassign job) jobs ∙ elim (Bool-cases (str_eq id k)) [
      | inl h ↦
          let there : lookup k jobs ≡ some job =
            subst (λ n. lookup n jobs ≡ some job) (ground (arith, eq_iff id k)) e in
          rw (h, there) refl
      | inr h ↦ rw h refl
    ]

lookup-reset_job :
    (k : String) (o : Option String) (jobs : Dict JobRow)
    → lookup k (reset_job o jobs) ≡ (if is_named o k then unheld (lookup k jobs) else lookup k jobs)
unfolding reset_job
lookup-reset_job k none jobs = refl
lookup-reset_job k (some id) jobs = lookup-change_job k id (lookup id jobs) jobs refl

save_config-jobs :
    (k : String) (config : LaunchConfig) (s : Store)
    → lookup k (save_config config s).jobs ≡ (
        if is_some config.failed_at && is_named config.job_id k
        then unheld (lookup k s.jobs)
        else lookup k s.jobs)
unfolding save_config
save_config-jobs k config s = elim (Bool-cases (is_some config.failed_at)) [
  | inl e ↦ rw e (lookup-reset_job k config.job_id s.jobs)
  | inr e ↦ rw e refl
]

pub read-IsNoted :
    (config_id : String) (config : LaunchConfig) (s : Store)
    → lookup config_id s.configs ≡ some config
    → IsNoted s config_id config config s
read-IsNoted config_id config s row = record {
  same = refl;
  rows = λ k. elim (Bool-cases (str_eq config_id k)) [
    | inl e ↦
        rw e
          (subst (λ n. lookup n s.configs ≡ some config) (ground (arith, eq_iff config_id k)) row)
    | inr e ↦ rw e refl
  ];
  jobs = λ k. inl refl;
  same_else = refl;
}

pub save_config-IsNoted :
    (now : ℕ) (config_id : String) (config : LaunchConfig) (s : Store)
    → config.config_id ≡ config_id
    → let noted : LaunchConfig = record config { retrieved_at = some now } in
      IsNoted s config_id config noted (save_config noted s)
unfolding save_config
save_config-IsNoted now config_id config s is_key =
    let noted : LaunchConfig = record config { retrieved_at = some now } in
    record {
      same = refl;
      rows = λ k. lookup-insert config.config_id k noted s.configs ∙ rw is_key refl;
      jobs = λ k.
          let written = save_config-jobs k noted s in
          elim (Bool-cases (is_some noted.failed_at && is_named noted.job_id k)) [
            | inl e ↦ inr (ground arith, rw (written, e) refl)
            | inr e ↦ inl (rw (written, e) refl)
          ];
      same_else = refl;
    }

unheld-again :
    {P : Type 0} (o o' : Option JobRow) → (o' ≡ o) ⊎ (P × (o' ≡ unheld o)) → unheld o' ≡ unheld o
unheld-again o o' (inl e) = ap unheld e
unheld-again none o' (inr (p, e)) = ap unheld e
unheld-again (some job) o' (inr (p, e)) = ap unheld e

pub fail_config-IsFailed :
    (now : ℕ) (config_id : String) (old config : LaunchConfig) (s t : Store)
    → lookup config_id s.configs ≡ some old
    → config.config_id ≡ config_id
    → IsNoted s config_id old config t
    → IsFailed config_id s (fail_config now config t)
unfolding fail_config save_config
fail_config-IsFailed now config_id old config s t was is_key n =
    let failed : LaunchConfig = record config { failed_at = some now } in
    record {
      old = old;
      was = was;
      config = failed;
      same = ap (λ (c : LaunchConfig). record c { failed_at = some now }) n.same;
      failed = refl;
      rows = λ k.
          lookup-insert config.config_id k failed t.configs
          ∙ elim (Bool-cases (str_eq config_id k)) [
            | inl e ↦ rw (is_key, e) refl
            | inr e ↦ rw (is_key, e, n.rows k, e) refl
          ];
      jobs = λ k.
          let same_job : config.job_id ≡ old.job_id = ap (λ (c : LaunchConfig). c.job_id) n.same in
          lookup-reset_job k config.job_id t.jobs ∙ elim (Bool-cases (is_named old.job_id k)) [
            | inl e ↦ rw (same_job, e) (unheld-again (lookup k s.jobs) (lookup k t.jobs) (n.jobs k))
            | inr e ↦ rw (same_job, e) (elim (n.jobs k) [ inl h ↦ h | inr (h, _) ↦ absurd cc ])
          ];
      same_else =
          ap
            (λ (u : Store). record u {
              configs = insert config.config_id failed t.configs;
              jobs = reset_job config.job_id t.jobs;
            })
            n.same_else;
    }
