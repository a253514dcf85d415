-- ===== src/Launch/Claim/Conflict.antt =====
-- Two miners that claim one job.
use chutes_api.Base.{ℕ, ◌≡◌, refl, none, some, String, lookup, lookup-insert_self}
use chutes_api.Launch.{
  Chute, LaunchConfig, JobRow, Store, conflict, halt, unassign, reset_job, save_config, fail_config,
}
use chutes_api.Launch.Claim.{Services, LaunchConfigArgs, take_job, assign_job, create_instance}

take_job-held :
    (hotkey winner : String) (job : JobRow)
    → job.miner_hotkey ≡ some winner
    → take_job hotkey (some job) ≡ none
unfolding take_job
take_job-held hotkey winner job held = rw held refl

-- A claim of a job that another miner holds is refused, and the failure that is written for it takes
-- the job away from the miner that holds it: the trigger does not ask whose launch has failed.
pub create_instance-conflict :
    (services : Services) (now : ℕ) (instance_id key job_id winner : String) (chute : Chute)
    (config : LaunchConfig) (args : LaunchConfigArgs) (job : JobRow) (noted s : Store)
    → config.job_id ≡ some job_id
    → lookup job_id noted.jobs ≡ some job
    → job.miner_hotkey ≡ some winner
    → let failed = fail_config now config noted in
      (create_instance services now instance_id key chute config args noted s
        ≡ halt failed conflict)
      × (lookup job_id failed.jobs ≡ some (unassign job))
unfolding create_instance assign_job take_job fail_config save_config reset_job
create_instance-conflict services now instance_id key job_id winner chute config args job noted s
      mine found held =
    rw (mine, found, take_job-held config.miner_hotkey winner job held)
      (refl, lookup-insert_self job_id (unassign job) noted.jobs)
