-- ===== src/Launch/Activate.antt =====
-- The end of a launch: `activate_launch_config_instance`, and `delete_instance` by the miner.
pub mod Keeps
pub mod Samples
pub mod Bounds
pub mod Succeeds
use chutes_api.Base.{
  ℕ, zero, suc, ◌+◌, Bool, true, false, not, ◌&&◌, ◌||◌, List, [], ◌∷◌, Option, none, some, String,
  Dict, lookup, insert, is_none, str_eq, first_where, if◌then◌else◌,
}
use chutes_api.Admission.{at_capacity, can_activate_private}
use chutes_api.Bounties.{check_bounty_exists, delete_bounty}
use chutes_api.Launch.{
  Chute, LaunchConfig, Instance, JobRow, Store, Refusal, forbidden, not_found, server_error, locked,
  Run, go, halt, ◌>>=◌, ◌>>◌, require, the, is_some, remove_instance, is_billed,
}
use chutes_api.Launch.Entry.{load_launch_config, count_where}
use chutes_api.Launch.Verify.{of_config, of_instance}

-- `chute.shutdown_after_seconds or 300`
shutdown_after : Option ℕ → ℕ
shutdown_after none = 300
shutdown_after (some zero) = 300
shutdown_after (some (suc n)) = suc n

-- "Prevent activation of private instances if we're already capped."
pub may_activate : (now : ℕ) (chutes_user : String) → Chute → Store → Bool
may_activate now chutes_user chute s =
    not (is_billed chutes_user chute)
    || can_activate_private
        (count_where (λ i. str_eq i.chute_id chute.chute_id && (i.active && i.verified))
          s.instances)
        (lookup chute.chute_id s.scale) (check_bounty_exists now chute.chute_id s.bounties)

-- `instance.active = True`; an instance that is charged is billed until it has been idle for a while,
-- and takes the chute's bounty away.
pub activate : (now : ℕ) (chutes_user : String) → Chute → LaunchConfig → Instance → Store → Store
activate now chutes_user chute config instance s =
    let charged = is_some config.job_id || is_billed chutes_user chute in
    record s {
      instances =
          insert instance.instance_id
            (record instance {
              active = true;
              activated_at = some now;
              stop_billing_at =
                  if charged
                  then some (now + shutdown_after chute.shutdown_after_seconds)
                  else instance.stop_billing_at;
            })
            s.instances;
      bounties = if charged then (delete_bounty now chute.chute_id s.bounties).0 else s.bounties;
    }

-- The deletion of a private instance above the cap is rolled back by the exception that follows it.
pub activate_launch_config_instance :
    (now : ℕ) (chutes_user : String) (decode : String → Option String) (config_id token : String)
    → Store
    → Run Store
activate_launch_config_instance now chutes_user decode config_id token s = do
  loaded ← load_launch_config now decode config_id token true s
  let config = loaded.0
  let noted = loaded.1
  require (is_some config.verified_at) s forbidden
  instance ← the (first_where (of_config config.config_id) noted.instances) s not_found
  chute ← the (lookup instance.chute_id noted.chutes) s server_error
  require (may_activate now chutes_user chute noted) s (locked at_capacity)
  go (if instance.active then noted else activate now chutes_user chute config instance noted)

-- "Fail the job.", unless it is finished.
pub fail_job : (now : ℕ) → Option JobRow → Dict JobRow → Dict JobRow
fail_job now none jobs = jobs
fail_job now (some job) jobs =
    if is_none job.finished_at
    then insert job.job_id
        (record job { status = "error"; miner_terminated = true; finished_at = some now }) jobs
    else jobs

-- get_instance_by_chute_and_id of api/instance/util.py
pub of_miner : (instance_id chute_id hotkey : String) → Option Instance → Option Instance
of_miner instance_id chute_id hotkey none = none
of_miner instance_id chute_id hotkey (some instance) =
    if not (str_eq instance_id "")
      && (str_eq instance.chute_id chute_id && str_eq instance.miner_hotkey hotkey)
    then some instance
    else none

pub delete_instance : (now : ℕ) (chute_id instance_id hotkey : String) → Store → Run Store
delete_instance now chute_id instance_id hotkey s = do
  instance ← the (of_miner instance_id chute_id hotkey (lookup instance_id s.instances)) s not_found
  let jobs = fail_job now (first_where (of_instance instance_id) s.jobs) s.jobs
  go (remove_instance instance_id (record s { jobs = jobs }))
