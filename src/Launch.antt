-- ===== src/Launch.antt =====
-- The launch of an instance, api/instance/router.py: a miner asks for a launch config, claims it,
-- proves that it runs the code on the GPUs it named, and activates the instance.
-- Here are the tables, and what the handlers do to them; the handlers are in the modules below.
--
-- A handler reads the tables that were committed before and answers with those that it commits. A
-- session is rolled back when an exception leaves the handler, and a trigger of the database
-- (api/migrations/20250705010101_jobs.sql) takes a failed launch off its job.
pub mod Entry
pub mod Nodes
pub mod Claim
pub mod Verify
pub mod Activate
pub mod Keeps
pub mod Course
pub mod Samples
use chutes_api.Base.{
  ℕ, ◌+◌, ltb, Bool, true, false, not, ◌&&◌, ◌||◌, List, [], ◌∷◌, Option, none, some, String, Dict,
  Text, lookup, insert, remove, keep, is_none, str_eq, lower_has, if◌then◌else◌,
}
use chutes_api.Autoscaler.Types.{has_legacy_private_billing}
use chutes_api.Gpus.{NodeSelector}
use chutes_api.Bounties.{Bounty}
use chutes_api.Admission.{Lock}

pub record PortMap : Type 0 where
  pub internal_port : ℕ
  pub external_port : ℕ
  pub proto : String

-- A port that a job of a chute asks for.
pub record JobPort : Type 0 where
  pub proto : String
  pub port : ℕ

-- `jobs` has the ports of each of the chute's jobs, by the job's name.
pub record Chute : Type 0 where
  pub chute_id : String
  pub user_id : String
  pub name : String
  pub public : Bool
  pub created_at : ℕ
  pub code : String
  pub chutes_version : String
  pub node_selector : NodeSelector
  pub shutdown_after_seconds : Option ℕ
  pub jobs : Dict (List JobPort)
  pub permitted : Option (Dict ℕ)

pub record Node : Type 0 where
  pub uuid : String
  pub miner_hotkey : String
  pub verified : Bool
  pub verification_host : String
  pub gpu_identifier : String

-- A launch that has failed also has a verification error.
pub record LaunchConfig : Type 0 where
  pub config_id : String
  pub env_key : String
  pub chute_id : String
  pub job_id : Option String
  pub miner_hotkey : String
  pub seed : ℕ
  pub retrieved_at : Option ℕ
  pub verified_at : Option ℕ
  pub failed_at : Option ℕ

pub record Instance : Type 0 where
  pub instance_id : String
  pub config_id : String
  pub chute_id : String
  pub miner_hotkey : String
  pub host : String
  pub port : ℕ
  pub symmetric_key : String
  pub port_mappings : List PortMap
  pub compute_multiplier : ℕ
  pub billed_to : Option String
  pub verified : Bool
  pub active : Bool
  pub activated_at : Option ℕ
  pub stop_billing_at : Option ℕ

-- The columns of a job that a launch reads or writes.
pub record JobRow : Type 0 where
  pub job_id : String
  pub chute_id : String
  pub method : String
  pub miner_hotkey : Option String
  pub miner_history : List String
  pub instance_id : Option String
  pub port_mappings : List PortMap
  pub status : String
  pub miner_terminated : Bool
  pub started_at : Option ℕ
  pub finished_at : Option ℕ

-- The tables by their keys: `instance_nodes` has the instance of a node, `blacklisted` the miners in the
-- metagraph. The last three are in redis and the capacity log.
pub record Store : Type 0 where
  pub chutes : Dict Chute
  pub nodes : Dict Node
  pub blacklisted : Dict Bool
  pub configs : Dict LaunchConfig
  pub instances : Dict Instance
  pub jobs : Dict JobRow
  pub instance_nodes : Dict String
  pub bounties : Dict Bounty
  pub scale : Dict ℕ
  pub capacity_log : Dict ℕ

-- What an exception answers: 401, 400, 403, 404, 409, 423, or 500 where nothing catches it.
pub data Refusal : Type 0 where
  unauthorized bad_request forbidden not_found conflict server_error race : Refusal
  locked : Lock → Refusal

-- A handler goes on, or is refused with what it has committed.
pub data Run (A : Type 0) : Type 0 where
  go : A → Run A
  halt : Store → Refusal → Run A

infixl 5 ◌>>=◌ ◌>>◌
abbrev pub ◌>>=◌ : {A B : Type 0} → Run A → (A → Run B) → Run B
go a >>= f = f a
halt s r >>= f = halt s r

abbrev pub ◌>>◌ : {B : Type 0} → Run (Unit {0}) → Run B → Run B
m >> k = m >>= λ _. k

abbrev pub require : Bool → Store → Refusal → Run (Unit {0})
require true s r = go tt
require false s r = halt s r

abbrev pub the : {A : Type 0} → Option A → Store → Refusal → Run A
the none s r = halt s r
the (some a) s r = go a

abbrev pub is_some : {A : Type 0} → Option A → Bool
is_some o = not (is_none o)

abbrev pub is_named : Option String → String → Bool
is_named none name = false
is_named (some other) name = str_eq other name

-- The trigger `fn_reset_job_assignment`.
abbrev pub unassign : JobRow → JobRow
unassign job = record job { miner_hotkey = none; instance_id = none }

abbrev change_job : String → (JobRow → JobRow) → Option JobRow → Dict JobRow → Dict JobRow
change_job job_id f none jobs = jobs
change_job job_id f (some job) jobs = insert job_id (f job) jobs

pub reset_job : Option String → Dict JobRow → Dict JobRow
reset_job none jobs = jobs
reset_job (some job_id) jobs = change_job job_id unassign (lookup job_id jobs) jobs

-- Writing a row of `launch_configs` fires the trigger, if the launch has failed.
pub save_config : LaunchConfig → Store → Store
save_config config s = record s {
  configs = insert config.config_id config s.configs;
  jobs = if is_some config.failed_at then reset_job config.job_id s.jobs else s.jobs;
}

-- `failed_at = func.now()`, with the reason in `verification_error`.
pub fail_config : (now : ℕ) → LaunchConfig → Store → Store
fail_config now config s = save_config (record config { failed_at = some now }) s

-- The foreign keys of a deleted instance: ON DELETE SET NULL for its job, CASCADE for its nodes.
abbrev release : String → Dict JobRow → Dict JobRow
release instance_id [] = []
release instance_id ((key, job) ∷ rest) =
    (
      key,
      record job {
        instance_id = if is_named job.instance_id instance_id then none else job.instance_id;
      },
    )
    ∷ release instance_id rest

pub remove_instance : String → Store → Store
remove_instance instance_id s = record s {
  instances = remove instance_id s.instances;
  jobs = release instance_id s.jobs;
  instance_nodes = keep (λ e. not (str_eq instance_id e.1)) s.instance_nodes;
}

-- Private chutes that are billed by time; `chutes_user` is the platform's own account.
pub is_billed : (chutes_user : String) → Chute → Bool
is_billed chutes_user chute =
    not chute.public
    && not (has_legacy_private_billing chute.public chute.name chute.created_at)
    && not (str_eq chute.user_id chutes_user)
