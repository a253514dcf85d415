-- ===== src/Launch/Samples.antt =====
-- A launch of a public chute by one miner, and of a job by two.
use chutes_api.Base.{
  ◌≡◌, refl, true, false, [], ◌∷◌, none, some, lookup, contains, arith, AllRows, eq_iff,
}
use chutes_api.Gpus.{NodeSelector}
use chutes_api.Launch.{
  Chute, Node, LaunchConfig, JobRow, Store, conflict, halt, unassign, fail_config,
}
use chutes_api.Launch.Keeps.{Ends, Inv}
use chutes_api.Launch.Entry.{get_launch_config}
use chutes_api.Launch.Entry.Race.{IsRace, get_launch_config-IsRace}
use chutes_api.Launch.Claim.{Services, LaunchConfigArgs, claim_launch_config, create_instance}
use chutes_api.Launch.Claim.Conflict.{create_instance-conflict}
use chutes_api.Launch.Claim.Outcome.{IsUndone, claim_launch_config-refused}
use chutes_api.Launch.Course.{committed, here, next, asked, claimed, IsProved, Reach-IsProved}

abbrev pub selector : NodeSelector
selector = record { gpu_count = 1; min_vram_gb_per_gpu = none; exclude = none; include = none }

abbrev pub chute : Chute
chute = record {
  chute_id = "c1";
  user_id = "u1";
  name = "model";
  public = true;
  created_at = 0;
  code = "code";
  chutes_version = "0.3.5";
  node_selector = selector;
  shutdown_after_seconds = none;
  jobs = ("train", []) ∷ [];
  permitted = none;
}

abbrev pub node : Node
node = record {
  uuid = "n1";
  miner_hotkey = "alice";
  verified = true;
  verification_host = "10.0.0.1";
  gpu_identifier = "h100";
}

abbrev pub config : LaunchConfig
config = record {
  config_id = "k1";
  env_key = "e";
  chute_id = "c1";
  job_id = none;
  miner_hotkey = "alice";
  seed = 0;
  retrieved_at = none;
  verified_at = none;
  failed_at = none;
}

abbrev pub empty_store : Store
empty_store = record {
  chutes = ("c1", chute) ∷ [];
  nodes = ("n1", node) ∷ [];
  blacklisted = ("alice", false) ∷ ("bob", false) ∷ [];
  configs = [];
  instances = [];
  jobs = [];
  instance_nodes = [];
  bounties = [];
  scale = ("c1", 3) ∷ [];
  capacity_log = [];
}

-- "token" opens the first launch config.
abbrev services : Services
services = record {
  chutes_user = "chutes";
  decode = λ token. some "k1";
  envdump_unlock = true;
  decrypt = λ key. λ text. some text;
  source_of = λ text. some text;
  expected_command = λ dump. λ c. λ hotkey. true;
  kubernetes_env = λ c. λ dump. true;
  recent = λ version. true;
  cfsv_op = false;
  fs_hash = λ c. λ id. "hash";
  encrypt = λ nodes. some 7;
}

abbrev args : LaunchConfigArgs
args = record {
  gpus = "n1" ∷ [];
  host = "10.0.0.1";
  port_mappings = record { internal_port = 8000; external_port = 30000; proto = "tcp" } ∷ [];
  env = "env";
  code = "code";
  fsv = none;
}

abbrev store_1 : Store
store_1 =
    committed (λ r. r.0)
      (get_launch_config 10 "chutes" false "k1" "e" "c1" none "alice" empty_store)

abbrev store_2 : Store
store_2 =
    committed (λ r. r.0)
      (claim_launch_config services 20 25 "i1" "s" "k1" "token" "10.0.0.1" args store_1)

Reach-IsProved_example : AllRows (IsProved store_2) store_2.instances
Reach-IsProved_example = Reach-IsProved empty_store store_2 refl refl (
    next {t = store_1}
      (next {t = empty_store} here (asked 10 "chutes" false "k1" "e" "c1" none "alice" tt))
      (claimed services 20 25 "i1" "s" "k1" "token" "10.0.0.1" args))

-- Alice's launch of a job that Bob holds.
abbrev job : JobRow
job = record {
  job_id = "j1";
  chute_id = "c1";
  method = "train";
  miner_hotkey = some "bob";
  miner_history = "bob" ∷ "alice" ∷ [];
  instance_id = some "i0";
  port_mappings = [];
  status = "pending";
  miner_terminated = false;
  started_at = none;
  finished_at = none;
}

abbrev job_config : LaunchConfig
job_config = record config { job_id = some "j1" }

abbrev job_store : Store
job_store = record empty_store { configs = ("k1", job_config) ∷ []; jobs = ("j1", job) ∷ [] }

job_store-Inv : Inv job_store
unfolding lookup
job_store-Inv = record {
  sound = λ id. λ c. λ e. record {
    is_key = ground (arith, eq_iff "k1" id);
    retrieved = λ v. ground arith;
    not_failed = λ v. ground arith;
  };
  tracked = tt;
}

claim_launch_config-refused_example :
    Ends
      (IsUndone "k1" job_store)
      (λ _. Unit {0})
      (claim_launch_config services 20 25 "i1" "s" "k1" "token" "10.0.0.1" args job_store)
claim_launch_config-refused_example =
    claim_launch_config-refused services 20 25 "i1" "s" "k1" "token" "10.0.0.1" args job_store
      job_store-Inv

create_instance-conflict_example :
    let failed = fail_config 20 job_config job_store in
    (create_instance services 20 "i1" "s" chute job_config args job_store job_store
      ≡ halt failed conflict)
    × (lookup "j1" failed.jobs ≡ some (unassign job))
unfolding lookup
create_instance-conflict_example =
    create_instance-conflict services 20 "i1" "s" "j1" "bob" chute job_config args job job_store
      job_store refl refl refl

get_launch_config-IsRace_example :
    Ends
      (λ t. AllRows IsRace t.jobs)
      (λ r. AllRows IsRace r.0.jobs)
      (get_launch_config 10 "chutes" false "k2" "e" "c1" (some "j1") "carol" job_store)
unfolding contains
get_launch_config-IsRace_example =
    get_launch_config-IsRace 10 "chutes" false "k2" "e" "c1" (some "j1") "carol" job_store
      ((omega arith, (refl, (refl, tt))), tt)
