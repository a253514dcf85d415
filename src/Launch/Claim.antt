-- ===== src/Launch/Claim.antt =====
-- The claim of a launch config, `claim_launch_config`: the environment that the miner reports, the
-- job, the instance and its GPUs.
pub mod Keeps
pub mod Conflict
pub mod Outcome
use chutes_api.Base.{
  ℕ, ◌*◌, Bool, true, false, not, ◌&&◌, ◌||◌, List, [], ◌∷◌, Option, none, some, String, Dict,
  lookup, insert, is_none, str_eq, ◌==◌, codes, lower_code, map, if◌then◌else◌,
}
use chutes_api.Gpus.{supported, compute_multiplier}
use chutes_api.Launch.{
  PortMap, JobPort, Chute, Node, LaunchConfig, Instance, JobRow, Store, Refusal, bad_request,
  forbidden, not_found, conflict, server_error, Run, go, halt, ◌>>=◌, ◌>>◌, require, the, is_some,
  save_config, fail_config, is_billed,
}
use chutes_api.Launch.Entry.{load_launch_config, admission}
use chutes_api.Launch.Nodes.{same_text, is_taken, validate_nodes}

pub record LaunchConfigArgs : Type 0 where
  pub gpus : List String
  pub host : String
  pub port_mappings : List PortMap
  pub env : String
  pub code : String
  pub fsv : Option String

-- What the handler takes from elsewhere. `decode` is PyJWT, `decrypt` the library `chutes.envdump` if
-- ENVDUMP_UNLOCK is set, `source_of` the base64 text in what it decrypts, `expected_command` and
-- `kubernetes_env` are verify_expected_command and is_kubernetes_env of watchtower.py, `recent` tells
-- whether the version is 0.3.1 or later, `fs_hash` is the file system challenge if CFSV_OP is set, and
-- `encrypt` the seed of a GraVal ciphertext, if it is made, and the position of the node drawn.
pub record Services : Type 0 where
  pub chutes_user : String
  pub decode : String → Option String
  pub envdump_unlock : Bool
  pub decrypt : String → String → Option String
  pub source_of : String → Option String
  pub expected_command : String → Chute → String → Bool
  pub kubernetes_env : Chute → String → Bool
  pub recent : String → Bool
  pub cfsv_op : Bool
  pub fs_hash : Chute → String → String
  pub encrypt : List Node → Option ℕ

abbrev pub read_source : Services → Option String → Option String
read_source services none = none
read_source services (some data_text) = services.source_of data_text

-- "Verify, decrypt, parse the envdump payload": what is wrong with it is committed as a failure.
pub check_environment : Services → Chute → LaunchConfig → LaunchConfigArgs → Store → Run (Unit {0})
check_environment services chute config args failed =
    if not services.envdump_unlock then go tt else do
      dump ← the (services.decrypt config.env_key args.env) failed forbidden
      code ← the (read_source services (services.decrypt config.env_key args.code)) failed forbidden
      require (services.expected_command dump chute config.miner_hotkey) failed forbidden
      require (str_eq code chute.code) failed forbidden
      require (services.kubernetes_env chute dump) failed forbidden

abbrev pub is_value : Option String → String → Bool
is_value none hash = false
is_value (some fsv) hash = str_eq hash fsv

-- "Valid filesystem/integrity?", for the chutes of version 0.3.1 and later.
pub check_filesystem : Services → Chute → LaunchConfig → LaunchConfigArgs → Store → Run (Unit {0})
check_filesystem services chute config args failed =
    require
      (not (services.recent chute.chutes_version && services.cfsv_op)
        || is_value args.fsv (services.fs_hash chute config.config_id))
      failed forbidden

-- `UPDATE jobs ... WHERE job_id = :job_id AND miner_hotkey IS NULL`; `none` where no row is changed.
pub take_job : (hotkey : String) → Option JobRow → Option JobRow
take_job hotkey none = none
take_job hotkey (some job) =
    if is_none job.miner_hotkey then some (record job { miner_hotkey = some hotkey }) else none

-- "Assign the job to this launch config."
pub assign_job : LaunchConfig → Option String → Store → Store → Run Store
assign_job config none s failed = go s
assign_job config (some job_id) s failed = do
  job ← the (take_job config.miner_hotkey (lookup job_id s.jobs)) failed conflict
  go (record s { jobs = insert job_id job s.jobs })

abbrev pub first_port : List PortMap → Option ℕ
first_port [] = none
first_port (p ∷ ps) = some p.external_port

-- PRIVATE_INSTANCE_MULTIPLIER is 16. `key` is the new symmetric key.
pub new_instance :
    Services
    → (instance_id key : String) → Chute
    → LaunchConfig
    → LaunchConfigArgs
    → (port multiplier : ℕ) → Instance
new_instance services instance_id key chute config args port multiplier =
    let charged = is_some config.job_id || is_billed services.chutes_user chute in
    record {
      instance_id = instance_id;
      config_id = config.config_id;
      chute_id = config.chute_id;
      miner_hotkey = config.miner_hotkey;
      host = args.host;
      port = port;
      symmetric_key = key;
      port_mappings = args.port_mappings;
      compute_multiplier = if charged then multiplier * 16 else multiplier;
      billed_to = if charged then some chute.user_id else none;
      verified = false;
      active = false;
      activated_at = none;
      stop_billing_at = none;
    }

-- `f"{proto}:{port}".lower()` of both, compared.
abbrev same_port : JobPort → JobPort → Bool
same_port p q =
    p.port == q.port && same_text (map lower_code (codes p.proto)) (map lower_code (codes q.proto))

abbrev has_port : List JobPort → JobPort → Bool
has_port [] p = false
has_port (q ∷ qs) p = same_port q p || has_port qs p

abbrev has_ports : List JobPort → List JobPort → Bool
has_ports qs [] = true
has_ports qs (p ∷ ps) = has_port qs p && has_ports qs ps

-- The ports that a job may ask for: not the two of the chute's own servers.
pub received : List PortMap → List JobPort
received [] = []
received (p ∷ ps) =
    let rest = received ps in
    if p.internal_port == 8000 || p.internal_port == 8001
    then rest
    else record { proto = p.proto; port = p.internal_port } ∷ rest

-- `expected == received`, as sets.
pub same_ports : (expected received : List JobPort) → Bool
same_ports expected received = has_ports expected received && has_ports received expected

-- "Mark the job as associated with this instance", in the order of the queries: the new instance is
-- written at the first of them.
pub attach_job : (taken : Bool) → Chute → Instance → Option String → Store → Store → Run Store
attach_job taken chute instance none s rolled_back = go s
attach_job taken chute instance (some job_id) s rolled_back = do
  require (not taken) rolled_back server_error
  job ← the (lookup job_id s.jobs) rolled_back not_found
  expected ← the (lookup job.method chute.jobs) rolled_back server_error
  require (same_ports expected (received instance.port_mappings)) rolled_back forbidden
  go (record s {
    jobs =
        insert job_id
          (record job {
            instance_id = some instance.instance_id;
            port_mappings = instance.port_mappings;
          })
          s.jobs;
  })

-- "Egress and ingress IPs must match for jobs."
abbrev pub same_address : Option String → (ip host : String) → Bool
same_address none ip host = true
same_address (some job_id) ip host = str_eq ip host

-- What follows a failure of the GPUs: a rollback, and the failure in a session of its own.
abbrev pub fail_row : (now : ℕ) → Option LaunchConfig → Store → Store
fail_row now none s = s
fail_row now (some config) s = fail_config now config s

abbrev pub fail_afterwards : (now : ℕ) (config_id : String) → Store → Store
fail_afterwards now config_id s = fail_row now (lookup config_id s.configs) s

-- The handler from the assignment of the job on, in one session; `s` is what was committed before.
pub create_instance :
    Services
    → (now : ℕ) (instance_id key : String) → Chute
    → LaunchConfig
    → LaunchConfigArgs
    → (noted s : Store) → Run (Store × Instance)
create_instance services now instance_id key chute config args noted s = do
  assigned ← assign_job config config.job_id noted (fail_config now config noted)
  port ← the (first_port args.port_mappings) s server_error
  multiplier ← the (compute_multiplier supported chute.node_selector) s server_error
  let instance = new_instance services instance_id key chute config args port multiplier
  let taken = is_taken instance noted.instances
  attached ← attach_job taken chute instance config.job_id assigned s
  let added : Store = record attached { instances = insert instance_id instance attached.instances }
  validated ←
      validate_nodes taken chute args.gpus config.miner_hotkey instance added
        (fail_afterwards now config.config_id s)
  seed ← the (services.encrypt validated.1) s server_error
  go (save_config (record config { seed = seed }) validated.0, instance)

-- `retrieved_at` is set anew in a session of its own, once the ciphertext is made.
abbrev pub note_retrieval : (later : ℕ) → Option LaunchConfig → Store → Store
note_retrieval later none s = s
note_retrieval later (some config) s = save_config (record config { retrieved_at = some later }) s

pub claim_launch_config :
    Services
    → (now later : ℕ) (instance_id key config_id token ip : String) → LaunchConfigArgs
    → Store
    → Run (Store × Instance)
claim_launch_config services now later instance_id key config_id token ip args s = do
  loaded ← load_launch_config now services.decode config_id token false s
  let config = loaded.0
  let noted = loaded.1
  let failed = fail_config now config noted
  chute ← the (lookup config.chute_id noted.chutes) s not_found
  admission now services.chutes_user chute config.miner_hotkey config.job_id noted s
  require (same_address config.job_id ip args.host) s bad_request
  check_environment services chute config args failed
  check_filesystem services chute config args failed
  created ← create_instance services now instance_id key chute config args noted s
  go (note_retrieval later (lookup config_id created.0.configs) created.0, created.1)
