-- ===== src/Launch/Verify.antt =====
-- The proof of work of a launch, `verify_launch_config_instance`: the time, the key, the proof and the
-- file system; then the ports of a job.
pub mod Keeps
pub mod Samples
pub mod Accepted
use chutes_api.Base.{
  ℕ, ◌-◌, ◌*◌, Bool, true, false, not, ◌&&◌, ◌||◌, List, [], ◌∷◌, Option, none, some, String, Dict,
  lookup, insert, is_none, str_eq, ltb, leb, ◌==◌, first_where, choose, if◌then◌else◌,
}
use chutes_api.Launch.{
  PortMap, Chute, Node, LaunchConfig, Instance, JobRow, Store, Refusal, bad_request, forbidden,
  not_found, server_error, Run, go, halt, ◌>>=◌, ◌>>◌, require, the, is_some, is_named, save_config,
  fail_config, remove_instance,
}
use chutes_api.Launch.Entry.{load_launch_config}

-- `SUPPORTED_GPUS[gpu]["graval"]["estimate"]`
abbrev pub estimates : Dict ℕ
estimates =
    ("3090", 70)
    ∷ ("4090", 65)
    ∷ ("5090", 60)
    ∷ ("a4000", 75)
    ∷ ("a4000_ada", 80)
    ∷ ("a5000", 92)
    ∷ ("a6000", 140)
    ∷ ("a6000_ada", 60)
    ∷ ("pro_6000", 103)
    ∷ ("l4", 85)
    ∷ ("a10", 82)
    ∷ ("a40", 142)
    ∷ ("l40", 60)
    ∷ ("l40s", 60)
    ∷ ("a100_40gb", 60)
    ∷ ("a100_40gb_sxm", 60)
    ∷ ("a100", 58)
    ∷ ("a100_sxm", 70)
    ∷ ("h100", 62)
    ∷ ("h100_nvl", 75)
    ∷ ("h100_sxm", 70)
    ∷ ("h800", 75)
    ∷ ("h20", 300)
    ∷ ("h200", 70)
    ∷ ("mi300x", 75)
    ∷ ("b200", 75)
    ∷ []

-- The body of the request; `none` where a key is missing.
pub record Response : Type 0 where
  pub response : Option String
  pub iv : Option String
  pub proof : Dict String
  pub fsv : Option String

-- What the handler takes from elsewhere: PyJWT, `aes_decrypt`, the plaintext expected for a launch, the
-- position of the node that is drawn, `verify_proof` of the GraVal worker, whether the version is 0.3.1
-- or later, the file system challenge if CFSV_OP is set, and `verify_port_map`, which asks the network.
pub record Checks : Type 0 where
  pub decode : String → Option String
  pub aes_decrypt : String → String → String → Option String
  pub plaintext : String → ℕ → String
  pub draw : ℕ
  pub verify_proof : Node → ℕ → String → Bool
  pub recent : String → Bool
  pub cfsv_op : Bool
  pub fs_hash : Chute → ℕ → String
  pub port_open : Instance → PortMap → Bool

abbrev pub of_config : String → Instance → Bool
of_config config_id instance = str_eq instance.config_id config_id

-- `instance.nodes`; `none` where a row has no node, which the foreign key excludes.
abbrev add_node : Option Node → List Node → List Node
add_node none found = found
add_node (some node) found = node ∷ found

abbrev pub nodes_of : String → Dict String → Dict Node → List Node
nodes_of instance_id [] nodes = []
nodes_of instance_id ((node_id, owner) ∷ rest) nodes =
    let found = nodes_of instance_id rest nodes in
    if str_eq owner instance_id then add_node (lookup node_id nodes) found else found

-- `instance.nodes[0]` and `instance.nodes[node_idx]`
abbrev pub first_node : List Node → Option Node
first_node [] = none
first_node (node ∷ nodes) = some node

abbrev pub drawn_node : ℕ → List Node → Option Node
drawn_node n [] = none
drawn_node n (node ∷ nodes) = some (choose node nodes n)

-- `delta < estimate * 2.15`
pub in_time : (estimate start now : ℕ) → Bool
in_time estimate start now = ltb ((now - start) * 100) (estimate * 215)

abbrev decrypted : Checks → Instance → Option String → Option String → Option String
decrypted checks instance none iv = none
decrypted checks instance (some response) none = none
decrypted checks instance (some response) (some iv) =
    checks.aes_decrypt response instance.symmetric_key iv

abbrev pub is_text : Option String → String → Bool
is_text none text = false
is_text (some other) text = str_eq other text

-- "Valid response cipher?"
pub answers : Checks → LaunchConfig → Instance → Response → Bool
answers checks config instance response =
    is_text (decrypted checks instance response.response response.iv)
      (checks.plaintext config.config_id config.seed)

abbrev checks_proof : Checks → ℕ → Node → Option String → Bool
checks_proof checks seed node none = false
checks_proof checks seed node (some work_product) = checks.verify_proof node seed work_product

-- "Valid proof?"
pub proves : Checks → LaunchConfig → Option Node → Response → Bool
proves checks config none response = false
proves checks config (some node) response =
    checks_proof checks config.seed node (lookup node.uuid response.proof)

-- A miner that fails a check loses the instance, and the launch.
pub punish : (now : ℕ) → LaunchConfig → Instance → Store → Store
punish now config instance s = remove_instance instance.instance_id (fail_config now config s)

-- "Valid filesystem/integrity?", for the chutes before version 0.3.1.
pub check_fsv : Checks → Chute → LaunchConfig → Response → Store → Store → Run (Unit {0})
check_fsv checks chute config response s failed =
    if checks.recent chute.chutes_version || not checks.cfsv_op then go tt else do
      fsv ← the response.fsv s server_error
      require (str_eq (checks.fs_hash chute config.seed) fsv) failed forbidden

-- The ports other than the two of the chute's own servers.
pub ports_open : Checks → Instance → List PortMap → Bool
ports_open checks instance [] = true
ports_open checks instance (p ∷ ps) =
    (p.internal_port == 8000 || (p.internal_port == 8001 || checks.port_open instance p))
    && ports_open checks instance ps

abbrev pub of_instance : String → JobRow → Bool
of_instance instance_id job = is_named job.instance_id instance_id

-- "Test the ports are open." A port that is closed rolls the session back.
pub start_job : Checks → (now : ℕ) → Instance → Option JobRow → Store → Store → Run Store
start_job checks now instance none s rolled_back = go s
start_job checks now instance (some job) s rolled_back = do
  require (ports_open checks instance instance.port_mappings) rolled_back forbidden
  go (record s { jobs = insert job.job_id (record job { started_at = some now }) s.jobs })

-- "Everything checks out."
pub accept : Checks → (now : ℕ) → LaunchConfig → Instance → Store → Store → Run Store
accept checks now config instance noted s = do
  started ←
      start_job checks now instance (first_where (of_instance instance.instance_id) noted.jobs)
        (save_config (record config { verified_at = some now }) noted) s
  go (record started {
    instances = insert instance.instance_id (record instance { verified = true }) started.instances;
  })

pub check_work :
    Checks → (now start : ℕ) → LaunchConfig → Instance → Response → Store → Store → Run (Unit {0})
check_work checks now start config instance response noted s = do
  let nodes = nodes_of instance.instance_id noted.instance_nodes noted.nodes
  node ← the (first_node nodes) s server_error
  estimate ← the (lookup node.gpu_identifier estimates) s server_error
  let failed = punish now config instance noted
  require (in_time estimate start now) failed forbidden
  require (answers checks config instance response) failed forbidden
  require (proves checks config (drawn_node checks.draw nodes) response) failed forbidden
  chute ← the (lookup instance.chute_id noted.chutes) s server_error
  check_fsv checks chute config response s failed

abbrev pub started_at : Option LaunchConfig → Option ℕ
started_at none = none
started_at (some config) = config.retrieved_at

-- A time of retrieval that this request sets itself is an SQL expression, from which no time is read.
pub verify_launch_config_instance :
    Checks → (now : ℕ) (config_id token : String) → Response → Store → Run Store
verify_launch_config_instance checks now config_id token response s = do
  loaded ← load_launch_config now checks.decode config_id token true s
  let config = loaded.0
  let noted = loaded.1
  require (is_none config.verified_at) s bad_request
  require (is_none config.failed_at) s forbidden
  start ← the (started_at (lookup config_id s.configs)) s server_error
  instance ←
      the (first_where (of_config config.config_id) noted.instances) (fail_config now config noted)
        not_found
  check_work checks now start config instance response noted s
  accept checks now config instance noted s
