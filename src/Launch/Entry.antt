-- ===== src/Launch/Entry.antt =====
-- How a miner comes to a launch: the request for a launch config (`get_launch_config`), and the token
-- by which the later requests load it (`load_launch_config_from_jwt` of api/instance/util.py).
-- The checks of Admission are made here on the tables.
pub mod Keeps
pub mod Noted
pub mod Race
pub mod Loading
use chutes_api.Base.{
  ℕ, zero, suc, ◌+◌, Bool, true, false, not, ◌&&◌, List, [], ◌∷◌, ◌++◌, Option, none, some, String,
  Dict, lookup, insert, contains, is_none, str_eq, leb, length, if◌then◌else◌,
}
use chutes_api.Admission.{Verdict, allowed, locked, Counts, check_scalable, check_scalable_private}
use chutes_api.Bounties.{check_bounty_exists}
use chutes_api.Launch.{
  Chute, LaunchConfig, Instance, JobRow, Store, Refusal, unauthorized, forbidden, not_found,
  conflict, race, Run, go, halt, ◌>>=◌, ◌>>◌, require, the, is_some, is_named, save_config,
  is_billed,
}
use chutes_api.Launch

-- The query's `COUNT(CASE WHEN ... THEN 1 ELSE NULL END)`.
abbrev pub count_where : (Instance → Bool) → Dict Instance → ℕ
count_where test [] = 0
count_where test ((key, instance) ∷ rest) = (if test instance then 1 else 0) + count_where test rest

counts_for : (chute_id hotkey : String) → Dict Instance → Counts
counts_for chute_id hotkey rows = record {
  total_count = count_where (λ i. str_eq i.chute_id chute_id) rows;
  active_count = count_where (λ i. str_eq i.chute_id chute_id && (i.active && i.verified)) rows;
  hotkey_count = count_where (λ i. str_eq i.chute_id chute_id && str_eq i.miner_hotkey hotkey) rows;
}

-- The choice between the two checks, by how the chute is billed.
pub check_admission : (now : ℕ) (chutes_user : String) → Chute → (hotkey : String) → Store → Verdict
check_admission now chutes_user chute hotkey s =
    let counts = counts_for chute.chute_id hotkey s.instances in
    let scale_value = lookup chute.chute_id s.scale in
    if is_billed chutes_user chute
    then check_scalable_private counts.active_count scale_value
        (check_bounty_exists now chute.chute_id s.bounties)
    else check_scalable counts scale_value (lookup chute.chute_id s.capacity_log) chute.permitted
        hotkey

-- A verdict that is no exception lets the handler go on.
abbrev pub admitted : Verdict → Store → Run (Unit {0})
admitted allowed s = go tt
admitted (locked lock) s = halt s (Launch.locked lock)

-- Without a job, a launch must be admitted.
pub admission :
    (now : ℕ) (chutes_user : String)
    → Chute
    → (hotkey : String) → Option String
    → Store
    → Store
    → Run (Unit {0})
admission now chutes_user chute hotkey (some job_id) s rolled_back = go tt
admission now chutes_user chute hotkey none s rolled_back =
    admitted (check_admission now chutes_user chute hotkey s) rolled_back

-- _check_blacklisted
pub check_blacklisted : (hotkey : String) → Store → Run (Unit {0})
check_blacklisted hotkey s = do
  blacklisted ← the (lookup hotkey s.blacklisted) s not_found
  require (not blacklisted) s forbidden

abbrev pub of_chute : String → Option JobRow → Option JobRow
of_chute chute_id none = none
of_chute chute_id (some job) = if str_eq job.chute_id chute_id then some job else none

-- "Associated with a job?": at most 15 miners, each once.
pub enter_race : (chute_id job_id hotkey : String) → Store → Run Store
enter_race chute_id job_id hotkey s = do
  job ← the (of_chute chute_id (lookup job_id s.jobs)) s not_found
  require (not (leb 15 (length job.miner_history))) s race
  require (not (contains job.miner_history hotkey)) s forbidden
  go (record s {
    jobs = insert job_id (record job { miner_history = job.miner_history ++ (hotkey ∷ []) }) s.jobs;
  })

pub enter_job : (chute_id : String) → Option String → (hotkey : String) → Store → Run Store
enter_job chute_id none hotkey s = go s
enter_job chute_id (some job_id) hotkey s = enter_race chute_id job_id hotkey s

abbrev pub has_config : Option String → Dict LaunchConfig → Bool
has_config none configs = false
has_config (some job_id) [] = false
has_config (some job_id) ((key, config) ∷ rest) =
    if is_named config.job_id job_id then true else has_config (some job_id) rest

-- `unique_job` tells whether the constraint `uq_job_launch_config` is in force: the ORM class has it, and
-- the migration 20250720084231_job_uq_fix.sql drops it.
pub get_launch_config :
    (now : ℕ) (chutes_user : String) (unique_job : Bool) (config_id env_key : String)
    → (chute_id : String) (job_id : Option String) (hotkey : String) → Store
    → Run (Store × LaunchConfig)
get_launch_config now chutes_user unique_job config_id env_key chute_id job_id hotkey s = do
  check_blacklisted hotkey s
  chute ← the (lookup chute_id s.chutes) s not_found
  admission now chutes_user chute hotkey job_id s s
  entered ← enter_job chute_id job_id hotkey s
  require (not (unique_job && has_config job_id s.configs)) s conflict
  let config : LaunchConfig = record {
    config_id = config_id;
    env_key = env_key;
    chute_id = chute_id;
    job_id = job_id;
    miner_hotkey = hotkey;
    seed = 0;
    retrieved_at = none;
    verified_at = none;
    failed_at = none;
  }
  go (save_config config entered, config)

-- The config that a token opens; the first retrieval is noted.
abbrev pub retrieve :
    (now : ℕ) (allow_retrieved : Bool)
    → LaunchConfig
    → Option ℕ
    → Store
    → Run (LaunchConfig × Store)
retrieve now allow_retrieved config none s =
    let noted : LaunchConfig = record config { retrieved_at = some now } in
    go (noted, save_config noted s)
retrieve now true config (some t) s = go (config, s)
retrieve now false config (some t) s = halt s unauthorized

-- `decode` is PyJWT with the server's key: the subject of a valid token.
pub load_launch_config :
    (now : ℕ) (decode : String → Option String) (config_id token : String) (allow_retrieved : Bool)
    → Store
    → Run (LaunchConfig × Store)
load_launch_config now decode config_id token allow_retrieved s = do
  sub ← the (decode token) s unauthorized
  require (str_eq config_id sub) s unauthorized
  config ← the (lookup config_id s.configs) s unauthorized
  retrieve now allow_retrieved config config.retrieved_at s
