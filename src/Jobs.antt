-- ===== src/Jobs.antt =====
-- The jobs of api/job: what a miner does with a job by the tokens it is given.
-- Every handler first loads the job by a token (`load_job_from_jwt` of api/instance/util.py).
pub mod Reports
pub mod Create
use chutes_api.Base.{
  ℕ, ◌&&◌, Bool, true, false, not, List, [], ◌∷◌, Option, none, some, String, Dict, Text, is_empty,
  is_none, lookup, get_or, str_eq, if◌then◌else◌,
}

-- An entry of the dictionary `output_files`.
pub record File : Type 0 where
  pub filename : String
  pub path : Text
  pub uploaded : Bool

-- The columns of a job that its handlers read or write; the result is the text of its JSON.
pub record Job : Type 0 where
  pub job_id : String
  pub chute_id : String
  pub instance_id : Option String
  pub created_at : ℕ
  pub updated_at : Option ℕ
  pub finished_at : Option ℕ
  pub status : String
  pub result : String
  pub error_detail : Option Text
  pub output_files : Option (Dict File)

-- The payload of a token: the job, and the file that an upload token is for.
pub record Claims : Type 0 where
  pub sub : String
  pub filename : Option String

-- Libraries: uuid.uuid5 in the namespace of a job, PyJWT with the server's key, and the date of a time.
pub record Services : Type 0 where
  pub uuid5 : String → String → String
  pub encode : Claims → String
  pub decode : String → Option Claims
  pub strftime : ℕ → String

-- A handler's answer. An exception that nobody catches is `server_error`.
pub data Answer (A : Type 0) : Type 0 where
  ok : A → Answer A
  unauthorized already_finished not_found server_error : Answer A

-- `if filename`: an empty name counts as none.
pub if_named : Option String → Option String
if_named none = none
if_named (some filename) = if str_eq filename "" then none else some filename

-- `if filename: assert filename == payload["filename"]`
pub matches_filename : (filename claimed : Option String) → Bool
matches_filename none claimed = true
matches_filename (some f) none = false
matches_filename (some f) (some g) = str_eq f g

abbrev pub files_of : Job → Dict File
files_of job = get_or job.output_files []

-- `filename and job.output_files and file_id not in job.output_files`
pub lacks_file : Services → Job → Option String → Bool
lacks_file services job none = false
lacks_file services job (some f) =
    not (is_empty (files_of job)) && is_none (lookup (services.uuid5 job.job_id f) (files_of job))

pub check_job : Services → (filename : Option String) → Option Job → Option Job
check_job services filename none = none
check_job services filename (some job) = if lacks_file services job filename then none else some job

pub check_claims :
    Services
    → (jobs : String → Option Job) → (job_id : String) → (filename : Option String) → Option Claims
    → Option Job
check_claims services jobs job_id filename none = none
check_claims services jobs job_id filename (some claims) =
    if str_eq job_id claims.sub && matches_filename filename claims.filename
    then check_job services filename (jobs job_id)
    else none

-- load_job_from_jwt; `jobs` is the query by the identifier, and `none` is the 401 answer.
pub load_job :
    Services
    → (jobs : String → Option Job) → (job_id token : String) → (filename : Option String)
    → Option Job
load_job services jobs job_id token filename =
    check_claims services jobs job_id (if_named filename) (services.decode token)

-- create_job_jwt
pub create_job_jwt : Services → (job_id : String) → (filename : Option String) → String
create_job_jwt services job_id filename =
    services.encode (record { sub = job_id; filename = if_named filename })

-- What the three handlers below begin with.
pub when_open : {A : Type 0} → Option Job → (Job → Answer A) → Answer A
when_open none body = unauthorized
when_open (some job) body = if is_none job.finished_at then body job else already_finished
