-- ===== src/Jobs/Create.antt =====
-- How a user makes and deletes a job, `create_job` and `delete_job` of api/job/router.py.
pub mod Daily
pub mod Samples
use chutes_api.Base.{
  ℕ, ◌+◌, ◌*◌, ◌/◌, Bool, true, false, not, ◌&&◌, ◌||◌, List, [], ◌∷◌, Option, none, some, String,
  Dict, lookup, contains, is_none, is_empty, keep, leb, ltb, ◌==◌, str_eq, if◌then◌else◌,
}
use chutes_api.Gpus.{Gpu, supported, NodeSelector, supported_gpus, compute_multiplier}
use chutes_api.Quotas.{job_quota}

-- The chute with the method that is asked for, and whether it is shared with the user.
pub record JobChute : Type 0 where
  pub chute_id : String
  pub user_id : String
  pub public : Bool
  pub shared : Bool
  pub node_selector : NodeSelector

-- `job_args.get("_disk_gb")`: missing or null, a number in thousandths, or another value.
pub data DiskSize : Type 0 where
  missing not_number : DiskSize
  number : ℕ → DiskSize

-- A row of the table of jobs; `today` tells whether it was made since midnight.
pub record UserJob : Type 0 where
  pub job_id : String
  pub user_id : String
  pub chute_id : String
  pub disk_gb : ℕ
  pub compute_multiplier : ℕ
  pub today : Bool

pub data Creation : Type 0 where
  created : UserJob → Creation
  no_chute quota_exceeded bad_disk server_error : Creation

-- `not 10 < disk_gb < 1000`, and the gigabytes that are kept.
pub disk_of : DiskSize → Option ℕ
disk_of missing = some 10
disk_of not_number = none
disk_of (number n) = if ltb 10000 n && ltb n 1000000 then some (n / 1000) else none

abbrev pub is_visible : JobChute → (user_id : String) → Bool
is_visible chute user_id = chute.public || (str_eq chute.user_id user_id || chute.shared)

-- The counts of the day: all jobs of the user, and those for the chute.
abbrev pub count_jobs : (UserJob → Bool) → List UserJob → ℕ
count_jobs test [] = 0
count_jobs test (job ∷ jobs) = (if test job then 1 else 0) + count_jobs test jobs

abbrev pub total_jobs : (user_id : String) → List UserJob → ℕ
total_jobs user_id jobs = count_jobs (λ j. str_eq j.user_id user_id && j.today) jobs

abbrev pub chute_jobs : (user_id chute_id : String) → List UserJob → ℕ
chute_jobs user_id chute_id jobs =
    count_jobs (λ j. str_eq j.user_id user_id && j.today && str_eq j.chute_id chute_id) jobs

pub has_quota :
    (rows : String → Option ℕ) (defaults : Dict ℕ)
    → (user_id chute_id : String) → List UserJob
    → Bool
has_quota rows defaults user_id chute_id jobs =
    let quota = job_quota rows defaults chute_id in
    not (
      quota == 0
      || (leb quota (chute_jobs user_id chute_id jobs)
          || leb (job_quota rows defaults "global") (total_jobs user_id jobs)))

-- `not set(node_selector.supported_gpus) - set(["h200"])`
abbrev only_h200 : Option (List String) → Bool
only_h200 none = false
only_h200 (some gpus) = is_empty (keep (λ g. not (str_eq g "h200")) gpus)

pub price_job : NodeSelector → Option ℕ → Option ℕ
price_job selector none = none
price_job selector (some multiplier) =
    some (if only_h200 (supported_gpus supported selector) then multiplier * 16 else multiplier)

abbrev pub make_job : (job_id user_id chute_id : String) → Option ℕ → Option ℕ → Creation
make_job job_id user_id chute_id none disk = server_error
make_job job_id user_id chute_id (some multiplier) none = bad_disk
make_job job_id user_id chute_id (some multiplier) (some disk_gb) = created (record {
  job_id = job_id;
  user_id = user_id;
  chute_id = chute_id;
  disk_gb = disk_gb;
  compute_multiplier = multiplier;
  today = true;
})

abbrev pub for_chute :
    (rows : String → Option ℕ) (defaults : Dict ℕ)
    → (job_id user_id : String) → DiskSize
    → List UserJob
    → Option JobChute
    → Creation
for_chute rows defaults job_id user_id disk jobs none = no_chute
for_chute rows defaults job_id user_id disk jobs (some chute) =
    if not (is_visible chute user_id)
    then no_chute
    else if not (has_quota rows defaults user_id chute.chute_id jobs)
    then quota_exceeded
    else make_job job_id user_id chute.chute_id
        (price_job chute.node_selector (compute_multiplier supported chute.node_selector))
        (disk_of disk)

-- create_job; `chute` is the query's, `rows` has the user's job quotas.
pub create_job :
    (rows : String → Option ℕ) (defaults : Dict ℕ)
    → (job_id user_id : String) → DiskSize
    → Option JobChute
    → List UserJob
    → Creation
create_job rows defaults job_id user_id disk chute jobs =
    for_chute rows defaults job_id user_id disk jobs chute

-- delete_job: a user deletes its own job, and the row goes.
pub delete_job : (job_id user_id : String) → List UserJob → List UserJob
delete_job job_id user_id jobs =
    keep (λ j. not (str_eq j.job_id job_id && str_eq j.user_id user_id)) jobs
