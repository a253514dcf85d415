-- ===== src/Jobs/Create/Daily.antt =====
-- The daily quota of jobs.
use chutes_api.Base.{
  ℕ, ◌≤◌, ◌<◌, max, ◌≡◌, inl, inr, sym, ap, Bool, true, not, ◌&&◌, List, [], ◌∷◌, Option, none,
  some, String, Dict, keep, str_eq, Bool-cases, arith, eq_iff,
}
use chutes_api.Gpus.{supported, compute_multiplier}
use chutes_api.Quotas.{job_quota}
use chutes_api.Jobs.Create.{
  JobChute, DiskSize, UserJob, Creation, created, no_chute, quota_exceeded, bad_disk, server_error,
  disk_of, is_visible, count_jobs, total_jobs, chute_jobs, has_quota, price_job, make_job,
  for_chute, create_job, delete_job,
}

-- What an accepted request says of the user's quotas and of the job.
record IsAllowed (rows : String → Option ℕ) (defaults : Dict ℕ) (user_id : String)
    (jobs : List UserJob) (job : UserJob) : Type 0 where
  pub is_user : job.user_id ≡ user_id
  pub below_quota : chute_jobs user_id job.chute_id jobs < job_quota rows defaults job.chute_id
  pub below_total : total_jobs user_id jobs < job_quota rows defaults "global"
  pub disk : (10 ≤ job.disk_gb) × (job.disk_gb < 1000)

disk_of-bounds : (disk : DiskSize) (gb : ℕ) → disk_of disk ≡ some gb → (10 ≤ gb) × (gb < 1000)
unfolding disk_of
disk_of-bounds disk gb e = ground arith

abbrev created_job : Creation → UserJob → UserJob
created_job (created made) job = made
created_job no_chute job = job
created_job quota_exceeded job = job
created_job bad_disk job = job
created_job server_error job = job

make_job-created :
    (job_id user_id chute_id : String) (m d : Option ℕ) (job : UserJob)
    → make_job job_id user_id chute_id m d ≡ created job
    → (job.user_id ≡ user_id) × (job.chute_id ≡ chute_id) × (d ≡ some job.disk_gb)
make_job-created job_id user_id chute_id none d job e = absurd cc
make_job-created job_id user_id chute_id (some m) none job e = absurd cc
make_job-created job_id user_id chute_id (some m) (some d) job e =
    let same = ap (λ (c : Creation). created_job c job) e in
    (
      ap (λ (j : UserJob). j.user_id) (sym same),
      ap (λ (j : UserJob). j.chute_id) (sym same),
      ap (λ (j : UserJob). some j.disk_gb) same,
    )

has_quota-below :
    (rows : String → Option ℕ) (defaults : Dict ℕ) (user_id chute_id : String) (jobs : List UserJob)
    → has_quota rows defaults user_id chute_id jobs ≡ true
    → (chute_jobs user_id chute_id jobs < job_quota rows defaults chute_id)
      × (total_jobs user_id jobs < job_quota rows defaults "global")
unfolding has_quota
has_quota-below rows defaults user_id chute_id jobs e = ground arith

for_chute-IsAllowed :
    (rows : String → Option ℕ) (defaults : Dict ℕ) (job_id user_id : String) (disk : DiskSize)
    (jobs : List UserJob) (o : Option JobChute) (job : UserJob)
    → for_chute rows defaults job_id user_id disk jobs o ≡ created job
    → IsAllowed rows defaults user_id jobs job
for_chute-IsAllowed rows defaults job_id user_id disk jobs none job e = absurd cc
for_chute-IsAllowed rows defaults job_id user_id disk jobs (some chute) job e =
    let (visible, allowed, made) : (is_visible chute user_id ≡ true)
        × (has_quota rows defaults user_id chute.chute_id jobs ≡ true)
        × (make_job job_id user_id chute.chute_id
              (price_job chute.node_selector (compute_multiplier supported chute.node_selector))
              (disk_of disk)
            ≡ created job) =
      ground arith in
    let (same_user, same_chute, kept) =
      make_job-created job_id user_id chute.chute_id
        (price_job chute.node_selector (compute_multiplier supported chute.node_selector))
        (disk_of disk) job made in
    let (below, below_total) = has_quota-below rows defaults user_id chute.chute_id jobs allowed in
    record {
      is_user = same_user;
      below_quota = rw same_chute below;
      below_total = below_total;
      disk = disk_of-bounds disk job.disk_gb kept;
    }

-- A job is only made for a user who has fewer jobs of the day than the quota for the chute, and fewer
-- in all than the global quota; and it has at least 10 and less than 1000 gigabytes.
create_job-IsAllowed :
    (rows : String → Option ℕ) (defaults : Dict ℕ) (job_id user_id : String) (disk : DiskSize)
    (chute : Option JobChute) (jobs : List UserJob) (job : UserJob)
    → create_job rows defaults job_id user_id disk chute jobs ≡ created job
    → IsAllowed rows defaults user_id jobs job
unfolding create_job
create_job-IsAllowed rows defaults job_id user_id disk chute jobs job e =
    for_chute-IsAllowed rows defaults job_id user_id disk jobs chute job e

-- One request of the user, granted or not.
pub data Step (rows : String → Option ℕ) (defaults : Dict ℕ) (user_id : String)
    (jobs : List UserJob) : List UserJob → Type 0 where
  made :
      (job_id : String) (disk : DiskSize) (chute : Option JobChute) (job : UserJob)
      → create_job rows defaults job_id user_id disk chute jobs ≡ created job
      → Step rows defaults user_id jobs (job ∷ jobs)
  deleted : (job_id : String) → Step rows defaults user_id jobs (delete_job job_id user_id jobs)

pub data Reach (rows : String → Option ℕ) (defaults : Dict ℕ) (user_id : String)
    (jobs : List UserJob) : List UserJob → Type 0 where
  here : Reach rows defaults user_id jobs jobs
  next :
      {js ks : List UserJob}
      → Reach rows defaults user_id jobs js
      → Step rows defaults user_id js ks
      → Reach rows defaults user_id jobs ks

count_jobs-keep :
    (test kept : UserJob → Bool) (jobs : List UserJob)
    → count_jobs test (keep kept jobs) ≤ count_jobs test jobs
unfolding keep
count_jobs-keep test kept [] = omega arith
count_jobs-keep test kept (job ∷ jobs) = ground (arith, count_jobs-keep test kept jobs)

Step-bound :
    (rows : String → Option ℕ) (defaults : Dict ℕ) (user_id chute_id : String) (bound : ℕ)
    {js ks : List UserJob}
    → job_quota rows defaults chute_id ≤ bound
    → Step rows defaults user_id js ks
    → chute_jobs user_id chute_id js ≤ bound
    → chute_jobs user_id chute_id ks ≤ bound
unfolding delete_job
Step-bound rows defaults user_id chute_id bound {js} h (made job_id disk chute job e) b =
    let a = create_job-IsAllowed rows defaults job_id user_id disk chute js job e in
    elim (Bool-cases (str_eq job.chute_id chute_id)) [
      | inl same ↦
          let below : chute_jobs user_id chute_id js < job_quota rows defaults chute_id =
            rw (sym ((eq_iff job.chute_id chute_id).0 same)) a.below_quota in
          ground arith
      | inr other ↦ ground arith
    ]
Step-bound rows defaults user_id chute_id bound {js} h (deleted job_id) b = omega (
  arith,
  count_jobs-keep (λ j. str_eq j.user_id user_id && j.today && str_eq j.chute_id chute_id)
      (λ j. not (str_eq j.job_id job_id && str_eq j.user_id user_id)) js,
)

-- However a user makes and deletes jobs on one day, there are never more jobs of that day for a chute
-- than there were, or than the quota, whichever is more.
pub Reach-within_quota :
    (rows : String → Option ℕ) (defaults : Dict ℕ) (user_id chute_id : String)
    {js ks : List UserJob}
    → Reach rows defaults user_id js ks
    → chute_jobs user_id chute_id ks
      ≤ max (chute_jobs user_id chute_id js) (job_quota rows defaults chute_id)
Reach-within_quota rows defaults user_id chute_id here = omega arith
Reach-within_quota rows defaults user_id chute_id {js} (next r s) =
    Step-bound rows defaults user_id chute_id
      (max (chute_jobs user_id chute_id js) (job_quota rows defaults chute_id)) (omega arith) s
      (Reach-within_quota rows defaults user_id chute_id r)
