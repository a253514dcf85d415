-- ===== src/Jobs/Create/Samples.antt =====
-- A user makes a job on the GPU "l4".
use chutes_api.Base.{
  ◌≡◌, ◌≤◌, refl, max, ℕ, true, false, [], ◌∷◌, List, Option, none, some, String, lookup, keep,
}
use chutes_api.Gpus.{
  NodeSelector, supported_gpus, compute_multiplier, price_of, multiply, cheapest, rate_of, fit,
  without, included,
}
use chutes_api.Quotas.{job_quota, db_chute_id, default_for}
use chutes_api.Jobs.Create.{
  JobChute, number, UserJob, created, disk_of, has_quota, price_job, chute_jobs, create_job,
}
use chutes_api.Jobs.Create.Daily.{here, next, made, Reach-within_quota}

abbrev rows : String → Option ℕ
rows chute_id = some 2

abbrev selector : NodeSelector
selector = record {
  gpu_count = 1;
  min_vram_gb_per_gpu = none;
  exclude = none;
  include = some ("l4" ∷ []);
}

abbrev chute : JobChute
chute = record {
  chute_id = "c1";
  user_id = "u2";
  public = true;
  shared = false;
  node_selector = selector;
}

abbrev job : UserJob
job = record {
  job_id = "j1";
  user_id = "u1";
  chute_id = "c1";
  disk_gb = 20;
  compute_multiplier = 170;
  today = true;
}

accepts : create_job rows [] "j1" "u1" (number 20500) (some chute) [] ≡ created job
unfolding create_job has_quota disk_of price_job job_quota db_chute_id default_for
    compute_multiplier price_of multiply cheapest rate_of supported_gpus fit without included lookup
    keep
accepts = refl

abbrev no_jobs : List UserJob
no_jobs = []

Reach-within_quota_example :
    chute_jobs "u1" "c1" (job ∷ []) ≤ max (chute_jobs "u1" "c1" no_jobs) (job_quota rows [] "c1")
Reach-within_quota_example =
    Reach-within_quota rows [] "u1" "c1"
      (next {js = no_jobs} here (made "j1" (number 20500) (some chute) job accepts))
