-- ===== src/Jobs/Reports/Failures.antt =====
-- Reports that lose something.
use chutes_api.Base.{
  ℕ, ◌≡◌, refl, Bool, false, List, [], ◌∷◌, Option, none, some, String, Dict, insert, All, keep,
  is_empty, arith,
}
use chutes_api.Jobs.{File, Job, Services, server_error, files_of, load_job, when_open}
use chutes_api.Jobs.Reports.{
  Report, finish_job, record_outputs, is_pending, starts_complete, append_detail, settle_files,
  close_job, complete,
}

is_empty-keep :
    {A : Type 0} (test : A → Bool) (xs : List A)
    → is_empty (keep test xs) ≡ false
    → is_empty xs ≡ false
unfolding keep
is_empty-keep test [] h = h
is_empty-keep test (x ∷ xs) h = refl

-- A job that failed without a detail and misses an upload can never be completed: the last report on
-- it ends in an exception.
complete-without_detail :
    (services : Services) (jobs : String → Option Job) (now : ℕ) (job_id token : String) (job : Job)
    → load_job services jobs job_id token none ≡ some job
    → job.finished_at ≡ none
    → starts_complete job.status ≡ false
    → job.error_detail ≡ none
    → is_empty (keep is_pending (files_of job)) ≡ false
    → complete services jobs now job_id token ≡ server_error
unfolding complete when_open settle_files append_detail close_job
complete-without_detail services jobs now job_id token job loaded unfinished failed silent missing =
    rw
      (loaded, unfinished, is_empty-keep is_pending (files_of job) missing, missing, failed, silent)

abbrev IsPending : String × File → Type 0
IsPending (file_id, file) = file.uploaded ≡ false

insert-IsPending :
    (file_id : String) (file : File) (files : Dict File)
    → file.uploaded ≡ false
    → All IsPending files
    → All IsPending (insert file_id file files)
unfolding insert
insert-IsPending file_id file [] u h = (u, tt)
insert-IsPending file_id file ((k, f) ∷ rest) u h =
    ground (arith, insert-IsPending file_id file rest u h.1)

record_outputs-IsPending :
    (services : Services) (job : Job) (names : List String) (files : Dict File)
    → All IsPending files
    → All IsPending (record_outputs services job names files)
unfolding record_outputs
record_outputs-IsPending services job [] files h = h
record_outputs-IsPending services job (f ∷ names) files h =
    record_outputs-IsPending services job names _ (insert-IsPending _ _ files refl h)

-- After the first report no file counts as uploaded, those that were uploaded before included: a repeated
-- report forgets them.
finish_job-IsPending :
    (services : Services) (report : Report) (job : Job)
    → All IsPending (files_of (finish_job services report job))
unfolding finish_job
finish_job-IsPending services report job =
    record_outputs-IsPending services job report.output_filenames [] tt
