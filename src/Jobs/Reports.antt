-- ===== src/Jobs/Reports.antt =====
-- The miner's reports on a job: finish_job_and_get_upload_targets, upload_job_file and complete_job of
-- api/job/router.py.
pub mod Course
pub mod Honest
pub mod Tokens
pub mod Failures
pub mod Samples
use chutes_api.Base.{
  ℕ, ◌&&◌, Bool, true, false, not, List, [], ◌∷◌, ◌++◌, Option, none, some, String, Dict, Text,
  is_empty, lookup, insert, get_or, keep, map, codes, is_prefix, str_eq, if◌then◌else◌,
}
use chutes_api.Jobs.{
  File, Job, Services, Answer, ok, not_found, server_error, files_of, load_job, create_job_jwt,
  when_open,
}

-- The JSON body of the first report, without the keys that are missing.
pub record Report : Type 0 where
  pub status : Option String
  pub output_filenames : List String
  pub result : Option String
  pub detail : Option Text

-- `jobs/{chute_id}/{date}/{job_id}/outputs/{filename}`
pub s3_key : Services → Job → (filename : String) → Text
s3_key services job filename =
    codes "jobs/"
    ++ (codes job.chute_id
        ++ (codes "/"
            ++ (codes (services.strftime job.created_at)
                ++ (codes "/" ++ (codes job.job_id ++ (codes "/outputs/" ++ codes filename))))))

-- The loop over the names: the entries of `output_files`, and the tokens in the upload URLs.
pub record_outputs : Services → Job → (filenames : List String) → Dict File → Dict File
record_outputs services job [] files = files
record_outputs services job (f ∷ fs) files = record_outputs services job fs (
    insert (services.uuid5 job.job_id f)
      (record { filename = f; path = s3_key services job f; uploaded = false }) files)

pub upload_tokens : Services → Job → (filenames : List String) → Dict String → Dict String
upload_tokens services job [] tokens = tokens
upload_tokens services job (f ∷ fs) tokens =
    upload_tokens services job fs (insert f (create_job_jwt services job.job_id (some f)) tokens)

pub reported_status : Report → String
reported_status report =
    let status = get_or report.status "error" in
    if str_eq status "complete" && not (is_empty report.output_filenames)
    then "complete_pending_uploads"
    else status

pub finish_job : Services → Report → Job → Job
finish_job services report job = record job {
  status = reported_status report;
  result = get_or report.result "error";
  error_detail = report.detail;
  output_files = some (record_outputs services job report.output_filenames []);
}

pub finish :
    Services
    → (jobs : String → Option Job) → (job_id token : String) → Report
    → Answer (Job × Dict String)
finish services jobs job_id token report =
    when_open (load_job services jobs job_id token none) λ job.
      ok (finish_job services report job, upload_tokens services job report.output_filenames [])

-- The file is stored, and the update of its entry in the row. `file_id not in None` is a TypeError.
pub mark_uploaded : (file_id : String) → Job → Dict File → Option File → Answer Job
mark_uploaded file_id job files none = not_found
mark_uploaded file_id job files (some file) =
    ok (record job { output_files = some (insert file_id (record file { uploaded = true }) files) })

pub upload_file : (file_id : String) → Job → Option (Dict File) → Answer Job
upload_file file_id job none = server_error
upload_file file_id job (some files) = mark_uploaded file_id job files (lookup file_id files)

pub upload : Services → (jobs : String → Option Job) → (job_id token path : String) → Answer Job
upload services jobs job_id token path =
    when_open (load_job services jobs job_id token (some path))
      λ job. upload_file (services.uuid5 job_id path) job job.output_files

abbrev pub is_pending : String × File → Bool
is_pending (file_id, file) = not file.uploaded

abbrev name_of : String × File → String
name_of (file_id, file) = file.filename

-- `', '.join(names)`
join_names : List String → Text
join_names [] = []
join_names (f ∷ []) = codes f
join_names (f ∷ g ∷ fs) = codes f ++ (codes ", " ++ join_names (g ∷ fs))

pub starts_complete : String → Bool
starts_complete status = is_prefix (codes "complete") (codes status)

-- `job.error_detail += ...`, which fails where there is no text yet.
pub append_detail : Option Text → Text → Job → Answer Job
append_detail none more job = server_error
append_detail (some detail) more job = ok (record job { error_detail = some (detail ++ more) })

-- What the uploads make of the status.
pub settle_files : Job → Answer Job
settle_files job =
    let failed = keep is_pending (files_of job) in
    let failure = codes "Failed to upload files: " ++ join_names (map name_of failed) in
    if is_empty (files_of job)
    then ok job
    else if not (is_empty failed)
    then (if starts_complete job.status
        then ok (record job { status = "partial_failure"; error_detail = some failure })
        else append_detail job.error_detail (10 ∷ failure) job)
    else if starts_complete job.status
    then ok (record job { status = "complete" })
    else ok job

-- The instance of the job is deleted, which empties the column.
pub close_job : (now : ℕ) → Answer Job → Answer Job
close_job now (ok job) =
    ok (record job { updated_at = some now; finished_at = some now; instance_id = none })
close_job now failure = failure

pub complete :
    Services → (jobs : String → Option Job) → (now : ℕ) → (job_id token : String) → Answer Job
complete services jobs now job_id token =
    when_open (load_job services jobs job_id token none) λ job. close_job now (settle_files job)
