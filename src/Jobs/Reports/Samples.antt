-- ===== src/Jobs/Reports/Samples.antt =====
-- A job and the reports on it. The token of a file is its name, and that of the job is "job".
use chutes_api.Base.{
  ◌≡◌, refl, inl, true, [], ◌∷◌, none, some, String, lookup, insert, get_or, contains, keep,
  is_prefix, str_eq, if◌then◌else◌,
}
use chutes_api.Jobs.{
  File, Job, Claims, Services, ok, files_of, load_job, create_job_jwt, check_claims, check_job,
  lacks_file, matches_filename, if_named, when_open,
}
use chutes_api.Jobs.Reports.{Report, finish_job, finish, upload, upload_tokens, starts_complete}
use chutes_api.Jobs.Reports.Course.{table, Step, reported, here, later}
use chutes_api.Jobs.Reports.Honest.{IsHonest, differs, Reach-IsHonest}
use chutes_api.Jobs.Reports.Tokens.{upload-finish_job}

abbrev job_claims : String → Claims
job_claims token = record { sub = "j1"; filename = if str_eq token "job" then none else some token }

services : Services
services = record {
  uuid5 = λ job_id f. f;
  encode = λ claims. get_or claims.filename "job";
  decode = λ token. some (job_claims token);
  strftime = λ t. "2025-09-01";
}

abbrev job : Job
job = record {
  job_id = "j1";
  chute_id = "3f0c";
  instance_id = some "i1";
  created_at = 100;
  updated_at = none;
  finished_at = none;
  status = "pending";
  result = "null";
  error_detail = none;
  output_files = none;
}

abbrev report : Report
report = record {
  status = some "complete";
  output_filenames = "a.bin" ∷ "b.txt" ∷ [];
  result = none;
  detail = none;
}

course : Unit {0}
unfolding services finish load_job check_claims check_job lacks_file matches_filename if_named
    when_open create_job_jwt keep contains lookup is_prefix starts_complete
course = tt

accepted_report : Step services job (finish_job services report job)
accepted_report =
    reported "job" report (finish_job services report job)
      (upload_tokens services job report.output_filenames []) (unfold course in refl)

pending-IsHonest : IsHonest job
pending-IsHonest = inl (differs "pending" "complete" refl)

Reach-IsHonest_example : IsHonest (finish_job services report job)
Reach-IsHonest_example =
    Reach-IsHonest services job (finish_job services report job) pending-IsHonest
      (later here accepted_report)

upload-finish_job_example :
    let next = finish_job services report job in
    let id = services.uuid5 "j1" "b.txt" in
    (file : File) × (lookup id (files_of next) ≡ some file)
    × (upload services (table next) "j1" (create_job_jwt services "j1" (some "b.txt")) "b.txt"
        ≡ ok (record next {
          output_files = some (insert id (record file { uploaded = true }) (files_of next));
        }))
upload-finish_job_example =
    upload-finish_job services report job "b.txt" (unfold course in refl) refl refl
      (unfold course in refl)
