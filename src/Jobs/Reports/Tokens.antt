-- ===== src/Jobs/Reports/Tokens.antt =====
-- What the tokens of a job open.
use chutes_api.Base.{
  ℕ, ◌≡◌, refl, ap, true, false, not, ◌&&◌, ◌||◌, List, [], ◌∷◌, Option, none, some, String, Dict,
  lookup, insert, lookup-insert, contains, is_none, str_eq, str_eq_self, Option-cases, inl, inr,
  eq_iff, arith, if◌then◌else◌,
}
use chutes_api.Jobs.{
  File, Job, Claims, Services, ok, files_of, lacks_file, check_job, check_claims, load_job,
  create_job_jwt, if_named, matches_filename, when_open,
}
use chutes_api.Jobs.Reports.{
  Report, finish_job, record_outputs, s3_key, mark_uploaded, upload_file, upload, complete,
}
use chutes_api.Jobs.Reports.Course.{table}

-- The documented behaviour of PyJWT: a token that was made with the key is read back.
abbrev ReadsBack : Services → (job_id : String) → (filename : Option String) → Type 0
ReadsBack services job_id filename =
    let claims : Claims = record { sub = job_id; filename = if_named filename } in
    services.decode (services.encode claims) ≡ some claims

if_named-kept : (f : String) → str_eq f "" ≡ false → if_named (some f) ≡ some f
unfolding if_named
if_named-kept f named = ground arith

-- The upload token for the file `f` of one job opens that job for that file alone.
load_job-create_job_jwt :
    (services : Services) (jobs : String → Option Job) (made asked f g : String)
    → ReadsBack services made (some f)
    → str_eq f "" ≡ false
    → str_eq g "" ≡ false
    → load_job services jobs asked (create_job_jwt services made (some f)) (some g)
      ≡ (if str_eq asked made && str_eq g f then check_job services (some g) (jobs asked) else none)
unfolding load_job create_job_jwt
load_job-create_job_jwt services jobs made asked f g reads named_f named_g =
    rw (reads, if_named-kept f named_f, if_named-kept g named_g)
      (unfold check_claims matches_filename in refl)

-- The reports before and after the uploads do not ask which file a token is for: an upload token
-- completes its job as the job's own token does.
complete-upload_token :
    (services : Services) (jobs : String → Option Job) (now : ℕ) (made asked f : String)
    → ReadsBack services made (some f)
    → ReadsBack services made none
    → complete services jobs now asked (create_job_jwt services made (some f))
      ≡ complete services jobs now asked (create_job_jwt services made none)
unfolding complete load_job create_job_jwt if_named
complete-upload_token services jobs now made asked f reads reads_none =
    rw (reads, reads_none) (unfold check_claims matches_filename in refl)

recorded :
    (services : Services) (job : Job) (names : List String) (files : Dict File) (f : String)
    → (contains names f || not (is_none (lookup (services.uuid5 job.job_id f) files))) ≡ true
    → is_none (lookup (services.uuid5 job.job_id f) (record_outputs services job names files))
      ≡ false
unfolding record_outputs contains
recorded services job [] files f h = ground arith
recorded services job (g ∷ names) files f h =
    let file : File = record { filename = g; path = s3_key services job g; uploaded = false } in
    let same : g ≡ f → services.uuid5 job.job_id g ≡ services.uuid5 job.job_id f =
      λ e. ap (services.uuid5 job.job_id) e in
    recorded services job names (insert (services.uuid5 job.job_id g) file files) f (
      ground (
        arith,
        eq_iff g f,
        same,
        str_eq_self (services.uuid5 job.job_id f),
        lookup-insert (services.uuid5 job.job_id g) (services.uuid5 job.job_id f) file files,
      ))

lookup-recorded :
    (services : Services) (report : Report) (job : Job) (f : String)
    → contains report.output_filenames f ≡ true
    → (file : File) × (lookup
          (services.uuid5 job.job_id f)
          (files_of (finish_job services report job))
        ≡ some file)
unfolding finish_job
lookup-recorded services report job f listed =
    let files = record_outputs services job report.output_filenames [] in
    let there =
      recorded services job report.output_filenames [] f (unfold lookup in ground arith) in
    elim (Option-cases (lookup (services.uuid5 job.job_id f) files)) [
      | inl gone ↦ absurd (ground arith)
      | inr found ↦ found
    ]

check_job-listed :
    (services : Services) (job : Job) (f : String) (file : File)
    → lookup (services.uuid5 job.job_id f) (files_of job) ≡ some file
    → check_job services (some f) (some job) ≡ some job
unfolding check_job lacks_file
check_job-listed services job f file found = ground arith

upload-listed :
    (services : Services) (job : Job) (f : String) (files : Dict File) (file : File)
    → ReadsBack services job.job_id (some f)
    → job.finished_at ≡ none
    → str_eq f "" ≡ false
    → job.output_files ≡ some files
    → lookup (services.uuid5 job.job_id f) files ≡ some file
    → upload services (table job) job.job_id (create_job_jwt services job.job_id (some f)) f
      ≡ ok (record job {
        output_files =
            some (insert (services.uuid5 job.job_id f) (record file { uploaded = true }) files);
      })
unfolding upload when_open upload_file mark_uploaded
upload-listed services job f files file reads unfinished named outputs found =
    let there : lookup (services.uuid5 job.job_id f) (files_of job) ≡ some file =
      rw outputs found in
    rw (
      load_job-create_job_jwt services (table job) job.job_id job.job_id f f reads named named,
      str_eq_self job.job_id,
      str_eq_self f,
      check_job-listed services job f file there,
      unfinished,
      outputs,
      found,
    )

-- After the first report, the upload token of a file that it names uploads that file: the entry of the
-- file, and no other column, changes.
pub upload-finish_job :
    (services : Services) (report : Report) (job : Job) (f : String)
    → ReadsBack services job.job_id (some f)
    → job.finished_at ≡ none
    → str_eq f "" ≡ false
    → contains report.output_filenames f ≡ true
    → let next = finish_job services report job in
      let id = services.uuid5 job.job_id f in
      (file : File) × (lookup id (files_of next) ≡ some file)
      × (upload services (table next) job.job_id (create_job_jwt services job.job_id (some f)) f
          ≡ ok (record next {
            output_files = some (insert id (record file { uploaded = true }) (files_of next));
          }))
upload-finish_job services report job f reads unfinished named listed =
    let next = finish_job services report job in
    let (file, found) = lookup-recorded services report job f listed in
    (
      file,
      found,
      unfold finish_job in
          upload-listed services next f (files_of next) file reads unfinished named refl found,
    )
