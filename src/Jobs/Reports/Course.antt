-- ===== src/Jobs/Reports/Course.antt =====
-- The course of a job under its miner's reports.
use chutes_api.Base.{
  ℕ, ◌≡◌, refl, sym, ap, subst, true, false, [], Option, none, some, String, Dict, is_none, str_eq,
  if◌then◌else◌, inl, inr, ◌⊎◌, arith, eq_iff,
}
use chutes_api.Jobs.{
  Job, Claims, Services, Answer, ok, already_finished, lacks_file, check_job, check_claims,
  load_job, if_named, matches_filename, when_open,
}
use chutes_api.Jobs.Reports.{
  Report, finish_job, finish, upload_tokens, upload_file, upload, settle_files, close_job, complete,
}

-- The query for a job by its identifier, where the table holds this one.
abbrev pub table : Job → String → Option Job
table job job_id = if str_eq job.job_id job_id then some job else none

-- One report that is accepted.
pub data Step (services : Services) (job : Job) : Job → Type 0 where
  reported :
      (token : String) (report : Report) (next : Job) (tokens : Dict String)
      → finish services (table job) job.job_id token report ≡ ok (next, tokens)
      → Step services job next
  uploaded_file :
      (token path : String) (next : Job)
      → upload services (table job) job.job_id token path ≡ ok next
      → Step services job next
  completed :
      (now : ℕ) (token : String) (next : Job)
      → complete services (table job) now job.job_id token ≡ ok next
      → Step services job next

pub data Reach (services : Services) (job : Job) : Job → Type 0 where
  here : Reach services job job
  later : {p q : Job} → Reach services job p → Step services p q → Reach services job q

-- A handler that accepts has loaded a job that is not finished, and its body accepts.
record Accepted {A : Type 0} (found : Option Job) (body : Job → Answer A) (a : A) : Type 0 where
  pub job : Job
  pub loaded : found ≡ some job
  pub is_open : job.finished_at ≡ none
  pub accepts : body job ≡ ok a

opens :
    {A : Type 0} (finished_at : Option ℕ) (answer : Answer A) (a : A)
    → (if is_none finished_at then answer else already_finished) ≡ ok a
    → (finished_at ≡ none) × (answer ≡ ok a)
opens none answer a e = (refl, e)
opens (some t) answer a e = absurd cc

when_open-Accepted :
    {A : Type 0} (found : Option Job) (body : Job → Answer A) (a : A)
    → when_open found body ≡ ok a
    → Accepted found body a
unfolding when_open
when_open-Accepted none body a e = absurd cc
when_open-Accepted (some job) body a e =
    let (unfinished, accepts) = opens job.finished_at (body job) a e in
    record { job = job; loaded = refl; is_open = unfinished; accepts = accepts }

-- What a token must say for the job to be loaded, and what is loaded.
record Granted (services : Services) (jobs : String → Option Job) (job_id : String)
    (filename : Option String) (claims : Claims) (found : Job) : Type 0 where
  pub same_job : job_id ≡ claims.sub
  pub same_file : matches_filename filename claims.filename ≡ true
  pub is_job : jobs job_id ≡ some found
  pub has_file : lacks_file services found filename ≡ false

check_job-found :
    (services : Services) (filename : Option String) (o : Option Job) (found : Job)
    → check_job services filename o ≡ some found
    → (o ≡ some found) × (lacks_file services found filename ≡ false)
unfolding check_job
check_job-found services filename none found e = absurd cc
check_job-found services filename (some job) found e = ground arith

check_claims-Granted :
    (services : Services) (jobs : String → Option Job) (job_id : String) (filename : Option String)
    (claims : Claims) (found : Job)
    → check_claims services jobs job_id filename (some claims) ≡ some found
    → Granted services jobs job_id filename claims found
unfolding check_claims
check_claims-Granted services jobs job_id filename claims found e =
    let (is_job, has_file) = check_job-found services filename (jobs job_id) found (ground arith) in
    record {
      same_job = ground (arith, eq_iff job_id claims.sub);
      same_file = ground arith;
      is_job = is_job;
      has_file = has_file;
    }

check_claims-table :
    (services : Services) (job found : Job) (job_id : String) (filename : Option String)
    (decoded : Option Claims)
    → check_claims services (table job) job_id filename decoded ≡ some found
    → found ≡ job
check_claims-table services job found job_id filename none e = unfold check_claims in absurd cc
check_claims-table services job found job_id filename (some claims) e =
    let g = check_claims-Granted services (table job) job_id filename claims found e in
    let there : table job job_id ≡ some found = g.is_job in ground arith

-- What is loaded is the job of the table.
load_job-table :
    (services : Services) (job found : Job) (job_id token : String) (filename : Option String)
    → load_job services (table job) job_id token filename ≡ some found
    → found ≡ job
unfolding load_job
load_job-table services job found job_id token filename e =
    check_claims-table services job found job_id (if_named filename) (services.decode token) e

-- A handler that accepts finds the job open and applies its body to it.
accepted :
    {A : Type 0} (services : Services) (job : Job) (job_id token : String)
    (filename : Option String) (body : Job → Answer A) (a : A)
    → when_open (load_job services (table job) job_id token filename) body ≡ ok a
    → (job.finished_at ≡ none) × (body job ≡ ok a)
accepted services job job_id token filename body a e =
    let w = when_open-Accepted (load_job services (table job) job_id token filename) body a e in
    let same : w.job ≡ job = load_job-table services job w.job job_id token filename w.loaded in
    subst (λ j. (j.finished_at ≡ none) × (body j ≡ ok a)) same (w.is_open, w.accepts)

-- What the step was: the job was not finished, and one of the three bodies made the next.
abbrev pub Change : Services → Job → Job → Type 0
Change services job next =
    ((report : Report) × (next ≡ finish_job services report job))
    ⊎ (((file_id : String) × (upload_file file_id job job.output_files ≡ ok next))
        ⊎ ((now : ℕ) × (close_job now (settle_files job) ≡ ok next)))

abbrev first : Job → Answer (Job × Dict String) → Job
first job (ok (next, tokens)) = next
first job refused = job

pub Step-Change :
    (services : Services) (job next : Job)
    → Step services job next
    → (job.finished_at ≡ none) × Change services job next
unfolding finish upload complete
Step-Change services job next (reported token report _ tokens e) =
    let (unfinished, same) =
      accepted services job job.job_id token none
        (λ j.
          ok (finish_job services report j, upload_tokens services j report.output_filenames []))
        (next, tokens) e in
    (unfinished, inl (report, ap (λ (a : Answer (Job × Dict String)). first next a) (sym same)))
Step-Change services job next (uploaded_file token path _ e) =
    let (unfinished, same) =
      accepted services job job.job_id token (some path)
        (λ j. upload_file (services.uuid5 job.job_id path) j j.output_files) next e in
    (unfinished, inr (inl (services.uuid5 job.job_id path, same)))
Step-Change services job next (completed now token _ e) =
    let (unfinished, same) =
      accepted services job job.job_id token none (λ j. close_job now (settle_files j)) next e in
    (unfinished, inr (inr (now, same)))

-- No report changes a job that is finished.
Reach-finished :
    (services : Services) (job next : Job) (t : ℕ)
    → job.finished_at ≡ some t
    → Reach services job next
    → next ≡ job
Reach-finished services job next t closed here = refl
Reach-finished services job next t closed (later {p} r s) =
    let same : p ≡ job = Reach-finished services job p t closed r in
    let (unfinished, _) = Step-Change services p next s in
    absurd (ground (arith, ap (λ (j : Job). j.finished_at) same))
