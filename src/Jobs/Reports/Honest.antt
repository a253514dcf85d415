-- ===== src/Jobs/Reports/Honest.antt =====
-- What the status of a job says about its files.
use chutes_api.Base.{
  ℕ, ◌≡◌, ◌≢◌, refl, sym, subst, true, false, not, ◌&&◌, List, [], ◌∷◌, Option, none, some, String,
  Dict, Text, lookup, insert, get_or, keep, All, is_empty, str_eq, str_eq_self, if◌then◌else◌,
  Bool-cases, inl, inr, ◌⊎◌, arith,
}
use chutes_api.Jobs.{
  File, Job, Services, Answer, ok, unauthorized, already_finished, not_found, server_error,
  files_of,
}
use chutes_api.Jobs.Reports.{
  Report, finish_job, reported_status, record_outputs, mark_uploaded, upload_file, is_pending,
  settle_files, close_job, append_detail, starts_complete,
}
use chutes_api.Jobs.Reports.Course.{Reach, here, later, Change, Step-Change}

abbrev IsUploaded : String × File → Type 0
IsUploaded (file_id, file) = file.uploaded ≡ true

-- A job whose status is `complete` has all of its output files.
abbrev pub IsHonest : Job → Type 0
IsHonest job = (job.status ≢ "complete") ⊎ All IsUploaded (files_of job)

pub differs : (s t : String) → str_eq s t ≡ false → s ≢ t
differs s t h e = ground (arith, str_eq_self t, subst (λ r. str_eq r t ≡ false) e h)

reported_status-IsHonest :
    (status : String) (names : List String)
    → ((if str_eq status "complete" && not (is_empty names)
          then "complete_pending_uploads"
          else status)
        ≢ "complete")
      ⊎ (names ≡ [])
reported_status-IsHonest status [] = inr refl
reported_status-IsHonest status (f ∷ fs) = elim (Bool-cases (str_eq status "complete")) [
  | inl e ↦ inl (rw e (differs "complete_pending_uploads" "complete" refl))
  | inr e ↦ inl (rw e (differs status "complete" e))
]

finish_job-IsHonest :
    (services : Services) (report : Report) (job : Job) → IsHonest (finish_job services report job)
unfolding finish_job reported_status
finish_job-IsHonest services report job =
    elim (reported_status-IsHonest (get_or report.status "error") report.output_filenames) [
      | inl h ↦ inl h
      | inr none_named ↦ inr (rw none_named (unfold record_outputs in tt))
    ]

insert-All :
    (file_id : String) (file : File) (files : Dict File)
    → file.uploaded ≡ true
    → All IsUploaded files
    → All IsUploaded (insert file_id file files)
unfolding insert
insert-All file_id file [] u h = (u, tt)
insert-All file_id file ((k, f) ∷ rest) u h = ground (arith, insert-All file_id file rest u h.1)

-- What is accepted has the property.
abbrev WhenOk : {A : Type 0} → (A → Type 0) → Answer A → Type 0
WhenOk P (ok a) = P a
WhenOk P refused = Unit

mark_uploaded-IsHonest :
    (file_id : String) (job : Job) (files : Dict File) (file : Option File)
    → ((job.status ≢ "complete") ⊎ All IsUploaded files)
    → WhenOk IsHonest (mark_uploaded file_id job files file)
unfolding mark_uploaded
mark_uploaded-IsHonest file_id job files none h = tt
mark_uploaded-IsHonest file_id job files (some file) (inl h) = inl h
mark_uploaded-IsHonest file_id job files (some file) (inr h) =
    inr (insert-All file_id (record file { uploaded = true }) files refl h)

upload_file-IsHonest :
    (file_id : String) (job : Job) (files : Option (Dict File))
    → job.output_files ≡ files
    → IsHonest job
    → WhenOk IsHonest (upload_file file_id job files)
unfolding upload_file
upload_file-IsHonest file_id job none e h = tt
upload_file-IsHonest file_id job (some files) e h =
    mark_uploaded-IsHonest file_id job files (lookup file_id files)
      (subst (λ o. (job.status ≢ "complete") ⊎ All IsUploaded (get_or o [])) e h)

none_pending : (files : Dict File) → is_empty (keep is_pending files) ≡ true → All IsUploaded files
unfolding keep
none_pending [] h = tt
none_pending ((k, f) ∷ rest) h = ground (arith, none_pending rest)

append_detail-IsHonest :
    (detail : Option Text) (more : Text) (job : Job)
    → IsHonest job
    → WhenOk IsHonest (append_detail detail more job)
unfolding append_detail
append_detail-IsHonest none more job h = tt
append_detail-IsHonest (some detail) more job h = h

settle_files-IsHonest : (job : Job) → IsHonest job → WhenOk IsHonest (settle_files job)
unfolding settle_files
settle_files-IsHonest job h =
    let files = files_of job in
    elim (Bool-cases (is_empty files)) [
      | inl e ↦ rw e h
      | inr e ↦ elim (Bool-cases (is_empty (keep is_pending files))) [
        | inl f ↦ elim (Bool-cases (starts_complete job.status)) [
          | inl c ↦ rw (e, f, c) (inr (none_pending files f))
          | inr c ↦ rw (e, f, c) h
        ]
        | inr f ↦ elim (Bool-cases (starts_complete job.status)) [
          | inl c ↦ rw (e, f, c) (inl (differs "partial_failure" "complete" refl))
          | inr c ↦ rw (e, f, c) (append_detail-IsHonest job.error_detail _ job h)
        ]
      ]
    ]

close_job-IsHonest :
    (now : ℕ) (answer : Answer Job)
    → WhenOk IsHonest answer
    → WhenOk IsHonest (close_job now answer)
unfolding close_job
close_job-IsHonest now (ok job) h = h
close_job-IsHonest now unauthorized h = tt
close_job-IsHonest now already_finished h = tt
close_job-IsHonest now not_found h = tt
close_job-IsHonest now server_error h = tt

Change-IsHonest :
    (services : Services) (job next : Job) → IsHonest job → Change services job next → IsHonest next
Change-IsHonest services job next h (inl (report, e)) =
    subst IsHonest (sym e) (finish_job-IsHonest services report job)
Change-IsHonest services job next h (inr (inl (file_id, e))) =
    subst (WhenOk IsHonest) e (upload_file-IsHonest file_id job job.output_files refl h)
Change-IsHonest services job next h (inr (inr (now, e))) =
    subst (WhenOk IsHonest) e
      (close_job-IsHonest now (settle_files job) (settle_files-IsHonest job h))

-- Whatever reports are accepted, and in whatever order: a job whose status was not `complete` before,
-- or all of whose files were uploaded, has the status `complete` later only if each of its output
-- files is uploaded.
pub Reach-IsHonest :
    (services : Services) (job next : Job) → IsHonest job → Reach services job next → IsHonest next
Reach-IsHonest services job next h here = h
Reach-IsHonest services job next h (later {p} r s) =
    Change-IsHonest services p next (Reach-IsHonest services job p h r)
      (Step-Change services p next s).1
