-- ===== src/Launch/Entry/Race.antt =====
-- The race of the miners for a job.
use chutes_api.Base.{
  ℕ, ◌≤◌, ◌≡◌, refl, Bool, false, not, ◌&&◌, List, [], ◌∷◌, ◌++◌, Option, none, some, String,
  lookup, contains, length, length-append, leb, str_eq, AllRows, AllRows-insert, AllRows-lookup,
  arith, eq_iff,
}
use chutes_api.Admission.{Verdict, allowed, locked}
use chutes_api.Launch.{
  Chute, LaunchConfig, JobRow, Store, forbidden, not_found, conflict, race, save_config,
}
use chutes_api.Launch.Keeps.{
  Ends, Checked, >>=-Ends, >>-Ends, require-Ends, the-Ends, require-Checked,
}
use chutes_api.Launch.Entry.{
  admission, admitted, check_admission, check_blacklisted, of_chute, enter_race, enter_job,
  has_config, get_launch_config,
}

abbrev NoRepeats : List String → Type 0
NoRepeats [] = Unit
NoRepeats (x ∷ xs) = (contains xs x ≡ false) × NoRepeats xs

-- At most 15 miners, each once.
abbrev pub IsRace : JobRow → Type 0
IsRace job = (length job.miner_history ≤ 15) × NoRepeats job.miner_history

contains-append :
    (xs : List String) (x y : String)
    → contains xs x ≡ false
    → str_eq y x ≡ false
    → contains (xs ++ (y ∷ [])) x ≡ false
unfolding contains
contains-append [] x y h d = ground arith
contains-append (z ∷ zs) x y h d = ground (arith, contains-append zs x y)

NoRepeats-append :
    (xs : List String) (y : String)
    → contains xs y ≡ false
    → NoRepeats xs
    → NoRepeats (xs ++ (y ∷ []))
unfolding contains
NoRepeats-append [] y h n = (refl, tt)
NoRepeats-append (x ∷ xs) y h n = (
  contains-append xs x y n.0 (ground (arith, eq_iff x y, eq_iff y x)),
  NoRepeats-append xs y (ground arith) n.1,
)

abbrev RacesOk : Store → Type 0
RacesOk s = AllRows IsRace s.jobs

of_chute-found :
    (chute_id : String) (o : Option JobRow) (job : JobRow)
    → of_chute chute_id o ≡ some job
    → o ≡ some job
of_chute-found chute_id none job e = absurd cc
of_chute-found chute_id (some other) job e = ground arith

enter_job-RacesOk :
    (chute_id : String) (job_id : Option String) (hotkey : String) (s : Store)
    → RacesOk s
    → Ends RacesOk RacesOk (enter_job chute_id job_id hotkey s)
unfolding enter_job enter_race
enter_job-RacesOk chute_id none hotkey s h = h
enter_job-RacesOk chute_id (some job_id) hotkey s h =
    the-Ends RacesOk RacesOk (of_chute chute_id (lookup job_id s.jobs)) s not_found _ h
      (λ job found.
        require-Ends RacesOk RacesOk (not (leb 15 (length job.miner_history))) s race _ h (λ few.
          require-Ends RacesOk RacesOk (not (contains job.miner_history hotkey)) s forbidden _ h
            (λ first.
              let was : IsRace job =
                AllRows-lookup IsRace job_id job s.jobs h
                  (of_chute-found chute_id (lookup job_id s.jobs) job found) in
              AllRows-insert IsRace job_id
                (record job { miner_history = job.miner_history ++ (hotkey ∷ []) }) s.jobs
                (
                  ground (arith, length-append job.miner_history (hotkey ∷ [])),
                  NoRepeats-append job.miner_history hotkey (ground arith) was.1,
                )
                h)))

admitted-RacesOk : (v : Verdict) (s : Store) → RacesOk s → Checked RacesOk (admitted v s)
admitted-RacesOk allowed s h = tt
admitted-RacesOk (locked l) s h = h

admission-RacesOk :
    (now : ℕ) (chutes_user : String) (chute : Chute) (hotkey : String) (job_id : Option String)
    (s : Store)
    → RacesOk s
    → Checked RacesOk (admission now chutes_user chute hotkey job_id s s)
unfolding admission
admission-RacesOk now chutes_user chute hotkey (some job_id) s h = tt
admission-RacesOk now chutes_user chute hotkey none s h =
    admitted-RacesOk (check_admission now chutes_user chute hotkey s) s h

-- No request for a launch config, granted or not, brings more than 15 miners into the race for a job,
-- or one of them twice.
pub get_launch_config-IsRace :
    (now : ℕ) (chutes_user : String) (unique_job : Bool) (config_id env_key chute_id : String)
    (job_id : Option String) (hotkey : String) (s : Store)
    → AllRows IsRace s.jobs
    → Ends
        (λ t. AllRows IsRace t.jobs)
        (λ r. AllRows IsRace r.0.jobs)
        (get_launch_config now chutes_user unique_job config_id env_key chute_id job_id hotkey s)
unfolding get_launch_config check_blacklisted save_config
get_launch_config-IsRace now chutes_user unique_job config_id env_key chute_id job_id hotkey s h =
    let R : Store × LaunchConfig → Type 0 = λ r. RacesOk r.0 in
    >>-Ends RacesOk R _ _
      (the-Ends RacesOk (λ _. Unit {0}) (lookup hotkey s.blacklisted) s not_found _ h
        (λ listed found. require-Checked RacesOk (not listed) s forbidden h))
      (the-Ends RacesOk R (lookup chute_id s.chutes) s not_found _ h (λ chute found.
        >>-Ends RacesOk R _ _ (admission-RacesOk now chutes_user chute hotkey job_id s h) (
          >>=-Ends RacesOk R (enter_job chute_id job_id hotkey s) _
            (enter_job-RacesOk chute_id job_id hotkey s h)
            (λ t kept.
              require-Ends RacesOk R (not (unique_job && has_config job_id s.configs)) s conflict _
                h (λ free. kept)))))
