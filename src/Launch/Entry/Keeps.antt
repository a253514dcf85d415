-- ===== src/Launch/Entry/Keeps.antt =====
-- A new launch config, and a loaded one, keep the invariant.
use chutes_api.Base.{
  ℕ, ◌≡◌, ◌≢◌, refl, sym, subst, Bool, true, false, Option, none, some, String, Dict, lookup,
  insert, lookup-insert_self, str_eq, AllRows, [], ◌∷◌, lookup-insert_cases, not, leb, length,
  contains, ◌&&◌, ◌⊎◌, inl, inr,
}
use chutes_api.Admission.{Verdict, allowed, locked}
use chutes_api.Launch.{
  Chute, LaunchConfig, Instance, Store, unauthorized, forbidden, not_found, conflict, race, go,
  is_some, save_config,
}
use chutes_api.Launch.Keeps.{
  Ends, >>=-Ends, require-Ends, the-Ends, IsSound, IsTracked, Inv, save_config-Inv, SameRows,
  Checked, require-Checked, >>-Ends, IsSound-insert, Inv-others,
}
use chutes_api.Launch.Entry.{
  load_launch_config, retrieve, admission, admitted, check_admission, enter_job, enter_race,
  of_chute, has_config, check_blacklisted, get_launch_config,
}
use chutes_api.Launch.Entry.Noted.{IsNoted, read-IsNoted, save_config-IsNoted}

-- What a handler has once the config is loaded: the row as it was, and as it is now.
pub record Loaded (allow_retrieved : Bool) (s : Store) (config_id : String)
    (found : LaunchConfig × Store) : Type 0 where
  pub inv : Inv found.1
  pub row : lookup config_id found.1.configs ≡ some found.0
  pub is_key : found.0.config_id ≡ config_id
  pub same_instances : found.1.instances ≡ s.instances
  pub same_nodes : found.1.instance_nodes ≡ s.instance_nodes
  pub old : LaunchConfig
  pub was : lookup config_id s.configs ≡ some old
  pub same_verified : found.0.verified_at ≡ old.verified_at
  pub same_failed : found.0.failed_at ≡ old.failed_at
  pub first : (allow_retrieved ≡ true) ⊎ (old.retrieved_at ≡ none)
  pub now_retrieved : is_some found.0.retrieved_at ≡ true
  pub noted : IsNoted s config_id old found.0 found.1

retrieve-Loaded :
    (P : Store → Type 0) (now : ℕ) (allow_retrieved : Bool) (config_id : String)
    (config : LaunchConfig) (o : Option ℕ) (s : Store)
    → Inv s
    → P s
    → lookup config_id s.configs ≡ some config
    → config.retrieved_at ≡ o
    → Ends P (Loaded allow_retrieved s config_id) (retrieve now allow_retrieved config o s)
unfolding save_config
retrieve-Loaded P now allow_retrieved config_id config none s h p row e =
    let was : IsSound config_id config = h.sound config_id config row in
    let noted : LaunchConfig = record config { retrieved_at = some now } in
    record {
      inv =
          save_config-Inv config noted s
            (subst (λ k. lookup k s.configs ≡ some config) (sym was.is_key) row)
            (record {
              same_id = refl;
              still_retrieved = λ r. refl;
              still_verified = λ v. v;
              retrieved = λ v. refl;
              not_failed = was.not_failed;
            })
            h;
      row =
          subst (λ k. lookup k (insert config.config_id noted s.configs) ≡ some noted) was.is_key
            (lookup-insert_self config.config_id noted s.configs);
      is_key = was.is_key;
      same_instances = refl;
      same_nodes = refl;
      old = config;
      was = row;
      same_verified = refl;
      same_failed = refl;
      first = inr e;
      now_retrieved = refl;
      noted = save_config-IsNoted now config_id config s was.is_key;
    }
retrieve-Loaded P now true config_id config (some t) s h p row e =
    let was : IsSound config_id config = h.sound config_id config row in
    record {
      inv = h;
      row = row;
      is_key = was.is_key;
      same_instances = refl;
      same_nodes = refl;
      old = config;
      was = row;
      same_verified = refl;
      same_failed = refl;
      first = inl refl;
      now_retrieved = rw e refl;
      noted = read-IsNoted config_id config s row;
    }
retrieve-Loaded P now false config_id config (some t) s h p row e = p

pub load_launch_config-Loaded :
    (P : Store → Type 0) (now : ℕ) (decode : String → Option String) (config_id token : String)
    (allow_retrieved : Bool) (s : Store)
    → Inv s
    → P s
    → Ends P
        (Loaded allow_retrieved s config_id)
        (load_launch_config now decode config_id token allow_retrieved s)
unfolding load_launch_config
load_launch_config-Loaded P now decode config_id token allow_retrieved s h p =
    the-Ends P (Loaded allow_retrieved s config_id) (decode token) s unauthorized _ p (λ sub ok.
      require-Ends P (Loaded allow_retrieved s config_id) (str_eq config_id sub) s unauthorized _ p
        (λ same.
          the-Ends P (Loaded allow_retrieved s config_id) (lookup config_id s.configs) s
            unauthorized _ p
            (λ config row.
              retrieve-Loaded P now allow_retrieved config_id config config.retrieved_at s h p row
                refl)))

enter_job-SameRows :
    (chute_id : String) (job_id : Option String) (hotkey : String) (s : Store)
    → Inv s
    → Ends Inv (SameRows s) (enter_job chute_id job_id hotkey s)
unfolding enter_job enter_race
enter_job-SameRows chute_id none hotkey s h = (refl, refl)
enter_job-SameRows chute_id (some job_id) hotkey s h =
    the-Ends Inv (SameRows s) (of_chute chute_id (lookup job_id s.jobs)) s not_found _ h
      (λ job found.
        require-Ends Inv (SameRows s) (not (leb 15 (length job.miner_history))) s race _ h (λ few.
          require-Ends Inv (SameRows s) (not (contains job.miner_history hotkey)) s forbidden (go _)
            h (λ first. (refl, refl))))

-- A new row is the row of no instance.
IsTracked-new :
    (configs : Dict LaunchConfig) (new : LaunchConfig) (rows : Dict Instance)
    → AllRows (λ i. i.config_id ≢ new.config_id) rows
    → AllRows (IsTracked configs) rows
    → AllRows (IsTracked (insert new.config_id new configs)) rows
IsTracked-new configs new [] fresh h = tt
IsTracked-new configs new ((key, i) ∷ rest) fresh h = (
  record {
    retrieved = λ c. λ e. elim (lookup-insert_cases new.config_id i.config_id new c configs e) [
      | inl (k, same) ↦ absurd (fresh.0 (sym k))
      | inr there ↦ h.0.retrieved c there
    ];
    passed = λ c. λ e. λ v. elim (lookup-insert_cases new.config_id i.config_id new c configs e) [
      | inl (k, same) ↦ absurd (fresh.0 (sym k))
      | inr there ↦ h.0.passed c there v
    ];
  },
  IsTracked-new configs new rest fresh.1 h.1,
)

save_new-Inv :
    (new : LaunchConfig) (s : Store)
    → AllRows (λ i. i.config_id ≢ new.config_id) s.instances
    → is_some new.verified_at ≡ false
    → Inv s
    → Inv (save_config new s)
unfolding save_config
save_new-Inv new s fresh unverified h = record {
  sound = λ id c. λ e.
      IsSound-insert s.configs new id c h.sound
        (record { is_key = refl; retrieved = λ v. absurd cc; not_failed = λ v. absurd cc }) e;
  tracked = IsTracked-new s.configs new s.instances fresh h.tracked;
}

admitted-Checked : (P : Store → Type 0) (v : Verdict) (s : Store) → P s → Checked P (admitted v s)
admitted-Checked P allowed s h = tt
admitted-Checked P (locked l) s h = h

pub admission-Checked :
    (P : Store → Type 0) (now : ℕ) (chutes_user : String) (chute : Chute) (hotkey : String)
    (job_id : Option String) (s rolled_back : Store)
    → P rolled_back
    → Checked P (admission now chutes_user chute hotkey job_id s rolled_back)
unfolding admission
admission-Checked P now chutes_user chute hotkey (some job_id) s rolled_back h = tt
admission-Checked P now chutes_user chute hotkey none s rolled_back h =
    admitted-Checked P (check_admission now chutes_user chute hotkey s) rolled_back h

check_blacklisted-Checked :
    (hotkey : String) (s : Store) → Inv s → Checked Inv (check_blacklisted hotkey s)
unfolding check_blacklisted
check_blacklisted-Checked hotkey s h =
    the-Ends Inv (λ _. Unit {0}) (lookup hotkey s.blacklisted) s not_found _ h
      (λ blacklisted found. require-Checked Inv (not blacklisted) s forbidden h)

-- Whether or not a request for a launch config is granted, the invariant stays. (The new identifier
-- is in no row.)
pub get_launch_config-Inv :
    (now : ℕ) (chutes_user : String) (unique_job : Bool) (config_id env_key : String)
    (chute_id : String) (job_id : Option String) (hotkey : String) (s : Store)
    → Inv s
    → AllRows (λ i. i.config_id ≢ config_id) s.instances
    → Ends Inv
        (λ r. Inv r.0)
        (get_launch_config now chutes_user unique_job config_id env_key chute_id job_id hotkey s)
unfolding get_launch_config
get_launch_config-Inv now chutes_user unique_job config_id env_key chute_id job_id hotkey s h
      fresh =
    let R : Store × LaunchConfig → Type 0 = λ r. Inv r.0 in
    >>-Ends Inv R _ _ (check_blacklisted-Checked hotkey s h) (
      the-Ends Inv R (lookup chute_id s.chutes) s not_found _ h (λ chute found.
        >>-Ends Inv R _ _ (admission-Checked Inv now chutes_user chute hotkey job_id s s h) (
          >>=-Ends Inv R (enter_job chute_id job_id hotkey s) _
            (enter_job-SameRows chute_id job_id hotkey s h)
            (λ t same.
              require-Ends Inv R (not (unique_job && has_config job_id s.configs)) s conflict (go _)
                h
                (λ allowed.
                  save_new-Inv _ t (rw same.1 fresh) refl (Inv-others s t same.0 same.1 h))))))
