-- ===== src/Launch/Course.antt =====
-- The course of all launches: any requests, in any order, whatever they are answered, with what other
-- parts of the system do in between.
use chutes_api.Base.{
  ℕ, ◌≡◌, ◌≢◌, Bool, true, ◌||◌, [], arith, Option, none, some, String, lookup, AllRows,
  AllRows-imp,
}
use chutes_api.Launch.{LaunchConfig, Instance, Store, Run, go, halt, is_some, remove_instance}
use chutes_api.Launch.Keeps.{Ends, IsTracked, Inv, remove_instance-Inv, Inv-others, SameRows}
use chutes_api.Launch.Entry.{get_launch_config}
use chutes_api.Launch.Entry.Keeps.{get_launch_config-Inv}
use chutes_api.Launch.Claim.{Services, LaunchConfigArgs, claim_launch_config}
use chutes_api.Launch.Claim.Outcome.{claim_launch_config-Inv}
use chutes_api.Launch.Verify.{Checks, Response, verify_launch_config_instance}
use chutes_api.Launch.Verify.Keeps.{verify_launch_config_instance-Inv}
use chutes_api.Launch.Activate.{activate_launch_config_instance, delete_instance}
use chutes_api.Launch.Activate.Keeps.{activate_launch_config_instance-Inv, delete_instance-Inv}

-- What is committed in the end, whether the request is refused or not.
abbrev pub committed : {A : Type 0} → (A → Store) → Run A → Store
committed f (go a) = f a
committed f (halt s r) = s

-- The other parts remove instances; what else they do leaves the launch configs and the instances.
pub data Step (s : Store) : Store → Type 0 where
  asked :
      (now : ℕ) (chutes_user : String) (unique_job : Bool) (config_id env_key chute_id : String)
      (job_id : Option String) (hotkey : String)
      → AllRows (λ i. i.config_id ≢ config_id) s.instances
      → Step s (
          committed
            (λ r. r.0)
            (get_launch_config now chutes_user unique_job config_id env_key chute_id job_id hotkey
              s))
  claimed :
      (services : Services) (now later : ℕ) (instance_id key config_id token ip : String)
      (args : LaunchConfigArgs)
      → Step s (
          committed
            (λ r. r.0)
            (claim_launch_config services now later instance_id key config_id token ip args s))
  proved :
      (checks : Checks) (now : ℕ) (config_id token : String) (response : Response)
      → Step s
          (committed (λ t. t) (verify_launch_config_instance checks now config_id token response s))
  activated :
      (now : ℕ) (chutes_user : String) (decode : String → Option String) (config_id token : String)
      → Step s (
          committed
            (λ t. t)
            (activate_launch_config_instance now chutes_user decode config_id token s))
  deleted :
      (now : ℕ) (chute_id instance_id hotkey : String)
      → Step s (committed (λ t. t) (delete_instance now chute_id instance_id hotkey s))
  removed : (instance_id : String) → Step s (remove_instance instance_id s)
  changed : (t : Store) → SameRows s t → Step s t

pub data Reach (s : Store) : Store → Type 0 where
  here : Reach s s
  next : {t u : Store} → Reach s t → Step t u → Reach s u

Ends-committed :
    {A : Type 0} (f : A → Store) (m : Run A) → Ends Inv (λ a. Inv (f a)) m → Inv (committed f m)
Ends-committed f (go a) h = h
Ends-committed f (halt s r) h = h

Step-Inv : {s t : Store} → Step s t → Inv s → Inv t
Step-Inv {s} (asked now user unique_job config_id env_key chute_id job_id hotkey fresh) h =
    Ends-committed _
      (get_launch_config now user unique_job config_id env_key chute_id job_id hotkey s)
      (get_launch_config-Inv now user unique_job config_id env_key chute_id job_id hotkey s h fresh)
Step-Inv {s} (claimed services now later instance_id key config_id token ip args) h =
    Ends-committed _
      (claim_launch_config services now later instance_id key config_id token ip args s)
      (claim_launch_config-Inv services now later instance_id key config_id token ip args s h)
Step-Inv {s} (proved checks now config_id token response) h =
    Ends-committed _ (verify_launch_config_instance checks now config_id token response s)
      (verify_launch_config_instance-Inv checks now config_id token response s h)
Step-Inv {s} (activated now user decode config_id token) h =
    Ends-committed _ (activate_launch_config_instance now user decode config_id token s)
      (activate_launch_config_instance-Inv now user decode config_id token s h)
Step-Inv {s} (deleted now chute_id instance_id hotkey) h =
    Ends-committed _ (delete_instance now chute_id instance_id hotkey s)
      (delete_instance-Inv now chute_id instance_id hotkey s h)
Step-Inv {s} (removed instance_id) h = remove_instance-Inv instance_id s h
Step-Inv {s} (changed t same) h = Inv-others s t same.0 same.1 h

Reach-Inv : {s t : Store} → Inv s → Reach s t → Inv t
Reach-Inv h here = h
Reach-Inv h (next r st) = Step-Inv st (Reach-Inv h r)

abbrev pub IsProved : Store → Instance → Type 0
IsProved s i =
    (c : LaunchConfig)
    → lookup i.config_id s.configs ≡ some c
    → (i.verified || i.active) ≡ true
    → (is_some c.verified_at ≡ true) × (c.failed_at ≡ none)

-- From tables without launch configs and instances on, whatever is requested and in whatever order:
-- the launch of an instance that is verified or active has passed its verification and has not
-- failed. (A new launch config has an identifier that no instance has; the other parts of the system
-- remove instances, and leave launch configs and instances as they are otherwise.)
pub Reach-IsProved :
    (s t : Store) → s.configs ≡ [] → s.instances ≡ [] → Reach s t → AllRows (IsProved t) t.instances
unfolding lookup
Reach-IsProved s t no_configs no_instances r =
    let h : Inv s = record {
      sound = λ id. λ c. λ e. absurd (ground (arith, no_configs));
      tracked = rw no_instances tt;
    } in
    let k = Reach-Inv h r in
    AllRows-imp (IsTracked t.configs) (IsProved t) t.instances
      (λ i. λ tracked. λ c. λ e. λ marked.
        let verified = tracked.passed c e marked in
        (verified, (k.sound i.config_id c e).not_failed verified))
      k.tracked
