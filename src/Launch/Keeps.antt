-- ===== src/Launch/Keeps.antt =====
-- What every launch keeps: the invariant of the tables, and how each change of a row keeps it.
use chutes_api.Base.{
  ◌≡◌, refl, sym, ◌||◌, subst, Bool, true, false, Option, none, some, String, Dict, lookup, insert,
  is_none, lookup-insert_cases, AllRows, AllRows-remove, AllRows-imp, arith, ℕ, inl, inr,
}
use chutes_api.Launch.{
  LaunchConfig, Instance, Store, Refusal, Run, go, halt, ◌>>=◌, ◌>>◌, require, the, is_some,
  save_config, fail_config, remove_instance,
}

-- What holds of the outcome of a run: `P` of the tables that a refusal commits, `Q` of a result.
abbrev pub Ends : {A : Type 0} → (Store → Type 0) → (A → Type 0) → Run A → Type 0
Ends P Q (go a) = Q a
Ends P Q (halt s r) = P s

module _ {A B : Type 0} (P : Store → Type 0) (R : B → Type 0) where
  pub >>=-Ends :
      {Q : A → Type 0} (m : Run A) (f : A → Run B)
      → Ends P Q m
      → ((a : A) → Q a → Ends P R (f a))
      → Ends P R (m >>= f)
  >>=-Ends (go a) f h k = k a h
  >>=-Ends (halt s r) f h k = h

  pub the-Ends :
      (o : Option A) (s : Store) (r : Refusal) (f : A → Run B)
      → P s
      → ((a : A) → o ≡ some a → Ends P R (f a))
      → Ends P R (the o s r >>= f)
  the-Ends none s r f h k = h
  the-Ends (some a) s r f h k = k a refl

module _ {B : Type 0} (P : Store → Type 0) (R : B → Type 0) where
  pub require-Ends :
      (b : Bool) (s : Store) (r : Refusal) (k : Run B)
      → P s
      → (b ≡ true → Ends P R k)
      → Ends P R (require b s r >> k)
  require-Ends true s r k h f = f refl
  require-Ends false s r k h f = h

abbrev pub Anything : Store → Type 0
Anything s = Unit

-- A check goes on with nothing.
abbrev pub Checked : (Store → Type 0) → Run (Unit {0}) → Type 0
Checked P m = Ends P (λ _. Unit {0}) m

pub require-Checked :
    (P : Store → Type 0) (b : Bool) (s : Store) (r : Refusal) → P s → Checked P (require b s r)
require-Checked P true s r h = tt
require-Checked P false s r h = h

pub >>-Ends :
    {B : Type 0} (P : Store → Type 0) (R : B → Type 0) (m : Run (Unit {0})) (k : Run B)
    → Checked P m
    → Ends P R k
    → Ends P R (m >> k)
>>-Ends P R (go u) k h e = e
>>-Ends P R (halt s r) k h e = h

-- What is known of an accepted run.
pub Ends-go :
    {A : Type 0} (P : Store → Type 0) (Q : A → Type 0) (m : Run A) (a : A)
    → Ends P Q m
    → m ≡ go a
    → Q a
Ends-go P Q m a h e = subst (λ n. Ends P Q n) e h

-- A verified launch was retrieved, and has not failed.
pub record IsSound (config_id : String) (c : LaunchConfig) : Type 0 where
  pub is_key : c.config_id ≡ config_id
  pub retrieved : is_some c.verified_at ≡ true → is_some c.retrieved_at ≡ true
  pub not_failed : is_some c.verified_at ≡ true → c.failed_at ≡ none

-- The launch of an instance was retrieved; that of a verified or an active one is verified.
pub record IsTracked (configs : Dict LaunchConfig) (i : Instance) : Type 0 where
  pub retrieved :
      (c : LaunchConfig) → lookup i.config_id configs ≡ some c → is_some c.retrieved_at ≡ true
  pub passed :
      (c : LaunchConfig)
      → lookup i.config_id configs ≡ some c
      → (i.verified || i.active) ≡ true
      → is_some c.verified_at ≡ true

pub record Inv (s : Store) : Type 0 where
  pub sound : (id : String) (c : LaunchConfig) → lookup id s.configs ≡ some c → IsSound id c
  pub tracked : AllRows (IsTracked s.configs) s.instances

-- What a row that replaces another one has to keep.
pub record Follows (old new : LaunchConfig) : Type 0 where
  pub same_id : new.config_id ≡ old.config_id
  pub still_retrieved : is_some old.retrieved_at ≡ true → is_some new.retrieved_at ≡ true
  pub still_verified : is_some old.verified_at ≡ true → is_some new.verified_at ≡ true
  pub retrieved : is_some new.verified_at ≡ true → is_some new.retrieved_at ≡ true
  pub not_failed : is_some new.verified_at ≡ true → new.failed_at ≡ none

pub IsTracked-insert :
    (configs : Dict LaunchConfig) (old new : LaunchConfig) (i : Instance)
    → lookup new.config_id configs ≡ some old
    → Follows old new
    → IsTracked configs i
    → IsTracked (insert new.config_id new configs) i
IsTracked-insert configs old new i found f t = record {
  retrieved = λ c e. elim (lookup-insert_cases new.config_id i.config_id new c configs e) [
    | inl (k, same) ↦
        subst (λ d. is_some d.retrieved_at ≡ true) same
          (f.still_retrieved (t.retrieved old (rw (sym k) found)))
    | inr there ↦ t.retrieved c there
  ];
  passed = λ c e v. elim (lookup-insert_cases new.config_id i.config_id new c configs e) [
    | inl (k, same) ↦
        subst (λ d. is_some d.verified_at ≡ true) same
          (f.still_verified (t.passed old (rw (sym k) found) v))
    | inr there ↦ t.passed c there v
  ];
}

pub IsSound-insert :
    (configs : Dict LaunchConfig) (new : LaunchConfig) (id : String) (c : LaunchConfig)
    → ((id : String) (c : LaunchConfig) → lookup id configs ≡ some c → IsSound id c)
    → IsSound new.config_id new
    → lookup id (insert new.config_id new configs) ≡ some c
    → IsSound id c
IsSound-insert configs new id c h s found =
    elim (lookup-insert_cases new.config_id id new c configs found) [
      | inl (k, same) ↦ subst (λ d. IsSound id d) same (subst (λ j. IsSound j new) k s)
      | inr there ↦ h id c there
    ]

-- Writing a row that follows the one that was there.
pub save_config-Inv :
    (old new : LaunchConfig) (s : Store)
    → lookup new.config_id s.configs ≡ some old
    → Follows old new
    → Inv s
    → Inv (save_config new s)
unfolding save_config
save_config-Inv old new s found f h =
    let was : IsSound new.config_id old = h.sound new.config_id old found in
    record {
      sound = λ id c. λ e.
          IsSound-insert s.configs new id c h.sound
            (record { is_key = refl; retrieved = f.retrieved; not_failed = f.not_failed }) e;
      tracked =
          AllRows-imp (IsTracked s.configs) (IsTracked (insert new.config_id new s.configs))
            s.instances (λ i. IsTracked-insert s.configs old new i found f) h.tracked;
    }

-- A launch that is not verified may fail.
pub fail_config-Inv :
    (now : ℕ) (config : LaunchConfig) (s : Store)
    → lookup config.config_id s.configs ≡ some config
    → is_none config.verified_at ≡ true
    → Inv s
    → Inv (fail_config now config s)
unfolding fail_config
fail_config-Inv now config s found unverified h =
    save_config-Inv config (record config { failed_at = some now }) s found
      (record {
        same_id = refl;
        still_retrieved = λ e. e;
        still_verified = λ e. e;
        retrieved = λ e. absurd (ground arith);
        not_failed = λ e. absurd (ground arith);
      })
      h

pub remove_instance-Inv : (id : String) (s : Store) → Inv s → Inv (remove_instance id s)
unfolding remove_instance
remove_instance-Inv id s h = record {
  sound = h.sound;
  tracked = AllRows-remove (IsTracked s.configs) id s.instances h.tracked;
}

-- The invariant is about launch configs and instances alone.
pub Inv-others : (s t : Store) → t.configs ≡ s.configs → t.instances ≡ s.instances → Inv s → Inv t
Inv-others s t c i h = record {
  sound = λ id d. λ e. h.sound id d (rw (sym c) e);
  tracked = rw (c, i) h.tracked;
}

-- Two states with the same launch configs and instances.
abbrev pub SameRows : Store → Store → Type 0
SameRows s t = (t.configs ≡ s.configs) × (t.instances ≡ s.instances)
