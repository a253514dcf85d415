-- ===== src/Launch/Entry/Loading.antt =====
-- The loading of a launch config that was retrieved before.
use chutes_api.Base.{
  ℕ, ◌≡◌, refl, Bool, true, false, Option, none, some, String, lookup, str_eq, str_eq_self, ◌⊎◌,
  inl, inr,
}
use chutes_api.Launch.{LaunchConfig, Store, unauthorized, go, save_config}
use chutes_api.Launch.Keeps.{Anything, Ends, require-Ends, the-Ends}
use chutes_api.Launch.Entry.{load_launch_config, retrieve}

-- A config that was retrieved before is loaded as it is.
abbrev pub IsLoaded : (s : Store) (config_id : String) → LaunchConfig × Store → Type 0
IsLoaded s config_id found =
    (old : LaunchConfig) × (lookup config_id s.configs ≡ some old)
    × ((old.retrieved_at ≡ none) ⊎ (found ≡ (old, s)))

retrieve-IsLoaded :
    (now : ℕ) (config_id : String) (config : LaunchConfig) (o : Option ℕ) (s : Store)
    → lookup config_id s.configs ≡ some config
    → config.retrieved_at ≡ o
    → Ends Anything (IsLoaded s config_id) (retrieve now true config o s)
retrieve-IsLoaded now config_id config none s row e = (config, row, inl e)
retrieve-IsLoaded now config_id config (some t) s row e = (config, row, inr refl)

pub load_launch_config-IsLoaded :
    (now : ℕ) (decode : String → Option String) (config_id token : String) (s : Store)
    → Ends Anything (IsLoaded s config_id) (load_launch_config now decode config_id token true s)
unfolding load_launch_config
load_launch_config-IsLoaded now decode config_id token s =
    let L = IsLoaded s config_id in
    the-Ends Anything L (decode token) s unauthorized _ tt (λ sub ok.
      require-Ends Anything L (str_eq config_id sub) s unauthorized _ tt (λ same.
        the-Ends Anything L (lookup config_id s.configs) s unauthorized _ tt
          (λ config row. retrieve-IsLoaded now config_id config config.retrieved_at s row refl)))

-- Loading writes the launch config, and the job that the trigger resets; nothing else.
abbrev pub SameElse : Store → LaunchConfig × Store → Type 0
SameElse s found = found.1 ≡ record s { configs = found.1.configs; jobs = found.1.jobs }

-- The row of the launch config is that of the table, but for the time at which it was retrieved.
abbrev pub IsOpened : (s : Store) (config_id : String) → LaunchConfig × Store → Type 0
IsOpened s config_id found =
    (old : LaunchConfig) × (lookup config_id s.configs ≡ some old)
    × (found.0.config_id ≡ old.config_id)
    × (found.0.verified_at ≡ old.verified_at)
    × SameElse s found

retrieve-IsOpened :
    (now : ℕ) (allow_retrieved : Bool) (config : LaunchConfig) (o : Option ℕ) (s : Store)
    (config_id : String)
    → lookup config_id s.configs ≡ some config
    → Ends Anything (IsOpened s config_id) (retrieve now allow_retrieved config o s)
unfolding save_config
retrieve-IsOpened now allow_retrieved config none s config_id row = (config, row, refl, refl, refl)
retrieve-IsOpened now true config (some t) s config_id row = (config, row, refl, refl, refl)
retrieve-IsOpened now false config (some t) s config_id row = tt

pub load_launch_config-IsOpened :
    (now : ℕ) (decode : String → Option String) (config_id token : String) (allow_retrieved : Bool)
    (s : Store)
    → Ends Anything
        (IsOpened s config_id)
        (load_launch_config now decode config_id token allow_retrieved s)
unfolding load_launch_config
load_launch_config-IsOpened now decode config_id token allow_retrieved s =
    let A = IsOpened s config_id in
    the-Ends Anything A (decode token) s unauthorized _ tt (λ sub ok.
      require-Ends Anything A (str_eq config_id sub) s unauthorized _ tt (λ same.
        the-Ends Anything A (lookup config_id s.configs) s unauthorized _ tt (λ config row.
          retrieve-IsOpened now allow_retrieved config config.retrieved_at s config_id row)))

pub load_launch_config-again :
    (now : ℕ) (decode : String → Option String) (config_id token : String) (s : Store)
    (config : LaunchConfig) (start : ℕ)
    → decode token ≡ some config_id
    → lookup config_id s.configs ≡ some config
    → config.retrieved_at ≡ some start
    → load_launch_config now decode config_id token true s ≡ go (config, s)
unfolding load_launch_config
load_launch_config-again now decode config_id token s config start opens row was =
    rw (opens, str_eq_self, row, was) refl
