-- ===== src/Autoscaler/Types.antt =====
-- What `perform_autoscale` reads about a chute, and what it decides.
-- A ratio (utilisation, rate limiting, scaling threshold) is a number of millionths. On that grid
-- the float thresholds 0.35 * 1.5, 0.35 * 1.25 and 0.02 are 525000, 437500 and 20000, and
-- `int(n * 0.3)` is `n * 3 / 10`, for every count below 200000.
use chutes_api.Base.{
  ℕ, ◌||◌, Bool, false, List, [], ◌∷◌, Option, String, Dict, lookup, lower_has, ltb, if◌then◌else◌,
}

-- api/constants.py
abbrev pub underutilized_cap : ℕ
underutilized_cap = 5

abbrev pub utilization_scale_up : ℕ
utilization_scale_up = 350000

abbrev pub rate_limit_scale_up : ℕ
rate_limit_scale_up = 20000

abbrev limit_overrides : Dict ℕ
limit_overrides =
    ("1a0d9245-582a-5cde-8f5b-2da5b9542339", 30) ∷ ("b5326e54-8d9e-590e-bed4-f3db35d9d4cd", 60) ∷ []

abbrev failsafe : Dict ℕ
failsafe =
    ("154ad01c-a431-5744-83c8-651215124360", 30)
    ∷ ("14a91d88-d6d6-5046-aaf4-eb3ad96b7247", 20)
    ∷ ("de510462-c319-543b-9c67-00bcf807d2a7", 15)
    ∷ ("561e4875-254d-588f-a36f-57c9cdef8961", 15)
    ∷ ("07cb1b3a-ec4d-594a-96c2-b547fddcadb0", 15)
    ∷ []

-- `LIMIT_OVERRIDES.get(chute_id)` and `FAILSAFE.get(chute_id)`.
unfoldable pub limit_override : String → Option ℕ
unfolding lookup
limit_override chute_id = lookup chute_id limit_overrides

unfoldable pub failsafe_of : String → Option ℕ
unfolding lookup
failsafe_of chute_id = lookup chute_id failsafe

-- A row of the query over chutes; `created_at` is in seconds since the epoch.
pub record Info : Type 0 where
  pub chute_id : String
  pub public : Bool
  pub name : String
  pub user_id : String
  pub created_at : ℕ
  pub max_instances : ℕ
  pub scaling_threshold : ℕ
  pub new_chute : Bool
  pub instance_count : ℕ
  pub has_rolling_update : Bool

pub record Metrics : Type 0 where
  pub utilization_5m : ℕ
  pub utilization_15m : ℕ
  pub utilization_1h : ℕ
  pub rate_limit_5m : ℕ
  pub rate_limit_15m : ℕ
  pub rate_limit_1h : ℕ

pub data Action : Type 0 where
  no_action scale_up_candidate scaled_down skipped_rolling_update : Action

-- `redis.set(f"scale:{chute_id}", value, ex=expiry)`
pub record Scale : Type 0 where
  pub value : ℕ
  pub expiry : Option ℕ

-- What one round of the loop writes: the values set in redis, in order, the entries of
-- `chute_target_counts` and `chute_actions`, and those of `scale_up_candidates` and `to_downsize`.
pub record Outcome : Type 0 where
  pub writes : List Scale
  pub target : ℕ
  pub action : Option Action
  pub up : Option ℕ
  pub down : Option ℕ

-- 2025-09-10 16:00, from when private instances are billed by time.
abbrev billing_start : ℕ
billing_start = 1_757_520_000

-- has_legacy_private_billing of api/util.py
unfoldable pub has_legacy_private_billing : Bool → String → ℕ → Bool
unfolding lower_has
has_legacy_private_billing is_public name created_at =
    if is_public || lower_has "/affine" name then false else ltb created_at billing_start
