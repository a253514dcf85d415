-- ===== src/Autoscaler/Downsize.antt =====
-- "Perform the actual scale downs" of `perform_autoscale`, for one chute.
-- `db_now` and the creation times are in seconds; `picks` stands for `random.choice`: its value at
-- a round, counted round the list, is the index that is drawn.
pub mod Kicks
pub mod Counts
use chutes_api.Base.{
  ℕ, zero, suc, ◌+◌, ◌-◌, ◌&&◌, Bool, true, false, not, List, [], ◌∷◌, ◌++◌, Option, none, some,
  String, contains, keep, length, choose, leb, ltb, ◌==◌, if◌then◌else◌, ◌||◌,
}
use chutes_api.Autoscaler.Types.{underutilized_cap}

pub record Instance : Type 0 where
  pub instance_id : String
  pub verified : Bool
  pub active : Bool
  pub job_id : Option String
  pub created_at : ℕ
  pub node_count : ℕ

pub record Chute : Type 0 where
  pub rolling_update : Bool
  pub gpu_count : ℕ
  pub instances : List Instance

-- The instances that are purged: those whose node count does not match, and the unlucky ones.
pub record Removal : Type 0 where
  pub mismatched : List Instance
  pub unlucky : List Instance

abbrev pub is_jobless : Option String → Bool
is_jobless none = true
is_jobless (some job) = false

unfoldable pub candidates : List Instance → List Instance
candidates = keep (λ i. i.verified && i.active && is_jobless i.job_id)

abbrev pub is_established : (db_now : ℕ) → Instance → Bool
is_established db_now i = leb (i.created_at + 3600) db_now

-- One round of the loop, given the later rounds: `present` are the instances not yet kicked, and
-- `established` those of them that may be drawn.
pub next_kick :
    (later : List String → List Instance → List Instance) (kicked : List String)
    (present established : List Instance) (pick : ℕ)
    → List Instance
next_kick later kicked present [] pick = later kicked present
next_kick later kicked present (i ∷ is) pick =
    let unlucky = choose i is pick in unlucky ∷ later (unlucky.instance_id ∷ kicked) (i ∷ is)

-- The loop `for idx in range(num_to_remove)`, with the rounds left and the identifiers kicked.
pub kick_unlucky :
    (db_now : ℕ) (picks : ℕ → ℕ) (rounds idx : ℕ) (kicked : List String)
    → List Instance
    → List Instance
kick_unlucky db_now picks zero idx kicked instances = []
kick_unlucky db_now picks (suc rounds) idx kicked instances =
    let present = keep (λ i. not (contains kicked i.instance_id)) instances in
    next_kick (kick_unlucky db_now picks rounds (suc idx)) kicked present
      (keep (is_established db_now) present) (picks idx)

-- `chute` is `none` where the chute is gone. Python's `num_to_remove` may fall below zero, and is
-- then only compared with zero, as here where it stops there.
pub downsize : (db_now : ℕ) (picks : ℕ → ℕ) → Option Chute → (num_to_remove : ℕ) → Removal
downsize db_now picks none num_to_remove = record { mismatched = []; unlucky = [] }
downsize db_now picks (some chute) num_to_remove =
    if chute.rolling_update
    then record { mismatched = []; unlucky = [] }
    else (let active = candidates chute.instances in
        let bad = keep (λ i. not (i.node_count == chute.gpu_count)) active in
        let good = keep (λ i. i.node_count == chute.gpu_count) active in
        let left = num_to_remove - length bad in
        record {
          mismatched = bad;
          unlucky =
              if ltb (length good) underutilized_cap || left == 0
              then []
              else kick_unlucky db_now picks left 0 [] good;
        })
