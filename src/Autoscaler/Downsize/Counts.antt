-- ===== src/Autoscaler/Downsize/Counts.antt =====
-- Which instances a scale-down takes, and how many.
use chutes_api.Base.{
  if-All, leb→le, ◌||◌, ℕ, ◌+◌, ◌-◌, ◌≤◌, ◌<◌, min, ◌≡◌, refl, ap, true, false, not, ◌&&◌, List, [],
  ◌∷◌, none, some, contains, keep, length, All-zip, All-imp, All, All-keep, keep-All, IsDistinct,
  keep-IsDistinct, ltb, ◌==◌, Bool-cases, inl, inr, arith,
}
use chutes_api.Autoscaler.Types.{underutilized_cap}
use chutes_api.Autoscaler.Downsize.{
  Instance, Chute, candidates, is_established, is_jobless, downsize,
}
use chutes_api.Autoscaler.Downsize.Kicks.{
  ident, free, Chosen, kick_unlucky-All, length-kick_unlucky,
}

-- The instances of a chute that count for a scale-down.
abbrev pub matching : Chute → List Instance
matching chute = keep (λ i. i.node_count == chute.gpu_count) (candidates chute.instances)

abbrev pub mismatches : Chute → List Instance
mismatches chute = keep (λ i. not (i.node_count == chute.gpu_count)) (candidates chute.instances)

matching-IsDistinct :
    (chute : Chute) → IsDistinct ident chute.instances → IsDistinct ident (matching chute)
unfolding candidates
matching-IsDistinct chute d =
    keep-IsDistinct ident (λ i. i.node_count == chute.gpu_count) (candidates chute.instances)
      (keep-IsDistinct ident _ chute.instances d)

free-nil : (l : List Instance) → free [] l ≡ l
unfolding keep contains
free-nil [] = refl
free-nil (i ∷ l) = rw (free-nil l)

-- From a chute that is not in a rolling update and has at least UNDERUTILIZED_CAP instances of the
-- right size, the random removal takes as many as were asked for, less those removed for a wrong
-- node count, or all that have run for an hour, whichever is less.
pub length-downsize :
    (db_now : ℕ) (picks : ℕ → ℕ) (chute : Chute) (num_to_remove : ℕ)
    → IsDistinct (λ (i : Instance). i.instance_id) chute.instances
    → chute.rolling_update ≡ false
    → underutilized_cap ≤ length (matching chute)
    → length (downsize db_now picks (some chute) num_to_remove).unlucky
      ≡ min
          (num_to_remove - length (mismatches chute))
          (length (keep (is_established db_now) (matching chute)))
unfolding downsize
length-downsize db_now picks chute n d still enough =
    let left = n - length (mismatches chute) in
    ground (
      arith,
      length-kick_unlucky db_now picks left 0 [] (matching chute) (matching-IsDistinct chute d),
      ap (λ l. length (keep (is_established db_now) l)) (free-nil (matching chute)),
    )

-- What `candidates` and the node count have tested.
abbrev IsRemovable : Chute → Instance → Type 0
IsRemovable chute i =
    (i.verified ≡ true) × (i.active ≡ true) × (i.job_id ≡ none) × (i.node_count ≡ chute.gpu_count)

matching-All : (chute : Chute) → All (IsRemovable chute) (matching chute)
unfolding candidates
matching-All chute =
    All-zip _ _ (IsRemovable chute) (matching chute) (λ i p q. tested i p q)
      (All-keep _ (λ i. i.node_count == chute.gpu_count) (candidates chute.instances)
        (keep-All (λ i. i.verified && i.active && is_jobless i.job_id) chute.instances))
      (keep-All (λ i. i.node_count == chute.gpu_count) (candidates chute.instances))
  where
    tested :
        (i : Instance)
        → (i.verified && i.active && is_jobless i.job_id) ≡ true
        → (i.node_count == chute.gpu_count) ≡ true
        → IsRemovable chute i
    tested i p q = ground arith

-- Every instance taken at random is verified, active, has no job, has the right number of nodes and
-- has run for at least an hour.
downsize-All :
    (db_now : ℕ) (picks : ℕ → ℕ) (chute : Chute) (num_to_remove : ℕ)
    → All
        (λ (i : Instance). IsRemovable chute i × (i.created_at + 3600 ≤ db_now))
        (downsize db_now picks (some chute) num_to_remove).unlucky
unfolding downsize
downsize-All db_now picks chute n =
    let left = n - length (mismatches chute) in
    let Fits = λ (i : Instance). IsRemovable chute i × (i.created_at + 3600 ≤ db_now) in
    elim (Bool-cases chute.rolling_update) [
      | inl e ↦ rw (e, downsize) tt
      | inr e ↦
          rw (e, downsize)
            (if-All Fits (ltb (length (matching chute)) underutilized_cap || left == 0) [] _ tt (
              All-imp (Chosen (IsRemovable chute) db_now) Fits _ (λ i c. (c.0, leb→le _ _ c.1))
                (kick_unlucky-All (IsRemovable chute) db_now picks left 0 [] (matching chute)
                  (matching-All chute))))
    ]

-- A chute with fewer than UNDERUTILIZED_CAP instances of the right size loses none of them, whatever
-- removal was decided.
downsize-small :
    (db_now : ℕ) (picks : ℕ → ℕ) (chute : Chute) (num_to_remove : ℕ)
    → length (matching chute) < underutilized_cap
    → (downsize db_now picks (some chute) num_to_remove).unlucky ≡ []
unfolding downsize
downsize-small db_now picks chute n few = ground arith
