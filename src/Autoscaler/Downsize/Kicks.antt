-- ===== src/Autoscaler/Downsize/Kicks.antt =====
-- Which instances a scale-down takes, and how many.
use chutes_api.Base.{
  str_eq, sym, subst, ℕ, zero, suc, min, ◌≡◌, refl, true, not, List, [], ◌∷◌, String, contains,
  keep, length, choose, choose-All, keep-ext, keep_self, All-zip, All-imp, All, All-keep, keep-All,
  IsDistinct, keys, keep-IsDistinct, length-keep-without, All-present, arith,
}
use chutes_api.Autoscaler.Downsize.{Instance, is_established, next_kick, kick_unlucky}

abbrev pub ident : Instance → String
ident i = i.instance_id

abbrev IsFree : List String → Instance → Type 0
IsFree kicked i = not (contains kicked i.instance_id) ≡ true

abbrev pub free : List String → List Instance → List Instance
free kicked = keep (λ i. not (contains kicked i.instance_id))

-- Whatever holds of all the instances holds of those kicked, and each kicked one is established.
module _ (P : Instance → Type 0) (db_now : ℕ) where
  abbrev pub Chosen : Instance → Type 0
  Chosen i = P i × (is_established db_now i ≡ true)

  next_kick-All :
      (later : List String → List Instance → List Instance) (kicked : List String)
      (present established : List Instance) (pick : ℕ)
      → ((ks : List String) (l : List Instance) → All P l → All Chosen (later ks l))
      → All P present
      → All Chosen established
      → All Chosen (next_kick later kicked present established pick)
  unfolding next_kick
  next_kick-All later kicked present [] pick step h k = step kicked present h
  next_kick-All later kicked present (i ∷ is) pick step h k =
      (choose-All Chosen i is pick k, step _ (i ∷ is) (All-imp Chosen P (i ∷ is) (λ x c. c.0) k))

  pub kick_unlucky-All :
      (picks : ℕ → ℕ) (rounds idx : ℕ) (kicked : List String) (instances : List Instance)
      → All P instances
      → All Chosen (kick_unlucky db_now picks rounds idx kicked instances)
  unfolding kick_unlucky
  kick_unlucky-All picks zero idx kicked instances h = tt
  kick_unlucky-All picks (suc rounds) idx kicked instances h =
      let present = free kicked instances in
      let held = All-keep P (λ i. not (contains kicked i.instance_id)) instances h in
      next_kick-All _ kicked present (keep (is_established db_now) present) (picks idx)
        (kick_unlucky-All picks rounds (suc idx)) held
        (All-zip P (λ i. is_established db_now i ≡ true) Chosen
          (keep (is_established db_now) present) (λ x p e. (p, e))
          (All-keep P (is_established db_now) present held)
          (keep-All (is_established db_now) present))

-- How many instances can be drawn.
abbrev drawable : (db_now : ℕ) → List String → List Instance → ℕ
drawable db_now kicked l = length (keep (is_established db_now) (free kicked l))

free-cons :
    (kicked : List String) (k : String) (l : List Instance)
    → All (IsFree kicked) l
    → free (k ∷ kicked) l ≡ keep (λ i. not (str_eq k i.instance_id)) l
free-cons kicked k l h = keep-ext _ _ l (All-imp (IsFree kicked) _ l (λ i f. drop kicked k i f) h)
  where
    drop :
        (kicked : List String) (k : String) (i : Instance)
        → IsFree kicked i
        → not (contains (k ∷ kicked) i.instance_id) ≡ not (str_eq k i.instance_id)
    drop kicked k i f = unfold contains in ground arith

-- After a draw from instances that are free and established, one fewer can be drawn.
drawable-draw :
    (db_now : ℕ) (kicked : List String) (i : Instance) (is : List Instance) (pick : ℕ)
    → All (IsFree kicked) (i ∷ is)
    → All (λ j. is_established db_now j ≡ true) (i ∷ is)
    → IsDistinct ident (i ∷ is)
    → suc (drawable db_now ((choose i is pick).instance_id ∷ kicked) (i ∷ is)) ≡ length (i ∷ is)
drawable-draw db_now kicked i is pick f e d =
    let k = (choose i is pick).instance_id in
    let l = i ∷ is in
    let rest = keep (λ j. not (str_eq k j.instance_id)) l in
    rw
      (
        free-cons kicked k l f,
        keep_self (is_established db_now) rest (
            All-keep (λ j. is_established db_now j ≡ true) (λ j. not (str_eq k j.instance_id)) l e),
      )
      (length-keep-without ident k l d (
        choose-All (λ j. contains (keys ident l) j.instance_id ≡ true) i is pick
          (All-present ident l)))

length-next_kick :
    (db_now rounds : ℕ) (later : List String → List Instance → List Instance) (kicked : List String)
    (present established : List Instance) (pick : ℕ)
    → ((ks : List String) (l : List Instance)
        → IsDistinct ident l
        → length (later ks l) ≡ min rounds (drawable db_now ks l))
    → All (IsFree kicked) present
    → IsDistinct ident present
    → established ≡ keep (is_established db_now) present
    → length (next_kick later kicked present established pick)
      ≡ min (suc rounds) (length established)
unfolding next_kick
length-next_kick db_now rounds later kicked present [] pick ih f d e =
    rw (ih kicked present d, keep_self (λ i. not (contains kicked i.instance_id)) present f, ← e)
      (omega arith)
length-next_kick db_now rounds later kicked present (i ∷ is) pick ih f d e =
    let test = is_established db_now in
    let k = (choose i is pick).instance_id in
    let free_now : All (IsFree kicked) (i ∷ is) =
      subst (All (IsFree kicked)) (sym e) (All-keep (IsFree kicked) test present f) in
    let old : All (λ j. test j ≡ true) (i ∷ is) =
      subst (All (λ j. test j ≡ true)) (sym e) (keep-All test present) in
    let distinct : IsDistinct ident (i ∷ is) =
      subst (IsDistinct ident) (sym e) (keep-IsDistinct ident test present d) in
    omega (
      arith,
      ih (k ∷ kicked) (i ∷ is) distinct,
      drawable-draw db_now kicked i is pick free_now old distinct,
    )

-- The loop draws as often as it is asked to, or until nobody established is left.
pub length-kick_unlucky :
    (db_now : ℕ) (picks : ℕ → ℕ) (rounds idx : ℕ) (kicked : List String) (l : List Instance)
    → IsDistinct ident l
    → length (kick_unlucky db_now picks rounds idx kicked l) ≡ min rounds (drawable db_now kicked l)
unfolding kick_unlucky
length-kick_unlucky db_now picks zero idx kicked l d = omega arith
length-kick_unlucky db_now picks (suc rounds) idx kicked l d =
    length-next_kick db_now rounds (kick_unlucky db_now picks rounds (suc idx)) kicked _ _
      (picks idx) (λ ks m dm. length-kick_unlucky db_now picks rounds (suc idx) ks m dm)
      (keep-All (λ i. not (contains kicked i.instance_id)) l)
      (keep-IsDistinct ident (λ i. not (contains kicked i.instance_id)) l d) refl
