-- ===== src/Balancer/Session/Avoided.antt =====
-- An instance that is offered is none of those to be avoided.
use mathlib.Core.List.{Permᴰ}
use chutes_api.Base.{
  ℕ, ◌≡◌, refl, Bool, false, not, List, [], ◌∷◌, String, contains, All, All-imp, choose, choose-All,
  keep-All, arith, subst,
}
use chutes_api.Balancer.Targets.{Target, Choice, targets, infra_overload, available, get_targets}
use chutes_api.Balancer.Targets.Prefixes.{get_targets-near}
use chutes_api.Balancer.Session.{chose, timed_out, failed, Store, serve, enter, fall_back}

module _ (now expiry : ℕ) (conn_id : String) (added : Bool) (pick : ℕ) (avoid : List String)
    (known : List Target) (s : Store) (id : String) where
  abbrev IsFree : Target → Type 0
  IsFree u = contains avoid u.instance_id ≡ false

  chose-IsFree :
      (c : Choice)
      → ((r : List Target) → c ≡ targets r → All IsFree r)
      → (enter now expiry conn_id added pick avoid known (chose c) s).offer ≡ serve id
      → contains avoid id ≡ false
  unfolding enter
  chose-IsFree infra_overload near e = absurd cc
  chose-IsFree (targets []) near e = absurd cc
  chose-IsFree (targets (t ∷ ts)) near e =
      let same : t.instance_id ≡ id = cc in
      subst (λ i. contains avoid i ≡ false) same (near (t ∷ ts) refl).0

  fall_back-IsFree :
      (ts : List Target) → All IsFree ts → fall_back pick ts ≡ serve id → contains avoid id ≡ false
  unfolding fall_back
  fall_back-IsFree [] h e = absurd cc
  fall_back-IsFree (t ∷ ts) h e =
      let same : (choose t ts pick).instance_id ≡ id = cc in
      subst (λ i. contains avoid i ≡ false) same (choose-All IsFree t ts pick h)

  pub timed_out-IsFree :
      (enter now expiry conn_id added pick avoid known timed_out s).offer ≡ serve id
      → contains avoid id ≡ false
  unfolding enter available
  timed_out-IsFree e =
      fall_back-IsFree (available avoid known)
        (All-imp _ _ (available avoid known) (λ u n. ground arith)
          (keep-All (λ t. not (contains avoid t.instance_id)) known))
        e

  pub failed-IsFree :
      (enter now expiry conn_id added pick avoid known failed s).offer ≡ serve id
      → contains avoid id ≡ false
  unfolding enter
  failed-IsFree e = absurd cc

  pub counted-IsFree :
      (shuffle : List Target → List Target)
      → ((ts : List Target) → Permᴰ (shuffle ts) ts)
      → (cached : String → String → Bool) (prefixes : List String) (draw : Bool) (concurrency : ℕ)
        (counts : List Target)
      → (enter now expiry conn_id added pick avoid known
          (chose (get_targets shuffle cached prefixes draw concurrency avoid counts))
          s).offer
        ≡ serve id
      → contains avoid id ≡ false
  counted-IsFree shuffle shuffle-perm cached prefixes draw concurrency counts =
      chose-IsFree (get_targets shuffle cached prefixes draw concurrency avoid counts) (λ r e.
        All-imp _ IsFree r (λ u h. h.0)
          (get_targets-near shuffle shuffle-perm cached prefixes draw concurrency avoid counts r e))
