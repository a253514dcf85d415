-- ===== src/Balancer/Targets/Prefixes.antt =====
-- The order of the targets where the prefix cache decides.
use mathlib.Core.List.Permᴰ
use mathlib.Core.List.{Permᴰ}
use chutes_api.Base.{
  ℕ, zero, suc, ◌+◌, ◌-◌, ◌≤◌, ◌≡◌, refl, subst, inl, inr, Bool, true, false, not, List, [], ◌∷◌,
  ◌++◌, Option, none, some, String, contains, keys, keep, keep-All, All-keep, All-imp, All-zip,
  All-append, take, All, leb, arith, Bool-cases,
}
use chutes_api.Balancer.Targets.{
  Target, Groups, group_by_count, min_count, concat_groups, targets, insert_by_count,
  shuffle_groups, available, order_targets, get_targets, sort_by_count, likely_cached, routable,
  route_prefix, cached_first, or_plain,
}
use chutes_api.Balancer.Targets.Order.{Perm-All, grouped-perm, is_free}

-- Whatever holds of all the counts holds of what is built from them.
module _ (P : Target → Type 0) where
  insert_by_count-All :
      (t : Target) (ts : List Target) → P t → All P ts → All P (insert_by_count t ts)
  unfolding insert_by_count
  insert_by_count-All t [] p h = (p, tt)
  insert_by_count-All t (u ∷ us) p h = elim (Bool-cases (leb t.count u.count)) [
    | inl e ↦ rw e (p, h)
    | inr e ↦ rw e (h.0, insert_by_count-All t us p h.1)
  ]

  pub sort_by_count-All : (ts : List Target) → All P ts → All P (sort_by_count ts)
  unfolding sort_by_count
  sort_by_count-All [] h = tt
  sort_by_count-All (t ∷ ts) h =
      insert_by_count-All t (sort_by_count ts) h.0 (sort_by_count-All ts h.1)

  take-All : (n : ℕ) (ts : List Target) → All P ts → All P (take n ts)
  take-All zero ts h = tt
  take-All (suc n) [] h = tt
  take-All (suc n) (t ∷ ts) h = (h.0, take-All n ts h.1)

  likely_cached-All :
      (cached : String → String → Bool) (prefixes : List String) (ts : List Target)
      → All P ts
      → All P (likely_cached cached prefixes ts)
  unfolding likely_cached
  likely_cached-All cached [] ts h = tt
  likely_cached-All cached (hash ∷ prefixes) ts h =
      go (keep (λ t. cached hash t.instance_id) ts)
        (All-keep P (λ t. cached hash t.instance_id) ts h) (likely_cached-All cached prefixes ts h)
    where
      go :
          (found : List Target)
          → All P found
          → All P (likely_cached cached prefixes ts)
          → All P (elim found [ [] ↦ likely_cached cached prefixes ts | t ∷ us ↦ t ∷ us ])
      go [] f l = l
      go (t ∷ us) f l = f

-- What is tried is near the least count, or has room.
abbrev IsNear : (avoid : List String) (concurrency : ℕ) → Target → Type 0
IsNear avoid concurrency u = (contains avoid u.instance_id ≡ false) × (u.count ≤ concurrency + 1)

module _ (P : Target → Type 0) where
  cached_first-All :
      (plain found : List Target) {r : List Target}
      → All P plain
      → All P found
      → cached_first plain found ≡ some r
      → All P r
  unfolding cached_first
  cached_first-All plain [] h k e = cc
  cached_first-All plain (t ∷ ts) {r} h k e =
      let front = take 3 (sort_by_count (t ∷ ts)) in
      let ids = keys (λ (v : Target). v.instance_id) (t ∷ ts) in
      let rest = keep (λ u. not (contains ids u.instance_id)) plain in
      let whole : front ++ rest ≡ r = cc in
      subst (All P) whole (
        All-append P front rest
          (take-All P 3 (sort_by_count (t ∷ ts)) (sort_by_count-All P (t ∷ ts) k))
          (All-keep P _ plain h))

  route_prefix-All :
      (cached : String → String → Bool) (prefixes : List String) (least : ℕ) (counts : List Target)
      (groups : Groups) {r : List Target}
      → All P (concat_groups groups)
      → All P (routable least (likely_cached cached prefixes counts))
      → route_prefix cached prefixes least counts groups ≡ some r
      → All P r
  unfolding route_prefix
  route_prefix-All cached prefixes least counts groups h k e =
      cached_first-All (concat_groups groups)
        (routable least (likely_cached cached prefixes counts)) h k e

  or_plain-All :
      (o : Option (List Target)) (groups : Groups)
      → All P (concat_groups groups)
      → ((r : List Target) → o ≡ some r → All P r)
      → All P (or_plain o groups)
  or_plain-All none groups h f = h
  or_plain-All (some r) groups h f = f r refl

module _ (shuffle : List Target → List Target)
    (shuffle-perm : (ts : List Target) → Permᴰ (shuffle ts) ts) (cached : String → String → Bool)
    (prefixes : List String) (draw : Bool) (concurrency : ℕ) where
  -- Whatever holds of the counted instances, of those with room and of those near the least count
  -- holds of the answer.
  order_targets-All :
      (P : Target → Type 0) (ts r : List Target)
      → All P ts
      → order_targets shuffle cached prefixes draw concurrency ts ≡ targets r
      → All (λ u. P u × (u.count ≤ concurrency + 1)) r
  unfolding order_targets routable keep
  order_targets-All P [] r h e =
      let none_left : [] ≡ r = cc in
      subst (All (λ u. P u × (u.count ≤ concurrency + 1))) none_left tt
  order_targets-All P (t ∷ ts) r h e = elim (Bool-cases (leb concurrency (min_count t ts))) [
    | inl over ↦ cc (rw (over, order_targets) at e)
    | inr room ↦ elim (Bool-cases draw) [
      | inl drawn ↦
          let listed : or_plain (route_prefix cached prefixes least all groups) groups ≡ r =
            cc (rw (room, drawn, order_targets) at e) in
          subst (All Near) listed (
            or_plain-All Near (route_prefix cached prefixes least all groups) groups plain (λ r' e'.
              route_prefix-All Near cached prefixes least all groups plain (near room) e'))
      | inr not_drawn ↦
          let listed : concat_groups groups ≡ r = cc (rw (room, not_drawn, order_targets) at e) in
          subst (All Near) listed plain
    ]
  ]
    where
      all : List Target
      all = t ∷ ts

      least : ℕ
      least = min_count t ts

      groups : Groups
      groups = shuffle_groups shuffle (group_by_count concurrency all [])

      Near : Target → Type 0
      Near u = P u × (u.count ≤ concurrency + 1)

      plain : All Near (concat_groups groups)
      plain = Perm-All Near (Permᴰ.symm (grouped-perm shuffle shuffle-perm concurrency all)) (
          All-zip P (λ u. is_free concurrency u ≡ true) Near (keep (is_free concurrency) all)
            (λ u p f. (p, ground arith)) (All-keep P (is_free concurrency) all h)
            (keep-All (is_free concurrency) all))

      near :
          leb concurrency least ≡ false
          → All Near (routable least (likely_cached cached prefixes all))
      near room =
          All-zip P (λ (u : Target). leb (u.count - least) 2 ≡ true) Near _
            (λ u p f. (p, ground arith))
            (All-keep P _ _ (likely_cached-All P cached prefixes all h))
            (keep-All _ (likely_cached cached prefixes all))

  -- Every instance that is tried is one of those that are not to be avoided, and has at most one
  -- connection more than the concurrency; with or without the prefix cache.
  pub get_targets-near :
      (avoid : List String) (instances r : List Target)
      → get_targets shuffle cached prefixes draw concurrency avoid instances ≡ targets r
      → All (λ (u : Target). (contains avoid u.instance_id ≡ false) × (u.count ≤ concurrency + 1)) r
  unfolding get_targets available
  get_targets-near avoid instances r e =
      order_targets-All (λ u. contains avoid u.instance_id ≡ false) (available avoid instances) r
        (All-imp _ _ (available avoid instances) (λ u n. ground arith)
          (keep-All (λ t. not (contains avoid t.instance_id)) instances))
        e
