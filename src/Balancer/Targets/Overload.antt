-- ===== src/Balancer/Targets/Overload.antt =====
-- The prefix cache may send a request to an instance that has no room.
use chutes_api.Base.{
  ℕ, ◌≤◌, ◌<◌, ◌≡◌, refl, ◌≢◌, inl, inr, Bool, true, not, List, [], ◌∷◌, ◌++◌, some, String,
  contains, keys, keep, All-keep, take, All, leb, Bool-cases, lt→leb_false,
}
use chutes_api.Balancer.Targets.{
  Target, group_by_count, min_count, concat_groups, targets, insert_by_count, shuffle_groups,
  available, order_targets, get_targets, sort_by_count, likely_cached, routable, route_prefix,
  or_plain, cached_first,
}
use chutes_api.Balancer.Targets.Prefixes.{sort_by_count-All}

insert_by_count-cons :
    (t : Target) (ts : List Target)
    → (u : Target) × (us : List Target) × (insert_by_count t ts ≡ u ∷ us)
unfolding insert_by_count
insert_by_count-cons t [] = (t, [], refl)
insert_by_count-cons t (u ∷ us) = elim (Bool-cases (leb t.count u.count)) [
  | inl e ↦ (t, u ∷ us, rw e)
  | inr e ↦ (u, insert_by_count t us, rw e)
]

-- The first of a non-empty answer.
abbrev FirstIs : (Target → Type 0) → List Target → Type 0
FirstIs P [] = ⊥
FirstIs P (t ∷ ts) = P t

FirstIs-take :
    (P : Target → Type 0) (l rest : List Target)
    → (u : Target) × (us : List Target) × (l ≡ u ∷ us)
    → All P l
    → FirstIs P (take 3 l ++ rest)
FirstIs-take P [] rest (u, us, e) k = cc
FirstIs-take P (t ∷ ts) rest c k = k.0

FirstIs-cached_first :
    (P : Target → Type 0) (plain found : List Target)
    → All P found
    → found ≢ []
    → (r : List Target) × (cached_first plain found ≡ some r) × FirstIs P r
unfolding cached_first sort_by_count
FirstIs-cached_first P plain [] h ne = absurd (ne refl)
FirstIs-cached_first P plain (t ∷ ts) h ne =
    let ids = keys (λ (v : Target). v.instance_id) (t ∷ ts) in
    (
      take 3 (sort_by_count (t ∷ ts)) ++ keep (λ u. not (contains ids u.instance_id)) plain,
      refl,
      FirstIs-take P (sort_by_count (t ∷ ts)) _ (insert_by_count-cons t (sort_by_count ts))
          (sort_by_count-All P (t ∷ ts) h),
    )

routable-All :
    (P : Target → Type 0) (least : ℕ) (ts : List Target) → All P ts → All P (routable least ts)
unfolding routable
routable-All P least ts h = All-keep P _ ts h

-- If every instance that has the prefix in its cache already has `concurrency` connections or more, and
-- one of them has at most two more than the least loaded instance, then such a full instance
-- is tried first, although the least loaded one has room.
get_targets-full_first :
    (shuffle : List Target → List Target) (cached : String → String → Bool) (prefixes : List String)
    (concurrency : ℕ) (avoid : List String) (instances : List Target) (t : Target)
    (ts : List Target)
    → available avoid instances ≡ t ∷ ts
    → min_count t ts < concurrency
    → All (λ (u : Target). concurrency ≤ u.count) (likely_cached cached prefixes (t ∷ ts))
    → routable (min_count t ts) (likely_cached cached prefixes (t ∷ ts)) ≢ []
    → (r : List Target) × (get_targets shuffle cached prefixes true concurrency avoid instances
        ≡ targets r)
      × FirstIs (λ u. concurrency ≤ u.count) r
unfolding get_targets order_targets route_prefix
get_targets-full_first shuffle cached prefixes concurrency avoid instances t ts e room full near =
    let least = min_count t ts in
    let groups = shuffle_groups shuffle (group_by_count concurrency (t ∷ ts) []) in
    let (r, routes, first) =
      FirstIs-cached_first (λ u. concurrency ≤ u.count) (concat_groups groups)
        (routable least (likely_cached cached prefixes (t ∷ ts)))
        (routable-All (λ u. concurrency ≤ u.count) least _ full) near in
    (
      r,
      rw (e, get_targets) (rw (lt→leb_false _ _ room, order_targets) (rw (routes, or_plain))),
      first,
    )
