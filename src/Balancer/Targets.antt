-- ===== src/Balancer/Targets.antt =====
-- `get_targets`: the order in which instances are tried, without the prefix cache and with it.
pub mod Order
pub mod Prefixes
pub mod Overload
pub mod Samples
use chutes_api.Base.{
  ℕ, zero, suc, ◌+◌, ◌-◌, ◌≤◌, min, max, ◌&&◌, ◌||◌, Bool, true, false, not, List, [], ◌∷◌, ◌++◌,
  Option, none, some, String, Dict, contains, keep, length, leb, ltb, ◌==◌, str_eq, keys, take,
  if◌then◌else◌,
}

-- An instance that may serve, with the count of its open connections.
pub record Target : Type 0 where
  pub instance_id : String
  pub count : ℕ

-- `grouped_by_count`, in the order of its keys, as it is read by `sorted(...)`.
abbrev pub Groups : Type 0
Groups = List (ℕ × List Target)

pub add_to_group : Target → Groups → Groups
add_to_group t [] = (t.count, t ∷ []) ∷ []
add_to_group t ((c, g) ∷ rest) =
    if c == t.count
    then (c, g ++ t ∷ []) ∷ rest
    else if ltb t.count c
    then (t.count, t ∷ []) ∷ (c, g) ∷ rest
    else (c, g) ∷ add_to_group t rest

pub group_by_count : (concurrency : ℕ) → List Target → Groups → Groups
group_by_count concurrency [] groups = groups
group_by_count concurrency (t ∷ ts) groups =
    group_by_count concurrency ts
      (if leb concurrency t.count then groups else add_to_group t groups)

-- `min(counts.values())`
pub min_count : Target → List Target → ℕ
min_count t [] = t.count
min_count t (u ∷ us) = min t.count (min_count u us)

pub concat_groups : Groups → List Target
concat_groups [] = []
concat_groups ((c, g) ∷ rest) = g ++ concat_groups rest

pub data Choice : Type 0 where
  targets : List Target → Choice
  infra_overload : Choice

-- `random.shuffle` in each group.
pub shuffle_groups : (shuffle : List Target → List Target) → Groups → Groups
shuffle_groups shuffle [] = []
shuffle_groups shuffle ((c, g) ∷ rest) = (c, shuffle g) ∷ shuffle_groups shuffle rest

-- `[iid for iid in self.instances.keys() if iid not in avoid]`
unfoldable pub available : (avoid : List String) → List Target → List Target
available avoid = keep (λ t. not (contains avoid t.instance_id))

-- `sorted(..., key=count)`, which keeps the order of equal counts.
pub insert_by_count : Target → List Target → List Target
insert_by_count t [] = t ∷ []
insert_by_count t (u ∷ us) = if leb t.count u.count then t ∷ u ∷ us else u ∷ insert_by_count t us

pub sort_by_count : List Target → List Target
sort_by_count [] = []
sort_by_count (t ∷ ts) = insert_by_count t (sort_by_count ts)

-- _handle_prefix_routing: the instances that have the first prefix which any instance has.
-- `cached` is the memcache: does the instance have the prefix of this hash?
pub likely_cached :
    (cached : String → String → Bool) (prefixes : List String) → List Target → List Target
likely_cached cached [] counts = []
likely_cached cached (hash ∷ prefixes) counts =
    let later = likely_cached cached prefixes counts in
    elim (keep (λ t. cached hash t.instance_id) counts) [ [] ↦ later | t ∷ ts ↦ t ∷ ts ]

-- `abs(counts[iid] - min_count) <= 2`, where no count is below the minimum. The order of the set
-- `likely_cached` is taken to be that of the counts.
pub routable : (least : ℕ) → List Target → List Target
routable least = keep (λ t. leb (t.count - least) 2)

-- The three least loaded of the routable instances, then the others in the order of the groups.
pub cached_first : (plain routables : List Target) → Option (List Target)
cached_first plain [] = none
cached_first plain (t ∷ ts) =
    let ids = keys (λ (v : Target). v.instance_id) (t ∷ ts) in
    some (take 3 (sort_by_count (t ∷ ts)) ++ keep (λ u. not (contains ids u.instance_id)) plain)

pub route_prefix :
    (cached : String → String → Bool) (prefixes : List String) (least : ℕ)
    → List Target
    → Groups
    → Option (List Target)
route_prefix cached prefixes least counts groups =
    cached_first (concat_groups groups) (routable least (likely_cached cached prefixes counts))

abbrev pub or_plain : Option (List Target) → Groups → List Target
or_plain none groups = concat_groups groups
or_plain (some routed) groups = routed

-- The part of `get_targets` after the counts are read; `draw` is `random.random() <= 0.95`, and with
-- no prefixes the draw changes nothing.
pub order_targets :
    (shuffle : List Target → List Target) (cached : String → String → Bool) (prefixes : List String)
    (draw : Bool) (concurrency : ℕ)
    → List Target
    → Choice
order_targets shuffle cached prefixes draw concurrency [] = targets []
order_targets shuffle cached prefixes draw concurrency (t ∷ ts) =
    let least = min_count t ts in
    let groups = shuffle_groups shuffle (group_by_count concurrency (t ∷ ts) []) in
    if leb concurrency least
    then infra_overload
    else if draw
    then targets (or_plain (route_prefix cached prefixes least (t ∷ ts) groups) groups)
    else targets (concat_groups groups)

pub get_targets :
    (shuffle : List Target → List Target) (cached : String → String → Bool) (prefixes : List String)
    (draw : Bool) (concurrency : ℕ) (avoid : List String)
    → List Target
    → Choice
get_targets shuffle cached prefixes draw concurrency avoid instances =
    order_targets shuffle cached prefixes draw concurrency (available avoid instances)
