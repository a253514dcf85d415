-- ===== src/Balancer/Targets/Samples.antt =====
-- Four instances of a chute, and in which order they are tried.
use mathlib.Core.List.Permᴰ
use mathlib.Core.List.{Perm, Permᴰ}
use chutes_api.Base.{ℕ, refl, Bool, List, [], ◌∷◌, String, contains, keep, str_eq}
use chutes_api.Balancer.Targets.{
  Target, available, get_targets, order_targets, likely_cached, routable, min_count, cached_first,
  route_prefix, group_by_count, add_to_group, concat_groups, shuffle_groups, sort_by_count,
  insert_by_count,
}
use chutes_api.Balancer.Targets.Order.{is_free, IsAscending, get_targets-sorted}

abbrev pub target : String → ℕ → Target
target instance_id count = record { instance_id = instance_id; count = count }

abbrev pub known : List Target
known = target "a" 2 ∷ target "b" 0 ∷ target "c" 4 ∷ target "d" 1 ∷ []

abbrev unshuffled : List Target → List Target
unshuffled ts = ts

unshuffled-perm : (ts : List Target) → Permᴰ (unshuffled ts) ts
unshuffled-perm ts = Permᴰ.refl ts

-- Which instances have a prefix: only the full one.
abbrev on_c : String → String → Bool
on_c hash instance_id = str_eq instance_id "c"

routing : Unit {0}
unfolding get_targets order_targets likely_cached routable min_count cached_first route_prefix
    group_by_count add_to_group concat_groups shuffle_groups sort_by_count insert_by_count available
    keep contains
routing = tt

get_targets-sorted_example :
    Perm (target "d" 1 ∷ target "a" 2 ∷ []) (keep (is_free 4) (available ("b" ∷ []) known))
    × IsAscending 0 (target "d" 1 ∷ target "a" 2 ∷ [])
get_targets-sorted_example =
    get_targets-sorted unshuffled unshuffled-perm on_c [] 4 ("b" ∷ []) known
      (target "d" 1 ∷ target "a" 2 ∷ []) (unfold routing in refl)
