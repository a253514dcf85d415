-- ===== src/Balancer/Targets/Order.antt =====
-- The order of the targets where no prefix decides.
use mathlib.Core.List.Permᴰ
use mathlib.Core.List.{Permᴰ, Perm, append_assoc}
use chutes_api.Base.{
  ℕ, suc, ◌≤◌, ◌≡◌, refl, ◌≢◌, inl, inr, Bool, false, not, List, [], ◌∷◌, ◌++◌, String, keep,
  All-append, subst, All, leb, le→leb, ◌↔◌, ltb, ◌==◌, arith, Bool-cases,
}
use chutes_api.Balancer.Targets.{
  Target, Groups, add_to_group, group_by_count, min_count, concat_groups, targets, infra_overload,
  shuffle_groups, available, order_targets, get_targets,
}

pub Perm-All {ℓ κ} :
    {A : Type ℓ} (P : A → Type κ) {xs ys : List A} → Permᴰ xs ys → All P xs → All P ys
Perm-All P Permᴰ.nil h = tt
Perm-All P (Permᴰ.cons e d) h = (subst P e h.0, Perm-All P d h.1)
Perm-All P (Permᴰ.swap e f) h = (subst P f h.1.0, (subst P e h.0, h.1.1))
Perm-All P (Permᴰ.trans d e) h = Perm-All P e (Perm-All P d h)

-- The keys of the groups rise from `lo`, and a group holds targets of its count.
abbrev IsGrouped : ℕ → Groups → Type 0
IsGrouped lo [] = Unit
IsGrouped lo ((c, g) ∷ rest) =
    (lo ≤ c) × All (λ (t : Target). t.count ≡ c) g × IsGrouped (suc c) rest

-- The counts rise along the list, from `lo`.
abbrev pub IsAscending : ℕ → List Target → Type 0
IsAscending lo [] = Unit
IsAscending lo (t ∷ ts) = (lo ≤ t.count) × IsAscending t.count ts

IsAscending-mono : {lo hi : ℕ} (ts : List Target) → lo ≤ hi → IsAscending hi ts → IsAscending lo ts
IsAscending-mono [] h a = tt
IsAscending-mono (t ∷ ts) h a = (omega arith, a.1)

add_to_group-IsGrouped :
    (lo : ℕ) (t : Target) (groups : Groups)
    → lo ≤ t.count
    → IsGrouped lo groups
    → IsGrouped lo (add_to_group t groups)
unfolding add_to_group
add_to_group-IsGrouped lo t [] h g = (h, (refl, tt), tt)
add_to_group-IsGrouped lo t ((c, g) ∷ rest) h k = elim (Bool-cases (c == t.count)) [
  | inl e ↦
      rw e (k.0, All-append (λ (u : Target). u.count ≡ c) g (t ∷ []) k.1 (ground arith, tt), k.2)
  | inr e ↦ elim (Bool-cases (ltb t.count c)) [
    | inl f ↦ rw (e, f) (h, (refl, tt), (ground arith, k.1, k.2))
    | inr f ↦ rw (e, f) (k.0, k.1, add_to_group-IsGrouped (suc c) t rest (ground arith) k.2)
  ]
]

add_to_group-perm :
    (t : Target) (groups : Groups)
    → Permᴰ (concat_groups (add_to_group t groups)) (t ∷ concat_groups groups)
unfolding add_to_group concat_groups
add_to_group-perm t [] = Permᴰ.refl (t ∷ [])
add_to_group-perm t ((c, g) ∷ rest) = elim (Bool-cases (c == t.count)) [
  | inl e ↦ rw (e, append_assoc) (Permᴰ.middle t g (concat_groups rest))
  | inr e ↦ elim (Bool-cases (ltb t.count c)) [
    | inl f ↦ rw (e, f) (Permᴰ.refl _)
    | inr f ↦
        rw (e, f)
          (Permᴰ.trans (Permᴰ.append_left g (add_to_group-perm t rest))
            (Permᴰ.middle t g (concat_groups rest)))
  ]
]

-- The targets that may take one more request.
abbrev pub is_free : ℕ → Target → Bool
is_free concurrency t = not (leb concurrency t.count)

group_by_count-perm :
    (concurrency : ℕ) (ts : List Target) (groups : Groups)
    → Permᴰ
        (concat_groups (group_by_count concurrency ts groups))
        (keep (is_free concurrency) ts ++ concat_groups groups)
unfolding group_by_count keep
group_by_count-perm concurrency [] groups = Permᴰ.refl _
group_by_count-perm concurrency (t ∷ ts) groups = elim (Bool-cases (leb concurrency t.count)) [
  | inl e ↦ rw e (group_by_count-perm concurrency ts groups)
  | inr e ↦ rw e (
      Permᴰ.trans (group_by_count-perm concurrency ts (add_to_group t groups)) (
        Permᴰ.trans (Permᴰ.append_left (keep (is_free concurrency) ts) (add_to_group-perm t groups))
          (Permᴰ.middle t (keep (is_free concurrency) ts) (concat_groups groups))))
]

group_by_count-IsGrouped :
    (concurrency : ℕ) (ts : List Target) (groups : Groups)
    → IsGrouped 0 groups
    → IsGrouped 0 (group_by_count concurrency ts groups)
unfolding group_by_count
group_by_count-IsGrouped concurrency [] groups h = h
group_by_count-IsGrouped concurrency (t ∷ ts) groups h =
    elim (Bool-cases (leb concurrency t.count)) [
      | inl e ↦ rw e (group_by_count-IsGrouped concurrency ts groups h)
      | inr e ↦ rw e (
          group_by_count-IsGrouped concurrency ts (add_to_group t groups)
            (add_to_group-IsGrouped 0 t groups (omega arith) h))
    ]

module _ (shuffle : List Target → List Target)
    (shuffle-perm : (ts : List Target) → Permᴰ (shuffle ts) ts) where
  shuffle_groups-perm :
      (groups : Groups)
      → Permᴰ (concat_groups (shuffle_groups shuffle groups)) (concat_groups groups)
  unfolding shuffle_groups concat_groups
  shuffle_groups-perm [] = Permᴰ.nil
  shuffle_groups-perm ((c, g) ∷ rest) =
      Permᴰ.trans (Permᴰ.append_left (shuffle g) (shuffle_groups-perm rest))
        (Permᴰ.append_right (concat_groups rest) (shuffle-perm g))

  shuffle_groups-IsGrouped :
      (lo : ℕ) (groups : Groups)
      → IsGrouped lo groups
      → IsGrouped lo (shuffle_groups shuffle groups)
  unfolding shuffle_groups
  shuffle_groups-IsGrouped lo [] h = tt
  shuffle_groups-IsGrouped lo ((c, g) ∷ rest) h = (
    h.0,
    Perm-All (λ (t : Target). t.count ≡ c) (Permᴰ.symm (shuffle-perm g)) h.1,
    shuffle_groups-IsGrouped (suc c) rest h.2,
  )

  append-IsAscending :
      (lo c : ℕ) (g rest : List Target)
      → lo ≤ c
      → All (λ (t : Target). t.count ≡ c) g
      → IsAscending c rest
      → IsAscending lo (g ++ rest)
  append-IsAscending lo c [] rest h k a = IsAscending-mono rest h a
  append-IsAscending lo c (t ∷ g) rest h k a =
      (omega arith, append-IsAscending t.count c g rest (omega arith) k.1 a)

  concat_groups-IsAscending :
      (lo : ℕ) (groups : Groups) → IsGrouped lo groups → IsAscending lo (concat_groups groups)
  unfolding concat_groups
  concat_groups-IsAscending lo [] h = tt
  concat_groups-IsAscending lo ((c, g) ∷ rest) h =
      append-IsAscending lo c g (concat_groups rest) h.0 h.1 (
        IsAscending-mono (concat_groups rest) (omega arith)
          (concat_groups-IsAscending (suc c) rest h.2))

  abbrev grouped : ℕ → List Target → Groups
  grouped concurrency ts = shuffle_groups shuffle (group_by_count concurrency ts [])

  pub grouped-perm :
      (concurrency : ℕ) (ts : List Target)
      → Permᴰ (concat_groups (grouped concurrency ts)) (keep (is_free concurrency) ts)
  unfolding concat_groups
  grouped-perm concurrency ts =
      Permᴰ.trans (shuffle_groups-perm (group_by_count concurrency ts [])) (
        Permᴰ.trans (group_by_count-perm concurrency ts [])
          (Permᴰ.append-nil (keep (is_free concurrency) ts)))

  pub grouped-IsAscending :
      (concurrency : ℕ) (ts : List Target) → IsAscending 0 (concat_groups (grouped concurrency ts))
  grouped-IsAscending concurrency ts = concat_groups-IsAscending 0 (grouped concurrency ts) (
      shuffle_groups-IsGrouped 0 (group_by_count concurrency ts [])
        (group_by_count-IsGrouped concurrency ts [] tt))

  abbrev Sorted : ℕ → List Target → List Target → Type 0
  Sorted concurrency ts r = Perm r (keep (is_free concurrency) ts) × IsAscending 0 r

  order_targets-Sorted :
      (cached : String → String → Bool) (prefixes : List String) (concurrency : ℕ)
      (ts r : List Target)
      → order_targets shuffle cached prefixes false concurrency ts ≡ targets r
      → Sorted concurrency ts r
  unfolding order_targets keep
  order_targets-Sorted cached prefixes concurrency [] r e =
      let none_left : [] ≡ r = cc in subst (Sorted concurrency []) none_left (∣ Permᴰ.nil ∣₁, tt)
  order_targets-Sorted cached prefixes concurrency (t ∷ ts) r e =
      elim (Bool-cases (leb concurrency (min_count t ts))) [
        | inl over ↦ cc (rw (over, order_targets) at e)
        | inr room ↦
            let all = t ∷ ts in
            let listed : concat_groups (grouped concurrency all) ≡ r =
              cc (rw (room, order_targets) at e) in
            subst (Sorted concurrency all) listed
              (∣ grouped-perm concurrency all ∣₁, grouped-IsAscending concurrency all)
      ]

  -- Where the prefix cache is not drawn, the targets are exactly the instances that are not to be
  -- avoided and have fewer connections than the concurrency, each as often as it is known, in the
  -- order of their counts.
  pub get_targets-sorted :
      (cached : String → String → Bool) (prefixes : List String) (concurrency : ℕ)
      (avoid : List String) (instances r : List Target)
      → get_targets shuffle cached prefixes false concurrency avoid instances ≡ targets r
      → Perm r (keep (is_free concurrency) (available avoid instances)) × IsAscending 0 r
  unfolding get_targets
  get_targets-sorted cached prefixes concurrency avoid instances r e =
      order_targets-Sorted cached prefixes concurrency (available avoid instances) r e

-- The least count is a lower bound, and it is one of the counts.
min_count-ge :
    (n : ℕ) (t : Target) (ts : List Target)
    → n ≤ min_count t ts
    → All (λ (u : Target). n ≤ u.count) (t ∷ ts)
unfolding min_count
min_count-ge n t [] h = (h, tt)
min_count-ge n t (u ∷ us) h = (omega arith, min_count-ge n u us (omega arith))

min_count-le :
    (n : ℕ) (t : Target) (ts : List Target)
    → All (λ (u : Target). n ≤ u.count) (t ∷ ts)
    → n ≤ min_count t ts
unfolding min_count
min_count-le n t [] h = h.0
min_count-le n t (u ∷ us) h = omega (arith, min_count-le n u us h.1, h.0)

order_targets-overload :
    (shuffle : List Target → List Target) (cached : String → String → Bool) (prefixes : List String)
    (draw : Bool) (concurrency : ℕ) (ts : List Target)
    → (order_targets shuffle cached prefixes draw concurrency ts ≡ infra_overload)
      ↔ ((ts ≢ []) × All (λ (u : Target). concurrency ≤ u.count) ts)
unfolding order_targets
order_targets-overload shuffle cached prefixes draw concurrency [] =
    (λ e. cc, λ h. absurd (h.0 refl))
order_targets-overload shuffle cached prefixes draw concurrency (t ∷ ts) = (
  λ e. (λ nil. cc, min_count-ge concurrency t ts (ground arith)),
  λ h. rw (le→leb concurrency (min_count t ts) (min_count-le concurrency t ts h.1)),
)

-- The answer is the overload exactly when some instance is not to be avoided and each of those has at
-- least `concurrency` connections.
get_targets-overload :
    (shuffle : List Target → List Target) (cached : String → String → Bool) (prefixes : List String)
    (draw : Bool) (concurrency : ℕ) (avoid : List String) (instances : List Target)
    → (get_targets shuffle cached prefixes draw concurrency avoid instances ≡ infra_overload) ↔ (
        (available avoid instances ≢ [])
        × All (λ (u : Target). concurrency ≤ u.count) (available avoid instances))
unfolding get_targets
get_targets-overload shuffle cached prefixes draw concurrency avoid instances =
    order_targets-overload shuffle cached prefixes draw concurrency (available avoid instances)
