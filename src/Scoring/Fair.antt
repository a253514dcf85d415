-- ===== src/Scoring/Fair.antt =====
-- One hotkey of a coldkey is paid, and it is the best.
use chutes_api.Base.{
  ℕ, ◌≤◌, ◌<◌, ◌≡◌, ◌≢◌, refl, sym, ap, subst, ◌∙◌, Bool, true, false, List, [], ◌∷◌, Option, none,
  some, String, Dict, lookup, get_or, contains, keep, All, All-imp, All-zip, All-keep, leb, ltb,
  str_eq_self, Bool-cases, inl, inr, arith, if◌then◌else◌,
}
use chutes_api.Scoring.{
  Scored, insert_score, sort_scores, add_used, punish, penalize, total_score, shares, final_scores,
}

abbrev IsBestFirst : List Scored → Type 0
IsBestFirst [] = Unit
IsBestFirst (x ∷ xs) = All (λ y. y.score ≤ x.score) xs × IsBestFirst xs

insert_score-All :
    (P : Scored → Type 0) (x : Scored) (ys : List Scored)
    → P x
    → All P ys
    → All P (insert_score x ys)
unfolding insert_score
insert_score-All P x [] p h = (p, tt)
insert_score-All P x (y ∷ ys) p h = ground (arith, insert_score-All P x ys p h.1)

All-if :
    (P : Scored → Type 0) (b : Bool) (x y : Scored) (ys later : List Scored)
    → (All P later → P x × All P ys)
    → All P (if b then x ∷ y ∷ ys else y ∷ later)
    → P x × (P y × All P ys)
All-if P true x y ys later f h = h
All-if P false x y ys later f h = let rest = f h.1 in (rest.0, (h.0, rest.1))

All-insert_score :
    (P : Scored → Type 0) (x : Scored) (ys : List Scored)
    → All P (insert_score x ys)
    → P x × All P ys
unfolding insert_score
All-insert_score P x [] h = h
All-insert_score P x (y ∷ ys) h =
    All-if P (leb y.score x.score) x y ys (insert_score x ys) (All-insert_score P x ys) h

insert_score-IsBestFirst :
    (x : Scored) (ys : List Scored) → IsBestFirst ys → IsBestFirst (insert_score x ys)
unfolding insert_score
insert_score-IsBestFirst x [] h = (tt, tt)
insert_score-IsBestFirst x (y ∷ ys) h = elim (Bool-cases (leb y.score x.score)) [
  | inl e ↦ rw e (
    (
      ground arith,
      All-imp (λ z. z.score ≤ y.score) (λ z. z.score ≤ x.score) ys (λ z. λ le. ground arith) h.0,
    ),
    h,
  )
  | inr e ↦ rw e (
    insert_score-All (λ z. z.score ≤ y.score) x ys (ground arith) h.0,
    insert_score-IsBestFirst x ys h.1,
  )
]

sort_scores-IsBestFirst : (xs : List Scored) → IsBestFirst (sort_scores xs)
unfolding sort_scores
sort_scores-IsBestFirst [] = tt
sort_scores-IsBestFirst (x ∷ xs) =
    insert_score-IsBestFirst x (sort_scores xs) (sort_scores-IsBestFirst xs)

All-sort_scores : (P : Scored → Type 0) (xs : List Scored) → All P (sort_scores xs) → All P xs
unfolding sort_scores
All-sort_scores P [] h = tt
All-sort_scores P (x ∷ xs) h =
    let k = All-insert_score P x (sort_scores xs) h in (k.0, All-sort_scores P xs k.1)

-- A paid hotkey's coldkey was not used before.
abbrev IsNew : Dict String → List String → Scored → Type 0
IsNew hot_cold_map used y =
    (c : String) → lookup y.hotkey hot_cold_map ≡ some c → 0 < y.score → contains used c ≡ false

-- No other hotkey of the coldkey has a better score.
abbrev pub IsBest : Dict String → List Scored → Scored → Type 0
IsBest hot_cold_map xs y =
    All
      (λ x.
        lookup x.hotkey hot_cold_map ≡ lookup y.hotkey hot_cold_map
        → 0 < y.score
        → x.score ≤ y.score)
      xs

-- Paid hotkeys have different coldkeys.
abbrev pub IsAlone : Dict String → List Scored → Type 0
IsAlone hot_cold_map [] = Unit
IsAlone hot_cold_map (y ∷ ys) =
    All
      (λ z. 0 < y.score → 0 < z.score → lookup y.hotkey hot_cold_map ≢ lookup z.hotkey hot_cold_map)
      ys
    × IsAlone hot_cold_map ys

-- A coldkey that was used is paid no more.
not_used :
    (hot_cold_map : Dict String) (used : List String) (c : String) (y : Scored)
    → IsNew hot_cold_map (c ∷ used) y
    → lookup y.hotkey hot_cold_map ≡ some c
    → y.score ≡ 0
unfolding contains
not_used hot_cold_map used c y new e = elim (Bool-cases (ltb 0 y.score)) [
  | inl paid ↦ let unused = new c e (ground arith) in absurd (ground (arith, str_eq_self c))
  | inr unpaid ↦ ground arith
]

record IsFair (hot_cold_map : Dict String) (used : List String) (xs ys : List Scored) : Type 0 where
  pub fresh : All (IsNew hot_cold_map used) ys
  pub alone : IsAlone hot_cold_map ys
  pub best : All (IsBest hot_cold_map xs) ys

IsNew-weaken :
    (hot_cold_map : Dict String) (used : List String) (c : String) (y : Scored)
    → IsNew hot_cold_map (c ∷ used) y
    → IsNew hot_cold_map used y
unfolding contains
IsNew-weaken hot_cold_map used c y new d e paid = let unused = new d e paid in ground arith

punished-IsFair :
    (hot_cold_map : Dict String) (used : List String) (c : String) (x : Scored)
    (xs ys : List Scored)
    → lookup x.hotkey hot_cold_map ≡ some c
    → All (λ y. y.score ≤ x.score) xs
    → IsFair hot_cold_map (c ∷ used) xs ys
    → IsFair hot_cold_map used
        (x ∷ xs)
        (record x { score = if contains used c then 0 else x.score } ∷ ys)
punished-IsFair hot_cold_map used c x xs ys e below f =
    let paid_means : 0 < (if contains used c then 0 else x.score)
        → (contains used c ≡ false) × ((if contains used c then 0 else x.score) ≡ x.score) =
      λ paid. ground arith in
    record {
      fresh = (
        λ d. λ e'. λ paid.
            subst (λ k. contains used k ≡ false) (ap (λ o. get_or o c) (sym e ∙ e'))
              (paid_means paid).0,
        All-imp (IsNew hot_cold_map (c ∷ used)) (IsNew hot_cold_map used) ys
            (IsNew-weaken hot_cold_map used c) f.fresh,
      );
      alone = (
        All-imp (IsNew hot_cold_map (c ∷ used)) _ ys
            (λ y. λ new. λ paid. λ paid_y. λ same.
              let none_left = not_used hot_cold_map used c y new (sym same ∙ e) in
              absurd (ground arith))
            f.fresh,
        f.alone,
      );
      best = (
        (
          λ same. λ paid. ground (arith, paid_means paid),
          All-imp (λ y. y.score ≤ x.score) _ xs
              (λ y. λ le. λ same. λ paid. ground (arith, paid_means paid)) below,
        ),
        All-zip (IsNew hot_cold_map (c ∷ used)) (IsBest hot_cold_map xs)
            (IsBest hot_cold_map (x ∷ xs)) ys
            (λ y. λ new. λ best. (
              λ same. λ paid.
                  (let none_left = not_used hot_cold_map used c y new (sym same ∙ e) in
                    absurd (ground arith)),
              best,
            ))
            f.fresh f.best,
      );
    }

punish-IsFair :
    (hot_cold_map : Dict String) (used : List String) (x : Scored) (xs ys : List Scored)
    (o : Option String) (rest : Option (List Scored))
    → IsBestFirst (x ∷ xs)
    → lookup x.hotkey hot_cold_map ≡ o
    → ((zs : List Scored) → rest ≡ some zs → IsFair hot_cold_map (add_used o used) xs zs)
    → punish used x o rest ≡ some ys
    → IsFair hot_cold_map used (x ∷ xs) ys
unfolding punish
punish-IsFair hot_cold_map used x xs ys none rest h e f made = absurd cc
punish-IsFair hot_cold_map used x xs ys (some c) none h e f made = absurd cc
punish-IsFair hot_cold_map used x xs ys (some c) (some zs) h e f made =
    subst (λ o. IsFair hot_cold_map used (x ∷ xs) (get_or o [])) made
      (punished-IsFair hot_cold_map used c x xs zs e h.0 (f zs refl))

penalize-IsFair :
    (hot_cold_map : Dict String) (used : List String) (xs ys : List Scored)
    → IsBestFirst xs
    → penalize hot_cold_map used xs ≡ some ys
    → IsFair hot_cold_map used xs ys
unfolding penalize
penalize-IsFair hot_cold_map used [] ys h made =
    subst (λ o. IsFair hot_cold_map used [] (get_or o [])) made
      (record { fresh = tt; alone = tt; best = tt })
penalize-IsFair hot_cold_map used (x ∷ xs) ys h made =
    let coldkey = lookup x.hotkey hot_cold_map in
    punish-IsFair hot_cold_map used x xs ys coldkey
      (penalize hot_cold_map (add_used coldkey used) xs) h refl
      (λ zs. λ e. penalize-IsFair hot_cold_map (add_used coldkey used) xs zs h.1 e) made

IsAlone-keep :
    (hot_cold_map : Dict String) (test : Scored → Bool) (ys : List Scored)
    → IsAlone hot_cold_map ys
    → IsAlone hot_cold_map (keep test ys)
unfolding keep
IsAlone-keep hot_cold_map test [] h = tt
IsAlone-keep hot_cold_map test (y ∷ ys) h = elim (Bool-cases (test y)) [
  | inl e ↦ rw e (All-keep _ test ys h.0, IsAlone-keep hot_cold_map test ys h.1)
  | inr e ↦ rw e (IsAlone-keep hot_cold_map test ys h.1)
]

total_score-keep : (ys : List Scored) → total_score (keep (λ y. ltb 0 y.score) ys) ≡ total_score ys
unfolding keep
total_score-keep [] = refl
total_score-keep (y ∷ ys) = ground (arith, total_score-keep ys)

shares-IsBest :
    (hot_cold_map : Dict String) (xs : List Scored) (o : Option (List Scored)) (ys : List Scored)
    (total : ℕ)
    → ((zs : List Scored) → o ≡ some zs → IsFair hot_cold_map [] xs zs)
    → shares o ≡ some (ys, total)
    → IsAlone hot_cold_map ys × All (IsBest hot_cold_map xs) ys × (total_score ys ≡ total)
shares-IsBest hot_cold_map xs none ys total f made = absurd cc
shares-IsBest hot_cold_map xs (some zs) ys total f made =
    let fair = f zs refl in
    let paid = keep (λ y. ltb 0 y.score) zs in
    let same : ys ≡ paid = ap (λ (r : Option (List Scored × ℕ)). (get_or r ([], 0)).0) (sym made) in
    let sum : total_score zs ≡ total =
      ap (λ (r : Option (List Scored × ℕ)). (get_or r ([], 0)).1) made in
    rw same (
      IsAlone-keep hot_cold_map (λ y. ltb 0 y.score) zs fair.alone,
      All-keep (IsBest hot_cold_map xs) (λ y. ltb 0 y.score) zs fair.best,
      total_score-keep zs ∙ sum,
    )

-- The final scores: the hotkeys that are paid have different coldkeys, no hotkey of the same coldkey had
-- a better score, and the scores add up to the total by which they are divided.
pub final_scores-IsBest :
    (hot_cold_map : Dict String) (pre_final_scores ys : List Scored) (total : ℕ)
    → final_scores hot_cold_map pre_final_scores ≡ some (ys, total)
    → IsAlone hot_cold_map ys
      × All (IsBest hot_cold_map pre_final_scores) ys
      × (total_score ys ≡ total)
unfolding final_scores
final_scores-IsBest hot_cold_map pre_final_scores ys total made =
    let (alone, best, sum) =
      shares-IsBest hot_cold_map (sort_scores pre_final_scores)
        (penalize hot_cold_map [] (sort_scores pre_final_scores)) ys total
        (λ zs.
          penalize-IsFair hot_cold_map [] (sort_scores pre_final_scores) zs
            (sort_scores-IsBestFirst pre_final_scores))
        made in
    (
      alone,
      All-imp (IsBest hot_cold_map (sort_scores pre_final_scores))
          (IsBest hot_cold_map pre_final_scores) ys (λ y. λ b. All-sort_scores _ pre_final_scores b)
          best,
      sum,
    )
