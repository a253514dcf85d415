-- ===== src/Autoscaler/Plan/Listed.antt =====
-- What stands in `to_downsize` at the end of the loop.
use chutes_api.Base.{
  ℕ, ◌+◌, ◌<◌, ◌≡◌, refl, false, List, [], ◌∷◌, Option, none, some, String, Dict, lookup, keys,
  subst, lookup-insert, lookup-insert_self, contains, IsDistinct, All, All-append, All-imp, arith,
  Option-cases, inl, inr,
}
use chutes_api.Autoscaler.Types.{Info, Metrics, Action}
use chutes_api.Autoscaler.Decide.{decide}
use chutes_api.Autoscaler.Decide.Balance.{Agrees, decide-IsBalanced, decide_missing}
use chutes_api.Autoscaler.Plan.{World, Plan, empty_plan, collect, decision, append_if, analyze}

-- A removal of `n` instances is on record: the query found the chute, and `n` instances lead from
-- its count to the target that the plan holds for it.
pub record IsOnRecord (w : World) (targets : Dict ℕ) (chute_id : String) (n : ℕ) : Type 0 where
  pub info : Info
  pub found : w.chute_info chute_id ≡ some info
  pub target : ℕ
  pub recorded : lookup chute_id targets ≡ some target
  pub positive : 0 < n
  pub leads : target + n ≡ info.instance_count

abbrev pub Recorded : World → Plan → (String × ℕ) → Type 0
Recorded w p (chute_id, n) = IsOnRecord w p.chute_target_counts chute_id n

abbrev id_of : String × Metrics → String
id_of (chute_id, m) = chute_id

-- No metrics are left for a chute that is listed already.
abbrev Fresh : List (String × Metrics) → (String × ℕ) → Type 0
Fresh rest (chute_id, n) = contains (keys id_of rest) chute_id ≡ false

Agrees-down :
    (count target : ℕ) (action : Option Action) (up : Option ℕ) (n : ℕ)
    → Agrees count target action up (some n)
    → (0 < n) × (target + n ≡ count)
Agrees-down count target action none n h = (h.0, h.1)
Agrees-down count target action (some k) n h = absurd h

append_if-All :
    (P : String × ℕ → Type 0) (k : String) (o : Option ℕ) (l : List (String × ℕ))
    → All P l
    → ((n : ℕ) → o ≡ some n → P (k, n))
    → All P (append_if k o l)
append_if-All P k none l h f = h
append_if-All P k (some n) l h f = All-append P l ((k, n) ∷ []) h (f n refl, tt)

module _ (w : World) where
  new_entry :
      (chute_id : String) (m : Metrics) (p : Plan) (n : ℕ)
      → (decision w chute_id m).down ≡ some n
      → Recorded w (collect chute_id (decision w chute_id m) p) (chute_id, n)
  unfolding collect decision
  new_entry chute_id m p n e = elim (Option-cases (w.chute_info chute_id)) [
    | inl missing ↦ cc (decide_missing w.chutes_user_id (w.check_bounty_exists chute_id) m, missing)
    | inr (info, found) ↦
        let o = decide w.chutes_user_id (w.check_bounty_exists chute_id) (some info) m in
        let balanced = decide-IsBalanced w.chutes_user_id (w.check_bounty_exists chute_id) info m in
        let (positive, leads) =
          Agrees-down info.instance_count o.target o.action o.up n
            (subst (Agrees info.instance_count o.target o.action o.up) (rw found at e) balanced) in
        record {
          info = info;
          found = found;
          target = o.target;
          recorded = rw (found, lookup-insert_self chute_id o.target p.chute_target_counts);
          positive = positive;
          leads = leads;
        }
  ]

  old_entry :
      (chute_id : String) (m : Metrics) (rest : List (String × Metrics)) (p : Plan)
      (entry : String × ℕ)
      → Recorded w p entry
      → Fresh ((chute_id, m) ∷ rest) entry
      → Recorded w (collect chute_id (decision w chute_id m) p) entry × Fresh rest entry
  unfolding collect contains
  old_entry chute_id m rest p (j, n) r f =
      let t = (decision w chute_id m).target in
      (
        record {
          info = r.info;
          found = r.found;
          target = r.target;
          recorded = ground (arith, lookup-insert chute_id j t p.chute_target_counts, r.recorded);
          positive = r.positive;
          leads = r.leads;
        },
        ground arith,
      )

  abbrev Good : List (String × Metrics) → Plan → Type 0
  Good rest p = All (λ e. Recorded w p e × Fresh rest e) p.to_downsize

  collect-Good :
      (chute_id : String) (m : Metrics) (rest : List (String × Metrics)) (p : Plan)
      → IsDistinct id_of ((chute_id, m) ∷ rest)
      → Good ((chute_id, m) ∷ rest) p
      → Good rest (collect chute_id (decision w chute_id m) p)
  unfolding collect
  collect-Good chute_id m rest p d g =
      let p' = collect chute_id (decision w chute_id m) p in
      append_if-All (λ e. Recorded w p' e × Fresh rest e) chute_id (decision w chute_id m).down
        p.to_downsize
        (All-imp _ (λ e. Recorded w p' e × Fresh rest e) p.to_downsize
          (λ e h. old_entry chute_id m rest p e h.0 h.1) g)
        (λ n e. (new_entry chute_id m p n e, d.0))

  analyze-Recorded :
      (metrics : List (String × Metrics)) (p : Plan)
      → IsDistinct id_of metrics
      → Good metrics p
      → All (Recorded w (analyze w p metrics)) (analyze w p metrics).to_downsize
  unfolding analyze
  analyze-Recorded [] p d g = All-imp _ (Recorded w p) p.to_downsize (λ e h. h.0) g
  analyze-Recorded ((chute_id, m) ∷ rest) p d g =
      analyze-Recorded rest (collect chute_id (decision w chute_id m) p) d.1
        (collect-Good chute_id m rest p d g)

-- Each entry `(chute_id, n)` of `to_downsize` at the end of the loop over the metrics is about a chute
-- that the query found; `n` is more than none, and the instance count of that chute less `n` is
-- the target that the loop leaves in `chute_target_counts` for it. (The keys of a dictionary
-- of metrics are distinct.)
pub analyze-to_downsize :
    (w : World) (metrics : List (String × Metrics))
    → IsDistinct id_of metrics
    → let plan = analyze w empty_plan metrics in All (Recorded w plan) plan.to_downsize
analyze-to_downsize w metrics d = analyze-Recorded w metrics empty_plan d tt
