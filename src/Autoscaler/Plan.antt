-- ===== src/Autoscaler/Plan.antt =====
-- The loop of `perform_autoscale` over `chute_metrics`, and the pass as a whole.
pub mod Listed
use chutes_api.Base.{
  ℕ, Bool, true, false, List, [], ◌∷◌, ◌++◌, Option, none, some, String, Dict, insert, map, length,
  ltb, if◌then◌else◌, ◌&&◌,
}
use chutes_api.Autoscaler.Types.{Info, Metrics, Action, Scale, Outcome}
use chutes_api.Autoscaler.Decide.{decide}
use chutes_api.Autoscaler.Downsize.{Chute, Removal, downsize}

-- What the pass reads besides the metrics.
pub record World : Type 0 where
  pub chutes_user_id : String
  pub chute_info : String → Option Info
  pub check_bounty_exists : String → Bool

-- The local collections of `perform_autoscale`, and the redis writes in order.
pub record Plan : Type 0 where
  pub writes : List (String × Scale)
  pub chute_target_counts : Dict ℕ
  pub chute_actions : Dict Action
  pub scale_up_candidates : List (String × ℕ)
  pub to_downsize : List (String × ℕ)

abbrev pub empty_plan : Plan
empty_plan = record {
  writes = [];
  chute_target_counts = [];
  chute_actions = [];
  scale_up_candidates = [];
  to_downsize = [];
}

abbrev insert_if {ℓ} : {A : Type ℓ} → String → Option A → Dict A → Dict A
insert_if k none d = d
insert_if k (some a) d = insert k a d

abbrev pub append_if : String → Option ℕ → List (String × ℕ) → List (String × ℕ)
append_if k none l = l
append_if k (some n) l = l ++ (k, n) ∷ []

pub collect : String → Outcome → Plan → Plan
collect chute_id o p = record {
  writes = p.writes ++ map (λ s. (chute_id, s)) o.writes;
  chute_target_counts = insert chute_id o.target p.chute_target_counts;
  chute_actions = insert_if chute_id o.action p.chute_actions;
  scale_up_candidates = append_if chute_id o.up p.scale_up_candidates;
  to_downsize = append_if chute_id o.down p.to_downsize;
}

pub decision : World → String → Metrics → Outcome
decision w chute_id m =
    decide w.chutes_user_id (w.check_bounty_exists chute_id) (w.chute_info chute_id) m

pub analyze : World → Plan → List (String × Metrics) → Plan
analyze w p [] = p
analyze w p ((chute_id, m) ∷ rest) = analyze w (collect chute_id (decision w chute_id m) p) rest

-- The removals, one entry of `to_downsize` after the other; `chute_of` is the query for the chute.
remove_all :
    (db_now : ℕ) (picks : ℕ → ℕ) (chute_of : String → Option Chute)
    → List (String × ℕ)
    → List Removal
remove_all db_now picks chute_of [] = []
remove_all db_now picks chute_of ((chute_id, n) ∷ rest) =
    downsize db_now picks (chute_of chute_id) n ∷ remove_all db_now picks chute_of rest

abbrev min_chutes_for_scaling : ℕ
min_chutes_for_scaling = 10

-- `none`: the pass was aborted because too few chutes were found.
pub perform_autoscale :
    (dry_run : Bool) (db_now : ℕ) (picks : ℕ → ℕ) (w : World) (chute_of : String → Option Chute)
    → List (String × Metrics)
    → Option (Plan × List Removal)
perform_autoscale dry_run db_now picks w chute_of metrics =
    if ltb (length metrics) min_chutes_for_scaling
    then none
    else (let plan = analyze w empty_plan metrics in
        some (plan, if dry_run then [] else remove_all db_now picks chute_of plan.to_downsize))
