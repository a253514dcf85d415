-- ===== src/Scoring.antt =====
-- The end of the scoring of miners, `get_scoring_data` of metasync/shared.py: of the hotkeys of one
-- coldkey only the best is paid. The scores before that are given, as whole numbers of a unit; a final
-- score is counted by its numerator, the common denominator is the total.
pub mod Fair
pub mod Samples
use chutes_api.Base.{
  ℕ, ◌+◌, Bool, true, false, List, [], ◌∷◌, Option, none, some, String, Dict, lookup, contains,
  keep, leb, ltb, if◌then◌else◌,
}

pub record Scored : Type 0 where
  pub hotkey : String
  pub score : ℕ

-- `sorted(..., key=lambda h: pre_final_scores[h], reverse=True)`, which is stable.
pub insert_score : Scored → List Scored → List Scored
insert_score x [] = x ∷ []
insert_score x (y ∷ ys) =
    let later = insert_score x ys in if leb y.score x.score then x ∷ y ∷ ys else y ∷ later

pub sort_scores : List Scored → List Scored
sort_scores [] = []
sort_scores (x ∷ xs) = insert_score x (sort_scores xs)

abbrev pub add_used : Option String → List String → List String
add_used none used = used
add_used (some coldkey) used = coldkey ∷ used

-- `hot_cold_map[hotkey]`; `none` is the KeyError.
pub punish :
    (used : List String)
    → Scored
    → (coldkey : Option String) → Option (List Scored)
    → Option (List Scored)
punish used x none rest = none
punish used x (some coldkey) none = none
punish used x (some coldkey) (some ys) =
    some (record x { score = if contains used coldkey then 0 else x.score } ∷ ys)

-- "Punish multi-uid miners."
pub penalize :
    (hot_cold_map : Dict String) (used : List String) → List Scored → Option (List Scored)
penalize hot_cold_map used [] = some []
penalize hot_cold_map used (x ∷ xs) =
    let coldkey = lookup x.hotkey hot_cold_map in
    punish used x coldkey (penalize hot_cold_map (add_used coldkey used) xs)

abbrev pub total_score : List Scored → ℕ
total_score [] = 0
total_score (x ∷ xs) = x.score + total_score xs

abbrev pub shares : Option (List Scored) → Option (List Scored × ℕ)
shares none = none
shares (some penalized) = some (keep (λ x. ltb 0 x.score) penalized, total_score penalized)

-- `final_scores`, and the total by which they are divided.
pub final_scores : (hot_cold_map : Dict String) → List Scored → Option (List Scored × ℕ)
final_scores hot_cold_map pre_final_scores =
    shares (penalize hot_cold_map [] (sort_scores pre_final_scores))
