-- ===== src/Scoring/Samples.antt =====
-- Three hotkeys, two of them of one coldkey.
use chutes_api.Base.{◌≡◌, refl, [], ◌∷◌, some, List, String, Dict, lookup, contains, keep, All}
use chutes_api.Scoring.{
  Scored, insert_score, sort_scores, punish, penalize, total_score, final_scores,
}
use chutes_api.Scoring.Fair.{IsAlone, IsBest, final_scores-IsBest}

abbrev hot_cold_map : Dict String
hot_cold_map = ("h1", "a") ∷ ("h2", "a") ∷ ("h3", "b") ∷ []

abbrev scores : List Scored
scores =
    record { hotkey = "h1"; score = 30 }
    ∷ record { hotkey = "h2"; score = 50 }
    ∷ record { hotkey = "h3"; score = 40 }
    ∷ []

abbrev paid : List Scored
paid = record { hotkey = "h2"; score = 50 } ∷ record { hotkey = "h3"; score = 40 } ∷ []

paid-scores : final_scores hot_cold_map scores ≡ some (paid, 90)
unfolding final_scores penalize punish sort_scores insert_score lookup contains keep
paid-scores = refl

final_scores-IsBest_example :
    IsAlone hot_cold_map paid × All (IsBest hot_cold_map scores) paid × (total_score paid ≡ 90)
final_scores-IsBest_example = final_scores-IsBest hot_cold_map scores paid 90 paid-scores
