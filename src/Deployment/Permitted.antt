-- ===== src/Deployment/Permitted.antt =====
-- The miners whom a rolling update permits to replace their instances.
use chutes_api.Base.{ℕ, ◌+◌, List, [], ◌∷◌, String, str_eq, if◌then◌else◌}
use chutes_api.Deployment.Tables.{Instance}

-- The instances of a chute that a miner holds.
pub held : (chute_id hotkey : String) → List Instance → ℕ
held chute_id hotkey [] = 0
held chute_id hotkey (i ∷ is) =
    (if str_eq i.chute_id chute_id then (if str_eq i.miner_hotkey hotkey then 1 else 0) else 0)
    + held chute_id hotkey is
