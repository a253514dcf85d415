-- ===== src/Autoscaler/Decide/Keys.antt =====
-- What a decision leaves under the redis key that admission reads.
use chutes_api.Base.{ℕ, ◌<◌, ◌≡◌, true, List, [], ◌∷◌, Option, none, some}
use chutes_api.Autoscaler.Types.{Info, skipped_rolling_update, Scale, Outcome}

-- The value that stands after the writes, if there is one.
abbrev last_write : List Scale → Option ℕ
last_write [] = none
last_write (s ∷ []) = some s.value
last_write (s ∷ t ∷ ss) = last_write (t ∷ ss)

abbrev pub Published : Outcome → Type 0
Published o = last_write o.writes ≡ some o.target

abbrev pub Skipped : Info → Outcome → Type 0
Skipped info o =
    (info.has_rolling_update ≡ true)
    × (0 < info.instance_count)
    × (o.writes ≡ [])
    × (o.action ≡ some skipped_rolling_update)
    × (o.target ≡ info.instance_count)
