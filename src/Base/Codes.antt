-- ===== src/Base/Codes.antt =====
-- Texts as lists of code points: what the code does with `lower` and `in` on ASCII names.
use Prim.Native.Nat.{ℕ, ◌+◌}
use Prim.Native.Char.{code}
use Prim.Native.String.{String}
use mathlib.Core.Bool.{Bool, true, false, ◌&&◌, ◌||◌}
use mathlib.Core.List.{List, [], ◌∷◌, map}
use chutes_api.Base.Tests.{leb, ◌==◌, if◌then◌else◌}

abbrev pub Text : Type 0
Text = List ℕ

abbrev pub codes : String → List ℕ
codes String.[] = []
codes (String.◌∷◌ c s) = code c ∷ codes s

-- `str.lower` on one ASCII character.
unfoldable pub lower_code : ℕ → ℕ
lower_code c = if leb b'A' c && leb c b'Z' then c + 32 else c

unfoldable pub is_prefix : List ℕ → List ℕ → Bool
is_prefix [] t = true
is_prefix (c ∷ p) [] = false
is_prefix (c ∷ p) (d ∷ t) = c == d && is_prefix p t

-- `p in t`.
is_within : List ℕ → List ℕ → Bool
unfolding is_prefix
is_within p [] = is_prefix p []
is_within p (c ∷ t) = is_prefix p (c ∷ t) || is_within p t

-- `p in s.lower()`.
unfoldable pub lower_has : String → String → Bool
unfolding is_within lower_code
lower_has p s = is_within (codes p) (map lower_code (codes s))
