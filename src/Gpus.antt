-- ===== src/Gpus.antt =====
-- The GPUs of api/gpu.py, and the choice among them by the NodeSelector of api/chute/schemas.py.
-- Rates are in thousandths of a dollar. A multiplier is a rate divided by the highest one; it is counted
-- here by its numerator. Sets are lists: only membership and the minimum are asked of them.
pub mod Choice
pub mod Samples
use chutes_api.Base.{
  ℕ, zero, suc, ◌*◌, min, max, Bool, true, false, ◌&&◌, ◌||◌, not, List, [], ◌∷◌, Option, none,
  some, String, Dict, Text, lookup, codes, lower_code, is_prefix, contains, keep, leb, ◌==◌, map,
  is_empty, if◌then◌else◌,
}

-- The entries that the selection and the scores read.
pub record Gpu : Type 0 where
  pub memory : ℕ
  pub hourly_rate : ℕ

abbrev pub supported : Dict Gpu
supported =
    ("3090", record { memory = 24; hourly_rate = 120 })
    ∷ ("4090", record { memory = 24; hourly_rate = 250 })
    ∷ ("5090", record { memory = 32; hourly_rate = 350 })
    ∷ ("a4000", record { memory = 16; hourly_rate = 100 })
    ∷ ("a4000_ada", record { memory = 20; hourly_rate = 110 })
    ∷ ("a5000", record { memory = 24; hourly_rate = 180 })
    ∷ ("a6000", record { memory = 48; hourly_rate = 330 })
    ∷ ("a6000_ada", record { memory = 48; hourly_rate = 360 })
    ∷ ("pro_6000", record { memory = 96; hourly_rate = 1100 })
    ∷ ("l4", record { memory = 24; hourly_rate = 170 })
    ∷ ("a10", record { memory = 24; hourly_rate = 250 })
    ∷ ("a40", record { memory = 48; hourly_rate = 350 })
    ∷ ("l40", record { memory = 48; hourly_rate = 350 })
    ∷ ("l40s", record { memory = 48; hourly_rate = 410 })
    ∷ ("a100_40gb", record { memory = 40; hourly_rate = 550 })
    ∷ ("a100_40gb_sxm", record { memory = 40; hourly_rate = 570 })
    ∷ ("a100", record { memory = 80; hourly_rate = 600 })
    ∷ ("a100_sxm", record { memory = 80; hourly_rate = 620 })
    ∷ ("h100", record { memory = 80; hourly_rate = 1500 })
    ∷ ("h100_nvl", record { memory = 96; hourly_rate = 1550 })
    ∷ ("h100_sxm", record { memory = 80; hourly_rate = 1700 })
    ∷ ("h800", record { memory = 80; hourly_rate = 1300 })
    ∷ ("h20", record { memory = 96; hourly_rate = 600 })
    ∷ ("h200", record { memory = 140; hourly_rate = 2300 })
    ∷ ("mi300x", record { memory = 192; hourly_rate = 2100 })
    ∷ ("b200", record { memory = 192; hourly_rate = 3500 })
    ∷ []

pub record NodeSelector : Type 0 where
  pub gpu_count : ℕ
  pub min_vram_gb_per_gpu : Option ℕ
  pub exclude : Option (List String)
  pub include : Option (List String)

abbrev text_eq : Text → Text → Bool
text_eq s t = is_prefix s t && is_prefix t s

-- `gpu.lower() in SUPPORTED_GPUS`
pub is_known : Dict Gpu → String → Bool
unfolding is_prefix lower_code
is_known [] gpu = false
is_known ((name, g) ∷ rest) gpu =
    text_eq (codes name) (map lower_code (codes gpu)) || is_known rest gpu

pub all_known : Dict Gpu → List String → Bool
all_known table [] = true
all_known table (gpu ∷ gpus) = is_known table gpu && all_known table gpus

-- The validators of `include` and of `exclude`: `none` is the ValueError.
pub validate : Dict Gpu → Option (List String) → Option (Option (List String))
validate table none = some none
validate table (some gpus) = if all_known table gpus then some (some gpus) else none

abbrev names_of : Dict Gpu → List String
names_of [] = []
names_of ((name, g) ∷ rest) = name ∷ names_of rest

-- `if self.include: allowed_gpus = set(self.include)`
unfoldable pub included : Dict Gpu → Option (List String) → List String
included table none = names_of table
included table (some gpus) = if is_empty gpus then names_of table else gpus

unfoldable pub without : Option (List String) → List String → List String
without none allowed = allowed
without (some gpus) allowed = keep (λ g. not (contains gpus g)) allowed

-- The comprehension over `SUPPORTED_GPUS[gpu]`: `none` is the KeyError.
pub add_gpu : (least : ℕ) (name : String) → Option Gpu → Option (List String) → Option (List String)
add_gpu least name none rest = none
add_gpu least name (some g) none = none
add_gpu least name (some g) (some found) = some (if leb least g.memory then name ∷ found else found)

pub with_memory : Dict Gpu → (least : ℕ) → List String → Option (List String)
with_memory table least [] = some []
with_memory table least (name ∷ names) =
    add_gpu least name (lookup name table) (with_memory table least names)

unfoldable pub fit :
    Dict Gpu → (min_vram_gb_per_gpu : Option ℕ) → List String → Option (List String)
fit table none allowed = some allowed
fit table (some zero) allowed = some allowed
fit table (some (suc n)) allowed = with_memory table (suc n) allowed

unfoldable pub supported_gpus : Dict Gpu → NodeSelector → Option (List String)
supported_gpus table s =
    fit table s.min_vram_gb_per_gpu (without s.exclude (included table s.include))

-- `min([COMPUTE_MULTIPLIER[gpu] for gpu in supported_gpus])`: `none` for a KeyError, or for no GPU.
unfoldable pub rate_of : Option Gpu → Option ℕ
rate_of none = none
rate_of (some g) = some g.hourly_rate

pub lower_of : Option ℕ → Option ℕ → Option ℕ
lower_of none rest = none
lower_of (some m) none = none
lower_of (some m) (some k) = some (min m k)

unfoldable pub cheapest : Dict Gpu → List String → Option ℕ
cheapest table [] = none
cheapest table (name ∷ []) = rate_of (lookup name table)
cheapest table (name ∷ other ∷ names) =
    lower_of (rate_of (lookup name table)) (cheapest table (other ∷ names))

unfoldable pub multiply : (gpu_count : ℕ) → Option ℕ → Option ℕ
multiply gpu_count none = none
multiply gpu_count (some m) = some (gpu_count * m)

unfoldable pub price_of : Dict Gpu → (gpu_count : ℕ) → Option (List String) → Option ℕ
price_of table gpu_count none = none
price_of table gpu_count (some gpus) = multiply gpu_count (cheapest table gpus)

unfoldable pub compute_multiplier : Dict Gpu → NodeSelector → Option ℕ
compute_multiplier table s = price_of table s.gpu_count (supported_gpus table s)
