-- ===== src/Gpus/Samples.antt =====
-- Selectors over the table of GPUs.
use chutes_api.Base.{◌≡◌, refl, [], ◌∷◌, none, some, lookup, contains, keep}
use chutes_api.Gpus.{
  supported, NodeSelector, included, without, add_gpu, with_memory, fit, supported_gpus, rate_of,
  lower_of, cheapest, multiply, price_of, compute_multiplier, is_known, all_known, validate,
}

abbrev selector : NodeSelector
selector = record {
  gpu_count = 2;
  min_vram_gb_per_gpu = some 80;
  exclude = some ("h20" ∷ []);
  include = some ("h20" ∷ "a100" ∷ "h100" ∷ "a6000" ∷ []);
}

selection : Unit {0}
unfolding included without add_gpu with_memory fit supported_gpus rate_of lower_of cheapest multiply
    price_of compute_multiplier contains keep lookup
selection = tt

-- A name in capitals passes the validator, and is then missing in the table.
abbrev capitals : NodeSelector
capitals = record selector { include = some ("A100" ∷ []); exclude = none }

validate-capitals : validate supported capitals.include ≡ some (some ("A100" ∷ []))
unfolding validate all_known is_known
validate-capitals = refl

supported_gpus-capitals : supported_gpus supported capitals ≡ none
unfolding selection
supported_gpus-capitals = refl
