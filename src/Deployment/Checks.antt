-- ===== src/Deployment/Checks.antt =====
-- The checks of a deployment, its fee, and the selector that an unprivileged user gets.
use chutes_api.Base.{
  ℕ, ◌*◌, Bool, true, false, not, ◌&&◌, ◌||◌, List, [], ◌∷◌, Option, none, some, String, Dict, keep,
  contains, is_none, is_empty, str_eq, ltb, is_prefix, codes, if◌then◌else◌,
}
use chutes_api.Gpus.{NodeSelector, supported_gpus, compute_multiplier}
use chutes_api.Deployment.Tables.{
  Chute, ChuteArgs, Env, Image, Result, Store, User, Version, bad_request, done, forbidden,
  oldest_sdk, refuse, require, semcomp_below, server_error, the, ◌>>=◌, ◌>>◌,
}

-- `select(Chute)…scalar_one_or_none()`, which is an error where two rows match.
pub matching : Env → ChuteArgs → User → Dict Chute → List Chute
matching env args user [] = []
matching env args user ((key, chute) ∷ rest) =
    let later = matching env args user rest in
    if env.ilike chute.name args.name && str_eq chute.user_id user.user_id
    then chute ∷ later
    else later

abbrev one_or_none : List Chute → Result (Option Chute)
one_or_none [] = done none
one_or_none (chute ∷ []) = done (some chute)
one_or_none (chute ∷ other ∷ rest) = refuse server_error

unfoldable pub find_chute : Env → ChuteArgs → User → Store → Result (Option Chute)
unfolding matching
find_chute env args user s = one_or_none (matching env args user s.chutes)

abbrev pub is_same : (version : String) (public : Bool) → Option Chute → Bool
is_same version public none = false
is_same version true (some chute) = str_eq chute.version version && chute.public
is_same version false (some chute) = str_eq chute.version version && not chute.public

-- `set(supported_gpus) == set(["5090"])`
unfoldable pub is_only_5090 : List String → Bool
is_only_5090 gpus = contains gpus "5090" && is_empty (keep (λ g. not (str_eq g "5090")) gpus)

-- `gpu_count * estimate["usd"]["hour"] * 3`, where the estimate is for the whole node already.
unfoldable pub deployment_fee : Env → NodeSelector → User → (existing : Option Chute) → Result ℕ
deployment_fee env selector user existing =
    let free = user.free_account || not (is_none existing) in
    if env.tao_price_known
    then (do
      multiplier ← the (compute_multiplier env.gpus selector) server_error
      done (if free then 0 else selector.gpu_count * (env.price * multiplier) * 3))
    else if free
    then done 0
    else refuse server_error

abbrev pub forced : List String
forced = "h200" ∷ "b200" ∷ "mi300x" ∷ []

-- `set(exclude or [] + […])`: the `+` binds tighter than the `or`.
unfoldable pub exclude_or_forced : Option (List String) → List String
exclude_or_forced none = forced
exclude_or_forced (some gpus) = if is_empty gpus then forced else gpus

abbrev is_over : Option ℕ → (limit : ℕ) → Bool
is_over none limit = false
is_over (some n) limit = ltb limit n

unfoldable pub is_privileged : Env → User → Bool
is_privileged env user = str_eq user.user_id env.chutes_user || user.unlimited_dev || user.affine

-- Which GPUs a user without privileges may ask for; the selector is changed.
unfoldable pub limit_selector : Env → NodeSelector → Result NodeSelector
limit_selector env selector = do
  require (not (is_over selector.min_vram_gb_per_gpu 80)) forbidden
  let limited = record selector { exclude = some (exclude_or_forced selector.exclude) }
  gpus ← the (supported_gpus env.gpus limited) server_error
  require (not (is_empty gpus)) bad_request
  require (not (is_empty (keep (λ g. not (contains forced g)) gpus))) forbidden
  done limited

unfoldable pub restrict : Env → User → NodeSelector → Result NodeSelector
restrict env user selector =
    if is_privileged env user then done selector else limit_selector env selector

-- "sglang" or "vllm", official images only for developers of affine.
unfoldable pub is_official : Env → Image → Bool
is_official env image =
    str_eq image.user_id env.chutes_user
    && (is_prefix (codes "sglang") (codes image.name)
        || is_prefix (codes "vllm") (codes image.name))

abbrev pub is_vllm : Option String → Bool
is_vllm none = false
is_vllm (some template) = str_eq template "vllm"

abbrev pub is_legacy : Option Version → Bool
is_legacy none = true
is_legacy (some version) = semcomp_below version oldest_sdk

abbrev pub is_unlogged : Option Chute → Bool
is_unlogged none = false
is_unlogged (some chute) = not chute.logging_enabled

-- The checks between the fee and the writes.
unfoldable pub check_image : Env → ChuteArgs → User → Image → Option Chute → Result (Unit {0})
unfolding is_official
check_image env args user image existing = do
  require (not (user.affine && not (is_official env image)) || user.unlimited_dev) bad_request
  require (not (is_vllm args.standard_template && is_none args.revision)) bad_request
  require (not (is_legacy image.chutes_version)) bad_request
  require (not (is_unlogged existing && args.logging_enabled)) forbidden
