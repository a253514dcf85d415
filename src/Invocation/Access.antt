-- ===== src/Invocation/Access.antt =====
-- The first part of `_invoke` in api/invocation/router.py: who may call a chute, and which calls are free.
-- The counts of requests are in ten-thousandths, as `settings.reroll_multiplier` is a fraction.
pub mod Free
pub mod Samples
use chutes_api.Base.{
  ℕ, ◌+◌, ◌*◌, Bool, true, false, not, ◌&&◌, ◌||◌, List, [], ◌∷◌, Option, none, some, String,
  str_eq, leb, contains, if◌then◌else◌,
}

-- The roles that count here, of api/permissions.py.
pub record User : Type 0 where
  pub user_id : String
  pub free_account : Bool
  pub invoice_billing : Bool
  pub has_balance : Bool

-- `chute.discount` against 1.0.
pub data Discount : Type 0 where
  below_one one above_one : Discount

abbrev pub is_one : Discount → Bool
is_one one = true
is_one below_one = false
is_one above_one = false

abbrev is_below_one : Discount → Bool
is_below_one below_one = true
is_below_one one = false
is_below_one above_one = false

-- `billed` is: not public, not of the legacy private billing, not the platform's own.
pub record Chute : Type 0 where
  pub user_id : String
  pub public : Bool
  pub billed : Bool
  pub discount : Discount
  pub shared_to : List String

pub data Refusal : Type 0 where
  not_found payment_required : Refusal

-- A request goes on, `request.state.free_invocation` being set or not, or is refused.
pub data Admission : Type 0 where
  admitted : (free_invocation : Bool) → Admission
  refused : Refusal → Admission

abbrev pub unit : ℕ
unit = 10000

pub may_see : Chute → (user_id : String) → Bool
may_see chute user_id =
    chute.public || str_eq chute.user_id user_id || contains chute.shared_to user_id

-- "No quota for private/user-created chutes."
pub quota_for : Chute → (quota : ℕ) → ℕ
quota_for chute quota = if chute.billed then 0 else quota

-- "Automatically switch to paygo when the quota is exceeded."
pub by_quota : Chute → User → (quota request_count : ℕ) → Admission
unfolding quota_for
by_quota chute user quota request_count =
    if leb (quota_for chute quota * unit) request_count
    then if user.has_balance then admitted false else refused payment_required
    else admitted true

pub admit : Option Chute → User → (quota request_count : ℕ) → Admission
unfolding may_see by_quota
admit none user quota request_count = refused not_found
admit (some chute) user quota request_count =
    if not (may_see chute user.user_id)
    then refused not_found
    else if is_one chute.discount
    then admitted true
    else if user.free_account || user.invoice_billing
    then admitted false
    else by_quota chute user quota request_count

-- "Increment quota usage value", at the end of `invoke`: the key is a request more, or a fraction of one.
pub count_request :
    Chute → (free_invocation reroll : Bool) → (reroll_multiplier request_count : ℕ) → ℕ
count_request chute free_invocation reroll reroll_multiplier request_count =
    if free_invocation && (is_below_one chute.discount && not chute.billed)
    then request_count + (if reroll then reroll_multiplier else unit)
    else request_count

-- One request of a user. Its counter is read, and changed when the invocation has succeeded.
pub record Turn : Type 0 where
  pub chute : Chute
  pub user : User
  pub reroll : Bool
  pub succeeds : Bool

pub serve_turn : (quota reroll_multiplier : ℕ) → Turn → (request_count : ℕ) → ℕ
unfolding admit count_request
serve_turn quota reroll_multiplier turn request_count =
    elim (admit (some turn.chute) turn.user quota request_count) [
      | admitted free_invocation ↦
          if turn.succeeds
          then count_request turn.chute free_invocation turn.reroll reroll_multiplier request_count
          else request_count
      | refused refusal ↦ request_count
    ]

-- The requests on the chutes that have one counter, one after another.
pub serve_turns : (quota reroll_multiplier : ℕ) → List Turn → (request_count : ℕ) → ℕ
unfolding serve_turn
serve_turns quota reroll_multiplier [] request_count = request_count
serve_turns quota reroll_multiplier (turn ∷ turns) request_count =
    serve_turns quota reroll_multiplier turns
      (serve_turn quota reroll_multiplier turn request_count)
