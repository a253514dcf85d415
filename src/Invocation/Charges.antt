-- ===== src/Invocation/Charges.antt =====
-- What a successful invocation costs, from api/chute/util.py: the part of `invoke` between the update of
-- the invocation's row and the push of the usage to redis.
--
-- Prices are floats in the source; `Amounts` has the operations on them that the code uses. A chute's
-- metrics come with `or 0` applied.
pub mod Shares
pub mod Samples
use chutes_api.Base.{
  ℕ, ◌+◌, Bool, true, false, not, ◌&&◌, ◌||◌, Option, none, some, String, str_eq, is_none, get_or,
  ltb, if◌then◌else◌,
}
use chutes_api.Usage.{BalanceKey, same_key}

pub record Amounts : Type 1 where
  pub Amount : Type 0
  pub of_nat : ℕ → Amount
  pub plus : Amount → Amount → Amount
  pub minus : Amount → Amount → Amount
  pub times : Amount → Amount → Amount
  pub over : Amount → Amount → Amount
  pub larger : Amount → Amount → Amount
  pub below : Amount → Amount → Bool
  pub is_zero : Amount → Bool

pub data Template : Type 0 where
  vllm diffusion other : Template

pub record Metrics : Type 0 where
  pub input_tokens : ℕ
  pub output_tokens : ℕ
  pub steps : ℕ

module _ (amounts : Amounts) where
  open amounts use {Amount, of_nat, plus, minus, times, over, larger, below, is_zero}

  -- The constants of api/constants.py and `settings.reroll_multiplier`.
  pub record Rates : Type 0 where
    pub price_mult_in : Amount
    pub min_price_in : Amount
    pub price_mult_out : Amount
    pub min_price_out : Amount
    pub price_mult_per_step : Amount
    pub compute_unit_price_basis : Amount
    pub reroll_multiplier : Amount

  pub record PriceOverride : Type 0 where
    pub per_million_in : Option Amount
    pub per_million_out : Option Amount
    pub per_step : Option Amount
    pub per_request : Option Amount

  -- `billed` is what is tested for each private chute: not public, not of the legacy billing, not the
  -- platform's own.
  pub record Chute : Type 0 where
    pub chute_id : String
    pub user_id : String
    pub template : Template
    pub discount : Amount
    pub concurrency : Option ℕ
    pub billed : Bool

  -- What is known when the invocation has succeeded. `compute_units` is `none` also where it is 0.
  pub record Success : Type 0 where
    pub user_id : String
    pub chute : Chute
    pub hourly_price : Amount
    pub compute_units : Option Amount
    pub metrics : Option Metrics
    pub override : Option PriceOverride
    pub user_discount : Amount
    pub free_invocation : Bool
    pub reroll : Bool
    pub now : ℕ

  per_million : (tokens : ℕ) (price : Amount) → Amount
  per_million tokens price = times (over (of_nat tokens) (of_nat 1000000)) price

  price_in : Rates → (hourly_price : Amount) → Amount
  price_in rates hourly_price = larger (times hourly_price rates.price_mult_in) rates.min_price_in

  price_out : Rates → (hourly_price : Amount) → Amount
  price_out rates hourly_price =
      larger (times hourly_price rates.price_mult_out) rates.min_price_out

  -- `x -= x * discount`
  pub less : Amount → (discount : Amount) → Amount
  less x discount = minus x (times x discount)

  has_token_price : PriceOverride → Bool
  has_token_price o = not (is_none o.per_million_in) || not (is_none o.per_million_out)

  -- "Per request pricing (fallback if specific pricing not available)"
  override_other : Template → Option Metrics → PriceOverride → Option Amount
  override_other diffusion metrics o = elim o.per_step [
    | some price ↦ some (times (of_nat (elim metrics [ some m ↦ m.steps | none ↦ 0 ])) price)
    | none ↦ o.per_request
  ]
  override_other vllm metrics o = o.per_request
  override_other other metrics o = o.per_request

  -- The price by the override, if it has one for the chute.
  override_charge :
      Rates → (hourly_price : Amount) → Template → Option Metrics → PriceOverride → Option Amount
  unfolding per_million price_in price_out has_token_price override_other
  override_charge rates hourly_price vllm (some m) o =
      if has_token_price o
      then some (
          plus (per_million m.input_tokens (get_or o.per_million_in (price_in rates hourly_price)))
            (per_million m.output_tokens (get_or o.per_million_out (price_out rates hourly_price))))
      else override_other vllm (some m) o
  override_charge rates hourly_price vllm none o = override_other vllm none o
  override_charge rates hourly_price diffusion metrics o = override_other diffusion metrics o
  override_charge rates hourly_price other metrics o = override_other other metrics o

  abbrev or_one : Option ℕ → ℕ
  or_one none = 1
  or_one (some n) = if ltb 0 n then n else 1

  -- `if (chute.concurrency or 1) < 16: price *= 16.0 / (chute.concurrency or 1)`
  for_concurrency : Option ℕ → Amount → Amount
  for_concurrency concurrency price =
      if ltb (or_one concurrency) 16
      then times price (over (of_nat 16) (of_nat (or_one concurrency)))
      else price

  -- A discount that is not in (-3, 1] does not count.
  chute_discount : Chute → Amount
  chute_discount chute =
      if not (is_zero chute.discount)
        && (below (minus (of_nat 0) (of_nat 3)) chute.discount
            && not (below (of_nat 1) chute.discount))
      then chute.discount
      else of_nat 0

  template_charge :
      Rates
      → (hourly_price : Amount) → Chute
      → Option Metrics
      → (discount : Amount) → Template
      → Amount
  unfolding per_million price_in price_out less for_concurrency
  template_charge rates hourly_price chute (some m) discount vllm =
      less
        (plus
          (per_million m.input_tokens
            (for_concurrency chute.concurrency (price_in rates hourly_price)))
          (per_million m.output_tokens
            (for_concurrency chute.concurrency (price_out rates hourly_price))))
        discount
  template_charge rates hourly_price chute none discount vllm = of_nat 0
  template_charge rates hourly_price chute metrics discount diffusion =
      less
        (times (times (of_nat (elim metrics [ some m ↦ m.steps | none ↦ 0 ])) hourly_price)
          rates.price_mult_per_step)
        discount
  template_charge rates hourly_price chute metrics discount other = of_nat 0

  -- `if not balance_used: balance_used = default_balance_used`
  standard_charge : Rates → (hourly_price compute_units : Amount) → Chute → Option Metrics → Amount
  unfolding chute_discount template_charge less
  standard_charge rates hourly_price compute_units chute metrics =
      let discount = chute_discount chute in
      let priced = template_charge rates hourly_price chute metrics discount chute.template in
      let default =
        less (over (times compute_units rates.compute_unit_price_basis) (of_nat 3600)) discount in
      if below discount (of_nat 1) then (if is_zero priced then default else priced) else of_nat 0

  abbrev chosen_override : Rates → Success → Option Amount
  unfolding override_charge
  chosen_override rates s = elim s.override [
    | none ↦ none
    | some o ↦ override_charge rates s.hourly_price s.chute.template s.metrics o
  ]

  -- "Also apply fractional balance to reroll", and "User discounts".
  reduce : Rates → Success → Amount → Amount
  unfolding less
  reduce rates s balance_used =
      let rerolled =
        if not (is_zero balance_used) && s.reroll
        then times balance_used rates.reroll_multiplier
        else balance_used in
      if not (is_zero rerolled) && not (is_zero s.user_discount)
      then less rerolled s.user_discount
      else rerolled

  -- `balance_used` before the owner of the chute is looked at.
  pub balance_used : Rates → Success → Amount
  unfolding standard_charge reduce chosen_override
  balance_used rates s =
      if s.free_invocation then reduce rates s (of_nat 0) else elim s.compute_units [
        | none ↦ reduce rates s (of_nat 0)
        | some units ↦ elim (chosen_override rates s) [
          | some charge ↦ charge
          | none ↦ reduce rates s (standard_charge rates s.hourly_price units s.chute s.metrics)
        ]
      ]

  -- "if user_id == chute.user_id: balance_used = 0"
  pub charge : Rates → Success → Amount
  unfolding balance_used
  charge rates s =
      if s.chute.billed && str_eq s.user_id s.chute.user_id then of_nat 0 else balance_used rates s

  pub add_balance_to : Success → Option String
  add_balance_to s =
      if s.chute.billed && not (str_eq s.user_id s.chute.user_id)
      then some s.chute.user_id
      else none

  -- The hash `balance:{user_id}:{chute_id}`.
  pub record Entry : Type 0 where
    pub amount : Amount
    pub count : ℕ
    pub input_tokens : ℕ
    pub output_tokens : ℕ
    pub timestamp : ℕ

  abbrev pub Book : Type 0
  Book = BalanceKey → Entry

  pub change : BalanceKey → (Entry → Entry) → Book → Book
  change key f book k = if same_key key k then f (book k) else book k

  abbrev key_of : Success → (user_id : String) → BalanceKey
  key_of s user_id = record { user_id = user_id; chute_id = s.chute.chute_id }

  use_entry : Rates → Success → Entry → Entry
  use_entry rates s entry = record entry {
    amount = plus entry.amount (charge rates s);
    count = entry.count + 1;
    input_tokens = entry.input_tokens + (elim s.chute.template [
      | vllm ↦ (elim s.metrics [ some m ↦ m.input_tokens | none ↦ 0 ])
      | _ ↦ 0
    ]);
    output_tokens = entry.output_tokens + (elim s.chute.template [
      | vllm ↦ (elim s.metrics [ some m ↦ m.output_tokens | none ↦ 0 ])
      | _ ↦ 0
    ]);
    timestamp = s.now;
  }

  transfer_entry : Amount → Entry → Entry
  transfer_entry charged entry = record entry {
    amount = plus entry.amount (minus (of_nat 0) charged);
  }

  credit : Rates → Success → Option String → Book → Book
  credit rates s none book = book
  credit rates s (some owner) book =
      if is_zero (charge rates s)
      then book
      else change (key_of s owner) (transfer_entry (charge rates s)) book

  -- "Ship the data over to usage tracker which actually deducts/aggregates balance/etc."
  pub settle : Rates → Success → Book → Book
  settle rates s book =
      credit rates s (add_balance_to s) (change (key_of s s.user_id) (use_entry rates s) book)
