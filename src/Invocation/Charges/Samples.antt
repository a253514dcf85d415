-- ===== src/Invocation/Charges/Samples.antt =====
-- A private chute that another user calls.
use Prim.Native.Nat.{◌/◌}
use chutes_api.Base.{◌≡◌, refl, true, false, none, some, arith, ◌≢◌, if◌then◌else◌}
use chutes_api.Base.Int.{ℤ, pos, pos_part, ◌+ℤ◌, ◌-ℤ◌, ◌*ℤ◌, ltb_ℤ, is_zero_ℤ, int_laws}
use chutes_api.Usage.{BalanceKey, same_key}
use chutes_api.Invocation.Charges.{
  Amounts, Rates, Success, Book, Entry, vllm, settle, key_of, credit, change, use_entry, charge,
  add_balance_to,
}
use chutes_api.Invocation.Charges.Shares.{IsExact, settle-IsShared}

abbrev integers : Amounts
integers = record {
  Amount = ℤ;
  of_nat = pos;
  plus = ◌+ℤ◌;
  minus = ◌-ℤ◌;
  times = ◌*ℤ◌;
  over = λ a b. pos (pos_part a / pos_part b);
  larger = λ a b. if ltb_ℤ a b then b else a;
  below = ltb_ℤ;
  is_zero = is_zero_ℤ;
}

integers-IsExact : IsExact integers
integers-IsExact = record {
  plus_zero = λ a. omega int_laws;
  plus_comm = λ a b. omega int_laws;
  plus_assoc = λ a b c. omega int_laws;
  plus_minus = λ a. omega int_laws;
  zero_of_is_zero = λ a h. ground arith;
}

abbrev rates : Rates integers
rates = record {
  price_mult_in = pos 2;
  min_price_in = pos 10;
  price_mult_out = pos 4;
  min_price_out = pos 20;
  price_mult_per_step = pos 1;
  compute_unit_price_basis = pos 3600;
  reroll_multiplier = pos 1;
}

abbrev call : Success integers
call = record {
  user_id = "guest";
  chute = record {
    chute_id = "c";
    user_id = "owner";
    template = vllm;
    discount = pos 0;
    concurrency = some 32;
    billed = true;
  };
  hourly_price = pos 5;
  compute_units = some (pos 7);
  metrics = some (record { input_tokens = 3000000; output_tokens = 1000000; steps = 0 });
  override = none;
  user_discount = pos 0;
  free_invocation = false;
  reroll = false;
  now = 100;
}

abbrev empty_entry : Entry integers
empty_entry = record {
  amount = pos 0;
  count = 0;
  input_tokens = 0;
  output_tokens = 0;
  timestamp = 0;
}

abbrev empty_book : Book integers
empty_book k = empty_entry

-- 3 million tokens at 10 and one million at 20.
charged_amount :
    (settle integers rates call empty_book (key_of integers call "guest")).amount ≡ pos 50
unfolding settle credit change use_entry charge add_balance_to same_key ◌+ℤ◌ ◌-ℤ◌ ◌*ℤ◌
charged_amount = refl

settle-IsShared_example :
    let after = settle integers rates call empty_book in
    (call.user_id ≡ call.chute.user_id
      → (k : BalanceKey) → (after k).amount ≡ (empty_book k).amount)
    × (call.user_id ≢ call.chute.user_id
        → ((after (key_of integers call "guest")).amount
              +ℤ (after (key_of integers call "owner")).amount
            ≡ pos 0 +ℤ pos 0)
          × ((k : BalanceKey)
              → same_key (key_of integers call "guest") k ≡ false
              → same_key (key_of integers call "owner") k ≡ false
              → (after k).amount ≡ (empty_book k).amount))
settle-IsShared_example = settle-IsShared integers integers-IsExact rates call empty_book refl
