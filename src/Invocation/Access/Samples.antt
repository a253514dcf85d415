-- ===== src/Invocation/Access/Samples.antt =====
-- A user within its quota, and one that pays.
use chutes_api.Base.{◌≡◌, refl, true, false, [], ◌∷◌, contains}
use chutes_api.Invocation.Access.{User, Chute, Turn, below_one, serve_turns}

abbrev user : User
user = record { user_id = "u"; free_account = false; invoice_billing = false; has_balance = true }

abbrev chute : Chute
chute = record {
  user_id = "o";
  public = true;
  billed = false;
  discount = below_one;
  shared_to = [];
}

abbrev turn : Turn
turn = record { chute = chute; user = user; reroll = false; succeeds = true }

-- Two requests are free, the third is paid for.
three_turns : serve_turns 2 500 (turn ∷ turn ∷ turn ∷ []) 0 ≡ 20000
unfolding serve_turns contains
three_turns = refl
