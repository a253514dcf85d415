-- ===== src/Quotas/Discounts/Samples.antt =====
-- A user with a discount of a tenth and an override of its own.
use chutes_api.Base.{ℕ, ◌≡◌, [], ◌∷◌, List, Option, none, some, String}
use chutes_api.Quotas.Discounts.{Override}
use chutes_api.Quotas.Discounts.Cached.{
  Question, discount, override, reply_all, stored_all, reply_all-stored_all,
}

abbrev discounts : String → Option ℕ
discounts chute_id = some 100000

abbrev overrides : String → Option Override
overrides user_id = some (record {
  user_id = user_id;
  chute_id = "c1";
  per_request = some 5;
  per_million_in = none;
  per_million_out = none;
  per_step = none;
})

abbrev questions : List Question
questions = discount ∷ override ∷ override ∷ discount ∷ []

reply_all-stored_all_example :
    reply_all discounts [] overrides "u1" "c1" questions none
    ≡ stored_all discounts [] overrides "u1" "c1" questions
reply_all-stored_all_example =
    reply_all-stored_all discounts [] overrides "u1" "c1" questions none tt
