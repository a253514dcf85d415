-- ===== src/Quotas/Changes/Samples.antt =====
-- A user with 50 requests for one chute and 20 for the others, whose quota becomes 300 for all.
use chutes_api.Base.{
  All, ◌≡◌, refl, true, Bool, String, Dict, [], ◌∷◌, lookup, str_eq, ◌||◌, remove, keep,
}
use chutes_api.Base.Int.{pos, negsuc}
use chutes_api.Quotas.{specific, invocation_quota}
use chutes_api.Quotas.Changes.{
  IsPostable, Value, number, Account, changed, bad_request, is_valid, new_rows, purge_cache,
  guarded, admin_quotas_change, Has, AnswersFrom, admin_quotas_change-Answers,
}

abbrev user : Account
user = record {
  rows = ("c1", 50) ∷ ("*", 20) ∷ [];
  qta = ("c1", 50) ∷ [];
  quota_type = ("c1", specific) ∷ [];
  quota = [];
}

abbrev quotas : Dict Value
quotas = ("*", number (pos 300)) ∷ []

abbrev with_300 : Account
with_300 = record user { rows = ("*", 300) ∷ [] }

abbrev is_uuid : String → Bool
is_uuid text = str_eq text "c1" || str_eq text "c2"

make_change : admin_quotas_change true is_uuid true quotas user ≡ changed with_300
unfolding admin_quotas_change guarded is_valid new_rows purge_cache remove keep
make_change = refl

refuse_debt :
    admin_quotas_change true is_uuid true (("c1", number (negsuc 0)) ∷ []) user ≡ bad_request
unfolding admin_quotas_change guarded is_valid new_rows purge_cache
refuse_debt = refl

admin_quotas_change-Answers_example :
    (true ≡ true)
    × (true ≡ true)
    × All (IsPostable is_uuid) quotas
    × (Has is_uuid quotas [] with_300 "c1"
        × AnswersFrom is_uuid quotas [] user with_300 "20250910" "u1" "c1")
admin_quotas_change-Answers_example =
    admin_quotas_change-Answers is_uuid quotas [] true true user with_300 "20250910" "u1" "c1"
      make_change

keep_cached :
    (invocation_quota (lookup "c1" with_300.qta) (λ (k : String). lookup k with_300.rows) [] "c1").0
    ≡ 50
unfolding invocation_quota lookup
keep_cached = refl
