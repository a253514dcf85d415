-- ===== src/Quotas/Samples.antt =====
-- A user with the quota 50 for one chute and 20 for the others.
use chutes_api.Base.{◌≡◌, refl, none, some, [], String, Option, ℕ, str_eq, if◌then◌else◌}
use chutes_api.Quotas.{quota_key, quota_type, db_chute_id}

abbrev rows : String → Option ℕ
rows chute_id =
    if str_eq chute_id "c1" then some 50 else if str_eq chute_id "*" then some 20 else none

abbrev second : String
second = "c2"

abbrev third : String
third = "c3"

counts_alike :
    (quota_key none rows [] "20250910" "u1" second).0
    ≡ (quota_key none rows [] "20250910" "u1" third).0
unfolding quota_key quota_type db_chute_id
counts_alike = refl
