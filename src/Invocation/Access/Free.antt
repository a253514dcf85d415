-- ===== src/Invocation/Access/Free.antt =====
-- Which calls are free, and how many are.
use chutes_api.Base.{ℕ, ◌*◌, ◌<◌, ◌≡◌, ◌⊎◌, Bool, true, false, ◌||◌, some, arith}
use chutes_api.Invocation.Access.{
  User, Chute, admitted, unit, may_see, quota_for, by_quota, admit, is_one,
}

-- Every answer of the check. A call is free if the chute is, or if the request is within the quota of a chute
-- that is not billed by time and the user has no role that exempts it.
admit_lem :
    (chute : Chute) (user : User) (quota request_count : ℕ) (free_invocation : Bool)
    → admit (some chute) user quota request_count ≡ admitted free_invocation
    → (may_see chute user.user_id ≡ true)
      × (free_invocation ≡ true
          → (is_one chute.discount ≡ true)
            ⊎ ((chute.billed ≡ false) × (request_count < quota * unit)))
      × (free_invocation ≡ false
          → ((user.free_account || user.invoice_billing) ≡ true) ⊎ (user.has_balance ≡ true))
unfolding admit by_quota quota_for
admit_lem chute user quota request_count free_invocation e = ground arith
