-- ===== src/Invocation/Calls/Samples.antt =====
-- An invocation on two instances, of which one does not answer as it should.
use mathlib.Core.List.Permᴰ
use chutes_api.Base.{
  ℕ, zero, suc, ◌+◌, ◌≡◌, refl, ◌≤◌, ◌<◌, true, false, [], ◌∷◌, String, IsDistinct, lookup, insert,
  keep, contains, choose, nth_or,
}
use chutes_api.Balancer.Targets.{Target, available}
use chutes_api.Balancer.Session.{enter}
use chutes_api.Invocation.Calls.{
  Call, Round, Ending, completed, broken, slow, World, identified, attempting, succeeded, failed_on,
  invoke, failures_of, succeed, strike,
}
use chutes_api.Invocation.Calls.Counting.{
  count_where, is_attempt, is_success, is_limit, is_outage, IsClosed, times,
}
use chutes_api.Invocation.Calls.Course.{invoke-IsServed}
use chutes_api.Invocation.Calls.Avoided.{tried, the_id, invoke-IsDistinct}
use chutes_api.Invocation.Calls.Removals.{IsReason, invoke-IsReason}

abbrev target : String → Target
target id = record { instance_id = id; count = 0 }

abbrev pub call : Call
call = record {
  shuffle = λ ts. ts;
  cached = λ hash id. false;
  prefixes = [];
  concurrency = 4;
  expiry = 30;
  known = target "a" ∷ target "b" ∷ [];
  failure_limit = 1;
}

-- The balancer times out, and one of the instances that are left is taken.
abbrev pub round : (first : Ending) → ℕ → Round
round first n = record {
  reading = slow;
  opened = 50;
  closed = 60;
  conn_id = "x";
  added = true;
  removed = true;
  pick = 0;
  chunks = [];
  ending = elim n [ zero ↦ first | suc m ↦ elim m [ suc (suc (suc k)) ↦ first | _ ↦ completed ] ];
}

abbrev pub world : World ℕ
world = record {
  instances = "a" ∷ "b" ∷ [];
  consecutive_failures = [];
  connections = [];
  completed = 0;
  rate_limited = 0;
  accounts = 0;
}

pub runs : Unit {0}
unfolding invoke succeed strike enter choose nth_or available keep contains insert lookup
    failures_of tried count_where
runs = tt

-- The first attempt breaks and removes "a", the second succeeds on "b".
invoke_twice :
    (invoke call suc (round broken) world).events
    ≡ identified 2 ∷ attempting "a" ∷ failed_on "a" broken ∷ attempting "b" ∷ succeeded "b" ∷ []
invoke_twice = unfold runs in refl

invoke-IsServed_example :
    let ended = invoke call suc (round broken) world in
    IsClosed ended.events
    × (count_where is_attempt ended.events ≤ 5)
    × (count_where is_success ended.events ≤ 1)
    × (ended.world.accounts ≡ times (count_where is_success ended.events) suc 0)
    × (ended.world.completed ≡ 0 + count_where is_success ended.events)
    × (0 < count_where is_limit ended.events → count_where is_outage ended.events ≡ 0)
invoke-IsServed_example = invoke-IsServed call suc (round broken) world

invoke-IsDistinct_example : IsDistinct the_id (tried (invoke call suc (round broken) world).events)
invoke-IsDistinct_example = invoke-IsDistinct call (λ ts. Permᴰ.refl ts) suc (round broken) world

invoke-IsReason_example :
    IsReason call.failure_limit "a"
      (failures_of world "a")
      (invoke call suc (round broken) world).events
invoke-IsReason_example =
    invoke-IsReason call suc (round broken) world "a" (unfold runs in (refl, refl))
