-- ===== src/Invocation/Reply/Samples.antt =====
-- An invocation whose instances are all at their limit.
use chutes_api.Base.{
  ◌≡◌, ◌≢◌, ℕ, List, refl, true, false, [], ◌∷◌, suc, contains, keep, arith, choose, nth_or,
}
use chutes_api.Balancer.Targets.{available}
use chutes_api.Balancer.Session.{enter}
use chutes_api.Invocation.Calls.{
  Round, Event, rate_limited, identified, attempting, failed_on, error, infra_overload, invoke,
}
use chutes_api.Invocation.Calls.Counting.{count_where}
use chutes_api.Invocation.Calls.Samples.{call, round, world}
use chutes_api.Invocation.Reply.{reply, refused, internal_server_error, too_many_requests}
use chutes_api.Invocation.Reply.Modes.{Agree, reply-Agree, invoke-unblamed}

abbrev busy : List Event
busy = identified 1 ∷ attempting "a" ∷ failed_on "a" rate_limited ∷ error infra_overload ∷ []

busy_replied : reply true false busy ≡ refused too_many_requests
unfolding reply
busy_replied = refl

reply-Agree_example : Agree (reply false false busy) (reply true false busy)
reply-Agree_example = reply-Agree busy

abbrev limited : ℕ → Round
limited n = record (round rate_limited n) { ending = rate_limited }

calls : Unit {0}
unfolding invoke enter available keep contains choose nth_or count_where
calls = tt

invoke-unblamed_example :
    reply true false (invoke call suc limited world).events ≢ refused internal_server_error
invoke-unblamed_example =
    invoke-unblamed call suc limited world true false (unfold calls in omega arith)
      (unfold calls in refl)
