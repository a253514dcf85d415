-- ===== src/Invocation/Calls/Course.antt =====
-- How an invocation goes: it ends, with one last event, and is settled as often as it succeeds.
use chutes_api.Base.{
  ℕ, zero, suc, ◌+◌, ◌≤◌, ◌<◌, ◌≡◌, refl, inl, inr, ◌⊎◌, Bool, true, false, List, [], ◌∷◌, ◌++◌,
  String, arith, Nat-cases, ap, ◌∙◌, length,
}
use chutes_api.Invocation.Calls.{
  Round, Call, Event, identified, World, Ended, Outcome, stop, retry, attempt, query, invoke,
  yield_first,
}
use chutes_api.Invocation.Calls.Counting.{
  is_attempt, is_success, is_limit, is_outage, count_where, IsClosed, IsClosed-append,
  count_where-append, times,
}
use chutes_api.Invocation.Calls.Attempts.{Answered, attempt-Answered}

module _ {A : Type 0} (call : Call) (settle : A → A) (round : ℕ → Round) where
  -- What is known of the events when the loop ends.
  pub record IsServed (left : ℕ) (overloaded : Bool) (w : World A) (ended : Ended A) : Type 0 where
    pub closed : IsClosed ended.events
    pub attempts : count_where is_attempt ended.events ≤ left
    pub once : count_where is_success ended.events ≤ 1
    pub blamed :
        (overloaded ≡ true) ⊎ (0 < count_where is_limit ended.events)
        → count_where is_outage ended.events ≡ 0
    pub settled :
        ended.world.accounts ≡ times (count_where is_success ended.events) settle w.accounts
    pub counted : ended.world.completed ≡ w.completed + count_where is_success ended.events

  -- An attempt that failed, and the rest of the loop.
  yield_first-IsServed :
      (left : ℕ) (overloaded : Bool) (w : World A) (es : List Event) (id : String) (still : Bool)
      (w' : World A) (later : Ended A)
      → Answered settle overloaded w (retry es id still w')
      → IsServed left still w' later
      → IsServed (suc left) overloaded w (yield_first es later)
  unfolding yield_first
  yield_first-IsServed left overloaded w es id still w' later h rest = record {
    closed = IsClosed-append es later.events h.0 rest.closed;
    attempts = omega (arith, count_where-append is_attempt es later.events, rest.attempts, h.1);
    once = omega (arith, count_where-append is_success es later.events, rest.once, h.2);
    blamed = λ c. omega (
      arith,
      count_where-append is_outage es later.events,
      h.5,
      rest.blamed (blame c (Nat-cases 0 (count_where is_limit es))),
    );
    settled =
        let same : count_where is_success (es ++ later.events)
            ≡ count_where is_success later.events =
          omega (arith, count_where-append is_success es later.events, h.2) in
        rw same (rest.settled ∙ ap (times (count_where is_success later.events) settle) h.6);
    counted = omega (arith, count_where-append is_success es later.events, rest.counted, h.2, h.7);
  }
    where
      blame :
          (overloaded ≡ true) ⊎ (0 < count_where is_limit (es ++ later.events))
          → (0 < count_where is_limit es)
            ⊎ ((count_where is_limit es < 0) ⊎ (0 ≡ count_where is_limit es))
          → (still ≡ true) ⊎ (0 < count_where is_limit later.events)
      blame (inl e) n = inl (h.3 e)
      blame (inr l) (inl here) = inl (h.4 here)
      blame (inr l) (inr none_here) =
          inr (ground (arith, count_where-append is_limit es later.events))

  query-IsServed :
      (left : ℕ) (avoid : List String) (overloaded : Bool) (w : World A)
      → IsServed left overloaded w (query left call settle round avoid overloaded w)
  unfolding query count_where
  query-IsServed zero avoid overloaded w = record {
    closed = refl;
    attempts = omega arith;
    once = omega arith;
    blamed = λ c. elim c [ inl e ↦ rw e refl | inr some_limit ↦ absurd (omega arith) ];
    settled = refl;
    counted = omega arith;
  }
  query-IsServed (suc left) avoid overloaded w =
      go (attempt call settle overloaded (round left) avoid w)
        (attempt-Answered call settle overloaded (round left) avoid w) (query-IsServed left)
    where
      go :
          (outcome : Outcome A)
          → Answered settle overloaded w outcome
          → ((avoid' : List String) (still : Bool) (w' : World A)
              → IsServed left still w' (query left call settle round avoid' still w'))
          → IsServed (suc left) overloaded w (elim outcome [
            | stop events w' ↦ record { events = events; world = w' }
            | retry events instance_id still w' ↦
                yield_first events
                  (query left call settle round (avoid ++ instance_id ∷ []) still w')
          ])
      go (stop es w') h ih = record {
        closed = h.0;
        attempts = omega (arith, h.1);
        once = h.2;
        blamed = λ c. elim c [ inl e ↦ h.4 e | inr some_limit ↦ absurd (omega (arith, h.3)) ];
        settled = h.5;
        counted = h.6;
      }
      go (retry es id still w') h ih =
          yield_first-IsServed left overloaded w es id still w' _ h (ih (avoid ++ id ∷ []) still w')

  identified-IsServed :
      (left n : ℕ) (w : World A) (ended : Ended A)
      → IsServed left false w ended
      → IsServed left false w (yield_first (identified n ∷ []) ended)
  unfolding yield_first count_where
  identified-IsServed left n w ended served = record {
    closed = IsClosed-append (identified n ∷ []) ended.events (refl, tt) served.closed;
    attempts = omega (arith, served.attempts);
    once = omega (arith, served.once);
    blamed = λ c. elim c [ inl e ↦ cc | inr l ↦ omega (arith, served.blamed (inr (omega arith))) ];
    settled =
        let same : 0 + count_where is_success ended.events ≡ count_where is_success ended.events =
          omega arith in
        rw same served.settled;
    counted = omega (arith, served.counted);
  }

  -- An invocation ends: its last event is a success or an error, and no event before it is. At most
  -- five instances are asked. The accounts are settled, and the request counted as completed, once
  -- if the invocation succeeded and not at all if it did not. Where an instance answered that it is
  -- at its limit, the error at the end is not one of a lack of instances.
  pub invoke-IsServed :
      (w : World A)
      → let ended = invoke call settle round w in
        IsClosed ended.events
        × (count_where is_attempt ended.events ≤ 5)
        × (count_where is_success ended.events ≤ 1)
        × (ended.world.accounts ≡ times (count_where is_success ended.events) settle w.accounts)
        × (ended.world.completed ≡ w.completed + count_where is_success ended.events)
        × (0 < count_where is_limit ended.events → count_where is_outage ended.events ≡ 0)
  unfolding invoke
  invoke-IsServed w =
      let served =
        identified-IsServed 5 (length call.known) w (query 5 call settle round [] false w)
          (query-IsServed 5 [] false w) in
      (
        served.closed,
        served.attempts,
        served.once,
        served.settled,
        served.counted,
        λ limited. served.blamed (inr limited),
      )
