-- ===== src/Invocation/Calls/Attempts.antt =====
-- What one attempt does to the events, the accounts and the counter of completed requests.
use chutes_api.Base.{
  ℕ, ◌+◌, ◌≤◌, ◌<◌, ◌≡◌, refl, Bool, true, List, [], ◌∷◌, ◌++◌, String, arith, map, Option,
}
use chutes_api.Balancer.Session.{
  Store, serve, refuse, Offer, no_infrastructure, overload, error_code,
}
use chutes_api.Invocation.Calls.{
  Ending, completed, rate_limited, bad_request, key_exchange, empty_stream, broken, Round, Call,
  ErrorName, Event, attempting, result, succeeded, failed_on, error, World, Outcome, stop, retry,
  answer, no_target, try_offer, leave_with, attempt, succeed, strike, delete_instance, enter_round,
}
use chutes_api.Invocation.Calls.Counting.{
  is_attempt, is_success, is_limit, is_outage, count_where, IsClosed, IsOpen, IsClosed-append,
  IsOpen-append, count_where-append, IsOpen-results, count_where-results, times, Counts,
}

module _ {A : Type 0} (settle : A → A) (overloaded : Bool) (w : World A) where
  abbrev pub Answered : Outcome A → Type 0
  Answered (stop es w') =
      IsClosed es
      × (count_where is_attempt es ≤ 1)
      × (count_where is_success es ≤ 1)
      × (count_where is_limit es ≡ 0)
      × (overloaded ≡ true → count_where is_outage es ≡ 0)
      × (w'.accounts ≡ times (count_where is_success es) settle w.accounts)
      × (w'.completed ≡ w.completed + count_where is_success es)
  Answered (retry es instance_id still w') =
      IsOpen es
      × (count_where is_attempt es ≤ 1)
      × (count_where is_success es ≡ 0)
      × (overloaded ≡ true → still ≡ true)
      × (0 < count_where is_limit es → still ≡ true)
      × (count_where is_outage es ≡ 0)
      × (w'.accounts ≡ w.accounts)
      × (w'.completed ≡ w.completed)

  -- An attempt that fails is told in its last event.
  failed_on-Answered :
      (instance_id : String) (es : List Event) (ending : Ending) (still : Bool) (w' : World A)
      → IsOpen es
      → Counts es 1 0 0 0
      → (overloaded ≡ true → still ≡ true)
      → (is_limit (failed_on instance_id ending) ≡ true → still ≡ true)
      → w'.accounts ≡ w.accounts
      → w'.completed ≡ w.completed
      → Answered (retry (es ++ failed_on instance_id ending ∷ []) instance_id still w')
  unfolding count_where
  failed_on-Answered instance_id es ending still w' o c kept limited accounts done =
      let last = failed_on instance_id ending ∷ [] in
      (
        IsOpen-append es last o (refl, tt),
        omega (arith, count_where-append is_attempt es last),
        omega (arith, count_where-append is_success es last),
        kept,
        λ h. limited (ground (arith, count_where-append is_limit es last)),
        omega (arith, count_where-append is_outage es last),
        accounts,
        done,
      )

  strike-same :
      (limit : ℕ) (instance_id : String)
      → ((strike limit instance_id w).accounts ≡ w.accounts)
        × ((strike limit instance_id w).completed ≡ w.completed)
  unfolding strike delete_instance
  strike-same limit instance_id = ground arith

  answer-Answered :
      (call : Call) (instance_id : String) (es : List Event) (ending : Ending)
      → IsOpen es
      → Counts es 1 0 0 0
      → Answered (answer call settle overloaded instance_id es ending w)
  unfolding answer count_where succeed delete_instance
  answer-Answered call instance_id es completed o c =
      let last = succeeded instance_id ∷ [] in
      let once : count_where is_success (es ++ last) ≡ 1 =
        omega (arith, count_where-append is_success es last) in
      (
        IsClosed-append es last o refl,
        omega (arith, count_where-append is_attempt es last),
        omega arith,
        omega (arith, count_where-append is_limit es last),
        λ h. omega (arith, count_where-append is_outage es last),
        rw once refl,
        omega arith,
      )
  answer-Answered call instance_id es bad_request o c =
      let last = error ErrorName.bad_request ∷ [] in
      let never : count_where is_success (es ++ last) ≡ 0 =
        omega (arith, count_where-append is_success es last) in
      (
        IsClosed-append es last o refl,
        omega (arith, count_where-append is_attempt es last),
        omega arith,
        omega (arith, count_where-append is_limit es last),
        λ h. omega (arith, count_where-append is_outage es last),
        rw never refl,
        omega arith,
      )
  answer-Answered call instance_id es rate_limited o c =
      failed_on-Answered instance_id es rate_limited true
        (record w { rate_limited = w.rate_limited + 1 }) o c (λ h. refl) (λ h. refl) refl refl
  answer-Answered call instance_id es key_exchange o c =
      failed_on-Answered instance_id es key_exchange overloaded (delete_instance instance_id w) o c
        (λ h. h) (λ h. cc) refl refl
  answer-Answered call instance_id es empty_stream o c =
      let same = strike-same call.failure_limit instance_id in
      failed_on-Answered instance_id es empty_stream overloaded
        (strike call.failure_limit instance_id w) o c (λ h. h) (λ h. cc) same.0 same.1
  answer-Answered call instance_id es broken o c =
      let same = strike-same call.failure_limit instance_id in
      failed_on-Answered instance_id es broken overloaded (strike call.failure_limit instance_id w)
        o c (λ h. h) (λ h. cc) same.0 same.1

  opening-Counts :
      (instance_id : String) (chunks : List String)
      → Counts (attempting instance_id ∷ map result chunks) 1 0 0 0
  unfolding count_where
  opening-Counts instance_id chunks = (
    omega (arith, count_where-results is_attempt chunks (λ c. refl)),
    omega (arith, count_where-results is_success chunks (λ c. refl)),
    omega (arith, count_where-results is_limit chunks (λ c. refl)),
    omega (arith, count_where-results is_outage chunks (λ c. refl)),
  )

  try_offer-Answered :
      (call : Call) (round : Round) (offer : Offer)
      → Answered (try_offer call settle overloaded round offer w)
  unfolding try_offer no_target count_where
  try_offer-Answered call round (serve instance_id) =
      answer-Answered call instance_id (attempting instance_id ∷ map result round.chunks)
        round.ending (refl, IsOpen-results round.chunks) (opening-Counts instance_id round.chunks)
  try_offer-Answered call round (refuse overload) = ground arith
  try_offer-Answered call round (refuse no_infrastructure) =
      (refl, omega arith, omega arith, refl, λ h. rw h refl, refl, omega arith)
  try_offer-Answered call round (refuse error_code) =
      (refl, omega arith, omega arith, refl, λ h. rw h refl, refl, omega arith)

  leave_with-Answered :
      (call : Call) (round : Round) (instance : Option String) (outcome : Outcome A)
      → Answered outcome
      → Answered (leave_with call round instance outcome)
  unfolding leave_with
  leave_with-Answered call round instance (stop es w') h = h
  leave_with-Answered call round instance (retry es id still w') h = h

-- The connections do not matter here.
Answered-connections :
    {A : Type 0} (settle : A → A) (overloaded : Bool) (w : World A) (store : Store)
    (outcome : Outcome A)
    → Answered settle overloaded (record w { connections = store }) outcome
    → Answered settle overloaded w outcome
Answered-connections settle overloaded w store (stop es w') h = h
Answered-connections settle overloaded w store (retry es id still w') h = h

module _ {A : Type 0} (call : Call) (settle : A → A) where
  pub attempt-Answered :
      (overloaded : Bool) (r : Round) (avoid : List String) (w : World A)
      → Answered settle overloaded w (attempt call settle overloaded r avoid w)
  unfolding attempt
  attempt-Answered overloaded r avoid w =
      let entered = enter_round call r avoid w.connections in
      let entered_w = record w { connections = entered.store } in
      let outcome = try_offer call settle overloaded r entered.offer entered_w in
      leave_with-Answered settle overloaded w call r entered.instance outcome (
        Answered-connections settle overloaded w entered.store outcome
          (try_offer-Answered settle overloaded entered_w call r entered.offer))
