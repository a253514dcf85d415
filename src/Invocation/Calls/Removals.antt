-- ===== src/Invocation/Calls/Removals.antt =====
-- Which instances an invocation deletes.
use chutes_api.Base.{
  ℕ, zero, suc, ◌+◌, ◌≤◌, ◌<◌, ◌≡◌, refl, ◌⊎◌, inl, inr, Bool, true, false, not, List, [], ◌∷◌,
  ◌++◌, Option, String, contains, keep, length, lookup, lookup-remove, lookup-insert, get_or, map,
  eq_iff, arith, str_eq, leb, Bool-cases, if◌then◌else◌,
}
use chutes_api.Balancer.Session.{Store, Offer, serve, refuse}
use chutes_api.Invocation.Calls.{
  ErrorName, exhausted, Ending, completed, rate_limited, bad_request, key_exchange, empty_stream,
  broken, Round, Call, Event, attempting, result, failed_on, error, identified, World, Ended,
  Outcome, stop, retry, no_target, answer, try_offer, leave_with, attempt, query, invoke,
  yield_first, enter_round, strike, succeed, delete_instance, failures_of,
}
use chutes_api.Invocation.Calls.Counting.{count_where, count_where-append, count_where-results}

-- An attempt on the instance that counts as a failure.
abbrev is_strike : String → Event → Bool
is_strike id (failed_on other empty_stream) = str_eq other id
is_strike id (failed_on other broken) = str_eq other id
is_strike id _ = false

-- "responded with a 426 error"
abbrev is_exchange : String → Event → Bool
is_exchange id (failed_on other key_exchange) = str_eq other id
is_exchange id _ = false

module _ (limit : ℕ) (id : String) where
  -- The reason for a deletion, where the failures of the instance were so many before.
  abbrev pub IsReason : (before : ℕ) → List Event → Type 0
  IsReason before es =
      (0 < count_where (is_exchange id) es) ⊎ (limit ≤ before + count_where (is_strike id) es)

abbrev IsDeleted : (id : String) (before after : List String) → Type 0
IsDeleted id before after = (contains before id ≡ true) × (contains after id ≡ false)

module _ (id : String) where
  contains-delete :
      (other : String) (xs : List String)
      → contains (keep (λ i. not (str_eq other i)) xs) id
        ≡ (if str_eq other id then false else contains xs id)
  unfolding contains keep
  contains-delete other [] = ground arith
  contains-delete other (x ∷ xs) =
      ground (arith, contains-delete other xs, eq_iff x id, eq_iff other x, eq_iff other id)

module _ {A : Type 0} (limit : ℕ) (id : String) where
  -- What an attempt does to the failures of the instance, and why it would delete it.
  abbrev Explains : World A → List Event → World A → Type 0
  Explains w es w' =
      (failures_of w' id ≤ failures_of w id + count_where (is_strike id) es)
      × (IsDeleted id w.instances w'.instances → IsReason limit id (failures_of w id) es)

  strike-Explains :
      (other : String) (es : List Event) (w : World A)
      → count_where (is_strike id) es ≡ (if str_eq other id then 1 else 0)
      → Explains w es (strike limit other w)
  unfolding strike delete_instance failures_of
  strike-Explains other es w n = (
    ground (
      arith,
      lookup-insert other id (get_or (lookup other w.consecutive_failures) 0 + 1)
          w.consecutive_failures,
      eq_iff other id,
    ),
    λ h. elim (Bool-cases (str_eq other id)) [
      | inr differ ↦ absurd (ground (arith, contains-delete id other w.instances))
      | inl same ↦
          elim (Bool-cases (leb limit (get_or (lookup other w.consecutive_failures) 0 + 1))) [
            | inl over ↦ inr (ground (arith, eq_iff other id))
            | inr under ↦ absurd (ground arith)
          ]
    ],
  )

  -- An attempt that leaves the failures alone.
  quiet-Explains :
      (es : List Event) (w w' : World A)
      → w'.consecutive_failures ≡ w.consecutive_failures
      → w'.instances ≡ w.instances
      → Explains w es w'
  unfolding failures_of
  quiet-Explains es w w' f i = (rw f (omega arith), λ h. absurd (cc))

  succeed-Explains :
      (settle : A → A) (other : String) (es : List Event) (w : World A)
      → Explains w es (succeed settle other w)
  unfolding succeed failures_of
  succeed-Explains settle other es w =
      (ground (arith, lookup-remove other id w.consecutive_failures), λ h. absurd (cc))

  delete-Explains :
      (other : String) (es : List Event) (w : World A)
      → count_where (is_exchange id) es ≡ (if str_eq other id then 1 else 0)
      → Explains w es (delete_instance other w)
  unfolding delete_instance failures_of
  delete-Explains other es w n = (
    omega arith,
    λ h. elim (Bool-cases (str_eq other id)) [
      | inr differ ↦ absurd (ground (arith, contains-delete id other w.instances))
      | inl same ↦ inl (ground arith)
    ],
  )

  abbrev Explained : World A → Outcome A → Type 0
  Explained w (stop es w') = Explains w es w'
  Explained w (retry es other still w') = Explains w es w'

  answer-Explained :
      (call : Call) (settle : A → A) (overloaded : Bool) (other : String) (es : List Event)
      (ending : Ending) (w : World A)
      → call.failure_limit ≡ limit
      → count_where (is_exchange id) es ≡ 0
      → count_where (is_strike id) es ≡ 0
      → Explained w (answer call settle overloaded other es ending w)
  unfolding answer count_where
  answer-Explained call settle overloaded other es completed w l x k =
      succeed-Explains settle other _ w
  answer-Explained call settle overloaded other es bad_request w l x k =
      quiet-Explains _ w w refl refl
  answer-Explained call settle overloaded other es rate_limited w l x k =
      quiet-Explains _ w _ refl refl
  answer-Explained call settle overloaded other es key_exchange w l x k =
      delete-Explains other (es ++ failed_on other key_exchange ∷ []) w
        (ground (arith, count_where-append (is_exchange id) es (failed_on other key_exchange ∷ [])))
  answer-Explained call settle overloaded other es empty_stream w l x k = rw l (
      strike-Explains other (es ++ failed_on other empty_stream ∷ []) w
        (ground (arith, count_where-append (is_strike id) es (failed_on other empty_stream ∷ []))))
  answer-Explained call settle overloaded other es broken w l x k = rw l (
      strike-Explains other (es ++ failed_on other broken ∷ []) w
        (ground (arith, count_where-append (is_strike id) es (failed_on other broken ∷ []))))

  try_offer-Explained :
      (call : Call) (settle : A → A) (overloaded : Bool) (round : Round) (offer : Offer)
      (w : World A)
      → call.failure_limit ≡ limit
      → Explained w (try_offer call settle overloaded round offer w)
  unfolding try_offer count_where
  try_offer-Explained call settle overloaded round (refuse failure) w l =
      quiet-Explains (error (no_target overloaded failure) ∷ []) w w refl refl
  try_offer-Explained call settle overloaded round (serve other) w l =
      answer-Explained call settle overloaded other (attempting other ∷ map result round.chunks)
        round.ending w l
        (omega (arith, count_where-results (is_exchange id) round.chunks (λ c. refl)))
        (omega (arith, count_where-results (is_strike id) round.chunks (λ c. refl)))

  leave_with-Explained :
      (call : Call) (round : Round) (instance : Option String) (store : Store) (outcome : Outcome A)
      (w : World A)
      → Explained (record w { connections = store }) outcome
      → Explained w (leave_with call round instance outcome)
  unfolding leave_with failures_of
  leave_with-Explained call round instance store (stop es w') w h = h
  leave_with-Explained call round instance store (retry es other still w') w h = h

  attempt-Explained :
      (call : Call) (settle : A → A) (overloaded : Bool) (round : Round) (avoid : List String)
      (w : World A)
      → call.failure_limit ≡ limit
      → Explained w (attempt call settle overloaded round avoid w)
  unfolding attempt
  attempt-Explained call settle overloaded round avoid w l =
      let entered = enter_round call round avoid w.connections in
      let entered_w = record w { connections = entered.store } in
      leave_with-Explained call round entered.instance entered.store
        (try_offer call settle overloaded round entered.offer entered_w) w
        (try_offer-Explained call settle overloaded round entered.offer entered_w l)

  append-Explains :
      (es fs : List Event) (w w' w'' : World A)
      → Explains w es w'
      → Explains w' fs w''
      → Explains w (es ++ fs) w''
  append-Explains es fs w w' w'' h k = (
    omega (arith, h.0, k.0, count_where-append (is_strike id) es fs),
    λ d. elim (Bool-cases (contains w'.instances id)) [
      | inr gone ↦ elim (h.1 (d.0, gone)) [
        | inl x ↦ inl (omega (arith, count_where-append (is_exchange id) es fs))
        | inr x ↦ inr (omega (arith, count_where-append (is_strike id) es fs))
      ]
      | inl there ↦ elim (k.1 (there, d.1)) [
        | inl x ↦ inl (omega (arith, count_where-append (is_exchange id) es fs))
        | inr x ↦ inr (omega (arith, h.0, count_where-append (is_strike id) es fs))
      ]
    ],
  )

  abbrev ExplainsAll : World A → Ended A → Type 0
  ExplainsAll w ended = Explains w ended.events ended.world

  module _ (call : Call) (settle : A → A) (round : ℕ → Round) (l : call.failure_limit ≡ limit) where
    query-Explains :
        (left : ℕ) (avoid : List String) (overloaded : Bool) (w : World A)
        → ExplainsAll w (query left call settle round avoid overloaded w)
    unfolding query yield_first
    query-Explains zero avoid overloaded w =
        quiet-Explains (error (if overloaded then ErrorName.infra_overload else exhausted) ∷ []) w w
          refl refl
    query-Explains (suc left) avoid overloaded w =
        go (attempt call settle overloaded (round left) avoid w)
          (attempt-Explained call settle overloaded (round left) avoid w l) (query-Explains left)
      where
        go :
            (outcome : Outcome A)
            → Explained w outcome
            → ((avoid' : List String) (still : Bool) (w' : World A)
                → ExplainsAll w' (query left call settle round avoid' still w'))
            → ExplainsAll w (elim outcome [
              | stop events w' ↦ record { events = events; world = w' }
              | retry events other still w' ↦
                  yield_first events (query left call settle round (avoid ++ other ∷ []) still w')
            ])
        go (stop es w') h ih = h
        go (retry es other still w') h ih =
            let later = query left call settle round (avoid ++ other ∷ []) still w' in
            append-Explains es later.events w w' later.world h (ih (avoid ++ other ∷ []) still w')

-- An instance that is in the table before an invocation and not afterwards has answered it with a
-- demand for a new key, or its consecutive failures, those before and those of this invocation,
-- have reached the limit.
pub invoke-IsReason :
    {A : Type 0} (call : Call) (settle : A → A) (round : ℕ → Round) (w : World A) (id : String)
    → let ended = invoke call settle round w in
      IsDeleted id w.instances ended.world.instances
      → IsReason call.failure_limit id (failures_of w id) ended.events
unfolding invoke yield_first
invoke-IsReason call settle round w id d =
    let later = query 5 call settle round [] false w in
    (append-Explains call.failure_limit id (identified (length call.known) ∷ []) later.events w w
        later.world
        (quiet-Explains call.failure_limit id (identified (length call.known) ∷ []) w w refl refl)
        (query-Explains call.failure_limit id call settle round refl 5 [] false w)).1
      d
