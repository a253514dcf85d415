-- ===== src/Invocation/Calls/Avoided.antt =====
-- No instance is asked twice for one invocation.
use mathlib.Core.List.{Permᴰ}
use chutes_api.Base.{
  ℕ, zero, suc, ◌≡◌, refl, ap, Bool, false, ◌||◌, List, [], ◌∷◌, ◌++◌, Option, String, contains,
  All, map, keys, IsDistinct, eq_iff, arith,
}
use chutes_api.Balancer.Targets.{Target}
use chutes_api.Balancer.Session.{Store, Offer, serve, refuse}
use chutes_api.Balancer.Session.Avoided.{counted-IsFree, timed_out-IsFree, failed-IsFree}
use chutes_api.Invocation.Calls.{
  ErrorName, Ending, completed, rate_limited, bad_request, key_exchange, empty_stream, broken,
  Round, Call, Reading, counted, slow, faulty, Event, identified, attempting, result, succeeded,
  failed_on, error, World, Ended, Outcome, stop, retry, answer, try_offer, leave_with, attempt,
  query, invoke, yield_first, enter_round, read_targets, hashes_of,
}

-- The instances that were asked, in their order.
unfoldable pub tried : List Event → List String
tried [] = []
tried (attempting id ∷ es) = id ∷ tried es
tried (e ∷ es) = tried es

abbrev pub the_id : String → String
the_id id = id

tried-append : (es fs : List Event) → tried (es ++ fs) ≡ tried es ++ tried fs
unfolding tried
tried-append [] fs = refl
tried-append (attempting id ∷ es) fs = ap (λ ids. id ∷ ids) (tried-append es fs)
tried-append (identified n ∷ es) fs = tried-append es fs
tried-append (result c ∷ es) fs = tried-append es fs
tried-append (succeeded id ∷ es) fs = tried-append es fs
tried-append (failed_on id e ∷ es) fs = tried-append es fs
tried-append (error e ∷ es) fs = tried-append es fs

tried-results : (chunks : List String) → tried (map result chunks) ≡ []
unfolding tried
tried-results [] = refl
tried-results (c ∷ cs) = tried-results cs

contains-append :
    (xs ys : List String) (s : String) → contains (xs ++ ys) s ≡ (contains xs s || contains ys s)
unfolding contains
contains-append [] ys s = refl
contains-append (x ∷ xs) ys s = ground (arith, contains-append xs ys s)

abbrev Avoids : (avoid : List String) → List String → Type 0
Avoids avoid = All (λ id. contains avoid id ≡ false)

-- What avoids the longer list avoids the shorter one, and does not have the last instance.
Avoids-shorter :
    (avoid : List String) (id : String) (ids : List String)
    → Avoids (avoid ++ id ∷ []) ids
    → Avoids avoid ids
unfolding contains
Avoids-shorter avoid id [] h = tt
Avoids-shorter avoid id (x ∷ xs) h =
    (ground (arith, contains-append avoid (id ∷ []) x), Avoids-shorter avoid id xs h.1)

Avoids-absent :
    (avoid : List String) (id : String) (ids : List String)
    → Avoids (avoid ++ id ∷ []) ids
    → contains (keys the_id ids) id ≡ false
unfolding contains
Avoids-absent avoid id [] h = refl
Avoids-absent avoid id (x ∷ xs) h = ground (
  arith,
  contains-append avoid (id ∷ []) x,
  eq_iff x id,
  eq_iff id x,
  Avoids-absent avoid id xs h.1,
)

module _ {A : Type 0} (avoid : List String) where
  -- An attempt asks one new instance, or none.
  abbrev Asks : Outcome A → Type 0
  Asks (stop es w) = IsDistinct the_id (tried es) × Avoids avoid (tried es)
  Asks (retry es id still w) = (tried es ≡ id ∷ []) × (contains avoid id ≡ false)

  answer-Asks :
      (call : Call) (settle : A → A) (overloaded : Bool) (id : String) (es : List Event)
      (ending : Ending) (w : World A)
      → tried es ≡ id ∷ []
      → contains avoid id ≡ false
      → Asks (answer call settle overloaded id es ending w)
  unfolding answer tried contains
  answer-Asks call settle overloaded id es completed w h free =
      rw (tried-append es (succeeded id ∷ []), h) ((refl, tt), (free, tt))
  answer-Asks call settle overloaded id es bad_request w h free =
      rw (tried-append es (error ErrorName.bad_request ∷ []), h) ((refl, tt), (free, tt))
  answer-Asks call settle overloaded id es rate_limited w h free =
      (rw (tried-append es (failed_on id rate_limited ∷ []), h) refl, free)
  answer-Asks call settle overloaded id es key_exchange w h free =
      (rw (tried-append es (failed_on id key_exchange ∷ []), h) refl, free)
  answer-Asks call settle overloaded id es empty_stream w h free =
      (rw (tried-append es (failed_on id empty_stream ∷ []), h) refl, free)
  answer-Asks call settle overloaded id es broken w h free =
      (rw (tried-append es (failed_on id broken ∷ []), h) refl, free)

  try_offer-Asks :
      (call : Call) (settle : A → A) (overloaded : Bool) (round : Round) (offer : Offer)
      (w : World A)
      → ((id : String) → offer ≡ serve id → contains avoid id ≡ false)
      → Asks (try_offer call settle overloaded round offer w)
  unfolding try_offer tried
  try_offer-Asks call settle overloaded round (refuse failure) w free = (tt, tt)
  try_offer-Asks call settle overloaded round (serve id) w free =
      answer-Asks call settle overloaded id (attempting id ∷ map result round.chunks) round.ending w
        (ap (λ ids. id ∷ ids) (tried-results round.chunks)) (free id refl)

  leave_with-Asks :
      (call : Call) (round : Round) (instance : Option String) (outcome : Outcome A)
      → Asks outcome
      → Asks (leave_with call round instance outcome)
  unfolding leave_with
  leave_with-Asks call round instance (stop es w) h = h
  leave_with-Asks call round instance (retry es id still w) h = h

module _ (call : Call) (shuffle-perm : (ts : List Target) → Permᴰ (call.shuffle ts) ts) where
  offer-avoids :
      (r : Round) (reading : Reading) (avoid : List String) (store : Store) (id : String)
      → (enter_round call (record r { reading = reading }) avoid store).offer ≡ serve id
      → contains avoid id ≡ false
  unfolding enter_round read_targets
  offer-avoids r (counted draw counts) avoid store id =
      counted-IsFree r.opened call.expiry r.conn_id r.added r.pick avoid call.known store id
        call.shuffle shuffle-perm call.cached (hashes_of call.prefixes) draw call.concurrency counts
  offer-avoids r slow avoid store id =
      timed_out-IsFree r.opened call.expiry r.conn_id r.added r.pick avoid call.known store id
  offer-avoids r faulty avoid store id =
      failed-IsFree r.opened call.expiry r.conn_id r.added r.pick avoid call.known store id

  module _ {A : Type 0} (settle : A → A) (round : ℕ → Round) where
    attempt-Asks :
        (overloaded : Bool) (r : Round) (avoid : List String) (w : World A)
        → Asks avoid (attempt call settle overloaded r avoid w)
    unfolding attempt
    attempt-Asks overloaded r avoid w =
        let entered = enter_round call r avoid w.connections in
        leave_with-Asks avoid call r entered.instance _ (
          try_offer-Asks avoid call settle overloaded r entered.offer _
            (offer-avoids r r.reading avoid w.connections))

    abbrev AsksOnce : (avoid : List String) → Ended A → Type 0
    AsksOnce avoid ended =
        IsDistinct the_id (tried ended.events) × Avoids avoid (tried ended.events)

    later-AsksOnce :
        (avoid : List String) (id : String) (es : List Event) (later : Ended A)
        → tried es ≡ id ∷ []
        → contains avoid id ≡ false
        → AsksOnce (avoid ++ id ∷ []) later
        → AsksOnce avoid (yield_first es later)
    unfolding yield_first
    later-AsksOnce avoid id es later one free h =
        rw (tried-append es later.events, one)
          (
            (Avoids-absent avoid id (tried later.events) h.1, h.0),
            (free, Avoids-shorter avoid id (tried later.events) h.1),
          )

    query-AsksOnce :
        (left : ℕ) (avoid : List String) (overloaded : Bool) (w : World A)
        → AsksOnce avoid (query left call settle round avoid overloaded w)
    unfolding query yield_first tried
    query-AsksOnce zero avoid overloaded w = (tt, tt)
    query-AsksOnce (suc left) avoid overloaded w =
        go (attempt call settle overloaded (round left) avoid w)
          (attempt-Asks overloaded (round left) avoid w) (query-AsksOnce left)
      where
        go :
            (outcome : Outcome A)
            → Asks avoid outcome
            → ((avoid' : List String) (still : Bool) (w' : World A)
                → AsksOnce avoid' (query left call settle round avoid' still w'))
            → AsksOnce avoid (elim outcome [
              | stop events w' ↦ record { events = events; world = w' }
              | retry events id still w' ↦
                  yield_first events (query left call settle round (avoid ++ id ∷ []) still w')
            ])
        go (stop es w') h ih = h
        go (retry es id still w') h ih =
            later-AsksOnce avoid id es (query left call settle round (avoid ++ id ∷ []) still w')
              h.0 h.1 (ih (avoid ++ id ∷ []) still w')

    -- Whatever the balancer reads, and also where it times out, an invocation asks no instance twice, if a
    -- shuffle only permutes.
    pub invoke-IsDistinct :
        (w : World A) → IsDistinct the_id (tried (invoke call settle round w).events)
    unfolding invoke yield_first tried
    invoke-IsDistinct w = (query-AsksOnce 5 [] false w).0
