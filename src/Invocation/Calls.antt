-- ===== src/Invocation/Calls.antt =====
-- `invoke` of api/chute/util.py: an invocation is tried on up to five instances, each offered by the
-- balancer, and every event is yielded to the caller as it happens.
--
-- A `Round` is what the outside does during one attempt: what the balancer reads, and how the instance
-- answers. Failures of the database and of redis outside the balancer are not modelled.
pub mod Counting
pub mod Attempts
pub mod Course
pub mod Avoided
pub mod Removals
pub mod Samples
use chutes_api.Base.{
  ℕ, zero, suc, ◌+◌, Bool, true, false, not, ◌&&◌, ◌||◌, List, [], ◌∷◌, ◌++◌, Option, none, some,
  String, Dict, lookup, insert, remove, get_or, keep, length, str_eq, leb, if◌then◌else◌, map,
}
use chutes_api.Balancer.Targets.{Target, get_targets}
use chutes_api.Balancer.Session.{
  Attempt, chose, timed_out, failed, Failure, no_infrastructure, overload, error_code, Offer, serve,
  refuse, enter, leave,
}
use chutes_api.Balancer.Session
use chutes_api.Invocation.Prefixes.{Hashes}

-- How `_invoke_one` ends: normally, or with the exception of this name. `broken` is any other.
pub data Ending : Type 0 where
  completed rate_limited bad_request key_exchange empty_stream broken : Ending

-- `get_targets` within its time limit, or a timeout or another exception.
pub data Reading : Type 0 where
  counted : (draw : Bool) → List Target → Reading
  slow faulty : Reading

pub record Round : Type 0 where
  pub reading : Reading
  pub opened : ℕ
  pub closed : ℕ
  pub conn_id : String
  pub added : Bool
  pub removed : Bool
  pub pick : ℕ
  pub chunks : List String
  pub ending : Ending

-- What `invoke` is called with, and its settings. `known` are the instances of the manager.
pub record Call : Type 0 where
  pub shuffle : List Target → List Target
  pub cached : String → String → Bool
  pub prefixes : Hashes
  pub concurrency : ℕ
  pub expiry : ℕ
  pub known : List Target
  pub failure_limit : ℕ

-- The `error` of the last event.
pub data ErrorName : Type 0 where
  infra_overload bad_request exhausted no_backend backend_error : ErrorName

pub data Event : Type 0 where
  identified : ℕ → Event
  attempting : (instance_id : String) → Event
  result : String → Event
  succeeded : (instance_id : String) → Event
  failed_on : (instance_id : String) → Ending → Event
  error : ErrorName → Event

-- `A` is what a success settles, the accounts: see Charges.
pub record World (A : Type 0) : Type 0 where
  pub instances : List String
  pub consecutive_failures : Dict ℕ
  pub connections : Session.Store
  pub completed : ℕ
  pub rate_limited : ℕ
  pub accounts : A

pub record Ended (A : Type 0) : Type 0 where
  pub events : List Event
  pub world : World A

abbrev pub hashes_of : Hashes → List String
hashes_of hashes = map (λ e. e.1) hashes

pub read_targets : Call → (avoid : List String) → Reading → Attempt
read_targets call avoid (counted draw counts) = chose (
    get_targets call.shuffle call.cached (hashes_of call.prefixes) draw call.concurrency avoid
      counts)
read_targets call avoid slow = timed_out
read_targets call avoid faulty = failed

-- `async with manager.get_target(avoid=avoid, prefixes=prefixes)`
pub enter_round : Call → Round → (avoid : List String) → Session.Store → Session.Entered
unfolding read_targets
enter_round call round avoid store =
    enter round.opened call.expiry round.conn_id round.added round.pick avoid call.known
      (read_targets call avoid round.reading) store

pub leave_round : Call → Round → Option String → Session.Store → Session.Store
leave_round call round instance store =
    leave round.closed call.expiry round.conn_id round.removed instance store

-- What one attempt does: it returns from the generator, or the loop goes on.
pub data Outcome (A : Type 0) : Type 0 where
  stop : List Event → World A → Outcome A
  retry : List Event → (instance_id : String) → (overloaded : Bool) → World A → Outcome A

pub no_target : (overloaded : Bool) → Failure → ErrorName
no_target overloaded overload = ErrorName.infra_overload
no_target overloaded no_infrastructure = if overloaded then ErrorName.infra_overload else no_backend
no_target overloaded error_code = if overloaded then ErrorName.infra_overload else backend_error

module _ {A : Type 0} where
  -- DELETE FROM instances
  pub delete_instance : String → World A → World A
  delete_instance instance_id w = record w {
    instances = keep (λ i. not (str_eq instance_id i)) w.instances;
  }

  pub failures_of : World A → String → ℕ
  failures_of w instance_id = get_or (lookup instance_id w.consecutive_failures) 0

  -- One more consecutive failure; at the limit the instance is deleted.
  pub strike : (limit : ℕ) (instance_id : String) → World A → World A
  unfolding delete_instance failures_of
  strike limit instance_id w =
      let count = failures_of w instance_id + 1 in
      let counted = record w {
        consecutive_failures = insert instance_id count w.consecutive_failures;
      } in
      if leb limit count then delete_instance instance_id counted else counted

  pub succeed : (settle : A → A) (instance_id : String) → World A → World A
  succeed settle instance_id w = record w {
    consecutive_failures = remove instance_id w.consecutive_failures;
    completed = w.completed + 1;
    accounts = settle w.accounts;
  }

  module _ (call : Call) (settle : A → A) (overloaded : Bool) where
    -- With a target: what `_invoke_one` yielded, and how it ended.
    pub answer : (instance_id : String) (chunks : List Event) → Ending → World A → Outcome A
    answer instance_id chunks completed w =
        stop (chunks ++ succeeded instance_id ∷ []) (succeed settle instance_id w)
    answer instance_id chunks rate_limited w =
        retry (chunks ++ failed_on instance_id rate_limited ∷ []) instance_id true
          (record w { rate_limited = w.rate_limited + 1 })
    answer instance_id chunks bad_request w = stop (chunks ++ error ErrorName.bad_request ∷ []) w
    answer instance_id chunks key_exchange w =
        retry (chunks ++ failed_on instance_id key_exchange ∷ []) instance_id overloaded
          (delete_instance instance_id w)
    answer instance_id chunks empty_stream w =
        retry (chunks ++ failed_on instance_id empty_stream ∷ []) instance_id overloaded
          (strike call.failure_limit instance_id w)
    answer instance_id chunks broken w =
        retry (chunks ++ failed_on instance_id broken ∷ []) instance_id overloaded
          (strike call.failure_limit instance_id w)

    pub try_offer : Round → Offer → World A → Outcome A
    unfolding answer no_target
    try_offer round (refuse failure) w = stop (error (no_target overloaded failure) ∷ []) w
    try_offer round (serve instance_id) w =
        answer instance_id (attempting instance_id ∷ map result round.chunks) round.ending w

  pub leave_with : Call → Round → Option String → Outcome A → Outcome A
  leave_with call round instance (stop events w) =
      stop events (record w { connections = leave_round call round instance w.connections })
  leave_with call round instance (retry events instance_id overloaded w) =
      retry events instance_id overloaded
        (record w { connections = leave_round call round instance w.connections })

  pub attempt :
      Call
      → (settle : A → A) (overloaded : Bool) → Round
      → (avoid : List String) → World A
      → Outcome A
  unfolding enter_round try_offer leave_with
  attempt call settle overloaded round avoid w =
      let entered = enter_round call round avoid w.connections in
      leave_with call round entered.instance (
        try_offer call settle overloaded round entered.offer
          (record w { connections = entered.store }))

  pub yield_first : List Event → Ended A → Ended A
  yield_first events ended = record ended { events = events ++ ended.events }

  -- `for attempt_idx in range(5)`, and what follows the loop; `round` numbers the attempts that are left.
  pub query :
      (left : ℕ)
      → Call
      → (settle : A → A) → (round : ℕ → Round) → (avoid : List String) (overloaded : Bool) → World A
      → Ended A
  unfolding attempt yield_first
  query zero call settle round avoid overloaded w = record {
    events = error (if overloaded then ErrorName.infra_overload else exhausted) ∷ [];
    world = w;
  }
  query (suc left) call settle round avoid overloaded w =
      elim (attempt call settle overloaded (round left) avoid w) [
        | stop events w' ↦ record { events = events; world = w' }
        | retry events instance_id still w' ↦
            yield_first events (query left call settle round (avoid ++ instance_id ∷ []) still w')
      ]

  unfoldable pub invoke : Call → (settle : A → A) → (round : ℕ → Round) → World A → Ended A
  unfolding query
  invoke call settle round w =
      yield_first (identified (length call.known) ∷ []) (query 5 call settle round [] false w)
