-- ===== src/Balancer/Session.antt =====
-- `get_target`: the context manager that offers one instance and tracks its connection.
-- The answers of redis within their time limits are arguments: `Attempt` for the choice of the
-- targets, `added` and `removed` for the two scripts.
pub mod Tracking
pub mod Avoided
use chutes_api.Base.{
  ℕ, Bool, true, false, not, List, [], ◌∷◌, Option, none, some, String, Dict, lookup, insert,
  get_or, contains, keep, choose, if◌then◌else◌,
}
use chutes_api.Balancer.Connections.{Conns, add_connection, remove_connection}
use chutes_api.Balancer.Targets.{Target, Choice, targets, infra_overload, available}

pub data Failure : Type 0 where
  no_infrastructure overload error_code : Failure

-- What the body of the `async with` receives.
pub data Offer : Type 0 where
  serve : (instance_id : String) → Offer
  refuse : Failure → Offer

pub data Attempt : Type 0 where
  chose : Choice → Attempt
  timed_out failed : Attempt

abbrev pub Store : Type 0
Store = Dict Conns

abbrev pub conns_of : Store → String → Conns
conns_of s instance_id = get_or (lookup instance_id s) []

-- The offer, the local variable `instance` that `finally` tests, and the store.
pub record Entered : Type 0 where
  pub offer : Offer
  pub instance : Option String
  pub store : Store

unfoldable pub track :
    (now expiry : ℕ) (conn_id instance_id : String) (added : Bool) → Store → Store
track now expiry conn_id instance_id added s =
    if added
    then insert instance_id (add_connection now expiry conn_id (conns_of s instance_id)) s
    else s

-- On a timeout any instance that is not to be avoided is offered, untracked.
fall_back : (pick : ℕ) → List Target → Offer
fall_back pick [] = refuse no_infrastructure
fall_back pick (t ∷ ts) = serve (choose t ts pick).instance_id

unfoldable pub enter :
    (now expiry : ℕ) (conn_id : String) (added : Bool) (pick : ℕ) (avoid : List String)
    → List Target
    → Attempt
    → Store
    → Entered
unfolding fall_back track
enter now expiry conn_id added pick avoid instances (chose (targets [])) s = record {
  offer = refuse no_infrastructure;
  instance = none;
  store = s;
}
enter now expiry conn_id added pick avoid instances (chose (targets (t ∷ ts))) s = record {
  offer = serve t.instance_id;
  instance = some t.instance_id;
  store = track now expiry conn_id t.instance_id added s;
}
enter now expiry conn_id added pick avoid instances (chose infra_overload) s = record {
  offer = refuse overload;
  instance = none;
  store = s;
}
enter now expiry conn_id added pick avoid instances timed_out s = record {
  offer = fall_back pick (available avoid instances);
  instance = none;
  store = s;
}
enter now expiry conn_id added pick avoid instances failed s = record {
  offer = refuse error_code;
  instance = none;
  store = s;
}

-- `finally`
pub leave : (now expiry : ℕ) (conn_id : String) (removed : Bool) → Option String → Store → Store
leave now expiry conn_id removed none s = s
leave now expiry conn_id removed (some instance_id) s =
    if removed
    then insert instance_id (remove_connection now expiry conn_id (conns_of s instance_id)) s
    else s
