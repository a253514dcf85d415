-- ===== src/Balancer/Session/Tracking.antt =====
-- No connection stays behind.
use chutes_api.Base.{
  ℕ, suc, ◌≡◌, true, false, List, ◌∷◌, String, insert, lookup-insert, str_eq, str_eq_self, arith,
  if◌then◌else◌,
}
use chutes_api.Balancer.Connections.{Conns, add_connection, has_connection}
use chutes_api.Balancer.Connections.Laws.{connection_count-add}
use chutes_api.Balancer.Connections.{connection_count}
use chutes_api.Balancer.Targets.{Target, targets}
use chutes_api.Balancer.Session.{chose, Store, conns_of, enter, track}

conns_of-insert :
    (k j : String) (c : Conns) (s : Store)
    → conns_of (insert k c s) j ≡ (if str_eq k j then c else conns_of s j)
conns_of-insert k j c s = ground (arith, lookup-insert k j c s)

-- While the body runs, a tracked offer counts as one connection more on its instance, and on no other.
enter-counts :
    (now expiry : ℕ) (conn_id : String) (pick : ℕ) (avoid : List String) (instances : List Target)
    (t : Target) (ts : List Target) (s : Store) (other : String)
    → has_connection (conns_of s t.instance_id) conn_id ≡ false
    → let after =
        (enter now expiry conn_id true pick avoid instances (chose (targets (t ∷ ts))) s).store in
      (connection_count now expiry (conns_of after t.instance_id)
        ≡ suc (connection_count now expiry (conns_of s t.instance_id)))
      × (conns_of after other ≡ conns_of (if str_eq t.instance_id other then after else s) other)
unfolding enter track
enter-counts now expiry conn_id pick avoid instances t ts s other new =
    let k = t.instance_id in
    let c = add_connection now expiry conn_id (conns_of s k) in
    (
      rw (conns_of-insert k k c s, str_eq_self k)
          (connection_count-add now expiry conn_id (conns_of s k) new),
      ground (arith, conns_of-insert k other c s),
    )
