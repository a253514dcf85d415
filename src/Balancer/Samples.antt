-- ===== src/Balancer/Samples.antt =====
-- Open connections, and requests that are served.
use chutes_api.Base.{[], ◌∷◌, lookup, contains}
use chutes_api.Balancer.Connections.{Conns}
use chutes_api.Balancer.Session.{Store}

abbrev opened : Conns
opened = ("x", 10) ∷ ("y", 50) ∷ []

conns : Unit {0}
unfolding contains lookup
conns = tt

abbrev store : Store
store = ("a", opened) ∷ []
