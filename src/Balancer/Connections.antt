-- ===== src/Balancer/Connections.antt =====
-- The sorted set `conn:{chute_id}:{instance_id}` of one instance: connection identifiers with the
-- second at which each was opened, in order of that time, as redis keeps it. The expiry of the
-- whole key is left out: by then all of its members are expired.
pub mod Laws
use chutes_api.Base.{
  ℕ, zero, suc, ◌-◌, ◌&&◌, Bool, not, List, [], ◌∷◌, String, Dict, length, keep, leb, ltb, str_eq,
  contains, keys, if◌then◌else◌,
}

abbrev pub Conns : Type 0
Conns = List (String × ℕ)

abbrev pub conn_of : String × ℕ → String
conn_of (conn_id, at) = conn_id

abbrev pub opened_at : String × ℕ → ℕ
opened_at (conn_id, at) = at

-- ZREM key conn_id
pub zrem : String → Conns → Conns
unfolding keep
zrem conn_id = keep (λ c. not (str_eq conn_id (conn_of c)))

pub insert_by_score : String × ℕ → Conns → Conns
insert_by_score c [] = c ∷ []
insert_by_score c (d ∷ ds) =
    if ltb (opened_at c) (opened_at d) then c ∷ d ∷ ds else d ∷ insert_by_score c ds

-- ZADD key now conn_id
zadd : (now : ℕ) → String → Conns → Conns
unfolding insert_by_score zrem
zadd now conn_id s = insert_by_score (conn_id, now) (zrem conn_id s)

-- ZCOUNT key lo hi
pub zcount : (lo hi : ℕ) → Conns → ℕ
unfolding keep
zcount lo hi s = length (keep (λ c. leb lo (opened_at c) && leb (opened_at c) hi) s)

-- ZREMRANGEBYSCORE key 0 cutoff
pub zremrangebyscore : (cutoff : ℕ) → Conns → Conns
unfolding keep
zremrangebyscore cutoff = keep (λ c. ltb cutoff (opened_at c))

-- ZRANGEBYSCORE key 0 cutoff LIMIT 0 n, and ZREM of what it finds.
pub evict : (n cutoff : ℕ) → Conns → Conns
evict zero cutoff s = s
evict (suc n) cutoff [] = []
evict (suc n) cutoff (c ∷ s) = if leb (opened_at c) cutoff then evict n cutoff s else c ∷ s

-- lua_add_connection, lua_remove_connection, and the count of get_connection_counts.
pub add_connection : (now expiry : ℕ) → String → Conns → Conns
unfolding zadd
add_connection now expiry conn_id s = zadd now conn_id s

pub remove_connection : (now expiry : ℕ) → String → Conns → Conns
unfolding zrem evict
remove_connection now expiry conn_id s = evict 10 (now - expiry) (zrem conn_id s)

pub connection_count : (now expiry : ℕ) → Conns → ℕ
unfolding zcount
connection_count now expiry s = zcount (now - expiry) now s

-- _cleanup_expired_connections
pub cleanup : (now expiry : ℕ) → Conns → Conns
unfolding zremrangebyscore
cleanup now expiry s = zremrangebyscore (now - expiry) s

abbrev pub has_connection : Conns → String → Bool
has_connection s conn_id = contains (keys conn_of s) conn_id
