-- ===== src/Balancer/Connections/Laws.antt =====
-- What opening and closing a connection does to the set and to the counts.
use chutes_api.Base.{
  ℕ, zero, suc, ◌-◌, ◌≡◌, refl, Bool, false, ◌&&◌, ◌||◌, [], ◌∷◌, String, leb, str_eq, contains,
  eq_iff, str_eq_self, arith, if◌then◌else◌,
}
use chutes_api.Balancer.Connections.{
  Conns, conn_of, opened_at, zrem, insert_by_score, zcount, evict, add_connection,
  remove_connection, connection_count, cleanup, zremrangebyscore, has_connection,
}

zrem-absent : (k : String) (s : Conns) → has_connection (zrem k s) k ≡ false
unfolding zrem contains
zrem-absent k [] = refl
zrem-absent k (c ∷ s) = ground (arith, zrem-absent k s, eq_iff k (conn_of c), eq_iff (conn_of c) k)

zrem-other :
    (k j : String) (s : Conns)
    → str_eq k j ≡ false
    → has_connection (zrem k s) j ≡ has_connection s j
unfolding zrem contains
zrem-other k j [] ne = refl
zrem-other k j (c ∷ s) ne =
    ground (arith, zrem-other k j s ne, eq_iff k (conn_of c), eq_iff (conn_of c) j, eq_iff k j)

insert_by_score-has :
    (c : String × ℕ) (j : String) (s : Conns)
    → has_connection (insert_by_score c s) j ≡ (str_eq (conn_of c) j || has_connection s j)
unfolding insert_by_score contains
insert_by_score-has c j [] = refl
insert_by_score-has c j (d ∷ s) = ground (arith, insert_by_score-has c j s)

evict-absent :
    (n cutoff : ℕ) (k : String) (s : Conns)
    → has_connection s k ≡ false
    → has_connection (evict n cutoff s) k ≡ false
unfolding evict contains
evict-absent zero cutoff k s h = h
evict-absent (suc n) cutoff k [] h = refl
evict-absent (suc n) cutoff k (c ∷ s) h = ground (arith, evict-absent n cutoff k s)

-- The counted window, as a test on one connection.
abbrev is_counted : (lo hi : ℕ) → String × ℕ → Bool
is_counted lo hi c = leb lo (opened_at c) && leb (opened_at c) hi

zcount-insert :
    (lo hi : ℕ) (c : String × ℕ) (s : Conns)
    → zcount lo hi (insert_by_score c s)
      ≡ (if is_counted lo hi c then suc (zcount lo hi s) else zcount lo hi s)
unfolding zcount insert_by_score
zcount-insert lo hi c [] = ground arith
zcount-insert lo hi c (d ∷ s) = ground (arith, zcount-insert lo hi c s)

zrem-new : (k : String) (s : Conns) → has_connection s k ≡ false → zrem k s ≡ s
unfolding zrem contains
zrem-new k [] h = refl
zrem-new k (c ∷ s) h = ground (arith, zrem-new k s, eq_iff k (conn_of c), eq_iff (conn_of c) k)

-- A new connection is counted at once.
pub connection_count-add :
    (now expiry : ℕ) (k : String) (s : Conns)
    → has_connection s k ≡ false
    → connection_count now expiry (add_connection now expiry k s)
      ≡ suc (connection_count now expiry s)
unfolding connection_count add_connection
connection_count-add now expiry k s new =
    rw (zrem-new k s new, zcount-insert (now - expiry) now (k, now) s) (ground arith)

evict-count :
    (n cutoff hi : ℕ) (s : Conns)
    → zcount (suc cutoff) hi (evict n cutoff s) ≡ zcount (suc cutoff) hi s
unfolding evict zcount
evict-count zero cutoff hi s = refl
evict-count (suc n) cutoff hi [] = refl
evict-count (suc n) cutoff hi (c ∷ s) = ground (arith, evict-count n cutoff hi s)

cleanup-count :
    (cutoff hi : ℕ) (s : Conns)
    → zcount (suc cutoff) hi (zremrangebyscore cutoff s) ≡ zcount (suc cutoff) hi s
unfolding zremrangebyscore zcount
cleanup-count cutoff hi [] = refl
cleanup-count cutoff hi (c ∷ s) = ground (arith, cleanup-count cutoff hi s)

zrem-insert :
    (k : String) (now : ℕ) (s : Conns)
    → has_connection s k ≡ false
    → zrem k (insert_by_score (k, now) s) ≡ s
unfolding zrem insert_by_score contains
zrem-insert k now [] h = ground (arith, str_eq_self k)
zrem-insert k now (c ∷ s) h = ground (
  arith,
  zrem-insert k now s,
  zrem-new k s,
  str_eq_self k,
  eq_iff k (conn_of c),
  eq_iff (conn_of c) k,
)

-- A connection that is opened and closed again leaves the number of unexpired connections as it was,
-- although closing it evicts expired ones; neither does the periodic clean-up change that number.
-- (A connection of exactly the expiry's age is counted by `connection_count` and may be evicted, so
-- the number counts the younger ones.)
pub connection_round_trip :
    (opened closed expiry hi : ℕ) (k : String) (s : Conns)
    → has_connection s k ≡ false
    → let count = zcount (suc (closed - expiry)) hi in
      (count (remove_connection closed expiry k (add_connection opened expiry k s)) ≡ count s)
      × (count (cleanup closed expiry s) ≡ count s)
unfolding remove_connection add_connection cleanup
connection_round_trip opened closed expiry hi k s new = (
  rw (zrem-new k s new, zrem-insert k opened s new) (evict-count 10 (closed - expiry) hi s),
  cleanup-count (closed - expiry) hi s,
)

-- Closing a connection that was never recorded changes that number as little.
pub remove_connection-count :
    (closed expiry hi : ℕ) (k : String) (s : Conns)
    → has_connection s k ≡ false
    → zcount (suc (closed - expiry)) hi (remove_connection closed expiry k s)
      ≡ zcount (suc (closed - expiry)) hi s
unfolding remove_connection
remove_connection-count closed expiry hi k s new =
    rw (zrem-new k s new) (evict-count 10 (closed - expiry) hi s)
