-- ===== src/Usage/Cleared.antt =====
-- What a pass leaves in redis.
use chutes_api.Base.{
  ◌≡◌, true, ◌↔◌, refl, ◌∙◌, Bool, false, ◌||◌, List, [], ◌∷◌, Bool-cases, inl, inr, eq_iff, arith,
  if◌then◌else◌,
}
use chutes_api.Usage.{
  BalanceKey, Pending, no_values, same_key, hgetall, delete_key, delete_keys, Ledger,
  process_balance_changes,
}

abbrev pub has_key : BalanceKey → List BalanceKey → Bool
has_key key [] = false
has_key key (other ∷ keys) = same_key other key || has_key key keys

same_key_iff : (k l : BalanceKey) → (same_key k l ≡ true) ↔ (k ≡ l)
unfolding same_key
same_key_iff k l = (
  λ e. ground (arith, eq_iff k.user_id l.user_id, eq_iff k.chute_id l.chute_id),
  λ e. ground (arith, eq_iff k.user_id l.user_id, eq_iff k.chute_id l.chute_id),
)

hgetall-delete_key :
    (key other : BalanceKey) (redis : List (BalanceKey × Pending))
    → hgetall key (delete_key other redis)
      ≡ (if same_key other key then no_values else hgetall key redis)
unfolding hgetall delete_key
hgetall-delete_key key other [] = ground arith
hgetall-delete_key key other ((first, values) ∷ rest) = ground (
  arith,
  hgetall-delete_key key other rest,
  same_key_iff first key,
  same_key_iff first other,
  same_key_iff other key,
)

hgetall-delete_keys :
    (key : BalanceKey) (keys : List BalanceKey) (redis : List (BalanceKey × Pending))
    → hgetall key (delete_keys keys redis)
      ≡ (if has_key key keys then no_values else hgetall key redis)
unfolding delete_keys
hgetall-delete_keys key [] redis = refl
hgetall-delete_keys key (other ∷ keys) redis =
    hgetall-delete_keys key keys (delete_key other redis) ∙ elim (Bool-cases (same_key other key)) [
      | inl e ↦ rw (hgetall-delete_key key other redis, e) ground arith
      | inr e ↦ rw (hgetall-delete_key key other redis, e) refl
    ]

-- After a pass nothing is left under the keys that the scan returned, whatever was added to them since
-- they were read; every other key holds what it held.
pub process_balance_changes-clears :
    (keys : List BalanceKey) (later : List (BalanceKey × Pending)) (l : Ledger) (key : BalanceKey)
    → hgetall key (process_balance_changes keys later l).redis
      ≡ (if has_key key keys then no_values else hgetall key later)
unfolding process_balance_changes
process_balance_changes-clears keys later l key = hgetall-delete_keys key keys later
