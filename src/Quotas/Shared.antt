-- ===== src/Quotas/Shared.antt =====
-- Chutes that share a counter.
use chutes_api.Base.{
  ℕ, ◌≡◌, ◌≢◌, ◌⊎◌, inl, inr, refl, sym, ap, ◌∙◌, Option, none, String, Dict, lookup, get_or,
  str_eq, str_eq_self, Option-cases, Bool-cases,
}
use chutes_api.Quotas.{
  db_chute_id, default_for, stored_quota, invocation_quota, quota_type, counter_of, QuotaKey,
  quota_key,
}

-- What a user has where no row and no default names the chute.
abbrev general : (rows : String → Option ℕ) (defaults : Dict ℕ) → ℕ
general rows defaults = get_or (rows "*") (get_or (lookup "*" defaults) 200)

-- Either the chute has a counter of its own, or its quota is the general one.
own_or_general :
    (rows : String → Option ℕ) (defaults : Dict ℕ) (chute_id : String)
    → (counter_of (quota_type rows defaults chute_id) chute_id ≡ chute_id)
      ⊎ ((counter_of (quota_type rows defaults chute_id) chute_id ≡ "__default__")
          × (stored_quota rows defaults chute_id ≡ general rows defaults))
unfolding quota_type db_chute_id default_for
own_or_general rows defaults chute_id = elim (Option-cases (rows chute_id)) [
  | inr (q, e) ↦ inl (rw (e, str_eq_self chute_id) refl)
  | inl e ↦ elim (Option-cases (rows "*")) [
    | inr (q, e') ↦ elim (Bool-cases (str_eq "*" chute_id)) [
      | inl t ↦ inl (rw (e, e', t) refl)
      | inr f ↦ inr (rw (e, e', f) refl, rw (e, e', e') refl)
    ]
    | inl e' ↦ elim (Option-cases (lookup chute_id defaults)) [
      | inr (d, l) ↦ inl (rw (e, e', l) refl)
      | inl l ↦ elim (Option-cases (lookup "*" defaults)) [
        | inr (d, w) ↦ inr (rw (e, e', l, w) refl, rw (e, e', l, w) refl)
        | inl w ↦ inr (rw (e, e', l, w) refl, rw (e, e', l, w) refl)
      ]
    ]
  ]
]

-- Where memcache has neither value: two chutes whose requests are counted under one key of a user are
-- the same chute, or have the same quota. (No chute is called `__default__`.)
quota_key-shared :
    (rows : String → Option ℕ) (defaults : Dict ℕ) (date user_id c d : String)
    → c ≢ "__default__"
    → d ≢ "__default__"
    → (quota_key none rows defaults date user_id c).0
      ≡ (quota_key none rows defaults date user_id d).0
    → (c ≡ d)
      ⊎ ((invocation_quota none rows defaults c).0 ≡ (invocation_quota none rows defaults d).0)
unfolding quota_key invocation_quota
quota_key-shared rows defaults date user_id c d hc hd e =
    let same = ap (λ (k : QuotaKey). k.counter) e in
    elim (own_or_general rows defaults c) [
      | inl own_c ↦ elim (own_or_general rows defaults d) [
        | inl own_d ↦ inl (sym own_c ∙ (same ∙ own_d))
        | inr (out_d, _) ↦ absurd (hc (sym own_c ∙ (same ∙ out_d)))
      ]
      | inr (out_c, general_c) ↦ elim (own_or_general rows defaults d) [
        | inl own_d ↦ absurd (hd (sym own_d ∙ (sym same ∙ out_c)))
        | inr (out_d, general_d) ↦ inr (general_c ∙ sym general_d)
      ]
    ]
