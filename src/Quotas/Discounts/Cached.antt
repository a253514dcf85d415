-- ===== src/Quotas/Discounts/Cached.antt =====
-- What the two readers of one key answer.
use chutes_api.Base.{ℕ, ◌≡◌, refl, ap, List, [], ◌∷◌, Option, none, some, String, Dict}
use chutes_api.Quotas.Discounts.{
  Override, Entry, discount_text, override_json, stored_discount, discount_of, stored_override,
  keep_json, override_of,
}

-- What is asked.
pub data Question : Type 0 where
  discount override : Question

pub data Answer : Type 0 where
  is_discount : ℕ → Answer
  is_override : Option Override → Answer

-- The rows stay as they are while a user asks about one chute.
module _ (discounts : String → Option ℕ) (defaults : Dict ℕ) (overrides : String → Option Override)
    (user_id chute_id : String) where
  abbrev pub reply : Question → Option Entry → Answer × Option Entry
  reply discount cached =
      let (d, left) = discount_of cached discounts defaults chute_id in (is_discount d, left)
  reply override cached =
      let (o, left) = override_of cached overrides user_id in (is_override o, left)

  abbrev pub reply_all : List Question → Option Entry → List Answer
  reply_all [] cached = []
  reply_all (q ∷ qs) cached = (reply q cached).0 ∷ reply_all qs (reply q cached).1

  abbrev pub stored : Question → Answer
  stored discount = is_discount (stored_discount discounts defaults chute_id)
  stored override = is_override (stored_override overrides user_id)

  abbrev pub stored_all : List Question → List Answer
  stored_all [] = []
  stored_all (q ∷ qs) = stored q ∷ stored_all qs

  abbrev pub IsStored : Option Entry → Type 0
  IsStored none = Unit
  IsStored (some (discount_text d)) = d ≡ stored_discount discounts defaults chute_id
  IsStored (some (override_json o)) = some o ≡ stored_override overrides user_id

  keep_json-IsStored :
      (o : Option Override) → o ≡ stored_override overrides user_id → IsStored (keep_json o)
  keep_json-IsStored none e = tt
  keep_json-IsStored (some o) e = e

  reply-IsStored :
      (q : Question) (cached : Option Entry)
      → IsStored cached
      → ((reply q cached).0 ≡ stored q) × IsStored (reply q cached).1
  unfolding discount_of override_of
  reply-IsStored discount none h = (refl, refl)
  reply-IsStored discount (some (discount_text d)) h = (ap is_discount h, h)
  reply-IsStored discount (some (override_json o)) h = (refl, refl)
  reply-IsStored override none h =
      (refl, keep_json-IsStored (stored_override overrides user_id) refl)
  reply-IsStored override (some (discount_text d)) h =
      (refl, keep_json-IsStored (stored_override overrides user_id) refl)
  reply-IsStored override (some (override_json o)) h = (ap is_override h, h)

  -- Although both readers use one key, every answer is the database's, whichever is asked and in whatever
  -- order; as long as the rows stay as they are, and with a memcache that is empty or holds one of them.
  pub reply_all-stored_all :
      (qs : List Question) (cached : Option Entry)
      → IsStored cached
      → reply_all qs cached ≡ stored_all qs
  reply_all-stored_all [] cached h = refl
  reply_all-stored_all (q ∷ qs) cached h =
      let (right, kept) = reply-IsStored q cached h in
      rw (right, reply_all-stored_all qs (reply q cached).1 kept) refl
