-- ===== src/Admission/Permits.antt =====
-- The permits of a rolling update.
use chutes_api.Base.{
  ℕ, ◌+◌, ◌<◌, ◌≤◌, ◌≡◌, refl, false, Option, some, String, Dict, lookup, get_or, is_empty, ◌==◌,
  arith, Bool-cases, inl, inr, if◌then◌else◌,
}
use chutes_api.Admission.{
  allowed, locked, rolling_update, use_permit, Counts, target_count, check_rolling, check_scalable,
}

-- What the check for one more instance says at the limit of the target count, while some instance is
-- active.
module _ (counts : Counts) (scale_value capacity_row : Option ℕ) (permitted : Dict ℕ)
    (hotkey : String) where
  pub check_scalable-use_permit :
      0 < counts.active_count
      → target_count counts scale_value capacity_row ≤ counts.total_count + 2
      → check_scalable counts scale_value capacity_row (some permitted) hotkey
        ≡ use_permit permitted hotkey
  unfolding check_scalable check_rolling
  check_scalable-use_permit active full = ground arith

-- With permits on the list, a hotkey that has none is refused, and any other is admitted.
pub use_permit-held :
    (permitted : Dict ℕ) (hotkey : String) (n : ℕ)
    → get_or (lookup hotkey permitted) 0 ≡ n
    → is_empty permitted ≡ false
    → use_permit permitted hotkey ≡ (if n == 0 then locked rolling_update else allowed)
unfolding use_permit
use_permit-held permitted hotkey n e filled = elim (Bool-cases (n == 0)) [
  | inl z ↦ rw (e, z, filled) refl
  | inr z ↦ rw (e, z) refl
]
