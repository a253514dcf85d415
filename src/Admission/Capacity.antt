-- ===== src/Admission/Capacity.antt =====
-- How many instances admission can lead to.
use chutes_api.Base.{ℕ, ◌+◌, ◌-◌, ◌<◌, ◌≡◌, none, some, String}
use chutes_api.Admission.{allowed, Counts, check_scalable}

-- A chute under admission: instances come by admission or are activated, and go at any time.
pub record Pool : Type 0 where
  pub pending : ℕ
  pub active : ℕ

abbrev counts_of : Pool → (hotkey_count : ℕ) → Counts
counts_of p n = record {
  total_count = p.pending + p.active;
  active_count = p.active;
  hotkey_count = n;
}

pub data Step (target : ℕ) : Pool → Pool → Type 0 where
  admit :
      (p : Pool) (hotkey : String) (hotkey_count : ℕ)
      → check_scalable (counts_of p hotkey_count) (some target) none none hotkey ≡ allowed
      → Step target p (record p { pending = p.pending + 1 })
  activate :
      (p : Pool)
      → 0 < p.pending
      → Step target p (record p { pending = p.pending - 1; active = p.active + 1 })
  drop_pending : (p : Pool) → Step target p (record p { pending = p.pending - 1 })
  drop_active : (p : Pool) → Step target p (record p { active = p.active - 1 })

pub data Reach (target : ℕ) (start : Pool) : Pool → Type 0 where
  here : Reach target start start
  next : {p q : Pool} → Reach target start p → Step target p q → Reach target start q
