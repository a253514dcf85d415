-- ===== src/Invocation/Calls/Counting.antt =====
-- The events of an invocation: which of them end it, and how many there are of each kind.
use chutes_api.Base.{
  ℕ, zero, suc, ◌+◌, ◌≡◌, refl, Bool, true, false, List, [], ◌∷◌, ◌++◌, All, String, arith, map,
  if◌then◌else◌,
}
use chutes_api.Invocation.Calls.{
  rate_limited, ErrorName, Event, attempting, result, succeeded, failed_on, error,
}

abbrev is_final : Event → Bool
is_final (succeeded instance_id) = true
is_final (error name) = true
is_final _ = false

abbrev pub is_attempt : Event → Bool
is_attempt (attempting instance_id) = true
is_attempt _ = false

abbrev pub is_success : Event → Bool
is_success (succeeded instance_id) = true
is_success _ = false

abbrev pub is_limit : Event → Bool
is_limit (failed_on instance_id rate_limited) = true
is_limit _ = false

-- An error that does not blame the load.
abbrev pub is_outage : Event → Bool
is_outage (error ErrorName.exhausted) = true
is_outage (error ErrorName.no_backend) = true
is_outage (error ErrorName.backend_error) = true
is_outage _ = false

unfoldable pub count_where : (Event → Bool) → List Event → ℕ
count_where test [] = 0
count_where test (e ∷ es) = (if test e then 1 else 0) + count_where test es

-- The last event is final, and no other is.
abbrev pub IsClosed : List Event → Type 0
IsClosed [] = ⊥
IsClosed (e ∷ []) = is_final e ≡ true
IsClosed (e ∷ f ∷ rest) = (is_final e ≡ false) × IsClosed (f ∷ rest)

abbrev pub IsOpen : List Event → Type 0
IsOpen = All (λ e. is_final e ≡ false)

pub IsClosed-append : (es fs : List Event) → IsOpen es → IsClosed fs → IsClosed (es ++ fs)
IsClosed-append [] fs h k = k
IsClosed-append (e ∷ []) [] h k = absurd k
IsClosed-append (e ∷ []) (f ∷ fs) h k = (h.0, k)
IsClosed-append (e ∷ e' ∷ es) fs h k = (h.0, IsClosed-append (e' ∷ es) fs h.1 k)

pub IsOpen-append : (es fs : List Event) → IsOpen es → IsOpen fs → IsOpen (es ++ fs)
IsOpen-append [] fs h k = k
IsOpen-append (e ∷ es) fs h k = (h.0, IsOpen-append es fs h.1 k)

pub count_where-append :
    (test : Event → Bool) (es fs : List Event)
    → count_where test (es ++ fs) ≡ count_where test es + count_where test fs
unfolding count_where
count_where-append test [] fs = omega arith
count_where-append test (e ∷ es) fs = omega (arith, count_where-append test es fs)

pub IsOpen-results : (chunks : List String) → IsOpen (map result chunks)
IsOpen-results [] = tt
IsOpen-results (c ∷ cs) = (refl, IsOpen-results cs)

pub count_where-results :
    (test : Event → Bool) (chunks : List String)
    → ((c : String) → test (result c) ≡ false)
    → count_where test (map result chunks) ≡ 0
unfolding count_where
count_where-results test [] h = refl
count_where-results test (c ∷ cs) h = ground (arith, h c, count_where-results test cs h)

-- `settle` so many times.
abbrev pub times : {A : Type 0} → ℕ → (A → A) → A → A
times zero f a = a
times (suc n) f a = f (times n f a)

abbrev pub Counts : List Event → (attempts successes limits outages : ℕ) → Type 0
Counts es attempts successes limits outages =
    (count_where is_attempt es ≡ attempts)
    × (count_where is_success es ≡ successes)
    × (count_where is_limit es ≡ limits)
    × (count_where is_outage es ≡ outages)
