-- ===== src/Gpus/Choice.antt =====
-- Which GPUs a selector chooses, and at what price.
use chutes_api.Base.{
  ℕ, zero, suc, ◌*◌, ◌≤◌, min, ◌≡◌, refl, inl, inr, true, List, [], ◌∷◌, Option, none, some, String,
  Dict, lookup, contains, leb, str_eq_self, subst, All, All-imp, arith, Bool-cases, Nat-cases,
}
use chutes_api.Gpus.{
  Gpu, NodeSelector, add_gpu, rate_of, lower_of, included, without, with_memory, fit,
  supported_gpus, cheapest, multiply, price_of, compute_multiplier,
}

-- The GPU is in the table and has the memory.
abbrev HasMemory : Dict Gpu → (least : ℕ) → String → Type 0
HasMemory table least name = (g : Gpu) × (lookup name table ≡ some g) × (least ≤ g.memory)

abbrev WhenSome : {A : Type 0} → (A → Type 0) → Option A → Type 0
WhenSome P none = Unit
WhenSome P (some a) = P a

add_gpu-All :
    (table : Dict Gpu) (least : ℕ) (name : String) (o : Option Gpu) (rest : Option (List String))
    → lookup name table ≡ o
    → WhenSome (All (HasMemory table least)) rest
    → WhenSome (All (HasMemory table least)) (add_gpu least name o rest)
unfolding add_gpu
add_gpu-All table least name none rest e h = tt
add_gpu-All table least name (some g) none e h = tt
add_gpu-All table least name (some g) (some found) e h = elim (Bool-cases (leb least g.memory)) [
  | inl fits ↦ rw fits ((g, e, ground arith), h)
  | inr small ↦ rw small h
]

with_memory-All :
    (table : Dict Gpu) (least : ℕ) (names : List String)
    → WhenSome (All (HasMemory table least)) (with_memory table least names)
unfolding with_memory
with_memory-All table least [] = tt
with_memory-All table least (name ∷ names) =
    add_gpu-All table least name (lookup name table) (with_memory table least names) refl
      (with_memory-All table least names)

fit-All :
    (table : Dict Gpu) (n : ℕ) (vram : Option ℕ) (names : List String)
    → vram ≡ some (suc n)
    → WhenSome (All (HasMemory table (suc n))) (fit table vram names)
unfolding fit
fit-All table n none names e = absurd cc
fit-All table n (some zero) names e = absurd (ground arith)
fit-All table n (some (suc k)) names e =
    let same : k ≡ n = ground arith in
    subst (λ i. WhenSome (All (HasMemory table (suc i))) (with_memory table (suc k) names)) same
      (with_memory-All table (suc k) names)

-- Every GPU that a selector with a memory requirement chooses is in the table and has that memory.
supported_gpus-All :
    (table : Dict Gpu) (s : NodeSelector) (n : ℕ) (r : List String)
    → s.min_vram_gb_per_gpu ≡ some (suc n)
    → supported_gpus table s ≡ some r
    → All (HasMemory table (suc n)) r
unfolding supported_gpus
supported_gpus-All table s n r vram e =
    subst (WhenSome (All (HasMemory table (suc n)))) e
      (fit-All table n s.min_vram_gb_per_gpu (without s.exclude (included table s.include)) vram)

-- The lowest rate of the list, and one GPU that has it.
abbrev IsPriced : Dict Gpu → (m : ℕ) → String → Type 0
IsPriced table m name = (g : Gpu) × (lookup name table ≡ some g) × (m ≤ g.hourly_rate)

abbrev IsCheapest : Dict Gpu → List String → ℕ → Type 0
IsCheapest table names m =
    All (IsPriced table m) names
    × (name : String) × (contains names name ≡ true)
    × (g : Gpu) × (lookup name table ≡ some g)
    × (m ≡ g.hourly_rate)

weaken :
    (table : Dict Gpu) (m k : ℕ) (names : List String)
    → m ≤ k
    → All (IsPriced table k) names
    → All (IsPriced table m) names
weaken table m k names h =
    All-imp (IsPriced table k) (IsPriced table m) names
      (λ name p. (p.0, p.1, omega (arith, p.2, h)))

lower_of-IsCheapest :
    (table : Dict Gpu) (name : String) (o : Option Gpu) (names : List String) (rest : Option ℕ)
    → lookup name table ≡ o
    → WhenSome (IsCheapest table names) rest
    → WhenSome (IsCheapest table (name ∷ names)) (lower_of (rate_of o) rest)
unfolding lower_of rate_of contains
lower_of-IsCheapest table name none names rest e h = tt
lower_of-IsCheapest table name (some g) names none e h = tt
lower_of-IsCheapest table name (some g) names (some k) e (priced, best, listed, b, its, same) =
    let rate = g.hourly_rate in
    let later = weaken table (min rate k) k names (omega arith) priced in
    elim (Nat-cases rate k) [
      | inl low ↦
          (((g, e, omega arith), later), name, ground (arith, str_eq_self name), g, e, omega arith)
      | inr high ↦ (((g, e, omega arith), later), best, ground arith, b, its, ground arith)
    ]

cheapest-IsCheapest :
    (table : Dict Gpu) (names : List String)
    → WhenSome (IsCheapest table names) (cheapest table names)
unfolding cheapest rate_of
cheapest-IsCheapest table [] = tt
cheapest-IsCheapest table (name ∷ []) = single (lookup name table) refl
  where
    single :
        (o : Option Gpu)
        → lookup name table ≡ o
        → WhenSome (IsCheapest table (name ∷ [])) (rate_of o)
    single none e = tt
    single (some g) e =
        unfold contains in
        (((g, e, omega arith), tt), name, ground (arith, str_eq_self name), g, e, refl)
cheapest-IsCheapest table (name ∷ other ∷ names) =
    lower_of-IsCheapest table name (lookup name table) (other ∷ names)
      (cheapest table (other ∷ names)) refl (cheapest-IsCheapest table (other ∷ names))

priced :
    (table : Dict Gpu) (count m : ℕ) (r : List String) (o : Option ℕ)
    → WhenSome (IsCheapest table r) o
    → multiply count o ≡ some m
    → (k : ℕ) × (m ≡ count * k) × IsCheapest table r k
unfolding multiply
priced table count m r none h e = absurd cc
priced table count m r (some k) h e = (k, ground arith, h)

chosen :
    (table : Dict Gpu) (count m : ℕ) (o : Option (List String))
    → price_of table count o ≡ some m
    → (r : List String) × (o ≡ some r) × (k : ℕ) × (m ≡ count * k) × IsCheapest table r k
unfolding price_of
chosen table count m none e = absurd cc
chosen table count m (some r) e =
    let (k, is_product, lowest) =
      priced table count m r (cheapest table r) (cheapest-IsCheapest table r) e in
    (r, refl, k, is_product, lowest)

-- A compute multiplier is the number of GPUs times the lowest rate among the GPUs that the selector
-- chooses: all of them are in the table and cost as much or more, and one costs that much.
compute_multiplier-IsCheapest :
    (table : Dict Gpu) (s : NodeSelector) (m : ℕ)
    → compute_multiplier table s ≡ some m
    → (r : List String) × (supported_gpus table s ≡ some r)
      × (k : ℕ) × (m ≡ s.gpu_count * k)
      × IsCheapest table r k
unfolding compute_multiplier
compute_multiplier-IsCheapest table s m e = chosen table s.gpu_count m (supported_gpus table s) e
