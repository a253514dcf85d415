-- ===== src/Invocation/Prefixes/Ladder.antt =====
-- The loop over the prefixes ends, and the sizes halve from the longest prefix down to 1024.
use mathlib.Core.List.{reverse, reverse-append}
use mathlib.Core.Option
use chutes_api.Base.{
  ℕ, zero, suc, ◌-◌, ◌*◌, ◌≤◌, ◌<◌, ◌≡◌, refl, inl, inr, [], ◌∷◌, ◌++◌, some, String, Text, length,
  take, ltb, Bool-cases, Option-cases, Nat-cases, subst, lt→leb_false, Option, ◌⊎◌, arith,
}
use chutes_api.Invocation.Prefixes.{
  Payload, Hashes, prompt_of, prefix_loop, prefix_hashes, get_prompt_prefix_hashes,
}

module _ (digest : Text → String) (prompt : Text) where
  -- From the longest prefix down; `top` is twice the longest.
  abbrev pub IsLadder : (top : ℕ) → Hashes → Type 0
  IsLadder top [] = top ≡ 1024
  IsLadder top ((size, hash) ∷ rest) =
      (size * 2 ≡ top)
      × (hash ≡ digest (take size prompt))
      × (size < length prompt)
      × IsLadder size rest

  -- The run ends, and no further doubling is a proper prefix.
  abbrev pub Climbs : Option Hashes → Type 0
  Climbs r =
      (hashes : Hashes) × (top : ℕ) × (r ≡ some hashes)
      × (length prompt ≤ top)
      × IsLadder top hashes

  pub prefix_loop-Climbs :
      (fuel size : ℕ) (hashes : Hashes)
      → 0 < size
      → length prompt - size < fuel
      → IsLadder size (reverse hashes)
      → Climbs (Option.map reverse (prefix_loop fuel digest prompt size hashes))
  unfolding prefix_loop
  prefix_loop-Climbs zero size hashes p h l = absurd (omega arith)
  prefix_loop-Climbs (suc fuel) size hashes p h l = elim (Bool-cases (ltb size (length prompt))) [
    | inl more ↦ rw more (
        prefix_loop-Climbs fuel (size * 2) (hashes ++ (size, digest (take size prompt)) ∷ [])
          (omega arith) (ground arith)
          (rw (reverse-append hashes ((size, digest (take size prompt)) ∷ []))
            (refl, refl, ground arith, l)))
    | inr done ↦ rw done (reverse hashes, size, refl, ground arith, l)
  ]

module _ (digest : Text → String) (prompt : Text) where
  prefix_hashes-short : length prompt ≤ 1024 → prefix_hashes digest prompt ≡ some []
  unfolding prefix_hashes
  prefix_hashes-short h = ground arith

  prefix_hashes-Climbs : 1024 < length prompt → Climbs digest prompt (prefix_hashes digest prompt)
  unfolding prefix_hashes
  prefix_hashes-Climbs h =
      rw (lt→leb_false (length prompt) 1024 h)
        (prefix_loop-Climbs digest prompt (length prompt) 1024 [] (omega arith) (omega arith) refl)

-- The function ends on every payload. With no prompt of more than 1024 characters it answers nothing;
-- else with proper prefixes and their digests, the longest first: each is twice as long as the next,
-- the last has 1024 characters, and twice the first is at least the whole prompt.
pub get_prompt_prefix_hashes-Climbs :
    (digest : Text → String) (payload : Payload)
    → ((get_prompt_prefix_hashes digest payload ≡ some [])
        × ((prompt : Text) → prompt_of payload ≡ some prompt → length prompt ≤ 1024))
      ⊎ ((prompt : Text) × (prompt_of payload ≡ some prompt)
          × (1024 < length prompt)
          × Climbs digest prompt (get_prompt_prefix_hashes digest payload))
unfolding get_prompt_prefix_hashes
get_prompt_prefix_hashes-Climbs digest payload = elim (Option-cases (prompt_of payload)) [
  | inl e ↦ inl (ground arith, λ p h. cc)
  | inr (prompt, e) ↦ elim (Nat-cases 1024 (length prompt)) [
    | inl long ↦ inr (
      prompt,
      e,
      long,
      rw (e, get_prompt_prefix_hashes) (prefix_hashes-Climbs digest prompt long),
    )
    | inr small ↦ inl (
      rw (e, get_prompt_prefix_hashes) (prefix_hashes-short digest prompt (ground arith)),
      λ p h. let same : prompt ≡ p = cc in subst (λ t. length t ≤ 1024) same (ground arith),
    )
  ]
]
