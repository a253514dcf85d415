-- ===== src/Invocation/Prefixes/Samples.antt =====
-- A conversation that is longer than one prefix.
use chutes_api.Base.{ℕ, zero, suc, ◌≡◌, ◌≤◌, ◌<◌, ◌⊎◌, none, some, [], ◌∷◌, String, Text, length}
use chutes_api.Invocation.Prefixes.{Payload, prompt_of, get_prompt_prefix_hashes}
use chutes_api.Invocation.Prefixes.Ladder.{Climbs, get_prompt_prefix_hashes-Climbs}

abbrev replicate : ℕ → ℕ → Text
replicate zero c = []
replicate (suc n) c = c ∷ replicate n c

abbrev payload : Payload
payload = record {
  prompt = none;
  messages = some (
      record { content = some (replicate 1000 65) }
      ∷ record { content = some (replicate 1500 66) }
      ∷ []);
}

abbrev digest : Text → String
digest text = "md5"

get_prompt_prefix_hashes-Climbs_example :
    ((get_prompt_prefix_hashes digest payload ≡ some [])
      × ((prompt : Text) → prompt_of payload ≡ some prompt → length prompt ≤ 1024))
    ⊎ ((prompt : Text) × (prompt_of payload ≡ some prompt)
        × (1024 < length prompt)
        × Climbs digest prompt (get_prompt_prefix_hashes digest payload))
get_prompt_prefix_hashes-Climbs_example = get_prompt_prefix_hashes-Climbs digest payload
