-- ===== src/Invocation/Prefixes.antt =====
-- get_prompt_prefix_hashes of api/invocation/util.py: the prefixes of a prompt, by which requests that
-- share them are sent to the same instance. `digest` is the md5 of a text, in hex.
pub mod Ladder
pub mod Samples
use mathlib.Core.List.{reverse}
use mathlib.Core.Option
use chutes_api.Base.{
  ℕ, zero, suc, ◌*◌, Bool, List, [], ◌∷◌, ◌++◌, Option, none, some, String, Text, length, take, ltb,
  leb, if◌then◌else◌,
}

-- An entry of `messages`; no content where it is not a dictionary with a text under "content".
pub record Message : Type 0 where
  pub content : Option Text

pub record Payload : Type 0 where
  pub prompt : Option Text
  pub messages : Option (List Message)

-- What the loop makes: the size of a prefix, with its digest.
abbrev pub Hashes : Type 0
Hashes = List (ℕ × String)

abbrev prepend : Option Text → Option Text → Option Text
prepend (some t) (some rest) = some (t ++ rest)
prepend (some t) none = none
prepend none rest = none

-- `"".join(…)`, where every message has a text.
join_messages : List Message → Option Text
join_messages [] = some []
join_messages (m ∷ ms) = prepend m.content (join_messages ms)

abbrev join_all : Option (List Message) → Option Text
join_all none = none
join_all (some ms) = join_messages ms

-- `none` where the function returns before it has a prompt.
pub prompt_of : Payload → Option Text
unfolding join_messages
prompt_of payload = elim payload.prompt [ some t ↦ some t | none ↦ join_all payload.messages ]

-- `while len(prompt) > size`, with fuel; `none` means that the fuel ran out.
pub prefix_loop :
    (fuel : ℕ) (digest : Text → String) (prompt : Text) (size : ℕ) → Hashes → Option Hashes
prefix_loop zero digest prompt size hashes = none
prefix_loop (suc fuel) digest prompt size hashes =
    let rest =
      prefix_loop fuel digest prompt (size * 2)
        (hashes ++ (size, digest (take size prompt)) ∷ []) in
    if ltb size (length prompt) then rest else some hashes

pub prefix_hashes : (digest : Text → String) (prompt : Text) → Option Hashes
unfolding prefix_loop
prefix_hashes digest prompt =
    if leb (length prompt) 1024
    then some []
    else Option.map reverse (prefix_loop (length prompt) digest prompt 1024 [])

pub get_prompt_prefix_hashes : (digest : Text → String) → Payload → Option Hashes
unfolding prompt_of prefix_hashes
get_prompt_prefix_hashes digest payload = elim (prompt_of payload) [
  | none ↦ some []
  | some prompt ↦ prefix_hashes digest prompt
]
