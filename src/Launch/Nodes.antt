-- ===== src/Launch/Nodes.antt =====
-- The GPUs of a launch: `_validate_node` and `_validate_nodes`, and `is_suitable` of
-- api/node/schemas.py. A set of identifiers is a list without repetitions, in the order of the list.
-- An instance that is only added to the session is written at the first query. That fails if another
-- one has its address or its launch config: `is_taken`.
pub mod Keeps
use chutes_api.Base.{
  ℕ, Bool, true, false, not, ◌&&◌, ◌||◌, List, [], ◌∷◌, Option, none, some, String, Dict, Text,
  lookup, insert, contains, is_none, str_eq, length, ◌==◌, codes, lower_code, is_prefix, map,
  if◌then◌else◌,
}
use chutes_api.Gpus.{Gpu, supported, NodeSelector, supported_gpus}
use chutes_api.Launch.{
  Chute, Node, Instance, Store, Refusal, bad_request, not_found, conflict, server_error, Run, go,
  halt, ◌>>=◌, ◌>>◌, require, the, is_some,
}

-- `set(xs)`
pub distinct : List String → List String
distinct [] = []
distinct (x ∷ xs) = let rest = distinct xs in if contains rest x then rest else x ∷ rest

abbrev pub same_text : Text → Text → Bool
same_text s t = is_prefix s t && is_prefix t s

-- `s.lower() == t.lower()`
pub same_host : String → String → Bool
same_host s t = same_text (map lower_code (codes s)) (map lower_code (codes t))

abbrev suits : Option (List String) → (gpu_identifier : String) → Option Bool
suits none gpu_identifier = none
suits (some gpus) gpu_identifier = some (contains gpus gpu_identifier)

-- `none` is the KeyError of a selector that names an unknown GPU.
pub is_suitable : Node → NodeSelector → Option Bool
is_suitable node selector =
    if node.verified
    then suits (supported_gpus supported selector) node.gpu_identifier
    else some false

pub is_taken : Instance → Dict Instance → Bool
is_taken new [] = false
is_taken new ((key, old) ∷ rest) =
    (str_eq old.host new.host && old.port == new.port)
    || (str_eq old.config_id new.config_id || is_taken new rest)

abbrev pub of_hotkey : String → Option Node → Option Node
of_hotkey hotkey none = none
of_hotkey hotkey (some node) = if str_eq node.miner_hotkey hotkey then some node else none

-- get_node_by_id of api/node/util.py: no query is made for an empty identifier.
pub get_node_by_id : (taken : Bool) (node_id hotkey : String) → Store → Store → Run Node
get_node_by_id taken node_id hotkey s failed = do
  require (not (str_eq node_id "")) failed not_found
  require (not taken) failed server_error
  the (of_hotkey hotkey (lookup node_id s.nodes)) failed not_found

-- `failed` is what the caller commits when an exception comes up.
pub validate_node : (taken : Bool) → Chute → (node_id hotkey : String) → Store → Store → Run Node
validate_node taken chute node_id hotkey s failed = do
  node ← get_node_by_id taken node_id hotkey s failed
  require node.verified failed bad_request
  require (is_none (lookup node_id s.instance_nodes)) failed conflict
  suitable ← the (is_suitable node chute.node_selector) failed server_error
  require suitable failed bad_request
  go node

abbrev pub associate : (node_id instance_id : String) → Store → Store
associate node_id instance_id s = record s {
  instance_nodes = insert node_id instance_id s.instance_nodes;
}

pub validate_each :
    (taken : Bool)
    → Chute
    → (hotkey : String) → Instance
    → List String
    → Store
    → Store
    → Run (Store × List Node)
validate_each taken chute hotkey instance [] s failed = go (s, [])
validate_each taken chute hotkey instance (node_id ∷ others) s failed = do
  node ← validate_node taken chute node_id hotkey s failed
  rest ←
      validate_each taken chute hotkey instance others (associate node_id instance.instance_id s)
        failed
  go (rest.0, node ∷ rest.1)

abbrev pub all_on : (verification_host : String) → List Node → Bool
all_on verification_host [] = true
all_on verification_host (node ∷ nodes) =
    str_eq node.verification_host verification_host && all_on verification_host nodes

-- All the nodes were verified on one host, which is the instance's.
pub check_hosts : (host : String) → List Node → Store → Run (Unit {0})
check_hosts host [] failed = halt failed server_error
check_hosts host (node ∷ nodes) failed =
    require (all_on node.verification_host nodes && same_host node.verification_host host) failed
      bad_request

pub validate_nodes :
    (taken : Bool)
    → Chute
    → (node_ids : List String) (hotkey : String) → Instance
    → Store
    → Store
    → Run (Store × List Node)
validate_nodes taken chute node_ids hotkey instance s failed = do
  require (length (distinct node_ids) == chute.node_selector.gpu_count) failed bad_request
  validated ← validate_each taken chute hotkey instance (distinct node_ids) s failed
  check_hosts instance.host validated.1 failed
  go validated
