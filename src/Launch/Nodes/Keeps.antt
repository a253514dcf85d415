-- ===== src/Launch/Nodes/Keeps.antt =====
-- The check of the GPUs writes their association alone.
use chutes_api.Base.{
  refl, Bool, not, List, [], ◌∷◌, Option, none, some, String, lookup, is_none, str_eq, length, ◌==◌,
  ◌&&◌,
}
use chutes_api.Launch.{
  Chute, Node, Instance, Store, bad_request, not_found, conflict, server_error, go, require, the,
}
use chutes_api.Launch.Keeps.{
  Ends, Checked, >>=-Ends, >>-Ends, require-Ends, the-Ends, require-Checked, SameRows,
}
use chutes_api.Launch.Nodes.{
  distinct, is_suitable, of_hotkey, get_node_by_id, validate_node, associate, validate_each,
  check_hosts, validate_nodes, all_on, same_host,
}

-- What a refusal commits is up to the caller.
module _ (P : Store → Type 0) (failed : Store) (h : P failed) where
  the-Found : (o : Option Node) → Ends P (λ _. Unit {0}) (the o failed not_found)
  the-Found none = h
  the-Found (some node) = tt

  get_node_by_id-Ends :
      (taken : Bool) (node_id hotkey : String) (s : Store)
      → Ends P (λ _. Unit {0}) (get_node_by_id taken node_id hotkey s failed)
  unfolding get_node_by_id
  get_node_by_id-Ends taken node_id hotkey s =
      require-Ends P (λ _. Unit {0}) (not (str_eq node_id "")) failed not_found _ h
        (λ named.
          require-Ends P (λ _. Unit {0}) (not taken) failed server_error _ h
            (λ free. the-Found (of_hotkey hotkey (lookup node_id s.nodes))))

  validate_node-Ends :
      (taken : Bool) (chute : Chute) (node_id hotkey : String) (s : Store)
      → Ends P (λ _. Unit {0}) (validate_node taken chute node_id hotkey s failed)
  unfolding validate_node
  validate_node-Ends taken chute node_id hotkey s =
      let U : Node → Type 0 = λ _. Unit {0} in
      >>=-Ends P U (get_node_by_id taken node_id hotkey s failed) _
        (get_node_by_id-Ends taken node_id hotkey s)
        (λ node found.
          >>-Ends P U (require node.verified failed bad_request) _
            (require-Checked P node.verified failed bad_request h)
            (require-Ends P U (is_none (lookup node_id s.instance_nodes)) failed conflict _ h
              (λ free.
                the-Ends P U (is_suitable node chute.node_selector) failed server_error _ h
                  (λ suitable known. require-Ends P U suitable failed bad_request _ h (λ ok. tt)))))

  validate_each-SameRows :
      (taken : Bool) (chute : Chute) (hotkey : String) (instance : Instance) (ids : List String)
      (s : Store)
      → Ends P (λ r. SameRows s r.0) (validate_each taken chute hotkey instance ids s failed)
  unfolding validate_each
  validate_each-SameRows taken chute hotkey instance [] s = (refl, refl)
  validate_each-SameRows taken chute hotkey instance (node_id ∷ others) s =
      let R : Store × List Node → Type 0 = λ r. SameRows s r.0 in
      let next = associate node_id instance.instance_id s in
      >>=-Ends P R (validate_node taken chute node_id hotkey s failed) _
        (validate_node-Ends taken chute node_id hotkey s)
        (λ node valid.
          >>=-Ends P R (validate_each taken chute hotkey instance others next failed) _
            (validate_each-SameRows taken chute hotkey instance others next) (λ rest same. same))

  check_hosts-Checked :
      (host : String) (nodes : List Node) → Checked P (check_hosts host nodes failed)
  unfolding check_hosts
  check_hosts-Checked host [] = h
  check_hosts-Checked host (node ∷ nodes) =
      require-Checked P
        (all_on node.verification_host nodes && same_host node.verification_host host) failed
        bad_request h

  pub validate_nodes-SameRows :
      (taken : Bool) (chute : Chute) (ids : List String) (hotkey : String) (instance : Instance)
      (s : Store)
      → Ends P (λ r. SameRows s r.0) (validate_nodes taken chute ids hotkey instance s failed)
  unfolding validate_nodes
  validate_nodes-SameRows taken chute ids hotkey instance s =
      let R : Store × List Node → Type 0 = λ r. SameRows s r.0 in
      require-Ends P R (length (distinct ids) == chute.node_selector.gpu_count) failed bad_request _
        h
        (λ enough.
          >>=-Ends P R (validate_each taken chute hotkey instance (distinct ids) s failed) _
            (validate_each-SameRows taken chute hotkey instance (distinct ids) s)
            (λ validated same.
              >>-Ends P R (check_hosts instance.host validated.1 failed) (go validated)
                (check_hosts-Checked instance.host validated.1) same))
