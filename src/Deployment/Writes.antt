-- ===== src/Deployment/Writes.antt =====
-- What an accepted deployment writes.
use chutes_api.Base.{
  ℕ, ◌+◌, Bool, true, not, ◌&&◌, ◌||◌, List, [], ◌∷◌, Option, none, some, String, Dict, lookup,
  insert, remove, keep, is_empty, is_none, str_eq, ◌==◌, get_or, if◌then◌else◌,
}
use chutes_api.Gpus.{NodeSelector}
use chutes_api.Deployment.Tables.{
  Chute, ChuteArgs, Env, Image, Instance, Result, Store, User, bad_request, done, server_error,
  require, ◌>>◌,
}

-- `permitted[inst.miner_hotkey] += 1` for each instance of the chute.
unfoldable pub permitted_of : (chute_id : String) → List Instance → Dict ℕ → Dict ℕ
permitted_of chute_id [] permitted = permitted
permitted_of chute_id (i ∷ is) permitted = permitted_of chute_id is (
    if str_eq i.chute_id chute_id
    then insert i.miner_hotkey (get_or (lookup i.miner_hotkey permitted) 0 + 1) permitted
    else permitted)

abbrev pub instances_of : (chute_id : String) → List Instance → List Instance
instances_of chute_id is = keep (λ i. str_eq i.chute_id chute_id) is

-- The old rolling update of the chute goes, and a new one comes if it has instances.
unfoldable pub start_rolling : Chute → (version : String) → Store → Store
unfolding permitted_of
start_rolling chute version s =
    let dropped = remove chute.chute_id s.rolling_updates in
    if is_empty (instances_of chute.chute_id s.instances)
    then record s { rolling_updates = dropped }
    else record s {
      rolling_updates =
          insert chute.chute_id
            (record {
              old_version = chute.version;
              new_version = version;
              permitted = permitted_of chute.chute_id s.instances [];
            })
            dropped;
    }

-- None for a public chute and for the platform's own, else the value or the default.
limit_for : (unlimited : Bool) (value : Option ℕ) (default : ℕ) → Option ℕ
limit_for unlimited value default =
    if unlimited
    then none
    else some (elim value [ none ↦ default | some n ↦ if n == 0 then default else n ])

-- The columns that both branches write.
pub write :
    Env
    → ChuteArgs
    → User
    → Image
    → NodeSelector
    → (chute_id : String) → (version user_id name : String) → (standard_template : Option String)
    → Chute
unfolding limit_for
write env args user image selector chute_id version user_id name standard_template =
    let public = args.public && user.public_model_deployment in
    let unlimited = public || str_eq user_id env.chutes_user in
    record {
      chute_id = chute_id;
      user_id = user_id;
      name = name;
      image_id = image.image_id;
      code = args.code;
      version = version;
      public = public;
      node_selector = selector;
      standard_template = standard_template;
      revision = args.revision;
      has_cords = args.has_cords;
      has_jobs = args.has_jobs;
      logging_enabled = args.logging_enabled;
      max_instances = limit_for unlimited args.max_instances 1;
      shutdown_after_seconds = limit_for unlimited args.shutdown_after_seconds 300;
      chutes_version = image.chutes_version;
    }

-- An update keeps the name, the owner and the template of the chute.
unfoldable pub written :
    Env → ChuteArgs → User → Image → NodeSelector → (version : String) → Option Chute → Chute
unfolding write
written env args user image selector version none =
    write env args user image selector (env.chute_id_of user.username args.name) version
      user.user_id args.name args.standard_template
written env args user image selector version (some chute) =
    write env args user image selector chute.chute_id version chute.user_id chute.name
      chute.standard_template

unfoldable pub begin_update : (version : String) → Option Chute → Store → Store
begin_update version none s = s
begin_update version (some chute) s = start_rolling chute version s

-- "A chute must define at least one cord() or job() function", and "can have jobs or cords not both".
unfoldable pub check_functions : Chute → Result (Unit {0})
check_functions chute = do
  require (chute.has_cords || chute.has_jobs) bad_request
  require (not (chute.has_cords && chute.has_jobs)) bad_request

abbrev add_fee : (chute_id : String) (fee : ℕ) → Dict ℕ → Dict ℕ
add_fee chute_id fee of_user = insert chute_id (get_or (lookup chute_id of_user) 0 + fee) of_user

-- "Update in usage tracker, only after successful DB commit."
unfoldable pub push_fee : Env → ChuteArgs → User → (fee : ℕ) → Store → Store
push_fee env args user fee s = if fee == 0 || user.free_account then s else record s {
  pending =
      insert user.user_id
        (add_fee (env.chute_id_of user.username args.name) fee
          (get_or (lookup user.user_id s.pending) []))
        s.pending;
}

-- With no rolling update all instances of an updated chute go at once.
unfoldable pub purge : (use_rolling_update : Bool) → Option Chute → Store → Store
purge use_rolling_update none s = s
purge use_rolling_update (some chute) s =
    if use_rolling_update
    then s
    else record s { instances = keep (λ i. not (str_eq i.chute_id chute.chute_id)) s.instances }

-- The primary key: a new chute cannot take the identifier of another.
unfoldable pub is_free : Option Chute → (chute_id : String) → Dict Chute → Bool
is_free none chute_id chutes = is_none (lookup chute_id chutes)
is_free (some chute) chute_id chutes = true

-- What an accepted deployment does, its selector and its fee being known.
unfoldable pub store_chute :
    Env
    → ChuteArgs
    → User
    → Image
    → NodeSelector
    → (version : String) (fee : ℕ) (use_rolling_update : Bool) → Option Chute
    → Store
    → Result Store
store_chute env args user image selector version fee use_rolling_update existing s =
    let chute = written env args user image selector version existing in
    let begun = begin_update version existing s in
    (do
      check_functions chute
      require (is_free existing chute.chute_id s.chutes) server_error
      let saved = record begun { chutes = insert chute.chute_id chute begun.chutes }
      done (purge use_rolling_update existing (push_fee env args user fee saved)))
