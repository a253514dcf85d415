-- ===== src/ApiKey/Access.antt =====
-- APIKey.has_access and APIKey.create of api/api_key/schemas.py.
pub mod Grants
use chutes_api.Base.{
  Bool, true, false, ◌&&◌, ◌||◌, not, List, [], ◌∷◌, Option, none, some, String, str_eq, contains,
  if◌then◌else◌,
}

pub data Action : Type 0 where
  read write delete invoke : Action

pub action_value : Action → String
action_value read = "read"
action_value write = "write"
action_value delete = "delete"
action_value invoke = "invoke"

-- An APIKeyScope, which is made from the ScopeArgs with the same fields.
pub record Scope : Type 0 where
  pub object_type : String
  pub object_id : Option String
  pub action : Option Action

pub record Key : Type 0 where
  pub admin : Bool
  pub scopes : List Scope

-- An administrator's key takes no scopes.
pub create : (admin : Bool) (scopes : List Scope) → Key
create admin scopes = record { admin = admin; scopes = if admin then [] else scopes }

-- The validator of `object_type`: `none` is the ValueError.
validate_object_type : String → Option String
unfolding contains
validate_object_type type_ =
    if contains ("images" ∷ "chutes" ∷ "invocations" ∷ []) type_ then some type_ else none

-- `not scope.action or scope.action.value == action`
pub fits_action : Option Action → String → Bool
fits_action none action = true
fits_action (some a) action = str_eq (action_value a) action

-- `scope.object_id in (None, object_id)`
pub fits_object : Option String → String → Bool
fits_object none object_id = true
fits_object (some o) object_id = str_eq o object_id

abbrev pub is_mega : String → Bool
is_mega object_id = str_eq object_id "__megallm__" || str_eq object_id "__megadiffuser__"

pub any_scope : List Scope → (object_type object_id action : String) → Bool
any_scope [] object_type object_id action = false
any_scope (s ∷ scopes) object_type object_id action =
    let later = any_scope scopes object_type object_id action in
    if not (str_eq s.object_type object_type)
    then later
    else if str_eq object_type "chutes" && is_mega object_id && fits_action s.action action
    then true
    else if fits_object s.object_id object_id && fits_action s.action action
    then true
    else later

pub has_access : Key → (object_type object_id action : String) → Bool
has_access key object_type object_id action =
    if key.admin then true else any_scope key.scopes object_type object_id action
