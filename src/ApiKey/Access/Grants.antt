-- ===== src/ApiKey/Access/Grants.antt =====
-- Which requests a key grants, said without the loop.
use chutes_api.Base.{
  Bool, true, false, ◌&&◌, ◌||◌, List, [], ◌∷◌, Option, none, some, String, str_eq, &&_true,
  ||_true, ap, ◌∙◌, eq_iff, ◌≡◌, refl, ◌⊎◌, inl, inr, ◌↔◌, arith,
}
use chutes_api.ApiKey.Access.{
  Action, Scope, create, action_value, fits_action, fits_object, is_mega, any_scope, has_access,
}

-- A scope grants a request if it is about that type of object, about every action or that one, and about
-- every object of the type or that one; a request for a pooled endpoint is granted by a scope for any
-- chute.
abbrev pub Grants : (object_type object_id action : String) → Scope → Type 0
Grants object_type object_id action s =
    (s.object_type ≡ object_type)
    × ((s.action ≡ none) ⊎ ((a : Action) × (s.action ≡ some a) × (action_value a ≡ action)))
    × ((s.object_id ≡ none)
        ⊎ ((s.object_id ≡ some object_id)
            ⊎ ((object_type ≡ "chutes")
                × ((object_id ≡ "__megallm__") ⊎ (object_id ≡ "__megadiffuser__")))))

abbrev AnyGrants : (object_type object_id action : String) → List Scope → Type 0
AnyGrants object_type object_id action [] = ⊥
AnyGrants object_type object_id action (s ∷ scopes) =
    Grants object_type object_id action s ⊎ AnyGrants object_type object_id action scopes

-- The tests of the loop on one scope.
granted : (object_type object_id action : String) → Scope → Bool
granted object_type object_id action s =
    str_eq s.object_type object_type
    && (fits_action s.action action
        && (fits_object s.object_id object_id
            || (str_eq object_type "chutes" && is_mega object_id)))

fits_action_iff :
    (a : Option Action) (action : String)
    → (fits_action a action ≡ true)
      ↔ ((a ≡ none) ⊎ ((b : Action) × (a ≡ some b) × (action_value b ≡ action)))
unfolding fits_action
fits_action_iff none action = (λ e. inl refl, λ h. refl)
fits_action_iff (some b) action = (
  λ e. inr (b, refl, (eq_iff (action_value b) action).0 e),
  λ h. elim h [ inl e ↦ cc | inr (c, e, f) ↦ (eq_iff (action_value b) action).1 (cc) ],
)

fits_object_iff :
    (o : Option String) (object_id : String)
    → (fits_object o object_id ≡ true) ↔ ((o ≡ none) ⊎ (o ≡ some object_id))
unfolding fits_object
fits_object_iff none object_id = (λ e. inl refl, λ h. refl)
fits_object_iff (some o) object_id = (
  λ e. inr (ap some ((eq_iff o object_id).0 e)),
  λ h. elim h [ inl e ↦ cc | inr e ↦ (eq_iff o object_id).1 (cc) ],
)

is_pooled_iff :
    (t o : String)
    → ((str_eq t "chutes" && is_mega o) ≡ true)
      ↔ ((t ≡ "chutes") × ((o ≡ "__megallm__") ⊎ (o ≡ "__megadiffuser__")))
is_pooled_iff t o = (
  λ e.
      let (chutes, mega) = (&&_true (str_eq t "chutes") (is_mega o)).0 e in
      (
        (eq_iff t "chutes").0 chutes,
        elim ((||_true (str_eq o "__megallm__") (str_eq o "__megadiffuser__")).0 mega) [
          | inl f ↦ inl ((eq_iff o "__megallm__").0 f)
          | inr f ↦ inr ((eq_iff o "__megadiffuser__").0 f)
        ],
      ),
  λ (chutes, mega). (&&_true (str_eq t "chutes") (is_mega o)).1 (
    (eq_iff t "chutes").1 chutes,
    (||_true (str_eq o "__megallm__") (str_eq o "__megadiffuser__")).1 (elim mega [
      | inl f ↦ inl ((eq_iff o "__megallm__").1 f)
      | inr f ↦ inr ((eq_iff o "__megadiffuser__").1 f)
    ]),
  ),
)

granted_iff : (t o a : String) (s : Scope) → (granted t o a s ≡ true) ↔ Grants t o a s
unfolding granted
granted_iff t o a s =
    let object = fits_object s.object_id o in
    let pooled = str_eq t "chutes" && is_mega o in
    let rest = fits_action s.action a && (object || pooled) in
    (
      λ e.
          let (type, rest_true) = (&&_true (str_eq s.object_type t) rest).0 e in
          let (action, where_true) =
            (&&_true (fits_action s.action a) (object || pooled)).0 rest_true in
          (
            (eq_iff s.object_type t).0 type,
            (fits_action_iff s.action a).0 action,
            elim ((||_true object pooled).0 where_true) [
              | inl f ↦ elim ((fits_object_iff s.object_id o).0 f) [
                | inl g ↦ inl g
                | inr g ↦ inr (inl g)
              ]
              | inr f ↦ inr (inr ((is_pooled_iff t o).0 f))
            ],
          ),
      λ (type, action, object_ok). (&&_true (str_eq s.object_type t) rest).1 (
        (eq_iff s.object_type t).1 type,
        (&&_true (fits_action s.action a) (object || pooled)).1 (
          (fits_action_iff s.action a).1 action,
          (||_true object pooled).1 (elim object_ok [
            | inl g ↦ inl ((fits_object_iff s.object_id o).1 (inl g))
            | inr (inl g) ↦ inl ((fits_object_iff s.object_id o).1 (inr g))
            | inr (inr g) ↦ inr ((is_pooled_iff t o).1 g)
          ]),
        ),
      ),
    )

any_scope-cons :
    (t o a : String) (s : Scope) (scopes : List Scope)
    → any_scope (s ∷ scopes) t o a ≡ (granted t o a s || any_scope scopes t o a)
unfolding any_scope granted
any_scope-cons t o a s scopes = ground arith

any_scope_iff :
    (t o a : String) (scopes : List Scope)
    → (any_scope scopes t o a ≡ true) ↔ AnyGrants t o a scopes
unfolding any_scope
any_scope_iff t o a [] = (λ e. cc, λ h. absurd h)
any_scope_iff t o a (s ∷ scopes) = (
  λ e. elim ((||_true (granted t o a s) (any_scope scopes t o a)).0 (rw any_scope-cons at e)) [
    | inl f ↦ inl ((granted_iff t o a s).0 f)
    | inr f ↦ inr ((any_scope_iff t o a scopes).0 f)
  ],
  λ h.
      any_scope-cons t o a s scopes
      ∙ (||_true (granted t o a s) (any_scope scopes t o a)).1 (elim h [
        | inl f ↦ inl ((granted_iff t o a s).1 f)
        | inr f ↦ inr ((any_scope_iff t o a scopes).1 f)
      ]),
)

-- A created key grants a request exactly if it is an administrator's or one of the scopes it was made
-- with grants the request.
has_access-create :
    (admin : Bool) (scopes : List Scope) (object_type object_id action : String)
    → (has_access (create admin scopes) object_type object_id action ≡ true)
      ↔ ((admin ≡ true) ⊎ AnyGrants object_type object_id action scopes)
unfolding has_access create
has_access-create true scopes t o a = (λ e. inl refl, λ h. refl)
has_access-create false scopes t o a = (
  λ e. inr ((any_scope_iff t o a scopes).0 e),
  λ h. elim h [ inl e ↦ cc | inr g ↦ (any_scope_iff t o a scopes).1 g ],
)
