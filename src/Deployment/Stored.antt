-- ===== src/Deployment/Stored.antt =====
-- What an accepted deployment stores.
use chutes_api.Base.{
  ℕ, ◌≡◌, refl, sym, ap, subst, ◌∙◌, ◌⊎◌, inl, inr, Bool, true, false, not, ◌&&◌, ◌||◌, List,
  Option, none, some, String, insert, contains, keep, is_empty, is_none, arith, Bool-cases,
}
use chutes_api.Gpus.{NodeSelector, supported_gpus}
use chutes_api.Deployment.Tables.{
  done, bad_request, forbidden, Env, ChuteArgs, User, Image, Chute, Store, Version, oldest_sdk,
  semcomp_below,
}
use chutes_api.Deployment.Checks.{
  is_official, is_vllm, is_legacy, is_unlogged, find_chute, check_image, is_legacy, is_unlogged,
  restrict, limit_selector, is_privileged, forced, exclude_or_forced,
}
use chutes_api.Deployment.Writes.{
  check_functions, start_rolling, begin_update, store_chute, push_fee, purge, written,
}
use chutes_api.Deployment.Deploy.{deploy_chute}
use chutes_api.Deployment.Accepted.{
  deploy_chute-IsAccepted, done_inj, >>=-eq-done, the-eq-done, require-eq-done, require-eq-tt,
}

eq_false : (b : Bool) → not b ≡ true → b ≡ false
eq_false true h = sym h
eq_false false h = refl

start_rolling-chutes :
    (chute : Chute) (version : String) (s : Store)
    → (start_rolling chute version s).chutes ≡ s.chutes
unfolding start_rolling
start_rolling-chutes chute version s = ground arith

purge-chutes :
    (rolling : Bool) (existing : Option Chute) (s : Store)
    → (purge rolling existing s).chutes ≡ s.chutes
unfolding purge
purge-chutes rolling none s = refl
purge-chutes true (some chute) s = refl
purge-chutes false (some chute) s = refl

push_fee-chutes :
    (env : Env) (args : ChuteArgs) (user : User) (fee : ℕ) (s : Store)
    → (push_fee env args user fee s).chutes ≡ s.chutes
unfolding push_fee
push_fee-chutes env args user fee s = ground arith

begin_update-chutes :
    (version : String) (existing : Option Chute) (s : Store)
    → (begin_update version existing s).chutes ≡ s.chutes
unfolding begin_update
begin_update-chutes version none s = refl
begin_update-chutes version (some chute) s = start_rolling-chutes chute version s

module _ (env : Env) (args : ChuteArgs) (user : User) where
  store_chute-chutes :
      (image : Image) (selector : NodeSelector) (version : String) (fee : ℕ) (rolling : Bool)
      (existing : Option Chute) (s s' : Store)
      → store_chute env args user image selector version fee rolling existing s ≡ done s'
      → let chute = written env args user image selector version existing in
        (check_functions chute ≡ done tt) × (s'.chutes ≡ insert chute.chute_id chute s.chutes)
  unfolding store_chute
  store_chute-chutes image selector version fee rolling existing s s' e =
      let chute = written env args user image selector version existing in
      let begun = begin_update version existing s in
      let saved = record begun { chutes = insert chute.chute_id chute begun.chutes } in
      let (u, checked, e') = >>=-eq-done (check_functions chute) _ e in
      let whole : purge rolling existing (push_fee env args user fee saved) ≡ s' =
        done_inj _ _ (require-eq-done _ _ _ e').1 in
      (
        checked,
        sym (ap (λ (t : Store). t.chutes) whole)
            ∙ purge-chutes rolling existing (push_fee env args user fee saved)
            ∙ push_fee-chutes env args user fee saved
            ∙ ap (λ d. insert chute.chute_id chute d) (begin_update-chutes version existing s),
      )

  -- An unprivileged selector leaves a GPU that is not one of the forced exclusions.
  abbrev IsRestricted : NodeSelector → Type 0
  IsRestricted selector =
      (gpus : List String) × (supported_gpus env.gpus selector ≡ some gpus)
      × (is_empty (keep (λ g. not (contains forced g)) gpus) ≡ false)

  limit_selector-IsRestricted :
      (selector limited : NodeSelector)
      → limit_selector env selector ≡ done limited
      → IsRestricted limited
  unfolding limit_selector
  limit_selector-IsRestricted selector limited e =
      let small = require-eq-done _ _ _ e in
      let (gpus, is_gpus, e₁) =
        the-eq-done
          (supported_gpus env.gpus
            (record selector { exclude = some (exclude_or_forced selector.exclude) }))
          _ _ small.1 in
      let some_left = require-eq-done _ _ _ e₁ in
      let other_left = require-eq-done _ _ _ some_left.1 in
      subst IsRestricted (done_inj _ _ other_left.1) (gpus, is_gpus, eq_false _ other_left.0)

  restrict-IsRestricted :
      (selector limited : NodeSelector)
      → restrict env user selector ≡ done limited
      → is_privileged env user ≡ false
      → IsRestricted limited
  unfolding restrict
  restrict-IsRestricted selector limited e p =
      limit_selector-IsRestricted selector limited (rw (p, restrict) at e)

  abbrev HasFunctions : Chute → Type 0
  HasFunctions chute =
      ((chute.has_cords ≡ true) × (chute.has_jobs ≡ false))
      ⊎ ((chute.has_cords ≡ false) × (chute.has_jobs ≡ true))

  check_functions-HasFunctions :
      (chute : Chute) → check_functions chute ≡ done tt → HasFunctions chute
  unfolding check_functions
  check_functions-HasFunctions chute e =
      let one = require-eq-done (chute.has_cords || chute.has_jobs) _ _ e in
      elim (Bool-cases chute.has_cords) [
        | inl cords ↦
            let not_both =
              require-eq-tt (not (chute.has_cords && chute.has_jobs)) bad_request one.1 in
            inl (cords, ground (arith, not_both))
        | inr none_cords ↦ inr (none_cords, ground (arith, one.0))
      ]

  check_image-parts :
      (image : Image) (existing : Option Chute)
      → check_image env args user image existing ≡ done tt
      → ((version : Version) × (image.chutes_version ≡ some version)
          × (semcomp_below version oldest_sdk ≡ false))
        × ((chute : Chute)
            → existing ≡ some chute
            → chute.logging_enabled ≡ false
            → args.logging_enabled ≡ false)
  unfolding check_image
  check_image-parts image existing e =
      let official =
        require-eq-done (not (user.affine && not (is_official env image)) || user.unlimited_dev)
          bad_request _ e in
      let revision =
        require-eq-done (not (is_vllm args.standard_template && is_none args.revision)) bad_request
          _ official.1 in
      let sdk = require-eq-done (not (is_legacy image.chutes_version)) bad_request _ revision.1 in
      (
        new_sdk image.chutes_version (eq_false _ sdk.0),
        logs existing args.logging_enabled (
            eq_false _
              (require-eq-tt (not (is_unlogged existing && args.logging_enabled)) forbidden sdk.1)),
      )
    where
      new_sdk :
          (version : Option Version)
          → is_legacy version ≡ false
          → (v : Version) × (version ≡ some v) × (semcomp_below v oldest_sdk ≡ false)
      new_sdk none h = absurd cc
      new_sdk (some v) h = (v, refl, h)

      logs :
          (old : Option Chute) (enabled : Bool)
          → (is_unlogged old && enabled) ≡ false
          → (chute : Chute) → old ≡ some chute
          → chute.logging_enabled ≡ false
          → enabled ≡ false
      logs none enabled h chute e off = absurd cc
      logs (some c) enabled h chute e off = ground arith

  written-public :
      (image : Image) (selector : NodeSelector) (version : String) (existing : Option Chute)
      → (written env args user image selector version existing).public ≡ true
      → (args.public ≡ true) × (user.public_model_deployment ≡ true)
  unfolding written
  written-public image selector version none e = ground arith
  written-public image selector version (some chute) e = ground arith

  written-columns :
      (image : Image) (selector : NodeSelector) (version : String) (existing : Option Chute)
      → let chute = written env args user image selector version existing in
        (chute.node_selector ≡ selector)
        × (chute.logging_enabled ≡ args.logging_enabled)
        × (chute.chutes_version ≡ image.chutes_version)
  unfolding written
  written-columns image selector version none = (refl, refl, refl)
  written-columns image selector version (some chute) = (refl, refl, refl)

  abbrev IsSound : (existing : Option Chute) (image : Image) → Chute → Type 0
  IsSound existing image chute =
      (chute.public ≡ true → (user.public_model_deployment ≡ true) × (image.public ≡ true))
      × HasFunctions chute
      × ((version : Version) × (chute.chutes_version ≡ some version)
          × (semcomp_below version oldest_sdk ≡ false))
      × ((old : Chute)
          → existing ≡ some old
          → old.logging_enabled ≡ false
          → chute.logging_enabled ≡ false)
      × (is_privileged env user ≡ false → IsRestricted chute.node_selector)

  abbrev pub StoresOne : (found : Option Image) (s s' : Store) → Type 0
  StoresOne found s s' =
      (existing : Option Chute) × (image : Image) × (chute : Chute) × (find_chute env args user s
        ≡ done existing)
      × (found ≡ some image)
      × (s'.chutes ≡ insert chute.chute_id chute s.chutes)
      × IsSound existing image chute

  -- An accepted deployment stores one chute, and no other chute changes. The chute is public only if the
  -- user may publish and its image is public; it has cords or jobs, and not both; its SDK is not older
  -- than 0.3.18; it does not log if the chute that it replaces did not; and unless the user is
  -- privileged, some GPU that its selector supports is none of h200, b200 and mi300x.
  pub deploy_chute-IsSound :
      (found : Option Image) (rolling accept_fee : Bool) (s s' : Store)
      → deploy_chute env args user found rolling accept_fee s ≡ done s'
      → StoresOne found s s'
  deploy_chute-IsSound found rolling accept_fee s s' e =
      let a = deploy_chute-IsAccepted env args user found rolling accept_fee s s' e in
      let version = env.version_of a.image.image_id args.code in
      let chute = written env args user a.image a.selector version a.existing in
      let stored =
        store_chute-chutes a.image a.selector version a.fee rolling a.existing s s' a.stored in
      let columns = written-columns a.image a.selector version a.existing in
      let parts = check_image-parts a.image a.existing a.checked in
      (
        a.existing,
        a.image,
        chute,
        a.is_existing,
        a.is_image,
        stored.1,
        (
          λ p.
              let shown = written-public a.image a.selector version a.existing p in
              (shown.1, ground (arith, shown.0, a.image_public)),
          check_functions-HasFunctions chute stored.0,
          (parts.0.0, columns.2 ∙ parts.0.1, parts.0.2),
          λ old is_old off. columns.1 ∙ parts.1 old is_old off,
          λ p.
              subst IsRestricted (sym columns.0)
                (restrict-IsRestricted args.node_selector a.selector a.is_selector p),
        ),
      )
