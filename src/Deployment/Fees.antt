-- ===== src/Deployment/Fees.antt =====
-- What a deployment costs.
use chutes_api.Base.{
  ℕ, ◌+◌, ◌*◌, ◌<◌, ◌≡◌, refl, sym, ap, ◌∙◌, ◌⊎◌, inl, inr, Bool, true, false, not, ◌&&◌, ◌||◌, [],
  Option, none, some, String, Dict, lookup, insert, lookup-insert_self, get_or, is_none, leb, ◌==◌,
  arith, Bool-cases, if◌then◌else◌,
}
use chutes_api.Gpus.{NodeSelector, compute_multiplier}
use chutes_api.Deployment.Tables.{done, Env, ChuteArgs, User, Image, Chute, Store, server_error}
use chutes_api.Deployment.Checks.{find_chute, deployment_fee}
use chutes_api.Deployment.Writes.{
  check_functions, start_rolling, store_chute, push_fee, begin_update, purge, written,
}
use chutes_api.Deployment.Deploy.{deploy_chute}
use chutes_api.Deployment.Accepted.{
  deploy_chute-IsAccepted, done_inj, >>=-eq-done, the-eq-done, require-eq-done,
}

abbrev due_of : (user_id chute_id : String) → Dict (Dict ℕ) → ℕ
due_of user_id chute_id pending = get_or (lookup chute_id (get_or (lookup user_id pending) [])) 0

-- The amount under `balance:{user_id}:{chute_id}`.
abbrev amount_due : Store → (user_id chute_id : String) → ℕ
amount_due s user_id chute_id = due_of user_id chute_id s.pending

start_rolling-pending :
    (chute : Chute) (version : String) (s : Store)
    → (start_rolling chute version s).pending ≡ s.pending
unfolding start_rolling
start_rolling-pending chute version s = ground arith

purge-pending :
    (rolling : Bool) (existing : Option Chute) (s : Store)
    → (purge rolling existing s).pending ≡ s.pending
unfolding purge
purge-pending rolling none s = refl
purge-pending true (some chute) s = refl
purge-pending false (some chute) s = refl

-- The fee is due under the key of the user and the chute of the name that was given.
module _ (env : Env) (args : ChuteArgs) (user : User) (fee : ℕ) (s : Store) where
  abbrev chute_key : String
  chute_key = env.chute_id_of user.username args.name

  push_fee-due :
      (user.free_account ≡ true → fee ≡ 0)
      → amount_due (push_fee env args user fee s) user.user_id chute_key
        ≡ amount_due s user.user_id chute_key + fee
  unfolding push_fee
  push_fee-due free = elim (Bool-cases (fee == 0 || user.free_account)) [
    | inl nothing ↦ rw nothing (ground arith)
    | inr something ↦
        rw (something, lookup-insert_self user.user_id, lookup-insert_self chute_key) refl
  ]

due-same :
    (env : Env) (args : ChuteArgs) (user : User) (fee : ℕ) (s t : Store)
    → s.pending ≡ t.pending
    → (push_fee env args user fee s).pending ≡ (push_fee env args user fee t).pending
unfolding push_fee
due-same env args user fee s t e = elim (Bool-cases (fee == 0 || user.free_account)) [
  | inl nothing ↦ rw nothing e
  | inr something ↦ rw (something, e) refl
]

module _ (env : Env) (args : ChuteArgs) (user : User) where
  -- Of all that an accepted deployment writes only the fee is due.
  store_chute-pending :
      (image : Image) (selector : NodeSelector) (version : String) (fee : ℕ) (rolling : Bool)
      (existing : Option Chute) (s s' : Store)
      → store_chute env args user image selector version fee rolling existing s ≡ done s'
      → s'.pending ≡ (push_fee env args user fee s).pending
  unfolding store_chute begin_update
  store_chute-pending image selector version fee rolling none s s' e =
      let chute = written env args user image selector version none in
      let saved = record s { chutes = insert chute.chute_id chute s.chutes } in
      let (u, checked, e') = >>=-eq-done (check_functions chute) _ e in
      let whole : purge rolling none (push_fee env args user fee saved) ≡ s' =
        done_inj _ _ (require-eq-done _ _ _ e').1 in
      sym (ap (λ (t : Store). t.pending) whole)
      ∙ purge-pending rolling none _
      ∙ due-same env args user fee saved s refl
  store_chute-pending image selector version fee rolling (some old) s s' e =
      let chute = written env args user image selector version (some old) in
      let begun = start_rolling old version s in
      let saved = record begun { chutes = insert chute.chute_id chute begun.chutes } in
      let (u, checked, e') = >>=-eq-done (check_functions chute) _ e in
      let whole : purge rolling (some old) (push_fee env args user fee saved) ≡ s' =
        done_inj _ _ (require-eq-done _ _ _ e').1 in
      sym (ap (λ (t : Store). t.pending) whole)
      ∙ purge-pending rolling (some old) _
      ∙ due-same env args user fee saved s (start_rolling-pending old version s)

  -- The fee of a chute that is new, and of others.
  deployment_fee-cases :
      (selector : NodeSelector) (existing : Option Chute) (fee : ℕ)
      → deployment_fee env selector user existing ≡ done fee
      → (user.free_account ≡ true → fee ≡ 0)
        × (is_none existing ≡ false → fee ≡ 0)
        × (user.free_account ≡ false
            → is_none existing ≡ true
            → (multiplier : ℕ) × (compute_multiplier env.gpus selector ≡ some multiplier)
              × (fee ≡ selector.gpu_count * (env.price * multiplier) * 3))
  unfolding deployment_fee
  deployment_fee-cases selector existing fee e = elim (Bool-cases env.tao_price_known) [
    | inl known ↦
        let (m, is_m, e') =
          the-eq-done (compute_multiplier env.gpus selector) server_error _
            (rw (known, deployment_fee) at e) in
        let is_fee : (if user.free_account || not (is_none existing)
              then 0
              else selector.gpu_count * (env.price * m) * 3)
            ≡ fee =
          cc in
        (λ f. ground arith, λ n. ground arith, λ f n. (m, is_m, ground arith))
    | inr unknown ↦ ground arith
  ]

  -- What is known of the charge, `s` and `s'` being the stores before and after.
  abbrev pub IsCharged : (accept_fee : Bool) (s s' : Store) → Type 0
  IsCharged accept_fee s s' =
      (existing : Option Chute) × (fee : ℕ) × (find_chute env args user s ≡ done existing)
      × (amount_due s' user.user_id (env.chute_id_of user.username args.name)
          ≡ amount_due s user.user_id (env.chute_id_of user.username args.name) + fee)
      × (user.free_account ≡ true → fee ≡ 0)
      × (is_none existing ≡ false → fee ≡ 0)
      × (user.free_account ≡ false
          → is_none existing ≡ true
          → (multiplier : ℕ) × (compute_multiplier env.gpus args.node_selector ≡ some multiplier)
            × (fee ≡ args.node_selector.gpu_count * (env.price * multiplier) * 3))
      × ((fee ≡ 0) ⊎ (accept_fee ≡ true))
      × (user.free_account ≡ false → fee < user.balance)

  -- An accepted deployment charges, under the key of the user and of the named chute: nothing if the chute was
  -- there before or the user's account is free; else three times the number of GPUs times the hourly
  -- price of the whole node, which counts the number of GPUs once more. That is charged only if the
  -- user agreed to a fee or there is none, and has more than the fee.
  pub deploy_chute-fee :
      (found : Option Image) (rolling accept_fee : Bool) (s s' : Store)
      → deploy_chute env args user found rolling accept_fee s ≡ done s'
      → IsCharged accept_fee s s'
  deploy_chute-fee found rolling accept_fee s s' e =
      let a = deploy_chute-IsAccepted env args user found rolling accept_fee s s' e in
      let cases = deployment_fee-cases args.node_selector a.existing a.fee a.is_fee in
      let due =
        store_chute-pending a.image a.selector (env.version_of a.image.image_id args.code) a.fee
          rolling a.existing s s' a.stored in
      (
        a.existing,
        a.fee,
        a.is_existing,
        ap (due_of user.user_id (chute_key env args user a.fee s)) due
            ∙ push_fee-due env args user a.fee s cases.0,
        cases.0,
        cases.1,
        cases.2,
        agreed_cases a.fee accept_fee a.agreed,
        λ f. affordable_lt a.fee f a.affordable,
      )
    where
      agreed_cases :
          (fee : ℕ) (accept : Bool) → (fee == 0 || accept) ≡ true → (fee ≡ 0) ⊎ (accept ≡ true)
      agreed_cases fee true h = inr refl
      agreed_cases fee false h = inl (ground arith)

      affordable_lt :
          (fee : ℕ)
          → user.free_account ≡ false
          → not (leb user.balance fee && not user.free_account) ≡ true
          → fee < user.balance
      affordable_lt fee f h = ground arith
