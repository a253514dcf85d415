-- ===== src/Deployment/Accepted.antt =====
-- What every accepted deployment has passed.
use chutes_api.Base.{
  ℕ, ◌≡◌, refl, Bool, true, false, not, ◌&&◌, ◌||◌, Option, none, some, leb, ◌==◌,
}
use chutes_api.Gpus.{NodeSelector, supported_gpus}
use chutes_api.Deployment.Tables.{
  Result, done, refuse, Refusal, ◌>>=◌, ◌>>◌, require, the, Env, ChuteArgs, User, Image, Chute,
  Store,
}
use chutes_api.Deployment.Checks.{find_chute, deployment_fee, restrict, check_image}
use chutes_api.Deployment.Writes.{store_chute}
use chutes_api.Deployment.Deploy.{deploy_chute}

pub >>=-eq-done :
    {A B : Type 0} (m : Result A) (f : A → Result B) {b : B}
    → (m >>= f) ≡ done b
    → (a : A) × (m ≡ done a) × (f a ≡ done b)
>>=-eq-done (done a) f e = (a, refl, e)
>>=-eq-done (refuse r) f e = absurd cc

pub done_inj : {A : Type 0} (a b : A) → done a ≡ done b → a ≡ b
done_inj a b e = cc

pub require-eq-done :
    {B : Type 0} (test : Bool) (r : Refusal) (k : Result B) {b : B}
    → (require test r >> k) ≡ done b
    → (test ≡ true) × (k ≡ done b)
require-eq-done true r k e = (refl, e)
require-eq-done false r k e = absurd cc

pub require-eq-tt : (test : Bool) (r : Refusal) → require test r ≡ done tt → test ≡ true
require-eq-tt true r e = refl
require-eq-tt false r e = absurd cc

pub the-eq-done :
    {A B : Type 0} (o : Option A) (r : Refusal) (f : A → Result B) {b : B}
    → (the o r >>= f) ≡ done b
    → (a : A) × (o ≡ some a) × (f a ≡ done b)
the-eq-done none r f e = absurd cc
the-eq-done (some a) r f e = (a, refl, e)

module _ (env : Env) (args : ChuteArgs) (user : User) (found : Option Image)
    (rolling accept_fee : Bool) (s s' : Store) where
  pub record IsAccepted : Type 0 where
    pub image : Image
    pub existing : Option Chute
    pub fee : ℕ
    pub selector : NodeSelector
    pub is_image : found ≡ some image
    pub may_publish : not (args.public && not user.public_model_deployment) ≡ true
    pub image_public : not (args.public && not image.public) ≡ true
    pub is_existing : find_chute env args user s ≡ done existing
    pub is_fee : deployment_fee env args.node_selector user existing ≡ done fee
    pub agreed : (fee == 0 || accept_fee) ≡ true
    pub affordable : not (leb user.balance fee && not user.free_account) ≡ true
    pub is_selector : restrict env user args.node_selector ≡ done selector
    pub checked : check_image env args user image existing ≡ done tt
    pub stored :
        store_chute env args user image selector
          (env.version_of image.image_id args.code)
          fee
          rolling
          existing
          s
        ≡ done s'

  pub deploy_chute-IsAccepted :
      deploy_chute env args user found rolling accept_fee s ≡ done s' → IsAccepted
  unfolding deploy_chute
  deploy_chute-IsAccepted e =
      let may = require-eq-done _ _ _ e in
      let (image, is_image, e₁) = the-eq-done found _ _ may.1 in
      let pub_image = require-eq-done _ _ _ e₁ in
      let (existing, is_existing, e₂) = >>=-eq-done (find_chute env args user s) _ pub_image.1 in
      let differs = require-eq-done _ _ _ e₂ in
      let (gpus, is_gpus, e₃) =
        the-eq-done (supported_gpus env.gpus args.node_selector) _ _ differs.1 in
      let other_gpus = require-eq-done _ _ _ e₃ in
      let (fee, is_fee, e₄) =
        >>=-eq-done (deployment_fee env args.node_selector user existing) _ other_gpus.1 in
      let agreed = require-eq-done _ _ _ e₄ in
      let affordable = require-eq-done _ _ _ agreed.1 in
      let (selector, is_selector, e₅) =
        >>=-eq-done (restrict env user args.node_selector) _ affordable.1 in
      let (u, checked, e₆) = >>=-eq-done (check_image env args user image existing) _ e₅ in
      record {
        image = image;
        existing = existing;
        fee = fee;
        selector = selector;
        is_image = is_image;
        may_publish = may.0;
        image_public = pub_image.0;
        is_existing = is_existing;
        is_fee = is_fee;
        agreed = agreed.0;
        affordable = affordable.0;
        is_selector = is_selector;
        checked = checked;
        stored = e₆;
      }
