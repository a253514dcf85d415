-- ===== src/Deployment/Deploy.antt =====
-- The whole deployment.
use chutes_api.Base.{Bool, not, ◌&&◌, ◌||◌, Option, leb, ◌==◌}
use chutes_api.Gpus.{supported_gpus}
use chutes_api.Deployment.Tables.{
  ChuteArgs, Env, Image, Result, Store, User, bad_request, conflict, forbidden, payment_required,
  require, server_error, the, ◌>>=◌, ◌>>◌,
}
use chutes_api.Deployment.Checks.{
  check_image, deployment_fee, find_chute, is_only_5090, is_same, restrict,
}
use chutes_api.Deployment.Writes.{store_chute}

unfoldable pub deploy_chute :
    Env
    → ChuteArgs
    → User
    → Option Image
    → (use_rolling_update accept_fee : Bool) → Store
    → Result Store
unfolding find_chute is_only_5090 deployment_fee restrict check_image store_chute
deploy_chute env args user found use_rolling_update accept_fee s = do
  require (not (args.public && not user.public_model_deployment)) bad_request
  image ← the found bad_request
  require (not (args.public && not image.public)) conflict
  let version = env.version_of image.image_id args.code
  existing ← find_chute env args user s
  require (not (is_same version args.public existing)) conflict
  gpus ← the (supported_gpus env.gpus args.node_selector) server_error
  require (not (is_only_5090 gpus)) forbidden
  fee ← deployment_fee env args.node_selector user existing
  require (fee == 0 || accept_fee) payment_required
  require (not (leb user.balance fee && not user.free_account)) payment_required
  selector ← restrict env user args.node_selector
  check_image env args user image existing
  store_chute env args user image selector version fee use_rolling_update existing s
