-- ===== src/Deployment/Samples.antt =====
-- A new chute, and an update of it.
use chutes_api.Base.{
  ◌≡◌, refl, true, false, none, some, [], ◌∷◌, lookup, insert, contains, keep, str_eq, is_prefix,
}
use chutes_api.Gpus.{
  compute_multiplier, supported_gpus, included, without, fit, rate_of, cheapest, multiply, price_of,
}
use chutes_api.Admission.{Counts}
use chutes_api.Deployment.Tables.{Env, ChuteArgs, User, Image, Chute, Store, done, semcomp_below}
use chutes_api.Deployment.Checks.{
  find_chute, is_privileged, limit_selector, exclude_or_forced, check_image, restrict,
  deployment_fee, is_official,
}
use chutes_api.Deployment.Writes.{
  check_functions, written, purge, push_fee, begin_update, store_chute, is_free,
}
use chutes_api.Deployment.Deploy.{deploy_chute}
use chutes_api.Deployment.Fees.{IsCharged, deploy_chute-fee}
use chutes_api.Deployment.Stored.{StoresOne, deploy_chute-IsSound}

abbrev env : Env
env = record {
  gpus = ("a100", record { memory = 80; hourly_rate = 5 }) ∷ [];
  price = 10;
  tao_price_known = true;
  chutes_user = "platform";
  ilike = str_eq;
  version_of = λ image code. code;
  chute_id_of = λ username name. name;
}

abbrev user : User
user = record {
  user_id = "u";
  username = "dev";
  balance = 1000;
  free_account = false;
  unlimited_dev = false;
  public_model_deployment = false;
  affine = false;
}

abbrev image : Image
image = record {
  image_id = "i";
  user_id = "u";
  name = "own";
  public = false;
  chutes_version = some (record { major = 0; minor = 4; patch = 0 });
}

abbrev args : ChuteArgs
args = record {
  name = "model";
  code = "v2";
  public = false;
  node_selector = record {
    gpu_count = 2;
    min_vram_gb_per_gpu = none;
    exclude = none;
    include = none;
  };
  standard_template = none;
  revision = none;
  has_cords = true;
  has_jobs = false;
  logging_enabled = false;
  max_instances = none;
  shutdown_after_seconds = none;
}

abbrev empty_store : Store
empty_store = record { chutes = []; instances = []; rolling_updates = []; pending = [] }

abbrev chute : Chute
chute = record {
  chute_id = "model";
  user_id = "u";
  name = "model";
  image_id = "i";
  code = "v2";
  version = "v2";
  public = false;
  node_selector = record {
    gpu_count = 2;
    min_vram_gb_per_gpu = none;
    exclude = some ("h200" ∷ "b200" ∷ "mi300x" ∷ []);
    include = none;
  };
  standard_template = none;
  revision = none;
  has_cords = true;
  has_jobs = false;
  logging_enabled = false;
  max_instances = some 1;
  shutdown_after_seconds = some 300;
  chutes_version = some (record { major = 0; minor = 4; patch = 0 });
}

-- Two GPUs at 5, with a price of 10: 2 * (10 * 2 * 5) * 3.
abbrev after : Store
after = record {
  chutes = ("model", chute) ∷ [];
  instances = [];
  rolling_updates = [];
  pending = ("u", ("model", 600) ∷ []) ∷ [];
}

deployed : deploy_chute env args user (some image) true true empty_store ≡ done after
unfolding deploy_chute keep contains insert lookup supported_gpus fit without included
    compute_multiplier price_of multiply cheapest rate_of is_privileged limit_selector
    exclude_or_forced semcomp_below check_functions written purge push_fee begin_update check_image
    store_chute is_free restrict is_prefix deployment_fee find_chute is_official
deployed = refl

deploy_chute-fee_example : IsCharged env args user true empty_store after
deploy_chute-fee_example =
    deploy_chute-fee env args user (some image) true true empty_store after deployed

deploy_chute-IsSound_example : StoresOne env args user (some image) empty_store after
deploy_chute-IsSound_example =
    deploy_chute-IsSound env args user (some image) true true empty_store after deployed

abbrev served : Store
served = record after {
  instances = record { instance_id = "x"; chute_id = "model"; miner_hotkey = "h" } ∷ [];
}

abbrev busy : Counts
busy = record { total_count = 3; active_count = 2; hotkey_count = 1 }
