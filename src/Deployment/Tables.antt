-- ===== src/Deployment/Tables.antt =====
-- What a deployment reads and writes, and how it is refused.
use chutes_api.Base.{
  ℕ, Bool, true, false, ◌&&◌, ◌||◌, List, Option, none, some, String, Dict, ltb, ◌==◌,
}
use chutes_api.Gpus.{Gpu, NodeSelector}

-- HTTP 400, 409, 403, 402, and 500 where nothing catches an exception.
pub data Refusal : Type 0 where
  bad_request conflict forbidden payment_required server_error : Refusal

pub data Result (A : Type 0) : Type 0 where
  done : A → Result A
  refuse : Refusal → Result A

infixl 5 ◌>>=◌ ◌>>◌
abbrev pub ◌>>=◌ : {A B : Type 0} → Result A → (A → Result B) → Result B
done a >>= f = f a
refuse r >>= f = refuse r

abbrev pub ◌>>◌ : {B : Type 0} → Result (Unit {0}) → Result B → Result B
m >> k = m >>= λ _. k

abbrev pub require : Bool → Refusal → Result (Unit {0})
require true r = done tt
require false r = refuse r

abbrev pub the : {A : Type 0} → Option A → Refusal → Result A
the none r = refuse r
the (some a) r = done a

-- A version of the SDK, as `semcomp` compares it.
pub record Version : Type 0 where
  pub major : ℕ
  pub minor : ℕ
  pub patch : ℕ

-- `semcomp(version, target) < 0`
unfoldable pub semcomp_below : (version target : Version) → Bool
semcomp_below version target =
    ltb version.major target.major
    || (version.major == target.major
        && (ltb version.minor target.minor
            || (version.minor == target.minor && ltb version.patch target.patch)))

abbrev pub oldest_sdk : Version
oldest_sdk = record { major = 0; minor = 3; patch = 18 }

pub record Image : Type 0 where
  pub image_id : String
  pub user_id : String
  pub name : String
  pub public : Bool
  pub chutes_version : Option Version

-- The roles are those of api/permissions.py; `affine` is `is_affine_registered`.
pub record User : Type 0 where
  pub user_id : String
  pub username : String
  pub balance : ℕ
  pub free_account : Bool
  pub unlimited_dev : Bool
  pub public_model_deployment : Bool
  pub affine : Bool

pub record ChuteArgs : Type 0 where
  pub name : String
  pub code : String
  pub public : Bool
  pub node_selector : NodeSelector
  pub standard_template : Option String
  pub revision : Option String
  pub has_cords : Bool
  pub has_jobs : Bool
  pub logging_enabled : Bool
  pub max_instances : Option ℕ
  pub shutdown_after_seconds : Option ℕ

pub record Chute : Type 0 where
  pub chute_id : String
  pub user_id : String
  pub name : String
  pub image_id : String
  pub code : String
  pub version : String
  pub public : Bool
  pub node_selector : NodeSelector
  pub standard_template : Option String
  pub revision : Option String
  pub has_cords : Bool
  pub has_jobs : Bool
  pub logging_enabled : Bool
  pub max_instances : Option ℕ
  pub shutdown_after_seconds : Option ℕ
  pub chutes_version : Option Version

pub record Instance : Type 0 where
  pub instance_id : String
  pub chute_id : String
  pub miner_hotkey : String

pub record RollingUpdate : Type 0 where
  pub old_version : String
  pub new_version : String
  pub permitted : Dict ℕ

-- The tables by their keys, and the amounts that wait in redis under `balance:{user_id}:{chute_id}`.
pub record Store : Type 0 where
  pub chutes : Dict Chute
  pub instances : List Instance
  pub rolling_updates : Dict RollingUpdate
  pub pending : Dict (Dict ℕ)

-- What is not the repository's: `ilike` of the database, the uuid5 of two texts and whether the price of tao
-- is known. `price` is COMPUTE_UNIT_PRICE_BASIS.
pub record Env : Type 0 where
  pub gpus : Dict Gpu
  pub price : ℕ
  pub tao_price_known : Bool
  pub chutes_user : String
  pub ilike : (name pattern : String) → Bool
  pub version_of : (image_id code : String) → String
  pub chute_id_of : (username name : String) → String
