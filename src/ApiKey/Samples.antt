-- ===== src/ApiKey/Samples.antt =====
-- A key, its scopes, and the requests it is used for.
use chutes_api.Base.{Text, ◌≡◌, refl, true, arith, some, codes, All}
use chutes_api.ApiKey.Token.{generate_key, identify, is_hex, is_alphanumeric}
use chutes_api.ApiKey.Token.Uuids.{Uuid, uuid_text}
use chutes_api.ApiKey.Token.RoundTrip.{identify-generate_key}

abbrev key_id : Uuid
unfolding is_hex
key_id = record {
  time_low = codes "0a1b2c3d";
  time_mid = codes "4e5f";
  time_high = codes "4678";
  clock = codes "9abc";
  node = codes "def012345678";
  low_IsGroup = (refl, (refl, (refl, (refl, (refl, (refl, (refl, (refl, (refl, tt)))))))));
  mid_IsGroup = (refl, (refl, (refl, (refl, (refl, tt)))));
  high_IsGroup = (refl, (refl, (refl, (refl, (refl, tt)))));
  clock_IsGroup = (refl, (refl, (refl, (refl, (refl, tt)))));
  node_IsGroup = (
    refl,
    (
      refl,
      (refl, (refl, (refl, (refl, (refl, (refl, (refl, (refl, (refl, (refl, (refl, tt))))))))))),
    ),
  );
}

abbrev secret : Text
secret = codes "abcdefghijklmnopqrstuvwxyzABC012"

secret-IsAlphanumeric : All (λ d. is_alphanumeric d ≡ true) secret
unfolding is_alphanumeric
secret-IsAlphanumeric = ground arith

identify-generate_key_example :
    identify (generate_key (uuid_text key_id) (uuid_text key_id) secret)
    ≡ some (uuid_text key_id, uuid_text key_id)
identify-generate_key_example =
    identify-generate_key key_id key_id secret refl secret-IsAlphanumeric
