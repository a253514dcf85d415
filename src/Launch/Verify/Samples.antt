-- ===== src/Launch/Verify/Samples.antt =====
-- A proof of work that is accepted.
use chutes_api.Base.{
  ◌≡◌, refl, true, false, [], ◌∷◌, none, some, lookup, insert, first_where, choose, nth_or,
}
use chutes_api.Launch.{LaunchConfig, Instance, Store, go, save_config}
use chutes_api.Launch.Entry.Loading.{load_launch_config-again}
use chutes_api.Launch.Course.{committed}
use chutes_api.Launch.Verify.{
  Checks, Response, in_time, answers, proves, check_fsv, ports_open, start_job, accept, check_work,
  verify_launch_config_instance,
}
use chutes_api.Launch.Verify.Accepted.{IsAccepted, verify_launch_config_instance-IsAccepted}
use chutes_api.Launch.Samples.{config, empty_store}

abbrev pub retrieved : LaunchConfig
retrieved = record config { retrieved_at = some 25; seed = 7 }

abbrev pub instance : Instance
instance = record {
  instance_id = "i1";
  config_id = "k1";
  chute_id = "c1";
  miner_hotkey = "alice";
  host = "10.0.0.1";
  port = 30000;
  symmetric_key = "s";
  port_mappings = [];
  compute_multiplier = 1;
  billed_to = none;
  verified = false;
  active = false;
  activated_at = none;
  stop_billing_at = none;
}

abbrev pub claimed_store : Store
claimed_store = record empty_store {
  configs = ("k1", retrieved) ∷ [];
  instances = ("i1", instance) ∷ [];
  instance_nodes = ("n1", "i1") ∷ [];
}

abbrev checks : Checks
checks = record {
  decode = λ token. some "k1";
  aes_decrypt = λ text. λ key. λ iv. some text;
  plaintext = λ id. λ seed. "secret";
  draw = 0;
  verify_proof = λ n. λ seed. λ work. true;
  recent = λ version. true;
  cfsv_op = false;
  fs_hash = λ c. λ seed. "hash";
  port_open = λ i. λ p. true;
}

abbrev response : Response
response = record {
  response = some "secret";
  iv = some "iv";
  proof = ("n1", "work") ∷ [];
  fsv = none;
}

abbrev verified_store : Store
verified_store =
    committed (λ t. t) (verify_launch_config_instance checks 60 "k1" "token" response claimed_store)

accepts :
    verify_launch_config_instance checks 60 "k1" "token" response claimed_store ≡ go verified_store
unfolding verify_launch_config_instance check_work accept start_job in_time answers proves check_fsv
    ports_open save_config lookup insert first_where choose nth_or
accepts =
    rw
      (load_launch_config-again 60 checks.decode "k1" "token" claimed_store retrieved 25 refl refl
        refl)
      refl

verify_launch_config_instance-IsAccepted_example :
    IsAccepted checks 60 "k1" response claimed_store verified_store
verify_launch_config_instance-IsAccepted_example =
    verify_launch_config_instance-IsAccepted checks 60 "k1" "token" response claimed_store
      verified_store accepts
