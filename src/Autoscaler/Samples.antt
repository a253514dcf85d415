-- ===== src/Autoscaler/Samples.antt =====
-- Chutes of several kinds, and what a pass does with them.
use chutes_api.Base.{
  ℕ, ◌-◌, ◌≤◌, min, ◌≡◌, refl, true, false, List, [], ◌∷◌, none, some, String, str_eq, contains,
  keep, length, All, arith, if◌then◌else◌,
}
use chutes_api.Autoscaler.Types.{Info, Metrics, failsafe_of, limit_override}
use chutes_api.Autoscaler.Decide.{
  num_to_remove, removal_step, decide_public, decide, is_private, decide_running, by_metrics,
  shrink,
}
use chutes_api.Autoscaler.Decide.Balance.{IsBalanced, decide-IsBalanced}
use chutes_api.Autoscaler.Decide.Limits.{decide_public-Keeps}
use chutes_api.Autoscaler.Plan.{World, empty_plan, analyze}
use chutes_api.Autoscaler.Plan.Listed.{Recorded, analyze-to_downsize}
use chutes_api.Autoscaler.Downsize.{Instance, Chute, is_established, downsize, candidates}
use chutes_api.Autoscaler.Downsize.Counts.{matching, mismatches, length-downsize}

-- A public chute that is neither new nor in an update, with that many instances.
abbrev chute_of : (name : String) (instance_count : ℕ) → Info
chute_of name instance_count = record {
  chute_id = "3f0c";
  public = true;
  name = name;
  user_id = "u1";
  created_at = 1_760_000_000;
  max_instances = 4;
  scaling_threshold = 750000;
  new_chute = false;
  instance_count = instance_count;
  has_rolling_update = false;
}

abbrev used : (utilization : ℕ) → Metrics
used utilization = record {
  utilization_5m = utilization;
  utilization_15m = utilization;
  utilization_1h = utilization;
  rate_limit_5m = 0;
  rate_limit_15m = 0;
  rate_limit_1h = 0;
}

abbrev idle : Info
idle = chute_of "qwen" 20

program : Unit {0}
unfolding decide decide_public decide_running by_metrics shrink num_to_remove removal_step
    is_private limit_override failsafe_of
program = tt

decide-idle : (decide "root" false (some idle) (used 50000)).down ≡ some 3
unfolding program
decide-idle = refl

decide-IsBalanced_example : IsBalanced 20 (decide "root" false (some idle) (used 50000))
decide-IsBalanced_example = decide-IsBalanced "root" false idle (used 50000)

decide_public-Keeps_example : 19 ≤ (decide_public idle (used 50000) none (some 19)).target
decide_public-Keeps_example = decide_public-Keeps idle (used 50000) (some 19) 1 removes
  where
    removes : (decide_public idle (used 50000) none (some 19)).down ≡ some 1
    removes = unfold program in refl

world : World
world = record {
  chutes_user_id = "root";
  chute_info = λ chute_id. if str_eq chute_id "3f0c" then some idle else none;
  check_bounty_exists = λ chute_id. false;
}

abbrev measured : List (String × Metrics)
measured = ("3f0c", used 50000) ∷ ("77aa", used 900000) ∷ []

analyze-to_downsize_example :
    let plan = analyze world empty_plan measured in All (Recorded world plan) plan.to_downsize
analyze-to_downsize_example =
    analyze-to_downsize world measured (unfold contains in (refl, (refl, tt)))

abbrev instance_at : (instance_id : String) (created_at node_count : ℕ) → Instance
instance_at instance_id created_at node_count = record {
  instance_id = instance_id;
  verified = true;
  active = true;
  job_id = none;
  created_at = created_at;
  node_count = node_count;
}

-- One instance has the wrong number of nodes, and one is too young to be drawn.
abbrev pool : List Instance
pool =
    instance_at "a" 100 2
    ∷ instance_at "b" 200 2
    ∷ instance_at "c" 300 1
    ∷ instance_at "d" 400 2
    ∷ instance_at "e" 9000 2
    ∷ instance_at "f" 500 2
    ∷ []

abbrev chute : Chute
chute = record { rolling_update = false; gpu_count = 2; instances = pool }

tests : Unit {0}
unfolding keep candidates contains
tests = tt

length-downsize_example :
    length (downsize 10000 (λ idx. idx) (some chute) 9).unlucky
    ≡ min (9 - length (mismatches chute)) (length (keep (is_established 10000) (matching chute)))
length-downsize_example =
    length-downsize 10000 (λ idx. idx) chute 9
      (unfold tests in (refl, (refl, (refl, (refl, (refl, (refl, tt))))))) refl
      (unfold tests in omega arith)
