-- ===== src/Tests/Workers.antt =====
-- Runs of a worker and of a patch.
use phantom_traffic.Prelude.{
  ℕ, zero, suc, ◌≡◌, ◌≢◌, ◌+◌, refl, String, Bool, true, false, [], ◌∷◌, Option, none, some, arith,
}
use phantom_traffic.Prelude.Int.{pos, negsuc}
use phantom_traffic.Pterr.{GoErr, new_error, class_transient}
use phantom_traffic.Audit.{Event}
use phantom_traffic.Protocols.{zero_result, Planned}
use phantom_traffic.Safety.Breaker.{new_breaker}
use phantom_traffic.Safety.Caps.{CapSpec}
use phantom_traffic.Safety.Bucket.{TokenBucket}
use phantom_traffic.Safety.Limiter.{Readings, Reservation}
use phantom_traffic.Engine.Selector.{rotation_sequential}
use phantom_traffic.Engine.Stats.{new_collector, new_shard}
use phantom_traffic.Engine.Worker.Retry.{WorkerDeps, Attempt, answers, Retries}
use phantom_traffic.Engine.Worker.{World, Surroundings, run_action, woken}
use phantom_traffic.Engine.Worker.Permits.{Leaves, run_action-Leaves}
use phantom_traffic.Engine.Worker.Session.{step, Behavior, Round, run_worker}
use phantom_traffic.Engine.Worker.Session.Backstop.{Kept, run_worker-Kept}
use phantom_traffic.Engine.Naming.{Url}
use phantom_traffic.Engine.Patch.{ScenarioPatch, PatchedRun, apply_patch}
use phantom_traffic.Engine.Patch.Guards.{NotRaised, patched_count, accepted, apply_patch-NotRaised}
use phantom_traffic.Engine.Patch.Partial.{refused_patch_applied}
use phantom_traffic.Engine.Patch.Allowed.{AllPermitted, apply_patch-AllPermitted}
use phantom_traffic.Tests.Floats.{Toy, toy, toy_irrefl}

abbrev deps : WorkerDeps
deps = record {
  max_retries = pos 2;
  backoff_base = pos 100;
  backoff_max = pos 1000;
  session_max_actions = pos 2;
}

abbrev planned : Planned
planned = record { protocol = "http"; verb = "get"; target_id = "web" }

-- One transient failure, then a success.
abbrev second_time : ℕ → Attempt ℕ
second_time zero = answers zero_result 1 (some (new_error class_transient "http.5xx" "Do" "busy"))
second_time (suc n) = answers (record zero_result { protocol = "http" }) 2 none

abbrev retries : Retries Toy ℕ
retries = record { attempt = second_time; sleep = λ n d. none; draw = λ n. some (pos 1) }

abbrev bucket : TokenBucket Toy
bucket = record { rps = some (pos 5); burst = some (pos 5); tokens = some (pos 5); last = 10 }

abbrev world : World Toy
world = record {
  breakers = ("web", new_breaker (pos 5) (pos 30000000000)) ∷ [];
  limiter = record {
    per_target = ("web", bucket) ∷ [];
    global = bucket;
    bytes = none;
    pt_rps = some (pos 5);
    g_rps = some (pos 5);
    byte_rate = some (pos 0);
    blocked_nanos = pos 0;
    since_start = 0;
  };
  sem = record { limit = pos 3; held = pos 1 };
  tripwire = record { budget = pos 100; count = pos 0; tripped = false; reason = "" };
  stats = record { global = new_shard; shards = []; target_ids = []; active = pos 0 };
}

abbrev readings : Readings
readings = record {
  start = 10;
  created = 10;
  target = record { now = 10; measured = 10 };
  global = record { now = 10; measured = 10 };
  bytes = record { now = 10; measured = 10 };
  stop = 12;
}

abbrev surroundings : Surroundings Toy ℕ
surroundings = record {
  allowed_at = 10;
  limiter_ctx = none;
  readings = readings;
  sem_ctx = none;
  handler = some retries;
  judged_at = 20;
}

run_action-Leaves_example :
    Leaves 0 toy world (run_action 0 toy deps surroundings planned world)
    × ((rsv : Reservation Toy)
        → Leaves 0 toy world (woken 0 toy deps surroundings planned rsv world))
run_action-Leaves_example =
    run_action-Leaves 0 toy deps surroundings planned world (omega arith, omega arith)

abbrev behavior : Behavior ℕ ℕ
behavior = record { next = λ n. (n, step (some planned)); observe = λ res obs n. n + obs }

abbrev rounds : ℕ → Round Toy ℕ
rounds n = record { gate = none; slept = none; around = surroundings }

run_worker-Kept_example :
    let r = run_worker 0 toy behavior 7 deps rounds 0 0 0 world in
    Kept 0 toy behavior deps 0 world.sem r.actions r.world
unfolding new_shard
run_worker-Kept_example =
    run_worker-Kept 0 toy behavior 7 deps rounds 0 0 0 world.sem 0 world (omega arith)
      (omega arith, omega arith) (record { permits = refl; counted = refl; limited = omega arith })

abbrev caps : CapSpec Toy
caps = record {
  per_target_rps = some (pos 5);
  global_rps = some (pos 20);
  max_concurrent_sessions = pos 7;
  total_request_budget = pos 100;
  streaming_byte_rate_kbps = pos 500;
  concurrent_streams = pos 1;
  per_session_max_duration_seconds = pos 30;
  per_session_max_actions = pos 10;
}

abbrev live_run : PatchedRun Toy
live_run = record {
  id = "run-1";
  agent_id = "agent-1";
  blocks = record { id = "b"; protocol = "http"; targets = [] } ∷ [];
  cap_override = false;
  caps = caps;
  sem = record { limit = pos 3; held = pos 1 };
  weights = ("b", 2) ∷ [];
  selector = record { strategy = rotation_sequential; interval = pos 10; by_proto = [] };
  coll = new_collector [];
  breakers = [];
  log = [];
}

abbrev patch : ScenarioPatch Toy
patch = record {
  caps = some (record {
    per_target_rps = some (some (pos 3));
    global_rps = none;
    total_request_budget = none;
  });
  concurrency = some (pos 4);
  weights = none;
  rotation_int_sec = none;
  targets_add = record { block_id = "b"; addr = "https://web" } ∷ [];
  targets_disable = [];
}

abbrev takes_all : Event → Option GoErr
takes_all e = none

abbrev parse : String → Option Url
parse addr = some (record { scheme = "https"; host = "web"; hostname = "web" })

abbrev permits_all : String → Bool
permits_all host = true

apply_patch-NotRaised_example :
    let (r', err) = apply_patch toy takes_all parse permits_all 50 patch live_run in
    NotRaised toy caps r'.caps × (patched_count r'.log ≡ patched_count [] + accepted err)
apply_patch-NotRaised_example =
    apply_patch-NotRaised toy takes_all parse permits_all 50 patch live_run refl toy_irrefl

apply_patch-AllPermitted_example :
    AllPermitted parse permits_all (apply_patch toy takes_all parse permits_all 50 patch live_run).0
apply_patch-AllPermitted_example =
    apply_patch-AllPermitted toy takes_all parse permits_all 50 patch live_run tt

refused_patch_applied_example :
    let (r', err) =
      apply_patch toy takes_all parse permits_all 50
        (record {
          caps = none;
          concurrency = some (pos 9);
          weights = none;
          rotation_int_sec = some (negsuc 0);
          targets_add = [];
          targets_disable = [];
        })
        live_run in
    (err ≢ none) × (r'.sem.limit ≡ pos 9)
refused_patch_applied_example =
    refused_patch_applied toy takes_all parse permits_all 50 (pos 9) (negsuc 0) [] [] live_run
      (omega arith) (omega arith)
