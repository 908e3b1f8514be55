-- ===== src/Tests/Safety.antt =====
-- Runs of the breaker, the tripwire, the caps and the limiter.
use phantom_traffic.Prelude.{◌≡◌, ◌↔◌, refl, true, false, List, [], ◌∷◌, none, some, arith}
use phantom_traffic.Prelude.Int.{ℤ, pos, int64, ◌+ℤ◌, ◌-ℤ◌, ◌<ℤ◌}
use phantom_traffic.Prelude.Clock.{since}
use phantom_traffic.Safety.Breaker.{Breaker, breaker_closed, breaker_open, new_breaker}
use phantom_traffic.Safety.Breaker.Trace.{
  Call, allows, fails, succeeds, Inv, apply_all, new_breaker-Inv,
}
use phantom_traffic.Safety.Tripwire.{Tripwire, new_tripwire}
use phantom_traffic.Safety.Tripwire.Budget.{count_all, count_all-new_tripwire}
use phantom_traffic.Safety.Caps.{
  Ceiling, CapSpec, validate_caps, append_int_violation, append_float_violation, effective,
  divided_by,
}
use phantom_traffic.Safety.Caps.Soundness.{
  CapsOk, IsBounded, validate_caps-nil, effective-IsBounded,
}
use phantom_traffic.Safety.Caps.Fleet.{Fits, divided_by_fleet}
use phantom_traffic.Safety.Bucket.{TokenBucket, Reading, refill, try_take, give_back}
use phantom_traffic.Safety.Limiter.{Limiter, Reservation, Readings, acquire, safety_err, bucket_for}
use phantom_traffic.Safety.Limiter.Tokens.{AllKept, acquire_refused}
use phantom_traffic.Prelude.Dict.{get, put}
use phantom_traffic.Prelude.Float.{seconds}
use phantom_traffic.Tests.Floats.{Toy, toy, over, toy_irrefl, toy_Exact}

abbrev breaker_calls : List Call
breaker_calls = fails 1 ∷ allows 2 ∷ fails 3 ∷ fails 4 ∷ allows 50 ∷ succeeds ∷ fails 60 ∷ []

new_breaker-Inv_example : Inv (apply_all breaker_calls (new_breaker (pos 3) (pos 10)))
new_breaker-Inv_example = new_breaker-Inv (pos 3) (pos 10) breaker_calls (omega arith) (omega arith)

abbrev one_failed : Breaker
one_failed = record {
  threshold = pos 3;
  cooldown = pos 10;
  state = breaker_closed;
  fails = pos 1;
  opened_at = 0;
}

abbrev opened : Breaker
opened = record one_failed { state = breaker_open; opened_at = 100 }

abbrev latched_wire : Tripwire
latched_wire = record { budget = pos 2; count = pos 3; tripped = true; reason = "operator" }

count_all-new_tripwire_example : (count_all 4 (new_tripwire (pos 3))).tripped ≡ true
count_all-new_tripwire_example = count_all-new_tripwire (pos 3) 4 (omega arith)

abbrev ceiling : Ceiling Toy
ceiling = record {
  per_target_rps = some (pos 10);
  global_rps = some (pos 50);
  max_concurrent_sessions = pos 100;
  total_request_budget = pos 1000;
  streaming_byte_rate_kbps = pos 500;
  concurrent_streams = pos 4;
  per_session_max_duration = pos 60000000000;
  per_session_max_actions = pos 20;
}

abbrev caps : CapSpec Toy
caps = record {
  per_target_rps = some (pos 5);
  global_rps = some (pos 0);
  max_concurrent_sessions = pos 7;
  total_request_budget = pos 0;
  streaming_byte_rate_kbps = pos 500;
  concurrent_streams = pos 1;
  per_session_max_duration_seconds = pos 30;
  per_session_max_actions = pos 0;
}

caps_pass : validate_caps toy caps ceiling false ≡ []
unfolding validate_caps append_int_violation append_float_violation seconds over ◌+ℤ◌
caps_pass = refl

validate_caps-nil_example :
    (validate_caps toy caps ceiling false ≡ []) ↔ CapsOk toy caps ceiling false
validate_caps-nil_example = validate_caps-nil toy caps ceiling false

effective-IsBounded_example : IsBounded toy (effective toy caps ceiling) ceiling
unfolding seconds over ◌+ℤ◌
effective-IsBounded_example =
    effective-IsBounded toy caps ceiling toy_irrefl
      (record {
        per_target_rps = refl;
        global_rps = refl;
        max_concurrent_sessions = omega arith;
        total_request_budget = omega arith;
        streaming_byte_rate_kbps = omega arith;
        concurrent_streams = omega arith;
        per_session_max_duration = omega arith;
        per_session_max_actions = omega arith;
      })
      caps_pass

divided_by_fleet_example :
    let d = divided_by toy ceiling (pos 8) in
    Fits 8 (pos 100) d.max_concurrent_sessions
    × Fits 8 (pos 1000) d.total_request_budget
    × Fits 8 (pos 500) d.streaming_byte_rate_kbps
    × Fits 8 (pos 4) d.concurrent_streams
    × (d.per_target_rps ≡ toy.fdiv ceiling.per_target_rps (toy.of_int (pos 8)))
    × (d.global_rps ≡ toy.fdiv ceiling.global_rps (toy.of_int (pos 8)))
    × (d.per_session_max_duration ≡ pos 60000000000)
    × (d.per_session_max_actions ≡ pos 20)
    × ((k : ℤ) → k <ℤ pos 1 → divided_by toy ceiling k ≡ divided_by toy ceiling (pos 1))
divided_by_fleet_example =
    divided_by_fleet toy ceiling 8 (omega arith) (omega arith) (omega arith) (omega arith)
      (omega arith)

abbrev bucket : ℤ → TokenBucket Toy
bucket n = record { rps = some (pos 5); burst = some (pos 5); tokens = some n; last = 10 }

abbrev limiter : Limiter Toy
limiter = record {
  per_target = ("web", bucket (pos 3)) ∷ [];
  global = bucket (pos 0);
  bytes = none;
  pt_rps = some (pos 5);
  g_rps = some (pos 5);
  byte_rate = some (pos 0);
  blocked_nanos = pos 0;
  since_start = 0;
}

abbrev readings : Readings
readings = record {
  start = 10;
  created = 10;
  target = record { now = 10; measured = 10 };
  global = record { now = 10; measured = 10 };
  bytes = record { now = 10; measured = 10 };
  stop = 12;
}

abbrev after_refusal : Limiter Toy
after_refusal = record limiter { per_target = ("web", bucket (pos 3)) ∷ []; blocked_nanos = pos 2 }

acquire_refused_example : AllKept toy readings "web" limiter after_refusal
unfolding acquire bucket_for refill try_take give_back safety_err since get put int64 ◌+ℤ◌ ◌-ℤ◌
acquire_refused_example =
    acquire_refused toy none none readings "web" (pos 0) limiter after_refusal
      (safety_err "global request cap exceeded") toy_Exact
      (record { target_small = refl; global_small = refl }) refl

abbrev reservation : Reservation Toy
reservation = record {
  reserved_bytes = some (pos 9);
  actual_bytes = some (pos 4);
  reconciled = true;
  released = false;
}

abbrev streaming : Limiter Toy
streaming = record limiter { bytes = some (bucket (pos 2)) }

abbrev three_readings : List Reading
three_readings =
    record { now = 10; measured = 10 }
    ∷ record { now = 10; measured = 10 }
    ∷ record { now = 11; measured = 11 }
    ∷ []
