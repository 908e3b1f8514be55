-- ===== src/Tests/Runs.antt =====
-- Runs of what Start makes of a scenario.
use phantom_traffic.Prelude.{
  ◌+◌, ◌-◌, Bool, ltb, leb, ◌||◌, ◌≡◌, [], ◌∷◌, none, some, arith, if◌then◌else◌, ◌++◌, ◌≤◌, List,
  true, false, refl, not, ◌&&◌,
}
use phantom_traffic.Prelude.Int.{pos}
use phantom_traffic.Prelude.Clock.{Time, Location, IsFixed, utc}
use phantom_traffic.Prelude.Dict.{get}
use phantom_traffic.Clock.{Call, adds, advances, sets, new_fake, run, stop}
use phantom_traffic.Clock.Once.{count, run_once}
use phantom_traffic.Engine.Stats.{new_shard, new_collector}
use phantom_traffic.Engine.Supervisor.{
  Turn, gate_closed, timer_fired, run_block_duration, is_seen, target_ids_of, make_breakers,
}
use phantom_traffic.Engine.Supervisor.OpenTime.{
  open_time, IsTimely, IsMeasured, run_block_duration-IsMeasured,
}
use phantom_traffic.Engine.Supervisor.Launch.{is_named, NoRepeat, fresh, target_ids_of-covers}
use phantom_traffic.Scenario.Validate.{all_targets}
use phantom_traffic.Tests.Traffic.{demo}
use phantom_traffic.Scenario.{Schedule}
use phantom_traffic.Schedule.{active, next_transition, in_window, on_day}
use phantom_traffic.Schedule.Weekly.{IsNext, next_transition-IsNext}
use phantom_traffic.Engine.Gate.{Gate, new_gate, is_open}
use phantom_traffic.Engine.Scheduler.{
  System, system, looks, sleeps, set_gate, phase_after, Reaches, here, next_step, round, tick, wake,
}
use phantom_traffic.Engine.Scheduler.Follows.{scheduler_follows}

-- The gate is open for 30, shut for 470, and open for the 70 that remain.
abbrev gate_at : Time → Bool
gate_at v = ltb v 63900000000000000030 || leb 63900000000000000500 v

abbrev turns : List Turn
turns =
    gate_closed 63900000000000000000 63900000000000000030
    ∷ timer_fired 63900000000000000500 63900000000000000570
    ∷ []

turns-IsTimely : IsTimely gate_at 100 0 63900000000000000000 turns
turns-IsTimely = (
  omega arith,
  omega arith,
  λ v le lt. ground arith,
  λ v le lt. ground arith,
  (omega arith, omega arith, λ v le lt. ground arith, λ v le lt. ground arith, omega arith),
)

run_block_duration-IsMeasured_example :
    IsMeasured 100 (open_time gate_at 63900000000000000000 570) (run_block_duration (pos 100) turns)
run_block_duration-IsMeasured_example =
    run_block_duration-IsMeasured gate_at 100 63900000000000000000 turns (omega arith)
      turns-IsTimely

target_ids_of-covers_example :
    let named = is_named "example.com:80" (all_targets demo.blocks) in
    let ids = target_ids_of demo in
    (is_seen "example.com:80" ids ≡ named)
    × NoRepeat ids
    × (get "example.com:80" (make_breakers ids) ≡ (if named then some fresh else none))
    × (get "example.com:80" (new_collector ids).shards ≡ (if named then some new_shard else none))
target_ids_of-covers_example = target_ids_of-covers demo "example.com:80"

-- A timer that fires at 15, and one that is stopped before it does.
abbrev two_timers : List Call
two_timers = adds (pos 5) false ∷ adds (pos 9) true ∷ advances (pos 5) ∷ []

run_once_example :
    let (c, log) = run two_timers (new_fake 10) in
    let (c', later) = run (sets 90 ∷ []) (stop 1 c).0 in
    (count 1 (log ++ later) ≤ 1) × ((stop 1 c).1 ≡ true → count 1 (log ++ later) ≡ 0)
run_once_example = run_once 10 two_timers (sets 90 ∷ []) 1

-- Mondays from nine to five; the instant is one nanosecond before nine, a week after the zero time.
abbrev weekdays : Schedule
weekdays = record {
  loc = utc;
  windows =
      record {
        days = false ∷ true ∷ false ∷ false ∷ false ∷ false ∷ false ∷ [];
        start = 32400000000000;
        end = 61200000000000;
      }
      ∷ [];
}

utc-IsFixed : IsFixed utc 604800000000000
utc-IsFixed = (λ t. refl, λ l h. omega arith)

next_transition-IsNext_example :
    IsNext (active weekdays) 637199999999999 (next_transition weekdays 637199999999999)
next_transition-IsNext_example =
    next_transition-IsNext weekdays 604800000000000 utc-IsFixed 637199999999999
      ((omega arith, omega arith), tt) (omega arith)

abbrev shut_gate : Gate
shut_gate = record {
  operator_paused = false;
  schedule_paused = true;
  close_notify = record { id = 0; is_closed = true };
  op_paused_at = 0;
  op_paused_total = pos 0;
}

abbrev open_gate : Gate
open_gate = record {
  operator_paused = false;
  schedule_paused = false;
  close_notify = record { id = 1; is_closed = false };
  op_paused_at = 0;
  op_paused_total = pos 0;
}

abbrev opened : System
opened = system 637200000000000 open_gate (sleeps 666000000000000)

-- The gate is shut before nine, the loop sleeps, and opens it at nine.
opening : Reaches weekdays (system 637199999999999 new_gate looks) opened
unfolding set_gate new_gate phase_after next_transition in_window on_day
opening =
    next_step _ (system 637200000000000 shut_gate looks) _
      (next_step _ (system 637200000000000 shut_gate (sleeps 637200000000000)) _
        (next_step _ (system 637199999999999 shut_gate (sleeps 637200000000000)) _
          (next_step _ (system 637199999999999 new_gate looks) _ (here _)
            (round 637199999999999 new_gate shut_gate refl))
          (tick 637199999999999 637200000000000 shut_gate (omega arith)))
        (wake 637200000000000 shut_gate))
      (round 637200000000000 shut_gate open_gate refl)

scheduler_follows_example :
    is_open open_gate ≡ (active weekdays 637200000000000 && not open_gate.operator_paused)
scheduler_follows_example =
    scheduler_follows weekdays 604800000000000 utc-IsFixed 637199999999999 opened
      ((omega arith, omega arith), tt) (omega arith) opening (omega arith)

-- Clocks that go from two to three in the night to a Sunday, and Sundays from nine to five.
abbrev spring : Location
spring = record {
  reading = λ t. if leb 525600000000000 t then t + 608400000000000 else t + 604800000000000;
  date = λ l. if leb 1134000000000000 l then l - 608400000000000 else l - 604800000000000;
}

abbrev sundays : Schedule
sundays = record {
  loc = spring;
  windows =
      record {
        days = true ∷ false ∷ false ∷ false ∷ false ∷ false ∷ false ∷ [];
        start = 32400000000000;
        end = 61200000000000;
      }
      ∷ [];
}

-- At midnight the next transition is nine hours on; by then the clocks read ten, and the schedule has
-- been active for an hour.
late_edge :
    (next_transition sundays 518400000000000 ≡ some 550800000000000)
    × (active sundays 518400000000000 ≡ false)
    × (active sundays 547200000000000 ≡ true)
unfolding next_transition in_window on_day active
late_edge = (refl, refl, refl)
