-- ===== src/Engine/Scheduler.antt =====
-- internal/engine/run.go, runScheduler: the loop that pauses and resumes the gate for the schedule, and
-- the system that it runs in. A round takes no time of the clock. The clock's Sleep is taken to return
-- at the instant that was asked for, or earlier with an error; the operator calls in between.
pub mod Follows
use phantom_traffic.Prelude.{ℕ, ◌+◌, ◌<◌, ◌≡◌, Option, none, some, if◌then◌else◌}
use phantom_traffic.Prelude.Int.{pos, pos_part, leb_ℤ}
use phantom_traffic.Prelude.Clock.{Time, since}
use phantom_traffic.Engine.Gate.{Gate, operator, schedule, pause, resume}
use phantom_traffic.Scenario.{Schedule}
use phantom_traffic.Schedule.{active, next_transition}

-- Where the loop is: at its head, in Sleep until an instant, returned since there is no further
-- transition, or returned since the context was canceled.
pub data Phase : Type 0 where
  looks : Phase
  sleeps : Time → Phase
  returned : Phase
  canceled : Phase

-- `none` is a panic of the gate.
unfoldable pub set_gate : Schedule → Time → Gate → Option Gate
unfolding active pause resume
set_gate s now g = if active s now then some (resume schedule now g) else pause schedule now g

unfoldable pub delay : Time → Time → ℕ
unfolding since
delay next now = if leb_ℤ (since next now) (pos 0) then 1 else pos_part (since next now)

unfoldable pub phase_after : Time → Option Time → Phase
unfolding delay
phase_after now none = returned
phase_after now (some next) = sleeps (now + delay next now)

pub record System : Type 0 where
  pub now : Time
  pub gate : Gate
  pub phase : Phase

abbrev pub system : Time → Gate → Phase → System
system now gate phase = record { now = now; gate = gate; phase = phase }

-- The calls of the operator, by Pause and Resume.
pub data OperatorCall : Type 0 where
  operator_pauses operator_resumes : OperatorCall

unfoldable pub operate : OperatorCall → Time → Gate → Option Gate
unfolding pause resume
operate operator_pauses now g = pause operator now g
operate operator_resumes now g = some (resume operator now g)

pub data Step (s : Schedule) : System → System → Type 0 where
  round :
      (now : Time) (g g' : Gate)
      → set_gate s now g ≡ some g'
      → Step s (system now g looks) (system now g' (phase_after now (next_transition s now)))
  tick :
      (now until : Time) (g : Gate)
      → now < until
      → Step s (system now g (sleeps until)) (system (now + 1) g (sleeps until))
  wake : (until : Time) (g : Gate) → Step s (system until g (sleeps until)) (system until g looks)
  cancel :
      (now until : Time) (g : Gate) → Step s (system now g (sleeps until)) (system now g canceled)
  tick_returned :
      (now : Time) (g : Gate) → Step s (system now g returned) (system (now + 1) g returned)
  tick_canceled :
      (now : Time) (g : Gate) → Step s (system now g canceled) (system (now + 1) g canceled)
  operated :
      (c : OperatorCall) (now : Time) (g g' : Gate) (p : Phase)
      → operate c now g ≡ some g'
      → Step s (system now g p) (system now g' p)

pub data Reaches (s : Schedule) : System → System → Type 0 where
  here : (x : System) → Reaches s x x
  next_step : (x y z : System) → Reaches s x y → Step s y z → Reaches s x z
