-- ===== src/Engine/Lifecycle.antt =====
-- internal/engine/run.go: Pause, Resume, Stop, complete and the scheduler's gate calls, as
-- goroutines that interleave, with what ApplyPatch of patch.go appends to the audit log meanwhile. A goroutine is a program counter; one step runs it to the next point
-- at which another goroutine can run, which is a call that takes a lock, an atomic access, a channel
-- operation or a wait.
pub mod Ownership
pub mod Terminal
pub mod Interleaving
use phantom_traffic.Prelude.{
  ℕ, Bool, true, false, String, List, [], ◌∷◌, ◌++◌, Option, none, some, if◌then◌else◌, get_elem?,
  set,
}
use phantom_traffic.Prelude.Clock.{Time}
use phantom_traffic.Prelude.Dict.{Dict, put}
use phantom_traffic.Audit.{Event, cap_override_enabled, scenario_patched}
use phantom_traffic.Engine.State.{
  State, running, paused, stopping, stopped, completing, completed, Core, TransitionError,
  transition_to,
}
use phantom_traffic.Engine.Gate.{Source, operator, schedule, Gate, pause, resume}

pub data RunErr : Type 0 where
  grace_exceeded stop_canceled : RunErr

pub record Run : Type 0 where
  pub core : Core
  pub gate : Gate
  pub cancelled : Bool
  pub done : Bool
  pub err : Option RunErr

-- What ApplyPatch appends, by the agent that it names as the actor: the override, and the patch with
-- its detail. Engine.Patch says when.
pub data PatchEvent : Type 0 where
  overrides : String → PatchEvent
  patches : String → Dict String → PatchEvent

unfoldable pub patch_event : String → PatchEvent → Event
patch_event id (overrides actor) = record {
  actor = actor;
  action = cap_override_enabled;
  resource = id;
  detail = ("run_id", id) ∷ [];
}
patch_event id (patches actor detail) = record {
  actor = actor;
  action = scenario_patched;
  resource = id;
  detail = put "run_id" id detail;
}

-- Where a goroutine stands. The names say which call it makes, and what it does next.
pub data Pc : Type 0 where
  pause_begin pause_gate resume_begin resume_gate : Pc
  stop_begin stop_join stop_cancel stop_wait stop_finish stop_signal : Pc
  complete_begin complete_cancel complete_wait complete_finish complete_signal : Pc
  schedule_pause schedule_resume : Pc
  returned panicked : Pc
  stop_check failed : TransitionError → Pc
  patch_audit : List PatchEvent → Pc

-- Why Stop's select goes on.
pub data Wake : Type 0 where
  drained grace_expired ctx_done asleep : Wake

-- The error is kept only if none is set.
set_err : RunErr → Run → Run
set_err e r = elim r.err [ none ↦ record r { err = some e } | some _ ↦ r ]

-- `if err := r.transitionTo(to); err != nil { ... }`: the counters for success and for a refusal.
try_transition : State → Pc → (TransitionError → Pc) → Run → Run × Pc
try_transition to next refused r =
    let (c, err) = transition_to to r.core in
    elim err [ none ↦ (record r { core = c }, next) | some e ↦ (r, refused e) ]

-- `_ = r.transitionTo(to)`
force_transition : State → Run → Run
force_transition to r = record r { core = (transition_to to r.core).0 }

gate_pause : Source → Time → Run → Run × Pc
gate_pause src now r = elim (pause src now r.gate) [
  | none ↦ (r, panicked)
  | some g ↦ (record r { gate = g }, returned)
]

-- `s == StateStopped || s == StateCompleted || s == StateCompleting`
ends : State → Bool
ends stopped = true
ends completed = true
ends completing = true
ends _ = false

check_end : TransitionError → Run → Pc
unfolding ends
check_end e r = if ends r.core.state then stop_join else failed e

after_wait : Wake → Run → Run × Pc
unfolding set_err
after_wait drained r = (r, stop_finish)
after_wait grace_expired r = (set_err grace_exceeded r, stop_finish)
after_wait ctx_done r = (set_err stop_canceled r, stop_finish)
after_wait asleep r = (r, stop_wait)

-- wg.Wait() of `complete` returns only when every worker has.
after_drain : Wake → Pc
after_drain drained = complete_finish
after_drain _ = complete_wait

-- r.audit.Append of ApplyPatch, which does not test for a nil sink: New requires one.
unfoldable pub append_patch : Option (List Event) → PatchEvent → List PatchEvent → Run → Run × Pc
unfolding patch_event
append_patch none e es r = (r, panicked)
append_patch (some log) e es r = (
  record r { core = record r.core { audit = some (log ++ patch_event r.core.id e ∷ []) } },
  patch_audit es,
)

unfoldable pub step_pc : Time → Wake → Pc → Run → Run × Pc
unfolding try_transition force_transition gate_pause check_end after_wait after_drain append_patch
step_pc now wake pause_begin r = try_transition paused pause_gate failed r
step_pc now wake pause_gate r = gate_pause operator now r
step_pc now wake resume_begin r = try_transition running resume_gate failed r
step_pc now wake resume_gate r = (record r { gate = resume operator now r.gate }, returned)
step_pc now wake stop_begin r = try_transition stopping stop_cancel stop_check r
step_pc now wake (stop_check e) r = (r, check_end e r)
step_pc now wake stop_join r = (r, if r.done then returned else stop_join)
step_pc now wake stop_cancel r = (record r { cancelled = true }, stop_wait)
step_pc now wake stop_wait r = after_wait wake r
step_pc now wake stop_finish r = (force_transition stopped r, stop_signal)
step_pc now wake stop_signal r = (record r { done = true }, returned)
step_pc now wake complete_begin r = try_transition completing complete_cancel (λ e. returned) r
step_pc now wake complete_cancel r = (record r { cancelled = true }, complete_wait)
step_pc now wake complete_wait r = (r, after_drain wake)
step_pc now wake complete_finish r = (force_transition completed r, complete_signal)
step_pc now wake complete_signal r = (record r { done = true }, returned)
step_pc now wake schedule_pause r = gate_pause schedule now r
step_pc now wake schedule_resume r = (record r { gate = resume schedule now r.gate }, returned)
step_pc now wake (patch_audit []) r = (r, returned)
step_pc now wake (patch_audit (e ∷ es)) r = append_patch r.core.audit e es r
step_pc now wake pc r = (r, pc)

pub record System : Type 0 where
  pub run : Run
  pub threads : List Pc

-- Which goroutine runs, at what time, and what it is woken by.
pub record Slot : Type 0 where
  pub thread : ℕ
  pub now : Time
  pub wake : Wake

unfoldable pub step : Slot → System → System
step slot s = elim (get_elem? s.threads slot.thread) [
  | none ↦ s
  | some pc ↦
      let (r, pc') = step_pc slot.now slot.wake pc s.run in
      record s { run = r; threads = set s.threads slot.thread pc' }
]

-- A schedule is any sequence of slots.
unfoldable pub run_all : List Slot → System → System
run_all [] s = s
run_all (slot ∷ slots) s = run_all slots (step slot s)
