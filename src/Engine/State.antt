-- ===== src/Engine/State.antt =====
-- internal/engine/state.go: the lifecycle states of a run, the table of legal transitions, and
-- `transitionTo`, which holds the mutex and is one step.
use phantom_traffic.Prelude.{
  ◌≡◌, refl, String, Bool, true, false, List, [], ◌∷◌, Option, none, some, if◌then◌else◌, ◌++◌,
}
use phantom_traffic.Audit.{Action, Event, scenario_started, scenario_stopped}

pub data State : Type 0 where
  idle running paused stopping stopped completing completed : State

unfoldable pub to_string : State → String
to_string idle = "idle"
to_string running = "running"
to_string paused = "paused"
to_string stopping = "stopping"
to_string stopped = "stopped"
to_string completing = "completing"
to_string completed = "completed"

-- legalTransitions: membership in the table. A pair that is not in it is illegal.
unfoldable pub legal : State → State → Bool
legal idle running = true
legal running paused = true
legal running stopping = true
legal running completing = true
legal paused running = true
legal paused stopping = true
legal stopping stopped = true
legal completing completed = true
legal _ _ = false

unfoldable pub audit_action_for : State → Option Action
audit_action_for running = some scenario_started
audit_action_for stopping = some scenario_stopped
audit_action_for stopped = some scenario_stopped
audit_action_for completed = some scenario_stopped
audit_action_for _ = none

-- The part of a Run that a transition reads and writes: `audit` is the calls of `Append` so far,
-- whose results `transitionTo` drops, and `none` where the run has no sink.
pub record Core : Type 0 where
  pub id : String
  pub state : State
  pub audit : Option (List Event)

pub data TransitionError : Type 0 where
  illegal : State → State → TransitionError

transition_event : String → State → State → Action → Event
unfolding to_string
transition_event id from to action = record {
  actor = "engine";
  action = action;
  resource = id;
  detail = ("from", to_string from) ∷ ("to", to_string to) ∷ [];
}

append_if : Option Action → String → State → State → Option (List Event) → Option (List Event)
unfolding transition_event
append_if (some action) id from to (some log) =
    some (log ++ transition_event id from to action ∷ [])
append_if _ id from to log = log

-- Every state has a row in the table, so the error of a missing row cannot occur.
unfoldable pub transition_to : State → Core → Core × Option TransitionError
unfolding legal audit_action_for append_if
transition_to to r =
    if legal r.state to
    then (
      record r { state = to; audit = append_if (audit_action_for to) r.id r.state to r.audit },
      none,
    )
    else (r, some (illegal r.state to))

abbrev pub is_terminal : State → Bool
is_terminal stopped = true
is_terminal completed = true
is_terminal _ = false

-- A refused transition changes nothing, the audit log included.
pub transition_to_refused :
    (to : State) (r : Core)
    → legal r.state to ≡ false
    → transition_to to r ≡ (r, some (illegal r.state to))
unfolding transition_to
transition_to_refused to r h = rw h

pub transition_to_accepted :
    (to : State) (r : Core)
    → legal r.state to ≡ true
    → ((transition_to to r).1 ≡ none) × ((transition_to to r).0.state ≡ to)
unfolding transition_to
transition_to_accepted to r h = rw h (refl, refl)
