-- ===== src/Schedule/Local.antt =====
-- internal/schedule/schedule.go: the scan of NextTransition on the readings of a clock that never changes,
-- which is what NextTransition does at a location of fixed offset.
use phantom_traffic.Prelude.{
  ℕ, zero, suc, ◌+◌, ◌*◌, ◌/◌, Bool, not, ◌&&◌, List, [], ◌∷◌, Option, none, some, if◌then◌else◌,
  ltb,
}
use phantom_traffic.Prelude.Clock.{day_length, weekday}
use phantom_traffic.Scenario.{ScheduleWindow}
use phantom_traffic.Schedule.{on_day, active_local, sort, same_state, max_lookahead_days}

-- The boundaries of the windows on the day, in the order of the windows.
unfoldable pub local_boundaries : List ScheduleWindow → ℕ → List ℕ
local_boundaries [] day = []
local_boundaries (w ∷ ws) day =
    let rest = local_boundaries ws day in
    if on_day w (weekday day)
    then (day * day_length + w.start) ∷ (day * day_length + w.end) ∷ rest
    else rest

unfoldable pub local_edges : List ScheduleWindow → ℕ → List ℕ
unfolding sort local_boundaries
local_edges ws day = sort (local_boundaries ws day)

-- The first edge after `local` where the state is not `cur`.
unfoldable pub scan_local_edges : List ScheduleWindow → ℕ → Bool → List ℕ → Option ℕ
unfolding same_state
scan_local_edges ws local cur [] = none
scan_local_edges ws local cur (edge ∷ edges) =
    let rest = scan_local_edges ws local cur edges in
    if ltb local edge && not (same_state (active_local ws edge) cur) then some edge else rest

unfoldable pub scan_local_days : ℕ → List ScheduleWindow → ℕ → Bool → ℕ → Option ℕ
unfolding scan_local_edges local_edges
scan_local_days zero ws local cur day = none
scan_local_days (suc days) ws local cur day =
    elim (scan_local_edges ws local cur (local_edges ws day)) [
      | none ↦ scan_local_days days ws local cur (day + 1)
      | some edge ↦ some edge
    ]

unfoldable pub next_local : List ScheduleWindow → ℕ → Option ℕ
unfolding scan_local_days active_local
next_local [] local = none
next_local (w ∷ ws) local =
    scan_local_days max_lookahead_days (w ∷ ws) local (active_local (w ∷ ws) local)
      (local / day_length)
