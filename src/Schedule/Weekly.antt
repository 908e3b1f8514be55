-- ===== src/Schedule/Weekly.antt =====
-- internal/schedule/schedule.go: schedules from one week to the next, and NextTransition for all time.
use phantom_traffic.Prelude.{
  ℕ, zero, suc, ◌+◌, ◌-◌, ◌*◌, ◌/◌, ◌%◌, ◌≤◌, ◌<◌, ◌≡◌, ◌≢◌, ◌∙◌, refl, ap, Bool, List, [], ◌∷◌,
  Option, none, some, arith, All,
}
use phantom_traffic.Prelude.Clock.{day_length, weekday, Time, IsFixed}
use phantom_traffic.Scenario.{Schedule, ScheduleWindow}
use phantom_traffic.Schedule.{in_window, in_any, active_local, active, next_transition}
use phantom_traffic.Schedule.Edges.{IsDaily}
use phantom_traffic.Schedule.Flips.{IsTransition}
use phantom_traffic.Schedule.Fixed.{next_transition-IsTransition}

abbrev pub week : ℕ
week = 604800000000000

in_window_weekly : (w : ScheduleWindow) (x : ℕ) → in_window w (x + week) ≡ in_window w x
unfolding in_window
in_window_weekly w x =
    let day : weekday ((x + week) / day_length) ≡ weekday (x / day_length) = omega arith in
    let time : (x + week) % day_length ≡ x % day_length = omega arith in rw (day, time) refl

in_any_weekly : (ws : List ScheduleWindow) (x : ℕ) → in_any ws (x + week) ≡ in_any ws x
unfolding in_any
in_any_weekly [] x = refl
in_any_weekly (w ∷ ws) x = rw (in_window_weekly w x, in_any_weekly ws x) refl

active_local_weekly :
    (ws : List ScheduleWindow) (x : ℕ) → active_local ws (x + week) ≡ active_local ws x
unfolding active_local
active_local_weekly [] x = refl
active_local_weekly (w ∷ ws) x = in_any_weekly (w ∷ ws) x

active_weeks :
    (s : Schedule) (shift : ℕ)
    → IsFixed s.loc shift
    → (t weeks : ℕ) → active s (t + weeks * week) ≡ active s t
unfolding active
active_weeks s shift fixed t zero =
    let e : t + 0 * week ≡ t = omega arith in ap (λ v. active_local s.windows (s.loc.reading v)) e
active_weeks s shift fixed t (suc weeks) =
    let here = fixed.0 (t + weeks * week) in
    let e : s.loc.reading (t + suc weeks * week) ≡ s.loc.reading (t + weeks * week) + week =
      omega (arith, here, fixed.0 (t + suc weeks * week)) in
    ap (active_local s.windows) e
    ∙ active_local_weekly s.windows (s.loc.reading (t + weeks * week))
    ∙ active_weeks s shift fixed t weeks

-- The next change of a state after an instant, or that there is none.
abbrev pub IsNext : (Time → Bool) → Time → Option Time → Type 0
IsNext state t none = (v : Time) → t ≤ v → state v ≡ state t
IsNext state t (some u) =
    (t < u) × (state u ≢ state t) × ((v : Time) → t ≤ v → v < u → state v ≡ state t)

IsTransition-IsNext :
    (s : Schedule) (shift : ℕ)
    → IsFixed s.loc shift
    → (t limit : Time) (o : Option Time) → t + week ≤ limit
    → IsTransition (active s) t limit o
    → IsNext (active s) t o
IsTransition-IsNext s shift fixed t limit (some u) le h = h
IsTransition-IsNext s shift fixed t limit none le h = λ v past.
    let e : v ≡ t + (v - t) % week + (v - t) / week * week = omega arith in
    ap (active s) e
    ∙ active_weeks s shift fixed (t + (v - t) % week) ((v - t) / week)
    ∙ h (t + (v - t) % week) (omega arith) (omega arith)

-- NextTransition is right and complete at a location whose clocks never change. When it returns an
-- instant, that is after t, Active there differs from Active at t, and at every instant from t up to it
-- Active is as at t. When it returns the zero time, Active is as at t for ever, since a schedule repeats
-- itself every week and the search covers more than one. Conditions: the location is at a fixed offset
-- from UTC (where the clocks change, the edges of that day can be off), no window of the schedule reaches
-- past the end of its day, and t is at least a day after the zero time.
pub next_transition-IsNext :
    (s : Schedule) (shift : ℕ)
    → IsFixed s.loc shift
    → (t : Time) → All IsDaily s.windows
    → day_length ≤ t
    → IsNext (active s) t (next_transition s t)
next_transition-IsNext s shift fixed t d h =
    IsTransition-IsNext s shift fixed t (((t + shift) / day_length + 8) * day_length - shift)
      (next_transition s t) (omega arith) (next_transition-IsTransition s shift fixed t d h)
