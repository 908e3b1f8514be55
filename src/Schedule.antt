-- ===== src/Schedule.antt =====
-- internal/schedule/schedule.go: whether a schedule is active at an instant, and when that flips next.
-- What the clocks of a location read, and which instant a reading is, are given by the location.
pub mod Local
pub mod Edges
pub mod Flips
pub mod Fixed
pub mod Weekly
use phantom_traffic.Prelude.{
  ℕ, zero, suc, ◌+◌, ◌-◌, ◌*◌, ◌/◌, ◌%◌, Bool, true, false, not, ◌&&◌, ◌||◌, List, [], ◌∷◌, Option,
  none, some, if◌then◌else◌, ltb, leb, get_elem?,
}
use phantom_traffic.Prelude.Clock.{Time, Location, day_length, weekday}
use phantom_traffic.Scenario.{Schedule, ScheduleWindow}

-- w.Days[day]
unfoldable pub on_day : ScheduleWindow → ℕ → Bool
on_day w day = elim (get_elem? w.days day) [ none ↦ false | some b ↦ b ]

-- The test of Active's loop, at a local reading.
unfoldable pub in_window : ScheduleWindow → ℕ → Bool
in_window w local =
    on_day w (weekday (local / day_length))
    && (leb w.start (local % day_length) && ltb (local % day_length) w.end)

unfoldable pub in_any : List ScheduleWindow → ℕ → Bool
in_any [] local = false
in_any (w ∷ ws) local = in_window w local || in_any ws local

unfoldable pub active_local : List ScheduleWindow → ℕ → Bool
unfolding in_any
active_local [] local = true
active_local (w ∷ ws) local = in_any (w ∷ ws) local

unfoldable pub active : Schedule → Time → Bool
unfolding active_local
active s t = active_local s.windows (s.loc.reading t)

-- slices.SortFunc of instants.
unfoldable pub insert : ℕ → List ℕ → List ℕ
insert e [] = e ∷ []
insert e (x ∷ xs) = let later = insert e xs in if leb e x then e ∷ x ∷ xs else x ∷ later

unfoldable pub sort : List ℕ → List ℕ
unfolding insert
sort [] = []
sort (x ∷ xs) = insert x (sort xs)

-- The boundaries of the windows on the day that begins at `base`, in the order of the windows.
unfoldable pub boundaries : Location → List ScheduleWindow → Time → List Time
boundaries loc [] base = []
boundaries loc (w ∷ ws) base =
    let rest = boundaries loc ws base in
    if on_day w (weekday (loc.reading base / day_length))
    then (base + w.start) ∷ (base + w.end) ∷ rest
    else rest

unfoldable pub day_edges : Location → List ScheduleWindow → Time → List Time
unfolding sort boundaries
day_edges loc ws base = sort (boundaries loc ws base)

unfoldable pub same_state : Bool → Bool → Bool
same_state true b = b
same_state false b = not b

-- The first edge after `t` where the state is not `cur`.
unfoldable pub scan_edges : Schedule → Time → Bool → List Time → Option Time
unfolding same_state active
scan_edges s t cur [] = none
scan_edges s t cur (edge ∷ edges) =
    let rest = scan_edges s t cur edges in
    if ltb t edge && not (same_state (active s edge) cur) then some edge else rest

-- t.AddDate(0, 0, days)
unfoldable pub add_days : Location → Time → ℕ → Time
add_days loc t days = loc.date (loc.reading t + days * day_length)

-- The days from `day` on, of those that are counted from `midnight`.
unfoldable pub scan_days : ℕ → Schedule → Time → Bool → Time → ℕ → Option Time
unfolding scan_edges day_edges add_days
scan_days zero s t cur midnight day = none
scan_days (suc days) s t cur midnight day =
    elim (scan_edges s t cur (day_edges s.loc s.windows (add_days s.loc midnight day))) [
      | none ↦ scan_days days s t cur midnight (day + 1)
      | some edge ↦ some edge
    ]

abbrev pub max_lookahead_days : ℕ
max_lookahead_days = 8

unfoldable pub scan_from : List ScheduleWindow → Schedule → Time → Option Time
unfolding scan_days active
scan_from [] s t = none
scan_from (w ∷ ws) s t =
    let midnight = s.loc.date (s.loc.reading t / day_length * day_length) in
    scan_days max_lookahead_days s t (active s t) midnight 0

-- `none` stands for the zero time.
unfoldable pub next_transition : Schedule → Time → Option Time
unfolding scan_from
next_transition s t = scan_from s.windows s t
