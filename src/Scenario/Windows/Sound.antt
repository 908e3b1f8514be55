-- ===== src/Scenario/Windows/Sound.antt =====
-- internal/scenario/validate.go: what a schedule with no errors is.
use phantom_traffic.Prelude.{
  ℕ, ◌+◌, ◌<◌, ◌≡◌, refl, false, List, [], ◌∷◌, Option, none, some, String, arith, All,
}
use phantom_traffic.Prelude.Int.{ℤ}
use phantom_traffic.Prelude.Clock.{day_length}
use phantom_traffic.Prelude.Text.{Bytes, atoi, split, codes, trim_space}
use phantom_traffic.Pterr.Fields.{append-nil_parts, add_if-nil}
use phantom_traffic.Persona.{Library}
use phantom_traffic.Scenario.{ScheduleWindow, RawWindow, RawSchedule}
use phantom_traffic.Scenario.Windows.{
  in_clock, two_parts, parse_hhmm, is_none, or_nought, out_of_order, window_of, window_errors,
  windows_errors, windows_of, schedule_errors, schedule_of,
}
use phantom_traffic.Schedule.Edges.{IsDaily}

-- A window that opens and closes within a day.
abbrev pub IsWindow : ScheduleWindow → Type 0
IsWindow w = (w.start < w.end) × (w.end < day_length)

in_clock_bound : (h m : Option ℤ) (n : ℕ) → in_clock h m ≡ some n → n < day_length
in_clock_bound none m n e = absurd (cc)
in_clock_bound (some h) none n e = absurd (cc)
in_clock_bound (some h) (some m) n e = ground arith

two_parts_bound : (ps : List Bytes) (n : ℕ) → two_parts ps ≡ some n → n < day_length
two_parts_bound [] n e = absurd (cc)
two_parts_bound (h ∷ []) n e = absurd (cc)
two_parts_bound (h ∷ m ∷ []) n e = in_clock_bound (atoi h) (atoi m) n e
two_parts_bound (h ∷ m ∷ x ∷ rest) n e = absurd (cc)

parse_hhmm_bound : (s : String) (n : ℕ) → parse_hhmm s ≡ some n → n < day_length
unfolding parse_hhmm
parse_hhmm_bound s n e = two_parts_bound (split 58 (codes (trim_space s))) n e

ordered :
    (s e : Option ℕ)
    → is_none s ≡ false
    → is_none e ≡ false
    → out_of_order s e ≡ false
    → ((n : ℕ) → e ≡ some n → n < day_length)
    → (or_nought s < or_nought e) × (or_nought e < day_length)
ordered none e h k o b = absurd (cc)
ordered (some s) none h k o b = absurd (cc)
ordered (some s) (some e) h k o b = (ground arith, b e refl)

module _ {F : Type 0} (lib : Library) where
  window_of-IsWindow :
      (i : ℕ) (rw : RawWindow) → window_errors {F = F} lib i rw ≡ [] → IsWindow (window_of rw)
  unfolding window_errors window_of
  window_of-IsWindow i rw e0 =
      let (days, e1) = append-nil_parts _ _ e0 in
      let (names, e2) = append-nil_parts _ _ e1 in
      let (start, e3) = append-nil_parts _ _ e2 in
      let (end', order) = append-nil_parts _ _ e3 in
      ordered (parse_hhmm rw.start) (parse_hhmm rw.end) (add_if-nil _ _ _ start)
        (add_if-nil _ _ _ end') (add_if-nil _ _ _ order) (parse_hhmm_bound rw.end)

  windows_of-IsWindow :
      (i : ℕ) (rws : List RawWindow)
      → windows_errors {F = F} lib i rws ≡ []
      → All IsWindow (windows_of rws)
  unfolding windows_errors windows_of
  windows_of-IsWindow i [] e = tt
  windows_of-IsWindow i (rw ∷ rws) e =
      let (first, rest) = append-nil_parts _ _ e in
      (window_of-IsWindow i rw first, windows_of-IsWindow (i + 1) rws rest)

  pub schedule_of-IsWindow :
      (rs : Option RawSchedule)
      → schedule_errors {F = F} lib rs ≡ []
      → All IsWindow (schedule_of lib rs).windows
  unfolding schedule_errors schedule_of
  schedule_of-IsWindow none e = tt
  schedule_of-IsWindow (some rs) e = windows_of-IsWindow 0 rs.windows (append-nil_parts _ _ e).1

pub IsWindow-IsDaily : (ws : List ScheduleWindow) → All IsWindow ws → All IsDaily ws
IsWindow-IsDaily [] h = tt
IsWindow-IsDaily (w ∷ ws) h = ((omega arith, omega arith), IsWindow-IsDaily ws h.1)
