-- ===== src/Scenario/Windows.antt =====
-- internal/scenario/validate.go: the schedule of a scenario. What Validate adds to its errors and what
-- it builds are two functions of the same input.
pub mod Sound
pub mod Written
use phantom_traffic.Prelude.{
  ℕ, ◌+◌, ◌*◌, Bool, true, false, ◌||◌, List, [], ◌∷◌, ◌++◌, Option, none, some, ◌⊎◌, inl, inr,
  String, if◌then◌else◌, leb, set,
}
use Prim.Native.String.{◌++◌ as join}
use phantom_traffic.Prelude.Int.{ℤ, pos, pos_part, ltb_ℤ}
use phantom_traffic.Prelude.Clock.{Location, utc}
use phantom_traffic.Prelude.Text.{Bytes, codes, trim_space, split, atoi, lower}
use phantom_traffic.Protocols.Allow.{same_host}
use phantom_traffic.Pterr.Fields.{FieldError, error, add_if}
use phantom_traffic.Engine.Naming.{itoa}
use phantom_traffic.Persona.{Library}
use phantom_traffic.Persona.Compile as PersonaCompile
use phantom_traffic.Persona.Builtins.{LoadErr}
use phantom_traffic.Safety.Caps as Caps
use phantom_traffic.Scenario.{ScheduleWindow, Schedule, RawWindow, RawSchedule}

-- A message of Validate: a text, or one that it passes on.
pub data Msg (F : Type 0) : Type 0 where
  text : String → Msg F
  of_persona : PersonaCompile.Msg → Msg F
  of_builtins : LoadErr → Msg F
  of_cap : Caps.Msg F → Msg F

abbrev pub Errors : Type 0 → Type 0
Errors F = List (FieldError (Msg F))

-- The bytes of the seven names, Sunday first.
unfoldable pub weekday_names : List Bytes
weekday_names =
    codes "sun"
    ∷ codes "mon"
    ∷ codes "tue"
    ∷ codes "wed"
    ∷ codes "thu"
    ∷ codes "fri"
    ∷ codes "sat"
    ∷ []

unfoldable pub index_of : Bytes → List Bytes → Option ℕ
unfolding same_host
index_of name [] = none
index_of name (n ∷ ns) =
    let rest = index_of name ns in
    if same_host n name then some 0 else elim rest [ none ↦ none | some i ↦ some (i + 1) ]

-- weekdayByName[strings.ToLower(strings.TrimSpace(d))]
unfoldable pub weekday_by_name : String → Option ℕ
unfolding weekday_names index_of trim_space lower
weekday_by_name d = index_of (lower (codes (trim_space d))) weekday_names

abbrev pub hour : ℕ
hour = 3600000000000

abbrev pub minute : ℕ
minute = 60000000000

abbrev pub in_clock : Option ℤ → Option ℤ → Option ℕ
in_clock none m = none
in_clock (some h) none = none
in_clock (some h) (some m) =
    if ltb_ℤ h (pos 0) || (ltb_ℤ (pos 23) h || (ltb_ℤ m (pos 0) || ltb_ℤ (pos 59) m))
    then none
    else some (pos_part h * hour + pos_part m * minute)

abbrev pub two_parts : List Bytes → Option ℕ
two_parts [] = none
two_parts (h ∷ []) = none
two_parts (h ∷ m ∷ []) = in_clock (atoi h) (atoi m)
two_parts (h ∷ m ∷ x ∷ rest) = none

-- The nanoseconds since midnight.
unfoldable pub parse_hhmm : String → Option ℕ
unfolding split atoi trim_space
parse_hhmm s = two_parts (split 58 (codes (trim_space s)))

unfoldable pub window_path : ℕ → String → String
unfolding itoa
window_path i sub = join "schedule.windows[" (join (itoa (pos i)) (join "]." sub))

abbrev pub is_none {ℓ} : {A : Type ℓ} → Option A → Bool
is_none none = true
is_none (some a) = false

abbrev pub or_nought : Option ℕ → ℕ
or_nought none = 0
or_nought (some n) = n

-- Both parse, and the end is not after the start.
abbrev pub out_of_order : Option ℕ → Option ℕ → Bool
out_of_order none e = false
out_of_order (some s) none = false
out_of_order (some s) (some e) = leb e s

abbrev pub no_days : List Bool
no_days = false ∷ false ∷ false ∷ false ∷ false ∷ false ∷ false ∷ []

abbrev pub mark : Option ℕ → List Bool → List Bool
mark none days = days
mark (some wd) days = set days wd true

-- The loop over the days, from the mask that it has so far.
unfoldable pub days_of : List String → List Bool → List Bool
unfolding weekday_by_name
days_of [] mask = mask
days_of (d ∷ ds) mask = days_of ds (mark (weekday_by_name d) mask)

unfoldable pub window_of : RawWindow → ScheduleWindow
unfolding days_of parse_hhmm
window_of rw = record {
  days = days_of rw.days no_days;
  start = or_nought (parse_hhmm rw.start);
  end = or_nought (parse_hhmm rw.end);
}

module _ {F : Type 0} (lib : Library) where
  open lib use {quote, load_location}

  unfoldable pub days_errors : ℕ → ℕ → List String → Errors F
  unfolding window_path weekday_by_name
  days_errors i j [] = []
  days_errors i j (d ∷ ds) =
      add_if (is_none (weekday_by_name d))
        (join (window_path i "days") (join "[" (join (itoa (pos j)) "]")))
        (text (join "unknown day " (quote d)))
      ++ days_errors i (j + 1) ds

  abbrev pub no_day : ℕ → List String → Errors F
  no_day i [] = error (window_path i "days") (text "at least one day is required")
  no_day i (d ∷ ds) = []

  unfoldable pub window_errors : ℕ → RawWindow → Errors F
  unfolding days_errors window_path parse_hhmm
  window_errors i rw =
      no_day i rw.days
      ++ (days_errors i 0 rw.days
          ++ (add_if (is_none (parse_hhmm rw.start)) (window_path i "start")
                (text "start must be HH:MM in 00:00..23:59")
              ++ (add_if (is_none (parse_hhmm rw.end)) (window_path i "end")
                    (text "end must be HH:MM in 00:00..23:59")
                  ++ add_if (out_of_order (parse_hhmm rw.start) (parse_hhmm rw.end))
                      (window_path i "end")
                      (text "end must be after start (no cross-midnight windows)"))))

  unfoldable pub windows_errors : ℕ → List RawWindow → Errors F
  unfolding window_errors
  windows_errors i [] = []
  windows_errors i (rw ∷ rws) = window_errors i rw ++ windows_errors (i + 1) rws

  abbrev pub location_errors : String → String ⊎ Location → Errors F
  location_errors zone (inl e) =
      error "schedule.timezone" (text (join "failed to load timezone " (quote zone)))
  location_errors zone (inr loc) = []

  unfoldable pub schedule_errors : Option RawSchedule → Errors F
  unfolding windows_errors
  schedule_errors none = []
  schedule_errors (some rs) =
      location_errors rs.timezone (load_location rs.timezone) ++ windows_errors 0 rs.windows

unfoldable pub windows_of : List RawWindow → List ScheduleWindow
unfolding window_of
windows_of [] = []
windows_of (rw ∷ rws) = window_of rw ∷ windows_of rws

-- A location that is not loaded is nil, and is not read: the scenario is refused, or has no windows.
abbrev pub location_of : String ⊎ Location → Location
location_of (inl e) = utc
location_of (inr loc) = loc

unfoldable pub schedule_of : Library → Option RawSchedule → Schedule
unfolding windows_of
schedule_of lib none = record { loc = utc; windows = [] }
schedule_of lib (some rs) = record {
  loc = location_of (lib.load_location rs.timezone);
  windows = windows_of rs.windows;
}
