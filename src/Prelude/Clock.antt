-- ===== src/Prelude/Clock.antt =====
-- time.Time as nanoseconds from the zero time, so that `IsZero` is a test for 0, and the clock's
-- `Since`: `Time.Sub` saturates at the ends of `Duration` (package time).
use phantom_traffic.Prelude.Tests.{if◌then◌else◌}
use phantom_traffic.Prelude.Int.{ℤ, pos, sub_ℕ, ltb_ℤ, max_int64, min_int64}
use Prim.Native.Nat.{ℕ, ◌+◌, ◌-◌, ◌%◌, ◌^◌, ◌≤◌, ◌<◌}
use mathlib.Core.Path.{◌≡◌}
use native.Mathlib.Omega.{arith}

abbrev pub Time : Type 0
Time = ℕ

abbrev pub Duration : Type 0
Duration = ℤ

-- A result past the ends of `Duration` is the end that it passed.
unfoldable pub saturate : ℤ → Duration
saturate z = if ltb_ℤ max_int64 z then max_int64 else if ltb_ℤ z min_int64 then min_int64 else z

-- clock.Since(t) at the clock's time `now`.
unfoldable pub since : Time → Time → Duration
unfolding saturate
since now t = saturate (sub_ℕ now t)

-- Between instants at most 292 years apart the difference is exact.
pub since_exact : (now t : Time) → t ≤ now → now - t < 2 ^ 63 → since now t ≡ pos (now - t)
unfolding since
since_exact now t h k = ground arith

abbrev pub second : ℕ
second = 1000000000

abbrev pub day_length : ℕ
day_length = 86400000000000

-- *time.Location: what the clocks of the place read at an instant, and time.Date, the instant at which
-- they read so (one of two, or near to it, where the clocks change). A reading is the nanoseconds from
-- the midnight of a Monday in the week before the zero time.
pub record Location : Type 0 where
  pub reading : Time → ℕ
  pub date : ℕ → Time

-- UTC: a week, since the zero time is a Monday's midnight.
abbrev pub utc : Location
utc = record { reading = λ t. t + 604800000000000; date = λ l. l - 604800000000000 }

-- A place whose clocks never change.
abbrev pub IsFixed : Location → ℕ → Type 0
IsFixed loc shift =
    ((t : Time) → loc.reading t ≡ t + shift) × ((l : ℕ) → shift ≤ l → loc.date l + shift ≡ l)

-- time.Weekday of the day with that number, day 0 a Monday.
abbrev pub weekday : ℕ → ℕ
weekday day = (day + 1) % 7
