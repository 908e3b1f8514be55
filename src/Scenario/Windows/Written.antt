-- ===== src/Scenario/Windows/Written.antt =====
-- internal/scenario/validate.go, parseHHMM: the times of the day as a schedule is written.
use phantom_traffic.Prelude.{
  ℕ, zero, suc, ◌+◌, ◌*◌, ◌<◌, ◌≡◌, refl, ap, subst, Bool, true, false, ◌&&◌, Option, none, some,
  String, arith, if◌then◌else◌, ltb, ◌==◌, Bool-cases, inl, inr,
}
use Prim.Native.String.{◌++◌ as join}
use phantom_traffic.Prelude.Int.{pos}
use phantom_traffic.Engine.Naming.{itoa}
use phantom_traffic.Scenario.Windows.{hour, minute, parse_hhmm}

-- A number below 100, with two digits.
abbrev pub two_digits : ℕ → String
two_digits n = if ltb n 10 then join "0" (itoa (pos n)) else itoa (pos n)

-- HH:MM
abbrev pub clock_text : ℕ → ℕ → String
clock_text h m = join (two_digits h) (join ":" (two_digits m))

is_some_eq : Option ℕ → ℕ → Bool
is_some_eq none n = false
is_some_eq (some k) n = k == n

is_some_eq_lem : (o : Option ℕ) (n : ℕ) → is_some_eq o n ≡ true → o ≡ some n
unfolding is_some_eq
is_some_eq_lem none n h = absurd (cc)
is_some_eq_lem (some k) n h = ap some (ground arith)

reads : ℕ → ℕ → Bool
unfolding is_some_eq parse_hhmm
reads h m = is_some_eq (parse_hhmm (clock_text h m)) (h * hour + m * minute)

-- A test for all numbers below a bound.
below : ℕ → (ℕ → Bool) → Bool
below zero f = true
below (suc n) f = f n && below n f

below_lem : (n : ℕ) (f : ℕ → Bool) → below n f ≡ true → (k : ℕ) → k < n → f k ≡ true
unfolding below
below_lem zero f h k lt = absurd (omega arith)
below_lem (suc n) f h k lt = elim (Bool-cases (k == n)) [
  | inl same ↦ let e : n ≡ k = ground arith in subst (λ j. f j ≡ true) e (ground arith)
  | inr other ↦ below_lem n f (ground arith) k (ground arith)
]

all_read : below 24 (λ h. below 60 (reads h)) ≡ true
unfolding below reads itoa
all_read = refl

-- Every hour below 24 and minute below 60, written HH:MM with two digits each, is read by
-- parseHHMM, and the result is the time since midnight in nanoseconds.
pub parse_hhmm-clock_text :
    (h m : ℕ) → h < 24 → m < 60 → parse_hhmm (clock_text h m) ≡ some (h * hour + m * minute)
unfolding reads
parse_hhmm-clock_text h m in_day in_hour =
    is_some_eq_lem (parse_hhmm (clock_text h m)) (h * hour + m * minute)
      (below_lem 60 (reads h) (below_lem 24 (λ k. below 60 (reads k)) all_read h in_day) m in_hour)
