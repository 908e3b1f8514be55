-- ===== src/Engine/Pacing.antt =====
-- internal/engine/backoff.go and ramp.go: the retry delay and the concurrency of a ramp. `r.Float64()`
-- is a parameter. Durations and ints are int64.
use phantom_traffic.Prelude.{ℕ, suc, ◌*◌, ◌^◌, ◌≡◌, arith, ◌||◌, if◌then◌else◌}
use phantom_traffic.Prelude.Int.{
  ℤ, pos, negsuc, sub_ℕ, ◌-ℤ◌, ◌≤ℤ◌, ◌<ℤ◌, int64, ltb_ℤ, leb_ℤ, IsInt64, int64_id,
}
use phantom_traffic.Prelude.Clock.{Duration}
use phantom_traffic.Prelude.Float.{Float64}

-- The exact value of `z << k`.
abbrev pub shift_left : ℤ → ℕ → ℤ
shift_left (pos n) k = pos (n * 2 ^ k)
shift_left (negsuc n) k = sub_ℕ 0 (suc n * 2 ^ k)

-- `exp := base << attempt`, or the maximum if that overflows to 0 or less, or exceeds it.
unfoldable pub capped_exp : ℕ → Duration → Duration → Duration
capped_exp attempt base max =
    let exp = int64 (shift_left base attempt) in
    if leb_ℤ exp (pos 0) || ltb_ℤ max exp then max else exp

-- scenario.RampPlan, of which the block's ramp reads two fields.
pub record RampPlan : Type 0 where
  pub up : Duration
  pub start_concurrency : ℤ

abbrev pub ramp_start : RampPlan → ℤ
ramp_start plan = if ltb_ℤ plan.start_concurrency (pos 1) then pos 1 else plan.start_concurrency

-- `if n < 1 { n = 1 }; if n > target { n = target }`
abbrev pub clamp_to : ℤ → ℤ → ℤ
clamp_to target n =
    let n' = if ltb_ℤ n (pos 1) then pos 1 else n in if ltb_ℤ target n' then target else n'

module _ {F : Type 0} (ops : Float64 F) where
  open ops use {fadd, fmul, fdiv, round, of_int, to_int}

  unfoldable pub backoff_delay : ℕ → Duration → Duration → F → Duration
  unfolding capped_exp
  backoff_delay attempt base max draw = to_int (fmul draw (of_int (capped_exp attempt base max)))

  -- The interpolated concurrency, rounded.
  abbrev pub interpolated : RampPlan → ℤ → Duration → ℤ
  interpolated plan target elapsed =
      let frac = fdiv (of_int elapsed) (of_int plan.up) in
      to_int (
        round (
          fadd (of_int (ramp_start plan)) (fmul (of_int (int64 (target -ℤ ramp_start plan))) frac)))

  unfoldable pub concurrency_at : RampPlan → ℤ → Duration → ℤ
  concurrency_at plan target elapsed =
      if leb_ℤ plan.up (pos 0)
      then target
      else if leb_ℤ elapsed (pos 0)
      then ramp_start plan
      else if leb_ℤ plan.up elapsed
      then target
      else clamp_to target (interpolated plan target elapsed)

  -- A ramp to a target of at least 1 never asks for less than 1 worker, and asks for more than the
  -- target only where the start of the plan does; from the end of the ramp it is the target.
  pub concurrency_at_bounds :
      (plan : RampPlan) (target : ℤ) (elapsed : Duration)
      → pos 1 ≤ℤ target
      → let n = concurrency_at plan target elapsed in
        (pos 1 ≤ℤ n)
        × (ramp_start plan ≤ℤ target → n ≤ℤ target)
        × (plan.up ≤ℤ elapsed → pos 0 <ℤ elapsed → n ≡ target)
  unfolding concurrency_at
  concurrency_at_bounds plan target elapsed h = ground arith

capped_range :
    (attempt : ℕ) (base max : Duration)
    → pos 0 <ℤ max
    → (pos 0 <ℤ capped_exp attempt base max) × (capped_exp attempt base max ≤ℤ max)
unfolding capped_exp
capped_range attempt base max h = ground arith

capped_exact :
    (attempt : ℕ) (base max : Duration)
    → pos 0 <ℤ shift_left base attempt
    → shift_left base attempt ≤ℤ max
    → IsInt64 max
    → capped_exp attempt base max ≡ shift_left base attempt
unfolding capped_exp
capped_exact attempt base max p l b =
    let e = int64_id (shift_left base attempt) (ground arith) in rw e (ground arith)

-- The cap of a retry delay is positive and at most the maximum, also where the shift overflows; a
-- shift that neither overflows nor exceeds the maximum is used as it is.
pub capped_exp_bounds :
    (attempt : ℕ) (base max : Duration)
    → pos 0 <ℤ max
    → (pos 0 <ℤ capped_exp attempt base max)
      × (capped_exp attempt base max ≤ℤ max)
      × (pos 0 <ℤ shift_left base attempt
          → shift_left base attempt ≤ℤ max
          → IsInt64 max
          → capped_exp attempt base max ≡ shift_left base attempt)
capped_exp_bounds attempt base max h =
    let (above, below) = capped_range attempt base max h in
    (above, below, capped_exact attempt base max)
