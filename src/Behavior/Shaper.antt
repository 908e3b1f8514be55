-- ===== src/Behavior/Shaper.antt =====
-- internal/behavior/timeofday.go and shaper.go: the wait before an action. A location is a fixed
-- offset, as in Schedule. A tested fraction is written as a quotient.
use phantom_traffic.Prelude.{
  ℕ, ◌+◌, ◌/◌, ◌%◌, Bool, true, false, ◌||◌, List, Option, none, some, arith, if◌then◌else◌,
  Bool-cases, inl, inr, get_elem?, ◌==◌,
}
use phantom_traffic.Prelude.Int.{pos, ◌≤ℤ◌, leb_ℤ}
use phantom_traffic.Prelude.Clock.{day_length, weekday, Time, Duration, Location}
use phantom_traffic.Prelude.Float.{Float64, fzero, fone}
use phantom_traffic.Protocols.{
  Result, Outcome, outcome_success, outcome_failure, outcome_skipped, outcome_cancelled,
  outcome_panicked, outcome_reconnect,
}
use phantom_traffic.Protocols.Action.{
  Cause, cause_navigation, cause_sub_resource, cause_background, cause_control,
}
use phantom_traffic.Behavior.{Rand, Math}
use phantom_traffic.Behavior.Dist.{
  Distribution, JitterModel, sample, jitter, clamp_non_neg, clamp_non_neg_bounds,
}
use phantom_traffic.Behavior.Burst.{BurstModel, BurstPhase, phase, phase_non_neg}

-- The tables have 24 entries each.
pub data TimeOfDay (F : Type 0) : Type 0 where
  flat : TimeOfDay F
  piecewise : Location → List F → List F → TimeOfDay F

pub record ChainShaper (F : Type 0) : Type 0 where
  pub jitter_model : JitterModel F
  pub burst : BurstModel F
  pub tod : TimeOfDay F

pub record ShapeDecision : Type 0 where
  pub wait : Duration
  pub idle : Bool

module _ {R F : Type 0} (rng : Rand R F) (math : Math F) (ops : Float64 F) where
  open rng use {float64}
  open ops use {flt, fadd, fsub, fmul, fdiv, of_int, to_int}

  unfoldable pub intensity_floor : F
  intensity_floor = fdiv (of_int (pos 1)) (of_int (pos 100))

  unfoldable pub clamp_intensity : F → F
  unfolding intensity_floor
  clamp_intensity v =
      if flt v intensity_floor then intensity_floor else if flt (fone ops) v then fone ops else v

  -- table[hour]
  abbrev pub entry : List F → ℕ → F
  entry table hour = elim (get_elem? table hour) [ none ↦ fzero ops | some v ↦ v ]

  unfoldable pub interpolate : List F → ℕ → F
  unfolding clamp_intensity
  interpolate table in_day =
      let hour = in_day / 3600000000000 in
      let minute = in_day / 60000000000 % 60 in
      let sec = in_day / 1000000000 % 60 in
      let frac =
        fdiv (fadd (fmul (of_int (pos minute)) (of_int (pos 60))) (of_int (pos sec)))
          (of_int (pos 3600)) in
      let a = entry table hour in
      let b = entry table ((hour + 1) % 24) in clamp_intensity (fadd a (fmul (fsub b a) frac))

  unfoldable pub intensity : TimeOfDay F → Time → F
  unfolding interpolate
  intensity flat now = fone ops
  intensity (piecewise loc week_day weekend) now =
      let local = loc.reading now in
      let day = weekday (local / day_length) in
      interpolate (if day == 6 || day == 0 then weekend else week_day) (local % day_length)

  abbrev pub prior_slow_threshold : Duration
  prior_slow_threshold = pos 2000000000

  unfoldable pub slowed : Duration → Duration → Duration
  slowed wait latency =
      if leb_ℤ prior_slow_threshold latency
      then to_int (fmul (of_int wait) (fdiv (of_int (pos 3)) (of_int (pos 2))))
      else wait

  unfoldable pub react : Duration → Outcome → Duration → Duration
  unfolding slowed
  react wait outcome_failure latency = to_int (fmul (of_int wait) (of_int (pos 2)))
  react wait outcome_panicked latency = to_int (fmul (of_int wait) (of_int (pos 2)))
  react wait outcome_success latency = slowed wait latency
  react wait outcome_skipped latency = slowed wait latency
  react wait outcome_cancelled latency = slowed wait latency
  react wait outcome_reconnect latency = slowed wait latency

  unfoldable pub apply_prior_reaction : Duration → Option Result → Duration
  unfolding react
  apply_prior_reaction wait none = wait
  apply_prior_reaction wait (some prior) = react wait prior.outcome prior.latency

  -- `if intensity > 0`
  unfoldable pub stretch : Duration → F → Duration
  stretch wait i = if flt (fzero ops) i then to_int (fdiv (of_int wait) i) else wait

  -- The human pipeline, after the burst model's verdict.
  unfoldable pub human_wait :
      ChainShaper F → Time → Distribution F → Option Result → BurstPhase × R → ShapeDecision × R
  unfolding stretch apply_prior_reaction
  human_wait c now think prior (ph, r) =
      if ph.idle
      then (record { wait = ph.idle_for; idle = true }, r)
      else (let (d, r1) = sample rng math ops think r in
          let (w, r2) = jitter rng math ops c.jitter_model d r1 in
          let w' = apply_prior_reaction (stretch w (intensity c.tod now)) prior in
          (record { wait = clamp_non_neg w'; idle = false }, r2))

  -- The shaper with its burst model moved on, the decision, and the source.
  unfoldable pub shape :
      Cause
      → ChainShaper F
      → Time
      → Distribution F
      → Option Result
      → R
      → ChainShaper F × ShapeDecision × R
  unfolding human_wait clamp_non_neg
  shape cause_control c now think prior r = (c, record { wait = pos 0; idle = false }, r)
  shape cause_sub_resource c now think prior r =
      let (x, r') = float64 r in
      let w = clamp_non_neg (to_int (fmul x (of_int (pos 15000000)))) in
      (c, record { wait = w; idle = false }, r')
  shape cause_navigation c now think prior r =
      let (b, ph, r') = phase rng math ops c.burst now r in
      let (d, r'') = human_wait c now think prior (ph, r') in (record c { burst = b }, d, r'')
  shape cause_background c now think prior r =
      let (b, ph, r') = phase rng math ops c.burst now r in
      let (d, r'') = human_wait c now think prior (ph, r') in (record c { burst = b }, d, r'')

  human_wait_non_neg :
      (c : ChainShaper F) (now : Time) (think : Distribution F) (prior : Option Result)
      (ph : BurstPhase) (r : R)
      → pos 0 ≤ℤ ph.idle_for
      → pos 0 ≤ℤ (human_wait c now think prior (ph, r)).0.wait
  unfolding human_wait
  human_wait_non_neg c now think prior ph r h = elim (Bool-cases ph.idle) [
    | inl idle ↦ rw (idle, human_wait) h
    | inr active ↦ rw (active, human_wait) (clamp_non_neg_bounds _)
  ]

  -- Whatever the shaper is given, the wait that it decides on is not negative.
  pub shape_non_neg :
      (cause : Cause) (c : ChainShaper F) (now : Time) (think : Distribution F)
      (prior : Option Result) (r : R)
      → pos 0 ≤ℤ (shape cause c now think prior r).1.wait
  unfolding shape
  shape_non_neg cause_control c now think prior r = omega arith
  shape_non_neg cause_sub_resource c now think prior r =
      clamp_non_neg_bounds (to_int (fmul (float64 r).0 (of_int (pos 15000000))))
  shape_non_neg cause_navigation c now think prior r =
      let (b, ph, r') = phase rng math ops c.burst now r in
      human_wait_non_neg c now think prior ph r' (phase_non_neg rng math ops c.burst now r)
  shape_non_neg cause_background c now think prior r =
      let (b, ph, r') = phase rng math ops c.burst now r in
      human_wait_non_neg c now think prior ph r' (phase_non_neg rng math ops c.burst now r)
