-- ===== src/Behavior/Dist.antt =====
-- internal/behavior/dist.go and jitter.go: the waits that a virtual user draws. Durations are int64.
use phantom_traffic.Prelude.{arith, if◌then◌else◌}
use phantom_traffic.Prelude.Int.{pos, ◌+ℤ◌, ◌-ℤ◌, ◌≤ℤ◌, int64, ltb_ℤ, leb_ℤ, eqb_ℤ}
use phantom_traffic.Prelude.Clock.{Duration, second}
use phantom_traffic.Prelude.Float.{Float64, fzero, fone, fle}
use phantom_traffic.Behavior.{Rand, Math}

unfoldable pub clamp_non_neg : Duration → Duration
clamp_non_neg d = if ltb_ℤ d (pos 0) then pos 0 else d

pub data Distribution (F : Type 0) : Type 0 where
  constant : Duration → Distribution F
  -- min and max
  uniform : Duration → Duration → Distribution F
  -- mean, stddev, min and max
  normal : Duration → Duration → Duration → Duration → Distribution F
  -- mu, sigma and scale
  log_normal : F → F → Duration → Distribution F
  exponential : Duration → Distribution F

pub data JitterModel (F : Type 0) : Type 0 where
  no_jitter : JitterModel F
  proportional : F → JitterModel F

-- A value kept between two bounds, the upper one last.
unfoldable pub clamp_range : Duration → Duration → Duration → Duration
clamp_range min max d = let d' = if ltb_ℤ d min then min else d in if ltb_ℤ max d' then max else d'

unfoldable pub scale_of : Duration → Duration
scale_of scale = if eqb_ℤ scale (pos 0) then pos second else scale

pub clamp_non_neg_bounds : (d : Duration) → pos 0 ≤ℤ clamp_non_neg d
unfolding clamp_non_neg
clamp_non_neg_bounds d = ground arith

module _ {R F : Type 0} (rng : Rand R F) (math : Math F) (ops : Float64 F) where
  open rng use {float64, norm_float64, exp_float64}
  open ops use {flt, fadd, fsub, fmul, of_int, to_int}

  unfoldable pub log_normal_wait : F → Duration
  unfolding clamp_non_neg
  log_normal_wait f = if math.is_nan f then pos 0 else clamp_non_neg (to_int f)

  -- The sampled duration, and the source after the draw.
  unfoldable pub sample : Distribution F → R → Duration × R
  unfolding clamp_non_neg clamp_range log_normal_wait scale_of
  sample (constant d) r = (clamp_non_neg d, r)
  sample (uniform min max) r =
      let span = int64 (max -ℤ min) in
      if leb_ℤ span (pos 0)
      then (clamp_non_neg min, r)
      else (let (x, r') = float64 r in
          (clamp_non_neg (int64 (min +ℤ to_int (fmul x (of_int span)))), r'))
  sample (normal mean std_dev min max) r =
      let (z, r') = norm_float64 r in
      (clamp_non_neg (clamp_range min max (int64 (mean +ℤ to_int (fmul z (of_int std_dev))))), r')
  sample (log_normal mu sigma scale) r =
      let (z, r') = norm_float64 r in
      (log_normal_wait (fmul (math.exp (fadd mu (fmul sigma z))) (of_int (scale_of scale))), r')
  sample (exponential mean) r =
      let (x, r') = exp_float64 r in (clamp_non_neg (to_int (fmul x (of_int mean))), r')

  unfoldable pub jitter : JitterModel F → Duration → R → Duration × R
  unfolding clamp_non_neg
  jitter no_jitter d r = (d, r)
  jitter (proportional fraction) d r =
      if fle ops fraction (fzero ops)
      then (d, r)
      else (let f = if flt (fone ops) fraction then fone ops else fraction in
          let (x, r') = float64 r in
          let factor = fadd (fsub (fone ops) f) (fmul (fmul (of_int (pos 2)) f) x) in
          (clamp_non_neg (to_int (fmul (of_int d) factor)), r'))

  pub sample_non_neg : (d : Distribution F) (r : R) → pos 0 ≤ℤ (sample d r).0
  unfolding sample
  sample_non_neg (constant d) r = ground arith
  sample_non_neg (uniform min max) r = ground arith
  sample_non_neg (normal mean std_dev min max) r = ground arith
  sample_non_neg (log_normal mu sigma scale) r = ground arith
  sample_non_neg (exponential mean) r = ground arith
