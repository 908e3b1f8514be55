-- ===== src/Behavior/Burst.antt =====
-- internal/behavior/burst.go: the renewal process of active windows and idle troughs.
use phantom_traffic.Prelude.{
  ℕ, suc, ◌+◌, ◌*◌, ◌≤◌, Bool, true, false, List, [], ◌∷◌, arith, if◌then◌else◌, length,
}
use phantom_traffic.Prelude.Int.{ℤ, pos, ltb_ℤ, ◌+ℤ◌, ◌≤ℤ◌}
use phantom_traffic.Prelude.Clock.{Time, Duration}
use phantom_traffic.Prelude.Float.{Float64}
use phantom_traffic.Behavior.{Rand, Math}
use phantom_traffic.Behavior.Dist.{Distribution, sample, sample_non_neg}

pub record BurstPhase : Type 0 where
  pub idle : Bool
  pub idle_for : Duration

-- `phase_end` is an instant as a number of nanoseconds: now.Add(d).
pub record RenewalBurst (F : Type 0) : Type 0 where
  pub active_dwell : Distribution F
  pub idle_dwell : Distribution F
  pub started : Bool
  pub idle : Bool
  pub phase_end : ℤ

pub data BurstModel (F : Type 0) : Type 0 where
  always_active : BurstModel F
  renewal : RenewalBurst F → BurstModel F

abbrev pub no_phase : BurstPhase
no_phase = record { idle = false; idle_for = pos 0 }

unfoldable pub new_renewal_burst : {F : Type 0} → Distribution F → Distribution F → RenewalBurst F
new_renewal_burst active idle = record {
  active_dwell = active;
  idle_dwell = idle;
  started = false;
  idle = false;
  phase_end = pos 0;
}

unfoldable pub clone : {F : Type 0} → BurstModel F → BurstModel F
unfolding new_renewal_burst
clone always_active = always_active
clone (renewal b) = renewal (new_renewal_burst b.active_dwell b.idle_dwell)

module _ {R F : Type 0} (rng : Rand R F) (math : Math F) (ops : Float64 F) where
  -- A new active window from `now` on.
  unfoldable pub begin_active : RenewalBurst F → Time → R → RenewalBurst F × BurstPhase × R
  begin_active b now r =
      let (d, r') = sample rng math ops b.active_dwell r in
      (record b { started = true; idle = false; phase_end = pos now +ℤ d }, no_phase, r')

  unfoldable pub enter_trough : RenewalBurst F → Time → R → RenewalBurst F × BurstPhase × R
  enter_trough b now r =
      let (d, r') = sample rng math ops b.idle_dwell r in
      (record b { idle = true; phase_end = pos now +ℤ d }, record { idle = true; idle_for = d }, r')

  unfoldable pub phase_renewal : RenewalBurst F → Time → R → RenewalBurst F × BurstPhase × R
  unfolding begin_active enter_trough
  phase_renewal b now r =
      if b.started
      then (if ltb_ℤ (pos now) b.phase_end
          then (b, no_phase, r)
          else if b.idle
          then begin_active b now r
          else enter_trough b now r)
      else begin_active b now r

  unfoldable pub phase : BurstModel F → Time → R → BurstModel F × BurstPhase × R
  unfolding phase_renewal
  phase always_active now r = (always_active, no_phase, r)
  phase (renewal b) now r = let (b', ph, r') = phase_renewal b now r in (renewal b', ph, r')

  -- The calls of Phase at the given instants, and how many of them are idle.
  unfoldable pub troughs : List Time → BurstModel F → R → ℕ
  unfolding phase
  troughs [] b r = 0
  troughs (now ∷ times) b r =
      let (b', ph, r') = phase b now r in
      let rest = troughs times b' r' in if ph.idle then suc rest else rest

  abbrev allowance : BurstModel F → ℕ
  allowance always_active = 0
  allowance (renewal b) = if b.started then (if b.idle then 0 else 1) else 0

  troughs_bound :
      (times : List Time) (b : BurstModel F) (r : R)
      → 2 * troughs times b r ≤ length times + allowance b
  unfolding troughs
  troughs_bound [] b r = omega arith
  troughs_bound (now ∷ times) always_active r =
      let ih = troughs_bound times always_active r in omega arith
  troughs_bound (now ∷ times) (renewal b) r =
      ground (arith, troughs_bound times (phase (renewal b) now r).0 (phase (renewal b) now r).2)

  -- A burst model that has just been cloned enters a trough in at most half of the calls of Phase,
  -- whatever the instants of the calls and the draws: an active window stands between two troughs.
  pub clone-troughs :
      (times : List Time) (b : BurstModel F) (r : R) → 2 * troughs times (clone b) r ≤ length times
  unfolding clone
  clone-troughs times always_active r = let h = troughs_bound times always_active r in omega arith
  clone-troughs times (renewal b) r =
      let h = troughs_bound times (renewal (new_renewal_burst b.active_dwell b.idle_dwell)) r in
      omega arith

  -- A verdict of Phase: an idle one waits for no less than 0.
  pub phase_non_neg : (b : BurstModel F) (now : Time) (r : R) → pos 0 ≤ℤ (phase b now r).1.idle_for
  unfolding phase
  phase_non_neg always_active now r = omega arith
  phase_non_neg (renewal b) now r = ground (
    arith,
    sample_non_neg rng math ops b.active_dwell r,
    sample_non_neg rng math ops b.idle_dwell r,
  )
