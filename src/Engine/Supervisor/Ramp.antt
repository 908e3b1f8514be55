-- ===== src/Engine/Supervisor/Ramp.antt =====
-- internal/engine/run.go, runRampGovernor: the limit of a block's semaphore while the ramp goes on.
use phantom_traffic.Prelude.{◌≡◌, refl, Bool, true, false, List, [], ◌∷◌, arith, if◌then◌else◌}
use phantom_traffic.Prelude.Int.{ℤ, pos, ◌≤ℤ◌, ◌<ℤ◌, leb_ℤ}
use phantom_traffic.Prelude.Clock.{Time, Duration, since}
use phantom_traffic.Prelude.Float.{Float64}
use phantom_traffic.Engine.Pacing.{RampPlan, ramp_start, concurrency_at, concurrency_at_bounds}
use phantom_traffic.Engine.Semaphore.{Semaphore, new_semaphore, set_limit}
use phantom_traffic.Engine.Supervisor.{
  Tick, ticks, ctx_done, Governor, at_end, initial_limit, govern, run_ramp_governor,
}
use phantom_traffic.Scenario.{Block}

-- Between 1 and the target, and the target once the governor has returned at the end of the ramp.
abbrev pub IsRamped : ℤ → Semaphore × Governor → Type 0
IsRamped target (sem, g) =
    (pos 1 ≤ℤ sem.limit) × (sem.limit ≤ℤ target) × (g ≡ at_end → sem.limit ≡ target)

module _ {F : Type 0} (ops : Float64 F) where
  limit_bounds :
      (plan : RampPlan) (target : ℤ) (elapsed : Duration)
      → pos 1 ≤ℤ target
      → plan.start_concurrency ≤ℤ target
      → let n = concurrency_at ops plan target elapsed in
        (pos 1 ≤ℤ n) × (n ≤ℤ target) × (plan.up ≤ℤ elapsed → pos 0 <ℤ elapsed → n ≡ target)
  limit_bounds plan target elapsed h k =
      let (low, high, last) = concurrency_at_bounds ops plan target elapsed h in
      let start : ramp_start plan ≤ℤ target = ground arith in (low, high start, last)

  ticked :
      (target : ℤ) (over : Bool) (sem : Semaphore) (rest : Semaphore × Governor)
      → pos 1 ≤ℤ sem.limit
      → sem.limit ≤ℤ target
      → (over ≡ true → sem.limit ≡ target)
      → (over ≡ false → IsRamped target rest)
      → IsRamped target (if over then (sem, at_end) else rest)
  ticked target true sem rest low high last more = (low, high, λ e. last refl)
  ticked target false sem rest low high last more = more refl

  reached : (up elapsed : ℤ) → leb_ℤ up elapsed ≡ true → up ≤ℤ elapsed
  reached up elapsed h = ground arith

  begun : (up elapsed : ℤ) → pos 0 <ℤ up → leb_ℤ up elapsed ≡ true → pos 0 <ℤ elapsed
  begun up elapsed h k = ground arith

  govern-IsRamped :
      (plan : RampPlan) (target : ℤ) (start : Time) (ts : List Tick) (sem : Semaphore)
      → pos 1 ≤ℤ target
      → plan.start_concurrency ≤ℤ target
      → pos 0 <ℤ plan.up
      → (pos 1 ≤ℤ sem.limit) × (sem.limit ≤ℤ target)
      → IsRamped target (govern ops plan target start ts sem)
  unfolding govern
  govern-IsRamped plan target start [] sem h k u s = (s.0, s.1, λ e. absurd (cc))
  govern-IsRamped plan target start (ctx_done ∷ ts) sem h k u s = (s.0, s.1, λ e. absurd (cc))
  govern-IsRamped plan target start (ticks now ∷ ts) sem h k u s =
      let elapsed = since now start in
      let n = concurrency_at ops plan target elapsed in
      let (low, high, last) = limit_bounds plan target elapsed h k in
      ticked target (leb_ℤ plan.up elapsed) (set_limit n sem)
        (govern ops plan target start ts (set_limit n sem)) low high
        (λ over. last (reached plan.up elapsed over) (begun plan.up elapsed u over))
        (λ more. govern-IsRamped plan target start ts (set_limit n sem) h k u (low, high))

  initial_limit_bounds :
      (b : Block F)
      → pos 1 ≤ℤ b.concurrency
      → b.ramp.start_concurrency ≤ℤ b.concurrency
      → let n = (new_semaphore (initial_limit ops b)).limit in
        (pos 1 ≤ℤ n) × (n ≤ℤ b.concurrency) × (leb_ℤ b.ramp.up (pos 0) ≡ true → n ≡ b.concurrency)
  unfolding initial_limit new_semaphore
  initial_limit_bounds b h k = ground arith

  -- The limit of a block's semaphore, from its initial limit on, is at least 1 and at most the block's
  -- concurrency after any ticks of the governor, and it is the concurrency once the governor has
  -- returned at the end of the ramp. Conditions: the concurrency is at least 1, and the start of the
  -- ramp is at most the concurrency, as Validate ensures.
  pub run_ramp_governor-IsRamped :
      (b : Block F) (start : Time) (ts : List Tick)
      → pos 1 ≤ℤ b.concurrency
      → b.ramp.start_concurrency ≤ℤ b.concurrency
      → IsRamped b.concurrency
          (run_ramp_governor ops b start ts (new_semaphore (initial_limit ops b)))
  unfolding run_ramp_governor
  run_ramp_governor-IsRamped b start ts h k =
      let first = new_semaphore (initial_limit ops b) in
      let (low, high, last) = initial_limit_bounds b h k in
      ticked b.concurrency (leb_ℤ b.ramp.up (pos 0)) first
        (govern ops b.ramp b.concurrency start ts first) low high last
        (λ ramp.
          govern-IsRamped b.ramp b.concurrency start ts first h k (above b.ramp.up ramp)
            (low, high))
    where
      above : (up : ℤ) → leb_ℤ up (pos 0) ≡ false → pos 0 <ℤ up
      above up h = ground arith
