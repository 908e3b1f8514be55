-- ===== src/Scenario/Validate/Enforced.antt =====
-- internal/scenario/validate.go with internal/safety and internal/schedule: what Validate lets the caps and
-- the schedule of a run rely on.
use phantom_traffic.Prelude.{
  ℕ, ◌≤◌, ◌≡◌, sym, subst, Bool, false, List, [], ◌∷◌, Option, none, some, inr, arith, All,
}
use phantom_traffic.Prelude.Int.{ℤ, pos, ◌≤ℤ◌, ◌<ℤ◌}
use phantom_traffic.Prelude.Clock.{Time, Duration, IsFixed, day_length}
use phantom_traffic.Prelude.Float.{Float64, fzero, fle}
use phantom_traffic.Prelude.Text.{Bytes}
use phantom_traffic.Safety.Caps.{
  validate_caps, effective, default_ceiling, divided_by, at_least_one, ceiling_seconds,
  floor_at_one, share,
}
use phantom_traffic.Safety.Caps.Soundness.{IsPositive, IsBounded, effective-IsBounded}
use phantom_traffic.Schedule.{active, next_transition}
use phantom_traffic.Schedule.Weekly.{IsNext, next_transition-IsNext}
use phantom_traffic.Behavior.{Rand, Math}
use phantom_traffic.Behavior.Fingerprint.{Fingerprint}
use phantom_traffic.Persona.{Library, Persona}
use phantom_traffic.Persona.Builtins.{Entry}
use phantom_traffic.Scenario.{Scenario, Raw, RawBlock, RawRamp, Block}
use phantom_traffic.Scenario.Blocks.Sound.{IsRampOf}
use phantom_traffic.Scenario.Validate.Parts.{Each}
use phantom_traffic.Engine.Pacing.{RampPlan}
use phantom_traffic.Engine.Semaphore.{new_semaphore}
use phantom_traffic.Engine.Supervisor.{Tick, initial_limit, run_ramp_governor}
use phantom_traffic.Engine.Supervisor.Ramp.{IsRamped, run_ramp_governor-IsRamped}
use phantom_traffic.Scenario.Windows.Sound.{IsWindow-IsDaily}
use phantom_traffic.Scenario.Blocks.{Options}
use phantom_traffic.Scenario.Validate.{ceiling_of, validate}
use phantom_traffic.Scenario.Validate.Sound.{loaded, IsRunnable, validate-IsValid}

share_pos : (cap n : ℤ) → pos 0 <ℤ share cap n
unfolding share floor_at_one
share_pos cap n = ground arith

ceiling_of-IsPositive :
    {F : Type 0} (ops : Float64 F) (opts : Options)
    → pos 0 <ℤ ceiling_seconds ops (default_ceiling ops)
    → fle ops (ceiling_of ops opts).per_target_rps (fzero ops) ≡ false
    → fle ops (ceiling_of ops opts).global_rps (fzero ops) ≡ false
    → IsPositive ops (ceiling_of ops opts)
unfolding ceiling_of divided_by default_ceiling
ceiling_of-IsPositive ops opts h per_target whole =
    let c = default_ceiling ops in
    let n = at_least_one (at_least_one opts.agent_count) in
    record {
      per_target_rps = per_target;
      global_rps = whole;
      max_concurrent_sessions = share_pos c.max_concurrent_sessions n;
      total_request_budget = share_pos c.total_request_budget n;
      streaming_byte_rate_kbps = share_pos c.streaming_byte_rate_kbps n;
      concurrent_streams = share_pos c.concurrent_streams n;
      per_session_max_duration = h;
      per_session_max_actions = omega arith;
    }

-- The start of a sound ramp, or of none, is at most the concurrency.
starts :
    (o : Option RawRamp) (plan : RampPlan) (concurrency : ℤ) (duration : Duration)
    → IsRampOf o plan concurrency duration
    → pos 1 ≤ℤ concurrency
    → plan.start_concurrency ≤ℤ concurrency
starts none plan concurrency duration h k = ground arith
starts (some rr) plan concurrency duration h k = h.start_at_most

module _ {R F : Type 0} (lib : Library) (rng : Rand R F) (math : Math F) (ops : Float64 F)
    (is_ip : Bytes → Bool) (table : List Fingerprint) (entries : List (Entry F)) (zero : Persona F)
    (raw : Raw F) (opts : Options) (sc : Scenario F) where
  -- Without the override of the invocation, the caps in force in a scenario that Validate returns are
  -- within the default ceiling divided by the agents: each of the six integer caps is positive and at
  -- most the ceiling's, and each of the two rates compares neither at or below 0, which would mean
  -- unlimited, nor above the ceiling's. (A declared rate that is NaN passes Validate and compares so
  -- too.) Conditions: `<` on floats is irreflexive, thirty minutes in seconds is positive, and so are the
  -- rates of the ceiling, 10 and 50 divided by the agents.
  pub validate-IsBounded :
      ((x : F) → ops.flt x x ≡ false)
      → pos 0 <ℤ ceiling_seconds ops (default_ceiling ops)
      → fle ops (ceiling_of ops opts).per_target_rps (fzero ops) ≡ false
      → fle ops (ceiling_of ops opts).global_rps (fzero ops) ≡ false
      → opts.cap_override ≡ false
      → validate lib rng math ops is_ip table
          (loaded lib rng math ops is_ip table entries zero)
          zero
          raw
          opts
        ≡ inr sc
      → IsBounded ops sc.caps (ceiling_of ops opts)
  validate-IsBounded irrefl thirty per_target whole no_override h =
      let v = validate-IsValid lib rng math ops is_ip table entries zero raw opts sc h in
      let declared =
        subst (λ c. validate_caps ops raw.caps c opts.cap_override ≡ []) v.divided v.declared in
      let same = subst (λ c. sc.caps ≡ effective ops raw.caps c) v.divided v.in_force in
      subst (λ e. IsBounded ops e (ceiling_of ops opts)) (sym same)
        (effective-IsBounded ops raw.caps (ceiling_of ops opts) irrefl
          (ceiling_of-IsPositive ops opts thirty per_target whole)
          (subst (λ o. validate_caps ops raw.caps (ceiling_of ops opts) o ≡ []) no_override
            declared))

  -- At a location of fixed offset, the next change of the schedule of a scenario that Validate returns is
  -- right at every instant from the second day on. When NextTransition returns one, it is after t, Active there differs from Active at t and is as at t up
  -- to it; when it returns none, Active is as at t for ever.
  pub validate-IsNext :
      (shift : ℕ)
      → IsFixed sc.schedule.loc shift
      → (t : Time) → day_length ≤ t
      → validate lib rng math ops is_ip table
          (loaded lib rng math ops is_ip table entries zero)
          zero
          raw
          opts
        ≡ inr sc
      → IsNext (active sc.schedule) t (next_transition sc.schedule t)
  validate-IsNext shift fixed t late h =
      let v = validate-IsValid lib rng math ops is_ip table entries zero raw opts sc h in
      next_transition-IsNext sc.schedule shift fixed t
        (IsWindow-IsDaily sc.schedule.windows v.daily) late

  -- Every block of a scenario that Validate returns ramps up as it should: from its initial limit on and
  -- after any ticks of the governor, the limit of its semaphore is at least 1 and at most the block's
  -- concurrency, which is at most the cap on sessions in force; and it is the concurrency once the
  -- governor has returned at the end of the ramp.
  pub validate-IsRamped :
      validate lib rng math ops is_ip table
          (loaded lib rng math ops is_ip table entries zero)
          zero
          raw
          opts
        ≡ inr sc
      → All
          (λ (b : Block F).
            (b.concurrency ≤ℤ sc.caps.max_concurrent_sessions)
            × ((start : Time) (ts : List Tick)
                → IsRamped b.concurrency
                    (run_ramp_governor ops b start ts (new_semaphore (initial_limit ops b)))))
          sc.blocks
  validate-IsRamped h =
      let v = validate-IsValid lib rng math ops is_ip table entries zero raw opts sc h in
      each raw.scenarios sc.blocks v.runnable
    where
      each :
          (rbs : List RawBlock) (bs : List (Block F))
          → Each lib rng math ops is_ip table
              (loaded lib rng math ops is_ip table entries zero)
              zero
              (IsRunnable lib rng math ops is_ip table entries zero raw opts
                sc.caps.max_concurrent_sessions)
              rbs
              bs
          → All
              (λ (b : Block F).
                (b.concurrency ≤ℤ sc.caps.max_concurrent_sessions)
                × ((start : Time) (ts : List Tick)
                    → IsRamped b.concurrency
                        (run_ramp_governor ops b start ts (new_semaphore (initial_limit ops b)))))
              bs
      each [] [] e = tt
      each [] (b ∷ bs) e = absurd e
      each (rb ∷ rbs) [] e = absurd e
      each (rb ∷ rbs) (b ∷ bs) e = (
        (
          e.0.0.at_most,
          λ start ts.
              run_ramp_governor-IsRamped ops b start ts e.0.0.at_least
                (starts rb.ramp b.ramp b.concurrency b.duration e.0.0.ramped e.0.0.at_least),
        ),
        each rbs bs e.1,
      )
