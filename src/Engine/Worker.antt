-- ===== src/Engine/Worker.antt =====
-- internal/engine/worker.go: one action of a virtual user through the breaker, the limiter, the
-- semaphore, the registry and the retries. What the action reads of its surroundings is given to it;
-- the tripwire is the one that the limiter looks at (Engine.Start makes one for both).
pub mod Retry
pub mod Permits
pub mod Session
use phantom_traffic.Prelude.{String, Bool, true, false, Option, none, some, if◌then◌else◌}
use phantom_traffic.Prelude.Int.{pos, ◌+ℤ◌, int64}
use phantom_traffic.Prelude.Clock.{Time}
use phantom_traffic.Prelude.Context.{CtxErr, Poll, returns, blocks}
use phantom_traffic.Prelude.Dict.{Dict, get, put}
use phantom_traffic.Prelude.Float.{Float64}
use phantom_traffic.Pterr.{class_safety, class_permanent, GoErr, is_class}
use phantom_traffic.Protocols.{Outcome, Result, Planned}
use phantom_traffic.Safety.Breaker.{Breaker, allow, record_success, record_failure}
use phantom_traffic.Safety.Tripwire.{Tripwire, trip}
use phantom_traffic.Safety.Limiter.{
  Limiter, Readings, Reservation, Outcome as LimiterOutcome, reserved, refused, acquire, reconcile,
  release,
}
use phantom_traffic.Engine.Semaphore.{
  Semaphore, acquire as sem_acquire, try_acquire as sem_try, release as sem_release,
}
use phantom_traffic.Engine.Stats.{Collector}
use phantom_traffic.Engine.Worker.Retry.{
  WorkerDeps, Retries, skip_result, cancel_result, failure_result, safety_result, is_success,
  do_with_retry,
}

pub record World (F : Type 0) : Type 0 where
  pub breakers : Dict Breaker
  pub limiter : Limiter F
  pub sem : Semaphore
  pub tripwire : Tripwire
  pub stats : Collector

-- What one action reads: the clock at the breaker and in the limiter, the context at the limiter and
-- at the semaphore, and the handler that the registry has for the protocol, if it has one.
pub record Surroundings (F O : Type 0) : Type 0 where
  pub allowed_at : Time
  pub limiter_ctx : Option CtxErr
  pub readings : Readings
  pub sem_ctx : Option CtxErr
  pub handler : Option (Retries F O)
  pub judged_at : Time

-- The results of runAction: the Result, the Observation and `stop`.
pub record Acted (F O : Type 0) : Type 0 where
  pub world : World F
  pub res : Result
  pub obs : O
  pub stop : Bool

unfoldable pub judge_breaker : Time → Outcome → Breaker → Breaker
unfolding is_success
judge_breaker now outcome b = if is_success outcome then record_success b else record_failure now b

-- recordBreaker, on the breaker of the target if it has one.
unfoldable pub record_breaker : Time → String → Outcome → Dict Breaker → Dict Breaker
unfolding judge_breaker
record_breaker now target outcome m = elim (get target m) [
  | none ↦ m
  | some b ↦ put target (judge_breaker now outcome b) m
]

module _ {F O : Type 0} (no_obs : O) (ops : Float64 F) where
  -- The deferred calls, the last one first.
  unfoldable pub give_up_all : Reservation F → World F → World F
  give_up_all rsv w = record w { sem = sem_release w.sem; limiter = (release ops rsv w.limiter).1 }

  -- With the permit held.
  unfoldable pub perform :
      WorkerDeps → Surroundings F O → Planned → Reservation F → World F → Poll (Acted F O)
  unfolding give_up_all record_breaker
  perform d env pa rsv w = elim env.handler [
    | none ↦
        let res = failure_result pa class_permanent "routing.unknown" in
        let m = record_breaker env.judged_at pa.target_id res.outcome w.breakers in
        returns (record {
          world = give_up_all rsv (record w { breakers = m });
          res = res;
          obs = no_obs;
          stop = false;
        })
    | some h ↦ elim (do_with_retry no_obs ops d pa h) [
      | none ↦ blocks
      | some r ↦
          let rsv' = reconcile ops (int64 (r.res.bytes_in +ℤ r.res.bytes_out)) rsv in
          let m = record_breaker env.judged_at pa.target_id r.res.outcome w.breakers in
          returns (record {
            world = give_up_all rsv' (record w { breakers = m });
            res = r.res;
            obs = r.obs;
            stop = false;
          })
    ]
  ]

  -- What acquire of the semaphore returned decides.
  unfoldable pub after_permit :
      WorkerDeps
      → Surroundings F O
      → Planned
      → Reservation F
      → World F
      → Semaphore × Poll (Option CtxErr)
      → Poll (Acted F O)
  unfolding perform
  after_permit d env pa rsv w (s, blocks) = blocks
  after_permit d env pa rsv w (s, returns (some e)) = returns (record {
    world = record w { sem = s; limiter = (release ops rsv w.limiter).1 };
    res = cancel_result pa;
    obs = no_obs;
    stop = false;
  })
  after_permit d env pa rsv w (s, returns none) = perform d env pa rsv (record w { sem = s })

  -- With the reservation made.
  unfoldable pub enter :
      WorkerDeps → Surroundings F O → Planned → Reservation F → World F → Poll (Acted F O)
  unfolding after_permit
  enter d env pa rsv w = after_permit d env pa rsv w (sem_acquire env.sem_ctx w.sem)

  -- The action that waited for a permit, when it is woken: with the reservation that it has made, in the
  -- world as it is by then.
  unfoldable pub woken :
      WorkerDeps → Surroundings F O → Planned → Reservation F → World F → Poll (Acted F O)
  unfolding after_permit
  woken d env pa rsv w = after_permit d env pa rsv w (sem_try env.sem_ctx w.sem)

  unfoldable pub refuse : Planned → GoErr → World F → Acted F O
  refuse pa err w =
      if is_class (some err) class_safety
      then record {
        world = record w { tripwire = trip "limiter ClassSafety" w.tripwire };
        res = safety_result pa;
        obs = no_obs;
        stop = true;
      }
      else record { world = w; res = cancel_result pa; obs = no_obs; stop = false }

  -- What Acquire of the limiter returned decides.
  unfoldable pub after_limiter :
      WorkerDeps
      → Surroundings F O
      → Planned
      → World F
      → Limiter F × LimiterOutcome F
      → Poll (Acted F O)
  unfolding enter refuse
  after_limiter d env pa w (l, refused err) = returns (refuse pa err (record w { limiter = l }))
  after_limiter d env pa w (l, reserved rsv) = enter d env pa rsv (record w { limiter = l })

  unfoldable pub admit : WorkerDeps → Surroundings F O → Planned → World F → Poll (Acted F O)
  unfolding after_limiter
  admit d env pa w =
      after_limiter d env pa w
        (acquire ops env.limiter_ctx (some w.tripwire) env.readings pa.target_id (pos 0) w.limiter)

  -- What Allow of the target's breaker returned decides.
  unfoldable pub after_breaker :
      WorkerDeps → Surroundings F O → Planned → World F → Breaker × Bool → Poll (Acted F O)
  unfolding admit
  after_breaker d env pa w (b, true) =
      admit d env pa (record w { breakers = put pa.target_id b w.breakers })
  after_breaker d env pa w (b, false) = returns (record {
    world = record w { breakers = put pa.target_id b w.breakers };
    res = skip_result pa;
    obs = no_obs;
    stop = false;
  })

  unfoldable pub run_action : WorkerDeps → Surroundings F O → Planned → World F → Poll (Acted F O)
  unfolding after_breaker
  run_action d env pa w = elim (get pa.target_id w.breakers) [
    | none ↦ admit d env pa w
    | some b ↦ after_breaker d env pa w (allow env.allowed_at b)
  ]
