-- ===== src/Engine/Worker/Permits.antt =====
-- What an action leaves behind: its permit, and the latch.
use phantom_traffic.Prelude.{
  ◌-◌, ◌^◌, ◌≡◌, ◌∙◌, refl, sym, subst, inl, inr, String, Bool, true, false, Option, none, some,
  arith, Bool-cases, Option-cases,
}
use phantom_traffic.Prelude.Int.{pos, ◌+ℤ◌, ◌-ℤ◌, ◌≤ℤ◌, ◌<ℤ◌, int64, leb_ℤ}
use phantom_traffic.Prelude.Context.{CtxErr, Poll, returns, blocks}
use phantom_traffic.Prelude.Dict.{get, put}
use phantom_traffic.Prelude.Float.{Float64}
use phantom_traffic.Pterr.{class_safety, GoErr, is_class}
use phantom_traffic.Protocols.{Planned}
use phantom_traffic.Safety.Breaker.{Breaker, allow}
use phantom_traffic.Safety.Tripwire.{Tripwire, trip}
use phantom_traffic.Safety.Limiter.{
  Limiter, Reservation, Outcome as LimiterOutcome, reserved, refused,
}
use phantom_traffic.Engine.Semaphore.{
  Semaphore, acquire as sem_acquire, release as sem_release, try_acquire,
}
use phantom_traffic.Engine.Worker.Retry.{WorkerDeps, Retries, Done, do_with_retry}
use phantom_traffic.Engine.Worker.Retry.Attempts.{Ends, do_with_retry-Ends}
use phantom_traffic.Engine.Worker.{
  World, Surroundings, Acted, perform, after_permit, enter, woken, refuse, after_limiter, admit,
  after_breaker, run_action,
}

-- Permits are counted from 0 and one more fits an int.
abbrev pub CanCount : Semaphore → Type 0
CanCount s = (pos 0 ≤ℤ s.held) × (s.held <ℤ pos (2 ^ 63 - 1))

release_taken :
    (s : Semaphore) → CanCount s → sem_release (record s { held = int64 (s.held +ℤ pos 1) }) ≡ s
unfolding sem_release int64 ◌+ℤ◌ ◌-ℤ◌
release_taken s h = ground arith

waiting :
    (ctx : Option CtxErr) (s : Semaphore)
    → ctx ≡ none
    → leb_ℤ s.limit s.held ≡ true
    → sem_acquire ctx s ≡ (s, blocks)
unfolding sem_acquire try_acquire
waiting ctx s live full = rw live (rw full refl)

acquired :
    (ctx : Option CtxErr) (s : Semaphore)
    → ctx ≡ none
    → leb_ℤ s.limit s.held ≡ false
    → sem_acquire ctx s ≡ (record s { held = int64 (s.held +ℤ pos 1) }, returns none)
unfolding sem_acquire try_acquire
acquired ctx s live free = rw live (rw free refl)

taken_at_once :
    (ctx : Option CtxErr) (s : Semaphore)
    → leb_ℤ s.limit s.held ≡ false
    → try_acquire ctx s ≡ (record s { held = int64 (s.held +ℤ pos 1) }, returns none)
unfolding try_acquire
taken_at_once ctx s free = rw free refl

still_full :
    (ctx : Option CtxErr) (s : Semaphore)
    → leb_ℤ s.limit s.held ≡ true
    → try_acquire ctx s ≡ (s, elim ctx [ none ↦ blocks | some e ↦ returns (some e) ])
unfolding try_acquire
still_full ctx s full = rw full refl

module _ {F O : Type 0} (no_obs : O) (ops : Float64 F) where
  -- Against the semaphore `s` and the world `w`: all permits are back, nothing is counted yet, and
  -- the tripwire is as it was if the run goes on, and is tripped if it stops.
  pub record Left (s : Semaphore) (w : World F) (a : Acted F O) : Type 0 where
    pub permits : a.world.sem ≡ s
    pub uncounted : a.world.stats ≡ w.stats
    pub going : a.stop ≡ false → a.world.tripwire ≡ w.tripwire
    pub stopping : a.stop ≡ true → a.world.tripwire.tripped ≡ true

  -- An action that does not return waits for a permit, and all are taken.
  abbrev pub Leaves : World F → Poll (Acted F O) → Type 0
  Leaves w (returns a) = Left w.sem w a
  Leaves w blocks = w.sem.limit ≤ℤ w.sem.held

  abbrev Performed : Semaphore → World F → Poll (Acted F O) → Type 0
  Performed s w (returns a) = Left s w a
  Performed s w blocks = ⊥

  returns_done :
      (d : WorkerDeps) (pa : Planned) (h : Retries F O)
      → (r : Done O) × (do_with_retry no_obs ops d pa h ≡ some r)
  returns_done d pa h = elim (Option-cases (do_with_retry no_obs ops d pa h)) [
    | inl nothing ↦
        absurd (subst (Ends no_obs ops d pa h 0) nothing (do_with_retry-Ends no_obs ops d pa h))
    | inr found ↦ found
  ]

  perform-Performed :
      (d : WorkerDeps) (env : Surroundings F O) (pa : Planned) (rsv : Reservation F) (w : World F)
      (s : Semaphore)
      → sem_release w.sem ≡ s
      → Performed s w (perform no_obs ops d env pa rsv w)
  unfolding perform
  perform-Performed d env pa rsv w s e = elim (Option-cases env.handler) [
    | inl unknown ↦
        rw (unknown, perform)
          (record { permits = e; uncounted = refl; going = λ g. refl; stopping = λ g. absurd cc })
    | inr (h, known) ↦
        let (r, ended) = returns_done d pa h in
        rw (known, ended, perform)
          (record { permits = e; uncounted = refl; going = λ g. refl; stopping = λ g. absurd cc })
  ]

  -- Where the world differs from `w` only in the limiter, the breakers and a permit that is back.
  Performed-Leaves :
      (w w' : World F) (o : Poll (Acted F O))
      → w'.stats ≡ w.stats
      → w'.tripwire ≡ w.tripwire
      → Performed w.sem w' o
      → Leaves w o
  Performed-Leaves w w' blocks e f h = absurd h
  Performed-Leaves w w' (returns a) e f h = record {
    permits = h.permits;
    uncounted = h.uncounted ∙ e;
    going = λ g. h.going g ∙ f;
    stopping = h.stopping;
  }

  enter-Leaves :
      (d : WorkerDeps) (env : Surroundings F O) (pa : Planned) (rsv : Reservation F) (w : World F)
      → CanCount w.sem
      → Leaves w (enter no_obs ops d env pa rsv w)
  unfolding enter after_permit sem_acquire try_acquire
  enter-Leaves d env pa rsv w c = elim (Option-cases env.sem_ctx) [
    | inr (e, gone) ↦
        rw (gone) (record {
          permits = refl;
          uncounted = refl;
          going = λ g. refl;
          stopping = λ g. absurd cc;
        })
    | inl live ↦ elim (Bool-cases (leb_ℤ w.sem.limit w.sem.held)) [
      | inl full ↦ rw (waiting env.sem_ctx w.sem live full) (ground arith)
      | inr free ↦
          let taken = record w { sem = record w.sem { held = int64 (w.sem.held +ℤ pos 1) } } in
          rw (acquired env.sem_ctx w.sem live free) (
            Performed-Leaves w taken _ refl refl
              (perform-Performed d env pa rsv taken w.sem (release_taken w.sem c)))
    ]
  ]

  woken-Leaves :
      (d : WorkerDeps) (env : Surroundings F O) (pa : Planned) (rsv : Reservation F) (w : World F)
      → CanCount w.sem
      → Leaves w (woken no_obs ops d env pa rsv w)
  unfolding woken after_permit
  woken-Leaves d env pa rsv w c = elim (Bool-cases (leb_ℤ w.sem.limit w.sem.held)) [
    | inr free ↦
        let taken = record w { sem = record w.sem { held = int64 (w.sem.held +ℤ pos 1) } } in
        rw (taken_at_once env.sem_ctx w.sem free) (
          Performed-Leaves w taken _ refl refl
            (perform-Performed d env pa rsv taken w.sem (release_taken w.sem c)))
    | inl full ↦ elim (Option-cases env.sem_ctx) [
      | inl live ↦ rw (still_full env.sem_ctx w.sem full, live) (ground arith)
      | inr (e, gone) ↦
          rw (still_full env.sem_ctx w.sem full, gone)
            (record {
              permits = refl;
              uncounted = refl;
              going = λ g. refl;
              stopping = λ g. absurd cc;
            })
    ]
  ]

  -- A change of the limiter or of the breakers.
  abbrev Beside : World F → World F → Type 0
  Beside w w' = (w'.sem ≡ w.sem) × (w'.stats ≡ w.stats) × (w'.tripwire ≡ w.tripwire)

  Beside-Leaves : (w w' : World F) (o : Poll (Acted F O)) → Beside w w' → Leaves w' o → Leaves w o
  Beside-Leaves w w' blocks (e, f, g) h = rw (sym e) h
  Beside-Leaves w w' (returns a) (e, f, g) h = record {
    permits = h.permits ∙ e;
    uncounted = h.uncounted ∙ f;
    going = λ s. h.going s ∙ g;
    stopping = h.stopping;
  }

  tripped_by : (reason : String) (t : Tripwire) → (trip reason t).tripped ≡ true
  unfolding trip
  tripped_by reason t = ground arith

  refuse-Left :
      (pa : Planned) (err : GoErr) (w : World F) → Left w.sem w (refuse no_obs ops pa err w)
  unfolding refuse
  refuse-Left pa err w = elim (Bool-cases (is_class (some err) class_safety)) [
    | inl safety ↦ rw (safety) (record {
      permits = refl;
      uncounted = refl;
      going = λ g. absurd cc;
      stopping = λ g. tripped_by "limiter ClassSafety" w.tripwire;
    })
    | inr other ↦
        rw (other) (record {
          permits = refl;
          uncounted = refl;
          going = λ g. refl;
          stopping = λ g. absurd cc;
        })
  ]

  after_limiter-Leaves :
      (d : WorkerDeps) (env : Surroundings F O) (pa : Planned) (w : World F)
      (p : Limiter F × LimiterOutcome F)
      → CanCount w.sem
      → Leaves w (after_limiter no_obs ops d env pa w p)
  unfolding after_limiter
  after_limiter-Leaves d env pa w (l, refused err) c =
      let w' = record w { limiter = l } in
      Beside-Leaves w w' (returns (refuse no_obs ops pa err w')) (refl, refl, refl)
        (refuse-Left pa err w')
  after_limiter-Leaves d env pa w (l, reserved rsv) c =
      let w' = record w { limiter = l } in
      Beside-Leaves w w' _ (refl, refl, refl) (enter-Leaves d env pa rsv w' c)

  after_breaker-Leaves :
      (d : WorkerDeps) (env : Surroundings F O) (pa : Planned) (w : World F) (p : Breaker × Bool)
      → CanCount w.sem
      → Leaves w (after_breaker no_obs ops d env pa w p)
  unfolding after_breaker admit
  after_breaker-Leaves d env pa w (b, true) c =
      let w' = record w { breakers = put pa.target_id b w.breakers } in
      Beside-Leaves w w' _ (refl, refl, refl) (after_limiter-Leaves d env pa w' _ c)
  after_breaker-Leaves d env pa w (b, false) c = record {
    permits = refl;
    uncounted = refl;
    going = λ g. refl;
    stopping = λ g. absurd cc;
  }

  acted-Leaves :
      (d : WorkerDeps) (env : Surroundings F O) (pa : Planned) (w : World F)
      → CanCount w.sem
      → Leaves w (run_action no_obs ops d env pa w)
  unfolding run_action admit
  acted-Leaves d env pa w c = elim (Option-cases (get pa.target_id w.breakers)) [
    | inl without ↦ rw (without, run_action) (after_limiter-Leaves d env pa w _ c)
    | inr (b, found) ↦
        rw (found, run_action) (after_breaker-Leaves d env pa w (allow env.allowed_at b) c)
  ]

  -- Whatever the breaker, the limiter, the context, the registry and the handler do, an action that
  -- returns has given its permit back, it has tripped the tripwire if it tells its worker to stop and
  -- has not touched it otherwise, and it does not count itself; it fails to return only while all
  -- permits are taken. So does an action that has waited for a permit and is woken, whatever it has
  -- reserved and however the world has changed. The permits held are from 0 to less than 2^63 - 1.
  pub run_action-Leaves :
      (d : WorkerDeps) (env : Surroundings F O) (pa : Planned) (w : World F)
      → CanCount w.sem
      → Leaves w (run_action no_obs ops d env pa w)
        × ((rsv : Reservation F) → Leaves w (woken no_obs ops d env pa rsv w))
  run_action-Leaves d env pa w c = (acted-Leaves d env pa w c, λ rsv. woken-Leaves d env pa rsv w c)
