-- ===== src/Engine/Worker/Session/Backstop.antt =====
-- The per-session backstop, and the count of a session.
use phantom_traffic.Prelude.{
  ℕ, zero, suc, ◌+◌, ◌≤◌, ◌<◌, ◌≡◌, ◌^◌, ◌∙◌, sym, subst, inl, inr, Option, none, some, arith,
  Bool-cases, Option-cases,
}
use phantom_traffic.Prelude.Int.{pos, pos_part, leb_ℤ}
use phantom_traffic.Prelude.Context.{Poll, returns, blocks}
use phantom_traffic.Prelude.Float.{Float64}
use phantom_traffic.Protocols.{Planned}
use phantom_traffic.Engine.Stats.Outcomes.{record_result_requests}
use phantom_traffic.Engine.Semaphore.{Semaphore}
use phantom_traffic.Engine.Worker.Retry.{WorkerDeps}
use phantom_traffic.Engine.Worker.{World, Acted, run_action}
use phantom_traffic.Engine.Worker.Permits.{CanCount, Leaves, run_action-Leaves}
use phantom_traffic.Engine.Worker.Session.{
  Drive, over, step, Behavior, Round, Ran, ran, record_action, after_action, round, run_worker,
}

plus_one : (m n : ℕ) → m + n + 1 ≡ m + (n + 1)
plus_one m n = omega arith

module _ {F O V : Type 0} (no_obs : O) (ops : Float64 F) (b : Behavior V O) where
  -- `actions` have been recorded on top of `base` requests, no more than the backstop allows, and the
  -- permits are those of `s`.
  pub record Kept (d : WorkerDeps) (base : ℕ) (s : Semaphore) (actions : ℕ) (w : World F)
      : Type 0 where
    pub permits : w.sem ≡ s
    pub counted : w.stats.global.requests ≡ pos (base + actions)
    pub limited : actions ≤ pos_part d.session_max_actions

  abbrev KeptBy : WorkerDeps → ℕ → Semaphore → Ran F → Type 0
  KeptBy d base s r = Kept d base s r.actions r.world

  after_action-Kept :
      (d : WorkerDeps) (base : ℕ) (s : Semaphore) (v : V) (actions : ℕ) (w : World F)
      (o : Poll (Acted F O)) (rest : V → ℕ → World F → Ran F)
      → base + pos_part d.session_max_actions < 2 ^ 63
      → actions < pos_part d.session_max_actions
      → Leaves no_obs ops w o
      → Kept d base s actions w
      → ((v' : V) (n : ℕ) (w' : World F) → Kept d base s n w' → KeptBy d base s (rest v' n w'))
      → KeptBy d base s (after_action no_obs ops b v actions w o rest)
  unfolding after_action ran record_action
  after_action-Kept d base s v actions w blocks rest k m l h ih = h
  after_action-Kept d base s v actions w (returns a) rest k m l h ih = elim (Bool-cases a.stop) [
    | inl stop ↦ rw stop (record {
      permits = l.permits ∙ h.permits;
      counted = (λ i. (l.uncounted i).global.requests) ∙ h.counted;
      limited = h.limited;
    })
    | inr go ↦ rw go (
        ih _ _ _ (record {
          permits = l.permits ∙ h.permits;
          counted =
              record_result_requests a.res a.world.stats (base + actions) (omega arith)
                ((λ i. (l.uncounted i).global.requests) ∙ h.counted)
              ∙ (λ i. pos (plus_one base actions i));
          limited = omega arith;
        }))
  ]

  CanCount-of : (s s' : Semaphore) → s' ≡ s → CanCount s → CanCount s'
  CanCount-of s s' e c = subst CanCount (sym e) c

  abbrev act :
      WorkerDeps → Round F O → V → ℕ → World F → (V → ℕ → World F → Ran F) → Option Planned → Ran F
  act d env v actions w rest none = rest v actions w
  act d env v actions w rest (some pa) =
      after_action no_obs ops b v actions w (run_action no_obs ops d env.around pa w) rest

  planned-Kept :
      (d : WorkerDeps) (base : ℕ) (s : Semaphore) (env : Round F O) (v : V) (actions : ℕ)
      (w : World F) (planned : Option Planned) (rest : V → ℕ → World F → Ran F)
      → base + pos_part d.session_max_actions < 2 ^ 63
      → actions < pos_part d.session_max_actions
      → CanCount s
      → Kept d base s actions w
      → ((v' : V) (n : ℕ) (w' : World F) → Kept d base s n w' → KeptBy d base s (rest v' n w'))
      → KeptBy d base s (act d env v actions w rest planned)
  planned-Kept d base s env v actions w none rest k m c h ih = ih v actions w h
  planned-Kept d base s env v actions w (some pa) rest k m c h ih =
      let counts = CanCount-of s w.sem h.permits c in
      after_action-Kept d base s v actions w _ rest k m
        (run_action-Leaves no_obs ops d env.around pa w counts).0 h ih

  round-Kept :
      (d : WorkerDeps) (base : ℕ) (s : Semaphore) (env : Round F O) (v : V) (actions : ℕ)
      (w : World F) (drive : Drive) (rest : V → ℕ → World F → Ran F)
      → base + pos_part d.session_max_actions < 2 ^ 63
      → CanCount s
      → Kept d base s actions w
      → ((v' : V) (n : ℕ) (w' : World F) → Kept d base s n w' → KeptBy d base s (rest v' n w'))
      → KeptBy d base s (round no_obs ops b d env v actions w drive rest)
  unfolding round ran
  round-Kept d base s env v actions w over rest k c h ih = h
  round-Kept d base s env v actions w (step planned) rest k c h ih =
      elim (Bool-cases (leb_ℤ d.session_max_actions (pos actions))) [
        | inl full ↦ rw full h
        | inr more ↦
            let room : actions < pos_part d.session_max_actions = ground arith in
            elim (Option-cases env.gate) [
              | inr (e, gone) ↦ rw (more, gone) h
              | inl open_gate ↦ elim (Option-cases env.slept) [
                | inr (e, woken) ↦ rw (more, open_gate, woken) h
                | inl rested ↦
                    rw (more, open_gate, rested)
                      (planned-Kept d base s env v actions w planned rest k room c h ih)
              ]
            ]
      ]

  -- Every run of a worker, however long and however the actions end, leaves the permits as it found
  -- them, records no more actions than SessionMaxActions, and adds one to the requests for each that
  -- it records. The count of requests stays below 2^63.
  pub run_worker-Kept :
      (fuel : ℕ) (d : WorkerDeps) (env : ℕ → Round F O) (n : ℕ) (v : V) (base : ℕ) (s : Semaphore)
      (actions : ℕ) (w : World F)
      → base + pos_part d.session_max_actions < 2 ^ 63
      → CanCount s
      → Kept d base s actions w
      → let r = run_worker no_obs ops b fuel d env n v actions w in Kept d base s r.actions r.world
  unfolding run_worker ran
  run_worker-Kept zero d env n v base s actions w k c h = h
  run_worker-Kept (suc fuel) d env n v base s actions w k c h =
      round-Kept d base s (env n) (b.next v).0 actions w (b.next v).1 _ k c h
        (λ v' m w' h'. run_worker-Kept fuel d env (n + 1) v' base s m w' k c h')
