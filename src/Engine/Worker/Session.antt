-- ===== src/Engine/Worker/Session.antt =====
-- internal/engine/worker.go, runWorker: one virtual user, alone with the shared state. The behaviour
-- is a state machine of type `V`; what the waits of round `n` return is given.
pub mod Backstop
use phantom_traffic.Prelude.{ℕ, zero, suc, ◌+◌, Option, none, some, if◌then◌else◌}
use phantom_traffic.Prelude.Int.{pos, leb_ℤ}
use phantom_traffic.Prelude.Context.{CtxErr, Poll, returns, blocks}
use phantom_traffic.Prelude.Float.{Float64}
use phantom_traffic.Protocols.{Result, Planned}
use phantom_traffic.Engine.Stats.{record_result}
use phantom_traffic.Engine.Worker.Retry.{WorkerDeps}
use phantom_traffic.Engine.Worker.{World, Surroundings, Acted, run_action}

-- What vs.Next decides: the session is over (Done or an error), or a step with an action or without.
pub data Drive : Type 0 where
  over : Drive
  step : Option Planned → Drive

pub record Behavior (V O : Type 0) : Type 0 where
  pub next : V → V × Drive
  pub observe : Result → O → V → V

-- What gate.wait and clock.Sleep return in a round, and what its action meets.
pub record Round (F O : Type 0) : Type 0 where
  pub gate : Option CtxErr
  pub slept : Option CtxErr
  pub around : Surroundings F O

pub data Status : Type 0 where
  finished waiting_permit out_of_fuel : Status

pub record Ran (F : Type 0) : Type 0 where
  pub world : World F
  pub actions : ℕ
  pub status : Status

module _ {F O V : Type 0} (no_obs : O) (ops : Float64 F) (b : Behavior V O) where
  open b use {next, observe}

  ran : Status → ℕ → World F → Ran F
  ran status actions w = record { world = w; actions = actions; status = status }

  -- d.Stats.Record(res)
  record_action : Acted F O → World F
  record_action a = record a.world { stats = record_result a.res a.world.stats }

  -- After runAction: `rest` is the rest of the loop.
  after_action : V → ℕ → World F → Poll (Acted F O) → (V → ℕ → World F → Ran F) → Ran F
  unfolding ran record_action
  after_action v actions w blocks rest = ran waiting_permit actions w
  after_action v actions w (returns a) rest =
      if a.stop
      then ran finished actions a.world
      else rest (observe a.res a.obs v) (actions + 1) (record_action a)

  -- One round, from the decision of vs.Next on.
  round : WorkerDeps → Round F O → V → ℕ → World F → Drive → (V → ℕ → World F → Ran F) → Ran F
  unfolding ran after_action
  round d env v actions w over rest = ran finished actions w
  round d env v actions w (step planned) rest =
      if leb_ℤ d.session_max_actions (pos actions) then ran finished actions w else elim env.gate [
        | some e ↦ ran finished actions w
        | none ↦ elim env.slept [
          | some e ↦ ran finished actions w
          | none ↦ elim planned [
            | none ↦ rest v actions w
            | some pa ↦ after_action v actions w (run_action no_obs ops d env.around pa w) rest
          ]
        ]
      ]

  -- At most `fuel` rounds, from round `n` on.
  unfoldable pub run_worker : ℕ → WorkerDeps → (ℕ → Round F O) → ℕ → V → ℕ → World F → Ran F
  unfolding ran round
  run_worker zero d env n v actions w = ran out_of_fuel actions w
  run_worker (suc fuel) d env n v actions w =
      let (v', drive) = next v in
      round d (env n) v' actions w drive
        (λ v'' actions' w'. run_worker fuel d env (n + 1) v'' actions' w')
