-- ===== src/Engine/Supervisor.antt =====
-- internal/engine/run.go: what Start makes a run of, and the goroutines that it starts for a block: the
-- ramp governor, and the timer of the block's duration. What a goroutine waits for is a list of events.
pub mod Ramp
pub mod OpenTime
pub mod Launch
use phantom_traffic.Prelude.{
  ℕ, Bool, true, false, List, [], ◌∷◌, ◌++◌, String, if◌then◌else◌, str_eq,
}
use phantom_traffic.Prelude.Int.{ℤ, pos, ◌+ℤ◌, int64, ltb_ℤ, leb_ℤ}
use phantom_traffic.Prelude.Clock.{Time, Duration, since}
use phantom_traffic.Prelude.Context.{CtxErr}
use phantom_traffic.Prelude.Dict.{Dict, put}
use phantom_traffic.Prelude.Float.{Float64}
use phantom_traffic.Protocols.{Target}
use phantom_traffic.Safety.Breaker.{Breaker, new_breaker}
use phantom_traffic.Engine.Pacing.{RampPlan, concurrency_at}
use phantom_traffic.Engine.Semaphore.{Semaphore, new_semaphore, set_limit}
use phantom_traffic.Scenario.{Scenario, Block}

-- The governor: a tick of its timer at an instant, or the end of the context.
pub data Tick : Type 0 where
  ticks : Time → Tick
  ctx_done : Tick

-- The governor waits for more ticks, or has returned: at the end of the ramp, or with the context.
pub data Governor : Type 0 where
  waits at_end canceled : Governor

module _ {F : Type 0} (ops : Float64 F) where
  unfoldable pub initial_limit : Block F → ℤ
  unfolding concurrency_at
  initial_limit b =
      let n = concurrency_at ops b.ramp b.concurrency (pos 0) in
      if ltb_ℤ n (pos 1) then pos 1 else n

  -- The governor's loop, on a ramp that takes time.
  unfoldable pub govern : RampPlan → ℤ → Time → List Tick → Semaphore → Semaphore × Governor
  unfolding concurrency_at set_limit
  govern plan target start [] sem = (sem, waits)
  govern plan target start (ctx_done ∷ ts) sem = (sem, canceled)
  govern plan target start (ticks now ∷ ts) sem =
      let elapsed = since now start in
      let sem' = set_limit (concurrency_at ops plan target elapsed) sem in
      let rest = govern plan target start ts sem' in
      if leb_ℤ plan.up elapsed then (sem', at_end) else rest

  unfoldable pub run_ramp_governor : Block F → Time → List Tick → Semaphore → Semaphore × Governor
  unfolding govern
  run_ramp_governor b start ts sem =
      let rest = govern b.ramp b.concurrency start ts sem in
      if leb_ℤ b.ramp.up (pos 0) then (sem, at_end) else rest

-- A turn of the duration's loop: it waits for the gate, and then for the first of the context, the
-- closing of the gate and the timer. A segment is between the instant at which the gate was open and
-- the one at which the wait ended.
pub data Turn : Type 0 where
  gate_failed : CtxErr → Turn
  ctx_ended : Turn
  gate_closed : Time → Time → Turn
  timer_fired : Time → Time → Turn

pub data Ending : Type 0 where
  running : Duration → Ending
  expired : Ending
  stopped : Ending

-- `d` is the block's duration and `elapsed` the open time so far.
unfoldable pub run_duration : Duration → Duration → List Turn → Ending
run_duration d elapsed [] = if ltb_ℤ elapsed d then running elapsed else expired
run_duration d elapsed (gate_failed e ∷ ts) = if ltb_ℤ elapsed d then stopped else expired
run_duration d elapsed (ctx_ended ∷ ts) = if ltb_ℤ elapsed d then stopped else expired
run_duration d elapsed (gate_closed start now ∷ ts) =
    let rest = run_duration d (int64 (elapsed +ℤ since now start)) ts in
    if ltb_ℤ elapsed d then rest else expired
run_duration d elapsed (timer_fired start now ∷ ts) =
    let rest = run_duration d d ts in if ltb_ℤ elapsed d then rest else expired

unfoldable pub run_block_duration : Duration → List Turn → Ending
unfolding run_duration
run_block_duration d ts = run_duration d (pos 0) ts

-- targetIDsOf: the IDs of the targets, each once, in the order of the blocks.
unfoldable pub is_seen : String → List String → Bool
is_seen id [] = false
is_seen id (j ∷ ids) = if str_eq j id then true else is_seen id ids

-- The IDs that the loop has appended so far, and the ones to come.
unfoldable pub add_ids : List String → List Target → List String
unfolding is_seen
add_ids ids [] = ids
add_ids ids (t ∷ ts) = add_ids (if is_seen t.id ids then ids else ids ++ t.id ∷ []) ts

unfoldable pub add_block_ids : {F : Type 0} → List String → List (Block F) → List String
unfolding add_ids
add_block_ids ids [] = ids
add_block_ids ids (b ∷ bs) = add_block_ids (add_ids ids b.targets) bs

unfoldable pub target_ids_of : {F : Type 0} → Scenario F → List String
unfolding add_block_ids
target_ids_of sc = add_block_ids [] sc.blocks

abbrev pub breaker_threshold : ℤ
breaker_threshold = pos 5

abbrev pub breaker_cooldown : Duration
breaker_cooldown = pos 30000000000

-- Start's loop over the IDs.
unfoldable pub make_breakers : List String → Dict Breaker
unfolding new_breaker
make_breakers [] = []
make_breakers (id ∷ ids) =
    put id (new_breaker breaker_threshold breaker_cooldown) (make_breakers ids)

-- startSupervisor's loop over the blocks.
unfoldable pub block_weights : {F : Type 0} → List (Block F) → Dict ℕ
block_weights [] = []
block_weights (b ∷ bs) = put b.id b.weight (block_weights bs)

unfoldable pub block_semaphores : {F : Type 0} → Float64 F → List (Block F) → List Semaphore
unfolding new_semaphore initial_limit
block_semaphores ops [] = []
block_semaphores ops (b ∷ bs) = new_semaphore (initial_limit ops b) ∷ block_semaphores ops bs
