-- ===== src/Engine/Gate.antt =====
-- internal/engine/gate.go: the pause gate with an operator source and a schedule source. A method
-- holds the mutex throughout, so each is one step. Closing a closed channel panics: `none`.
pub mod Accounting
use phantom_traffic.Prelude.{
  ℕ, ◌+◌, Bool, true, false, not, ◌&&◌, ◌||◌, Option, none, some, if◌then◌else◌, ◌==◌,
}
use phantom_traffic.Prelude.Int.{pos, ◌+ℤ◌, int64}
use phantom_traffic.Prelude.Clock.{Time, Duration, since}
use phantom_traffic.Prelude.Context.{CtxErr, Poll, returns, blocks}

pub data Source : Type 0 where
  operator schedule : Source

-- A channel that carries nothing: which one it is, and whether it is closed.
pub record Notify : Type 0 where
  pub id : ℕ
  pub is_closed : Bool

pub record Gate : Type 0 where
  pub operator_paused : Bool
  pub schedule_paused : Bool
  pub close_notify : Notify
  pub op_paused_at : Time
  pub op_paused_total : Duration

unfoldable pub new_gate : Gate
new_gate = record {
  operator_paused = false;
  schedule_paused = false;
  close_notify = record { id = 0; is_closed = false };
  op_paused_at = 0;
  op_paused_total = pos 0;
}

unfoldable pub is_open : Gate → Bool
is_open g = not (g.operator_paused || g.schedule_paused)

unfoldable pub is_paused : Source → Gate → Bool
is_paused operator g = g.operator_paused
is_paused schedule g = g.schedule_paused

unfoldable pub set_paused : Source → Bool → Gate → Gate
set_paused operator b g = record g { operator_paused = b }
set_paused schedule b g = record g { schedule_paused = b }

close_channel : Notify → Option Notify
close_channel n = if n.is_closed then none else some (record n { is_closed = true })

-- `if src == gateOperator { g.opPausedAt = g.clk.Now() }`
stamp : Source → Time → Gate → Gate
stamp operator now g = record g { op_paused_at = now }
stamp schedule now g = g

close_if : Bool → Gate → Option Gate
unfolding close_channel
close_if false g = some g
close_if true g = elim (close_channel g.close_notify) [
  | none ↦ none
  | some n ↦ some (record g { close_notify = n })
]

unfoldable pub pause : Source → Time → Gate → Option Gate
unfolding is_open is_paused set_paused stamp close_if close_channel
pause src now g =
    if is_paused src g
    then some g
    else let g' = stamp src now (set_paused src true g) in
      close_if (is_open g && not (is_open g')) g'

-- `if src == gateOperator && !g.opPausedAt.IsZero() { ... }`
settle : Source → Time → Gate → Gate
settle operator now g = if g.op_paused_at == 0 then g else record g {
  op_paused_total = int64 (g.op_paused_total +ℤ since now g.op_paused_at);
  op_paused_at = 0;
}
settle schedule now g = g

-- `if g.openLocked() { g.closeNotify = make(chan struct{}) }`
renew : Gate → Gate
unfolding is_open
renew g =
    if is_open g
    then record g { close_notify = record { id = g.close_notify.id + 1; is_closed = false } }
    else g

unfoldable pub resume : Source → Time → Gate → Gate
unfolding is_open is_paused set_paused settle renew
resume src now g = if is_paused src g then renew (settle src now (set_paused src false g)) else g

-- The operator's pauses so far, one in progress included.
unfoldable pub paused_total : Time → Gate → Duration
paused_total now g =
    if g.op_paused_at == 0
    then g.op_paused_total
    else int64 (g.op_paused_total +ℤ since now g.op_paused_at)

-- wait returns ctx.Err() once the gate is open, and at once if the context is done.
unfoldable pub wait : Option CtxErr → Gate → Poll (Option CtxErr)
unfolding is_open
wait ctx g =
    if is_open g then returns ctx else elim ctx [ none ↦ blocks | some e ↦ returns (some e) ]

pub data Waited : Type 0 where
  channel : Notify → Waited
  failed : CtxErr → Waited

-- waitOpenAndGetCloseCh
unfoldable pub wait_open_and_get_close_ch : Option CtxErr → Gate → Poll Waited
unfolding is_open
wait_open_and_get_close_ch ctx g = elim ctx [
  | some e ↦ returns (failed e)
  | none ↦ if is_open g then returns (channel g.close_notify) else blocks
]
