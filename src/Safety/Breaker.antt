-- ===== src/Safety/Breaker.antt =====
-- internal/safety/breaker.go: the circuit breaker of one target. Each method holds the mutex. `int`
-- and `time.Duration` are integers, with the wrap-around of the failure count written out.
pub mod Trace
use phantom_traffic.Prelude.{Bool, true, false, if◌then◌else◌}
use phantom_traffic.Prelude.Int.{ℤ, pos, ◌+ℤ◌, int64, ltb_ℤ, leb_ℤ}
use phantom_traffic.Prelude.Clock.{Time, Duration, since}

pub data BreakerState : Type 0 where
  breaker_closed breaker_open breaker_half_open : BreakerState

pub record Breaker : Type 0 where
  pub threshold : ℤ
  pub cooldown : Duration
  pub state : BreakerState
  pub fails : ℤ
  pub opened_at : Time

-- `if threshold < 1 { threshold = 1 }`
unfoldable pub new_breaker : ℤ → Duration → Breaker
new_breaker threshold cooldown = record {
  threshold = if ltb_ℤ threshold (pos 1) then pos 1 else threshold;
  cooldown = cooldown;
  state = breaker_closed;
  fails = pos 0;
  opened_at = 0;
}

-- breaker_open() with the cooldown started at `now`.
reopen : Time → Breaker → Breaker
reopen now b = record b { state = breaker_open; opened_at = now }

dispatch_allow : BreakerState → Time → Breaker → Breaker × Bool
dispatch_allow breaker_closed now b = (b, true)
dispatch_allow breaker_half_open now b = (b, false)
dispatch_allow breaker_open now b =
    if leb_ℤ b.cooldown (since now b.opened_at)
    then (record b { state = breaker_half_open }, true)
    else (b, false)

unfoldable pub allow : Time → Breaker → Breaker × Bool
unfolding dispatch_allow
allow now b = dispatch_allow b.state now b

unfoldable pub record_success : Breaker → Breaker
record_success b = record b { state = breaker_closed; fails = pos 0 }

count_failure : Time → Breaker → Breaker
unfolding reopen
count_failure now b =
    let b' = record b { fails = int64 (b.fails +ℤ pos 1) } in
    if leb_ℤ b.threshold b'.fails then reopen now b' else b'

dispatch_failure : BreakerState → Time → Breaker → Breaker
unfolding reopen count_failure
dispatch_failure breaker_half_open now b = reopen now b
dispatch_failure _ now b = count_failure now b

unfoldable pub record_failure : Time → Breaker → Breaker
unfolding dispatch_failure
record_failure now b = dispatch_failure b.state now b

unfoldable pub force_open : Time → Breaker → Breaker
unfolding reopen
force_open now b = reopen now b
