-- ===== src/Safety/Bucket.antt =====
-- internal/safety/bucket.go: the token bucket. The clock is read twice in a refill, so a call is
-- given both readings.
use phantom_traffic.Prelude.{Bool, true, false, if◌then◌else◌}
use phantom_traffic.Prelude.Int.{pos, leb_ℤ}
use phantom_traffic.Prelude.Clock.{Time, since}
use phantom_traffic.Prelude.Float.{Float64, fle, fzero, fone, seconds}

pub record TokenBucket (F : Type 0) : Type 0 where
  pub rps : F
  pub burst : F
  pub tokens : F
  pub last : Time

-- clk.Now() and the instant at which clk.Since(last) measures.
pub record Reading : Type 0 where
  pub now : Time
  pub measured : Time

unfoldable pub new_token_bucket : {F : Type 0} → Time → F → F → TokenBucket F
new_token_bucket now rps burst = record { rps = rps; burst = burst; tokens = burst; last = now }

module _ {F : Type 0} (ops : Float64 F) where
  open ops use {flt, fadd, fsub, fmul}

  abbrev pub capped : F → F → F
  capped burst tokens = if flt burst tokens then burst else tokens

  unfoldable pub refill : Reading → TokenBucket F → TokenBucket F
  refill r b =
      let elapsed = since r.measured b.last in
      if leb_ℤ elapsed (pos 0) then record b { last = r.now } else record b {
        last = r.now;
        tokens = capped b.burst (fadd b.tokens (fmul (seconds ops elapsed) b.rps));
      }

  take_from : F → TokenBucket F → TokenBucket F × Bool
  take_from n b =
      if flt b.tokens n then (b, false) else (record b { tokens = fsub b.tokens n }, true)

  -- A rate that is not positive means no limit: nothing is taken.
  unfoldable pub try_take : Reading → F → TokenBucket F → TokenBucket F × Bool
  unfolding take_from
  try_take r n b = if fle ops b.rps (fzero ops) then (b, true) else take_from n (refill r b)

  -- b.tokens++
  unfoldable pub give_back : TokenBucket F → TokenBucket F
  give_back b = record b { tokens = fadd b.tokens (fone ops) }

  -- max1
  unfoldable pub max1 : F → F
  max1 rps =
      if fle ops rps (fzero ops) then fzero ops else if flt rps (fone ops) then fone ops else rps
