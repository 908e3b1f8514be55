-- ===== src/Safety/Limiter.antt =====
-- internal/safety/limiter.go: the two-tier limiter with its byte budget. A method holds the mutex; the
-- instants at which it reads the clock are given to it.
pub mod Tokens
pub mod Release
pub mod Unordered
use phantom_traffic.Prelude.{String, Bool, true, false, Option, none, some, if◌then◌else◌, []}
use Prim.Native.String.{◌++◌}
use phantom_traffic.Prelude.Int.{ℤ, pos, ◌+ℤ◌, int64, ltb_ℤ, leb_ℤ}
use phantom_traffic.Prelude.Clock.{Time, since}
use phantom_traffic.Prelude.Context.{CtxErr, ctx_text}
use phantom_traffic.Prelude.Dict.{Dict, get, put}
use phantom_traffic.Prelude.Float.{Float64, fle, fzero, fone}
use phantom_traffic.Pterr.{GoErr, plain, new_error, class_safety}
use phantom_traffic.Safety.Tripwire.{Tripwire}
use phantom_traffic.Safety.Caps.{CapSpec}
use phantom_traffic.Safety.Bucket.{
  TokenBucket, Reading, new_token_bucket, try_take, give_back, capped, max1,
}

pub record Limiter (F : Type 0) : Type 0 where
  pub per_target : Dict (TokenBucket F)
  pub global : TokenBucket F
  pub bytes : Option (TokenBucket F)
  pub pt_rps : F
  pub g_rps : F
  pub byte_rate : F
  pub blocked_nanos : ℤ
  pub since_start : Time

pub record Reservation (F : Type 0) : Type 0 where
  pub reserved_bytes : F
  pub actual_bytes : F
  pub reconciled : Bool
  pub released : Bool

pub data Outcome (F : Type 0) : Type 0 where
  reserved : Reservation F → Outcome F
  refused : GoErr → Outcome F

-- When Acquire reads the clock: at its start, where a new bucket is made, in the three refills, and
-- where the time that it was blocked is measured.
pub record Readings : Type 0 where
  pub start : Time
  pub created : Time
  pub target : Reading
  pub global : Reading
  pub bytes : Reading
  pub stop : Time

unfoldable pub safety_err : String → GoErr
safety_err msg = new_error class_safety "safety.cap" "limiter.Acquire" msg

-- The reason of a tripwire that is latched. A nil tripwire never refuses.
abbrev pub latched : Option Tripwire → Option String
latched none = none
latched (some t) = if t.tripped then some t.reason else none

module _ {F : Type 0} (ops : Float64 F) where
  open ops use {flt, feq, fadd, fsub, fmul, fdiv, of_int}

  abbrev byte_rate_of : CapSpec F → F
  byte_rate_of caps =
      fdiv (fmul (of_int caps.streaming_byte_rate_kbps) (of_int (pos 1000))) (of_int (pos 8))

  unfoldable pub new_limiter : Time → Time → Time → CapSpec F → Limiter F
  unfolding max1 new_token_bucket
  new_limiter global_at started bytes_at caps =
      let rate = byte_rate_of caps in
      record {
        per_target = [];
        global = new_token_bucket global_at caps.global_rps (max1 ops caps.global_rps);
        bytes = if flt (fzero ops) rate then some (new_token_bucket bytes_at rate rate) else none;
        pt_rps = caps.per_target_rps;
        g_rps = caps.global_rps;
        byte_rate = rate;
        blocked_nanos = pos 0;
        since_start = started;
      }

  -- The bucket of a target; one that is not there yet is made full.
  unfoldable pub bucket_for : Time → String → Limiter F → TokenBucket F
  bucket_for created target l = elim (get target l.per_target) [
    | some b ↦ b
    | none ↦ new_token_bucket created l.pt_rps (max1 ops l.pt_rps)
  ]

  record_blocked : Readings → Limiter F → Limiter F
  record_blocked r l = record l { blocked_nanos = int64 (l.blocked_nanos +ℤ since r.stop r.start) }

  fresh : F → Reservation F
  fresh n = record {
    reserved_bytes = n;
    actual_bytes = fzero ops;
    reconciled = false;
    released = false;
  }

  -- The third tier, once both request tokens `pt` and `g` are taken: `b` is the byte bucket.
  charge_bytes :
      Readings
      → String
      → ℤ
      → TokenBucket F
      → TokenBucket F
      → TokenBucket F
      → Limiter F
      → Limiter F × Outcome F
  unfolding record_blocked fresh
  charge_bytes r target est pt g b l =
      let (b', ok) = try_take ops r.bytes (of_int est) b in
      if ok
      then (
        record l { per_target = put target pt l.per_target; global = g; bytes = some b' },
        reserved (fresh (of_int est)),
      )
      else (
        record_blocked r (record l {
          per_target = put target (give_back ops pt) l.per_target;
          global = give_back ops g;
          bytes = some b';
        }),
        refused (safety_err "streaming byte cap exceeded"),
      )

  take_bytes :
      Readings → String → ℤ → TokenBucket F → TokenBucket F → Limiter F → Limiter F × Outcome F
  unfolding charge_bytes fresh
  take_bytes r target est pt g l =
      let taken = record l { per_target = put target pt l.per_target; global = g } in
      elim l.bytes [
        | none ↦ (taken, reserved (fresh (fzero ops)))
        | some b ↦
            if ltb_ℤ (pos 0) est
            then charge_bytes r target est pt g b l
            else (taken, reserved (fresh (fzero ops)))
      ]

  take_global : Readings → String → ℤ → TokenBucket F → Limiter F → Limiter F × Outcome F
  unfolding record_blocked take_bytes
  take_global r target est pt l =
      let (g, ok) = try_take ops r.global (fone ops) l.global in
      if ok then take_bytes r target est pt g l else (
        record_blocked r
            (record l { per_target = put target (give_back ops pt) l.per_target; global = g }),
        refused (safety_err "global request cap exceeded"),
      )

  take_target : Readings → String → ℤ → Limiter F → Limiter F × Outcome F
  unfolding record_blocked take_global
  take_target r target est l =
      let (pt, ok) = try_take ops r.target (fone ops) (bucket_for r.created target l) in
      if ok then take_global r target est pt l else (
        record_blocked r (record l { per_target = put target pt l.per_target }),
        refused (safety_err ("per-target request cap exceeded for " ++ target)),
      )

  unfoldable pub acquire :
      Option CtxErr → Option Tripwire → Readings → String → ℤ → Limiter F → Limiter F × Outcome F
  unfolding take_target
  acquire (some e) tw r target est l = (l, refused (plain (ctx_text e)))
  acquire none tw r target est l = elim (latched tw) [
    | some reason ↦ (l, refused (safety_err ("tripwire latched: " ++ reason)))
    | none ↦ take_target r target est l
  ]

  unfoldable pub reconcile : ℤ → Reservation F → Reservation F
  reconcile actual r = record r { actual_bytes = of_int actual; reconciled = true }

  -- What a reservation gives back: all that it reserved, unless the bytes that were used are known.
  unfoldable pub refund : Reservation F → F
  refund r =
      if r.reconciled
      then if flt r.actual_bytes r.reserved_bytes
        then fsub r.reserved_bytes r.actual_bytes
        else fzero ops
      else r.reserved_bytes

  unfoldable pub return_bytes : F → Limiter F → Limiter F
  return_bytes n l = elim l.bytes [
    | none ↦ l
    | some b ↦
        if fle ops n (fzero ops)
        then l
        else record l { bytes = some (record b { tokens = capped ops b.burst (fadd b.tokens n) }) }
  ]

  unfoldable pub release : Reservation F → Limiter F → Reservation F × Limiter F
  unfolding refund return_bytes
  release r l =
      if r.released then (r, l) else (record r { released = true }, return_bytes (refund r) l)

  unfoldable pub saturation : Time → Limiter F → F
  saturation now l =
      let total = since now l.since_start in
      if leb_ℤ total (pos 0)
      then fzero ops
      else let sat = fdiv (of_int l.blocked_nanos) (of_int total) in
        if flt (fone ops) sat then fone ops else sat
