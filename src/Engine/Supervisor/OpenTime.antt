-- ===== src/Engine/Supervisor/OpenTime.antt =====
-- internal/engine/run.go, runBlockDuration: the duration of a block against the time its gate is open.
use phantom_traffic.Prelude.{
  ℕ, zero, suc, ◌+◌, ◌-◌, ◌^◌, ◌≤◌, ◌<◌, ◌≡◌, ◌∙◌, ap, subst, Bool, true, false, List, [], ◌∷◌,
  arith, Bool-cases, inl, inr, if◌then◌else◌,
}
use phantom_traffic.Prelude.Int.{ℤ, pos, ◌+ℤ◌, int64, ltb_ℤ}
use phantom_traffic.Prelude.Clock.{Time, since, since_exact}
use phantom_traffic.Engine.Supervisor.{
  Turn, gate_failed, ctx_ended, gate_closed, timer_fired, Ending, running, expired, stopped,
  run_duration, run_block_duration,
}

-- The nanoseconds of `n` from `t` on during which a gate is open.
abbrev pub open_time : (Time → Bool) → Time → ℕ → ℕ
open_time is_open t zero = 0
open_time is_open t (suc n) = (if is_open t then 1 else 0) + open_time is_open (t + 1) n

-- When the last turn ends; an end of the context is not part of a turn.
abbrev pub last : Time → List Turn → Time
last t [] = t
last t (gate_failed e ∷ ts) = t
last t (ctx_ended ∷ ts) = t
last t (gate_closed start now ∷ ts) = last now ts
last t (timer_fired start now ∷ ts) = now

-- A state of the gate from one instant up to another.
abbrev pub During : (Time → Bool) → Bool → Time → Time → Type 0
During is_open b from until = (v : Time) → from ≤ v → v < until → is_open v ≡ b

-- The turns follow the gate, which is shut from one turn to the next and open during a turn, and a timer
-- does not fire before the time that remained.
abbrev pub IsTimely : (Time → Bool) → ℕ → ℕ → Time → List Turn → Type 0
IsTimely is_open d elapsed t [] = Unit
IsTimely is_open d elapsed t (gate_failed e ∷ ts) = Unit
IsTimely is_open d elapsed t (ctx_ended ∷ ts) = Unit
IsTimely is_open d elapsed t (gate_closed start now ∷ ts) =
    (t ≤ start)
    × (start ≤ now)
    × During is_open false t start
    × During is_open true start now
    × IsTimely is_open d (elapsed + (now - start)) now ts
IsTimely is_open d elapsed t (timer_fired start now ∷ ts) =
    (t ≤ start)
    × (start ≤ now)
    × During is_open false t start
    × During is_open true start now
    × (d ≤ elapsed + (now - start))

-- How the loop ends, against the open time.
abbrev pub IsMeasured : ℕ → ℕ → Ending → Type 0
IsMeasured d open' (running e) = (open' < d) × (e ≡ pos open')
IsMeasured d open' expired = d ≤ open'
IsMeasured d open' stopped = open' < d

open_time_add :
    (is_open : Time → Bool) (t m n : ℕ)
    → open_time is_open t (m + n) ≡ open_time is_open t m + open_time is_open (t + m) n
open_time_add is_open t zero n =
    let none_of : 0 + n ≡ n = omega arith in
    let same : t ≡ t + 0 = omega arith in
    ap (open_time is_open t) none_of ∙ ap (λ k. open_time is_open k n) same ∙ omega arith
open_time_add is_open t (suc m) n =
    let rest = open_time_add is_open (t + 1) m n in
    let moved : t + 1 + m ≡ t + suc m = omega arith in
    let later = ap (λ k. open_time is_open k n) moved in
    let e : suc m + n ≡ suc (m + n) = omega arith in
    let head : open_time is_open t (suc m + n)
        ≡ (if is_open t then 1 else 0) + open_time is_open (t + 1) (m + n) =
      ap (open_time is_open t) e in
    omega (arith, rest, later, head)

open_time-During :
    (is_open : Time → Bool) (b : Bool) (t n : ℕ)
    → During is_open b t (t + n)
    → open_time is_open t n ≡ (if b then n else 0)
open_time-During is_open b t zero h = ground arith
open_time-During is_open b t (suc n) h =
    let first = h t (omega arith) (omega arith) in
    let rest = open_time-During is_open b (t + 1) n (λ v le lt. h v (omega arith) (omega arith)) in
    rw (first, rest) (ground arith)

-- A turn adds its length to the open time.
open_time-turn :
    (is_open : Time → Bool) (t start now : Time)
    → t ≤ start
    → start ≤ now
    → During is_open false t start
    → During is_open true start now
    → open_time is_open t (now - t) ≡ now - start
open_time-turn is_open t start now h k shut open' =
    let whole : now - t ≡ (start - t) + (now - start) = omega arith in
    let moved : t + (start - t) ≡ start = omega arith in
    let before =
      open_time-During is_open false t (start - t) (λ v le lt. shut v le (omega arith)) in
    let within =
      open_time-During is_open true start (now - start) (λ v le lt. open' v le (omega arith)) in
    ap (open_time is_open t) whole
    ∙ open_time_add is_open t (start - t) (now - start)
    ∙ (rw (before, moved, within) (omega arith))

last-le :
    (is_open : Time → Bool) (d elapsed : ℕ) (t : Time) (ts : List Turn)
    → IsTimely is_open d elapsed t ts
    → t ≤ last t ts
last-le is_open d elapsed t [] h = omega arith
last-le is_open d elapsed t (gate_failed e ∷ ts) h = omega arith
last-le is_open d elapsed t (ctx_ended ∷ ts) h = omega arith
last-le is_open d elapsed t (gate_closed start now ∷ ts) (h1, h2, _, _, h) =
    omega (arith, last-le is_open d (elapsed + (now - start)) now ts h)
last-le is_open d elapsed t (timer_fired start now ∷ ts) (h1, h2, _, _, _) = omega arith

add_segment :
    (elapsed start now : ℕ)
    → start ≤ now
    → elapsed + (now - start) < 2 ^ 63
    → int64 (pos elapsed +ℤ since now start) ≡ pos (elapsed + (now - start))
unfolding ◌+ℤ◌ int64
add_segment elapsed start now k l = rw (since_exact now start k (omega arith)) (ground arith)

-- Past its duration the loop does not take another turn.
over_now :
    (elapsed d : ℤ) (ts : List Turn) → ltb_ℤ elapsed d ≡ false → run_duration d elapsed ts ≡ expired
unfolding run_duration
over_now elapsed d [] h = ground arith
over_now elapsed d (gate_failed e ∷ ts) h = ground arith
over_now elapsed d (ctx_ended ∷ ts) h = ground arith
over_now elapsed d (gate_closed start now ∷ ts) h = ground arith
over_now elapsed d (timer_fired start now ∷ ts) h = ground arith

over_at_head : (d : ℕ) (ts : List Turn) → run_duration (pos d) (pos d) ts ≡ expired
over_at_head d ts = over_now (pos d) (pos d) ts (ground arith)

unless_over :
    (d elapsed n : ℕ) (ts : List Turn)
    → (ltb_ℤ (pos elapsed) (pos d) ≡ true
        → IsMeasured d (elapsed + n) (run_duration (pos d) (pos elapsed) ts))
    → IsMeasured d (elapsed + n) (run_duration (pos d) (pos elapsed) ts)
unless_over d elapsed n ts f = elim (Bool-cases (ltb_ℤ (pos elapsed) (pos d))) [
  | inl less ↦ f less
  | inr over ↦ rw (over_now (pos elapsed) (pos d) ts over) (ground arith)
]

module _ (is_open : Time → Bool) where
  nothing : (t : Time) → open_time is_open t (t - t) ≡ 0
  nothing t = let e : t - t ≡ 0 = omega arith in ap (open_time is_open t) e

  run_duration-IsMeasured :
      (d elapsed : ℕ) (t : Time) (ts : List Turn)
      → elapsed + (last t ts - t) < 2 ^ 63
      → IsTimely is_open d elapsed t ts
      → IsMeasured d
          (elapsed + open_time is_open t (last t ts - t))
          (run_duration (pos d) (pos elapsed) ts)
  unfolding run_duration
  run_duration-IsMeasured d elapsed t [] b h =
      unless_over d elapsed (open_time is_open t (t - t)) []
        (λ less. rw (less, nothing t) (ground arith, ap pos (omega arith)))
  run_duration-IsMeasured d elapsed t (gate_failed e ∷ ts) b h =
      unless_over d elapsed (open_time is_open t (t - t)) (gate_failed e ∷ ts)
        (λ less. rw (less, nothing t) (ground arith))
  run_duration-IsMeasured d elapsed t (ctx_ended ∷ ts) b h =
      unless_over d elapsed (open_time is_open t (t - t)) (ctx_ended ∷ ts)
        (λ less. rw (less, nothing t) (ground arith))
  run_duration-IsMeasured d elapsed t (gate_closed start now ∷ ts) b (h1, h2, shut, open', h) =
      unless_over d elapsed (open_time is_open t (last t (gate_closed start now ∷ ts) - t))
        (gate_closed start now ∷ ts)
        (λ less.
          let after = last-le is_open d (elapsed + (now - start)) now ts h in
          let rest = run_duration-IsMeasured d (elapsed + (now - start)) now ts (omega arith) h in
          let whole : last now ts - t ≡ (now - t) + (last now ts - now) = omega arith in
          let moved : t + (now - t) ≡ now = omega arith in
          let counted =
            ap (open_time is_open t) whole
            ∙ open_time_add is_open t (now - t) (last now ts - now)
            ∙ (λ i.
                open_time-turn is_open t start now h1 h2 shut open' i
                + open_time is_open (moved i) (last now ts - now)) in
          let sum : elapsed + (now - start) + open_time is_open now (last now ts - now)
              ≡ elapsed + open_time is_open t (last now ts - t) =
            omega (arith, counted) in
          rw (less, add_segment elapsed start now h2 (omega arith))
            (subst (λ n. IsMeasured d n (run_duration (pos d) (pos (elapsed + (now - start))) ts))
              sum rest))
  run_duration-IsMeasured d elapsed t (timer_fired start now ∷ ts) b (h1, h2, shut, open', fired) =
      unless_over d elapsed (open_time is_open t (last t (timer_fired start now ∷ ts) - t))
        (timer_fired start now ∷ ts)
        (λ less.
          rw (less, over_at_head d ts, open_time-turn is_open t start now h1 h2 shut open') fired)

  -- A block's duration counts the time during which its gate was open and nothing else. From `t`, the
  -- start of the loop, to the end of its last turn: the loop ends with the block expired exactly where
  -- the gate has been open for the duration; while it goes on, what it has counted is the time the gate
  -- has been open, to the nanosecond; and it is stopped by the context only before. Conditions: the
  -- turns follow the gate, with no delay between a change of the gate and the loop's notice of it; a
  -- timer does not fire early; and less than 2^63 nanoseconds (292 years) pass.
  pub run_block_duration-IsMeasured :
      (d : ℕ) (t : Time) (ts : List Turn)
      → last t ts - t < 2 ^ 63
      → IsTimely is_open d 0 t ts
      → IsMeasured d (open_time is_open t (last t ts - t)) (run_block_duration (pos d) ts)
  unfolding run_block_duration
  run_block_duration-IsMeasured d t ts b h =
      let e : 0 + open_time is_open t (last t ts - t) ≡ open_time is_open t (last t ts - t) =
        omega arith in
      subst (λ n. IsMeasured d n (run_duration (pos d) (pos 0) ts)) e
        (run_duration-IsMeasured d 0 t ts (omega arith) h)
