-- ===== src/Safety/Breaker/Trace.antt =====
-- What the breaker does over a sequence of calls.
use phantom_traffic.Prelude.{
  ℕ, ◌+◌, ◌^◌, ◌≤◌, ◌<◌, ◌≡◌, ◌≢◌, refl, length, All, true, false, List, [], ◌∷◌, arith, ◌⊎◌, inl,
  inr, if◌then◌else◌,
}
use phantom_traffic.Prelude.Int.{ℤ, pos, ◌+ℤ◌, int64, ◌≤ℤ◌, ◌<ℤ◌, leb_ℤ}
use phantom_traffic.Prelude.Clock.{Time, Duration, since}
use phantom_traffic.Safety.Breaker.{
  breaker_closed, breaker_open, breaker_half_open, Breaker, new_breaker, allow, record_success,
  record_failure, force_open,
}

-- The failures in a row at times `ts`, with no call in between.
unfoldable pub fail_all : List Time → Breaker → Breaker
fail_all [] b = b
fail_all (t ∷ ts) b = fail_all ts (record_failure t b)

pub record Inv (b : Breaker) : Type 0 where
  pub threshold_pos : pos 1 ≤ℤ b.threshold
  pub threshold_int : b.threshold <ℤ pos (2 ^ 63)
  pub fails_nonneg : pos 0 ≤ℤ b.fails
  pub below : b.state ≡ breaker_closed → b.fails <ℤ b.threshold

pub data Call : Type 0 where
  allows fails forces : Time → Call
  succeeds : Call

unfoldable pub apply : Call → Breaker → Breaker
apply (allows t) b = (allow t b).0
apply (fails t) b = record_failure t b
apply (forces t) b = force_open t b
apply succeeds b = record_success b

-- The failure count is at most `n`, so it cannot wrap in the next 2^63 calls.
apply-Inv :
    (c : Call) (b : Breaker) (n : ℕ)
    → n + 1 < 2 ^ 63
    → b.fails ≤ℤ pos n
    → Inv b
    → Inv (apply c b) × ((apply c b).fails ≤ℤ pos (n + 1))
unfolding apply allow record_failure record_success force_open int64 ◌+ℤ◌
apply-Inv succeeds b n k h v = ground arith
apply-Inv _ b n k h v = ground arith

record_failure-Inv :
    (t : Time) (b : Breaker) (n : ℕ)
    → n + 1 < 2 ^ 63
    → b.fails ≤ℤ pos n
    → Inv b
    → Inv (record_failure t b)
unfolding apply
record_failure-Inv t b n k h v = (apply-Inv (fails t) b n k h v).0

unfoldable pub apply_all : List Call → Breaker → Breaker
apply_all [] b = b
apply_all (c ∷ cs) b = apply_all cs (apply c b)

apply_all-Inv :
    (cs : List Call) (b : Breaker) (n : ℕ)
    → n + length cs < 2 ^ 63
    → b.fails ≤ℤ pos n
    → Inv b
    → Inv (apply_all cs b)
unfolding apply_all
apply_all-Inv [] b n k h v = v
apply_all-Inv (c ∷ cs) b n k h v =
    let (w, bound) = apply-Inv c b n (omega arith) h v in
    apply_all-Inv cs (apply c b) (n + 1) (omega arith) bound w

-- After any calls on a new breaker, fewer than 2^63, a breaker that is closed has a streak below
-- its threshold, the threshold is at least 1 and the streak is not negative.
pub new_breaker-Inv :
    (threshold : ℤ) (cooldown : Duration) (cs : List Call)
    → threshold <ℤ pos (2 ^ 63)
    → length cs < 2 ^ 63
    → Inv (apply_all cs (new_breaker threshold cooldown))
unfolding new_breaker
new_breaker-Inv threshold cooldown cs h k =
    apply_all-Inv cs _ 0 (omega arith) (omega arith) (ground arith)

one_failure :
    (t : Time) (b : Breaker) (f : ℕ)
    → Inv b
    → f + 1 < 2 ^ 63
    → b.state ≢ breaker_half_open
    → b.fails ≡ pos f
    → ((record_failure t b).fails ≡ pos (f + 1))
      × ((record_failure t b).state
          ≡ (if leb_ℤ b.threshold (pos (f + 1)) then breaker_open else b.state))
      × ((record_failure t b).threshold ≡ b.threshold)
unfolding record_failure int64 ◌+ℤ◌
one_failure t b f v k s e = ground arith

fail_all-state :
    (ts : List Time) (b : Breaker) (f : ℕ)
    → Inv b
    → b.state ≢ breaker_half_open
    → b.fails ≡ pos f
    → f + length ts < 2 ^ 63
    → (fail_all ts b).state
      ≡ (if leb_ℤ b.threshold (pos (f + length ts)) then breaker_open else b.state)
unfolding fail_all
fail_all-state [] b f v s e k = ground arith
fail_all-state (t ∷ ts) b f v s e k =
    let (e', s', same) = one_failure t b f v (omega arith) s e in
    let v' = record_failure-Inv t b f (omega arith) (rw e (omega arith)) v in
    let rest =
      fail_all-state ts (record_failure t b) (f + 1) v' (ground (arith, s')) e' (omega arith) in
    ground (arith, rest, s', same)

-- A closed breaker with a streak of `f` failures stays closed through `length ts` more exactly if
-- the streak is still below the threshold, and is open otherwise.
pub fail_all_lem :
    (ts : List Time) (b : Breaker) (f : ℕ)
    → Inv b
    → b.state ≡ breaker_closed
    → b.fails ≡ pos f
    → f + length ts < 2 ^ 63
    → (fail_all ts b).state
      ≡ (if leb_ℤ b.threshold (pos (f + length ts)) then breaker_open else breaker_closed)
fail_all_lem ts b f v s e k = rw (← s) (fail_all-state ts b f v (ground arith) e k)

-- Calls of Allow at the times `ts`, and how many of them admit a request.
unfoldable pub admitted : List Time → Breaker → ℕ
admitted [] b = 0
admitted (t ∷ ts) b = let (b', ok) = allow t b in (if ok then 1 else 0) + admitted ts b'

allow_half_open : (t : Time) (b : Breaker) → b.state ≡ breaker_half_open → allow t b ≡ (b, false)
unfolding allow
allow_half_open t b h = ground arith

half_open_admits : (ts : List Time) (b : Breaker) → b.state ≡ breaker_half_open → admitted ts b ≡ 0
unfolding admitted
half_open_admits [] b h = refl
half_open_admits (t ∷ ts) b h = rw (allow_half_open t b h) (omega (arith, half_open_admits ts b h))

allow_open :
    (t : Time) (b : Breaker)
    → b.state ≡ breaker_open
    → ((since t b.opened_at <ℤ b.cooldown) × (allow t b ≡ (b, false)))
      ⊎ ((b.cooldown ≤ℤ since t b.opened_at)
          × ((allow t b).1 ≡ true)
          × ((allow t b).0.state ≡ breaker_half_open))
unfolding allow
allow_open t b h = ground arith

-- While no result is recorded, an open breaker admits one probe at most, and none if every call
-- comes before its cooldown is over.
pub one_probe :
    (ts : List Time) (b : Breaker)
    → b.state ≡ breaker_open
    → (admitted ts b ≤ 1) × (All (λ t. since t b.opened_at <ℤ b.cooldown) ts → admitted ts b ≡ 0)
unfolding admitted
one_probe [] b h = (omega arith, λ a. refl)
one_probe (t ∷ ts) b h = elim (allow_open t b h) [
  | inl early ↦
      rw early.1 (omega (arith, (one_probe ts b h).0), λ a. omega (arith, (one_probe ts b h).1 a.1))
  | inr late ↦ rw late.1 (
    omega (arith, half_open_admits ts (allow t b).0 late.2),
    λ a. absurd (omega (arith, late.0, a.0)),
  )
]
