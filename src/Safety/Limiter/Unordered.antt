-- ===== src/Safety/Limiter/Unordered.antt =====
-- internal/safety/validate.go and bucket.go: a rate that is NaN. Every comparison with it is false.
use phantom_traffic.Prelude.{
  ℕ, ◌≡◌, refl, true, false, List, [], ◌∷◌, ◌+◌, arith, length, if◌then◌else◌, Bool-cases, inl, inr,
}
use phantom_traffic.Prelude.Int.{pos, leb_ℤ}
use phantom_traffic.Prelude.Clock.{Time, since}
use phantom_traffic.Prelude.Float.{Float64, fle, fzero, fone}
use phantom_traffic.Safety.Caps.{Ceiling, CapSpec, validate_caps}
use phantom_traffic.Safety.Caps.Soundness.{validate_caps-nil}
use phantom_traffic.Safety.Bucket.{
  TokenBucket, Reading, new_token_bucket, refill, try_take, max1, capped,
}

module _ {F : Type 0} (ops : Float64 F) (IsNan : F → Type 0) where
  open ops use {flt, feq, fadd, fsub}

  -- What package math and the Go specification say of NaN.
  pub record NanLaws : Type 0 where
    pub nan-lt : (x y : F) → IsNan x → flt x y ≡ false
    pub lt-nan : (x y : F) → IsNan y → flt x y ≡ false
    pub nan-eq : (x y : F) → IsNan x → feq x y ≡ false
    pub nan-add : (x y : F) → IsNan x → IsNan (fadd x y)
    pub nan-sub : (x y : F) → IsNan x → IsNan (fsub x y)

  -- Requests of one token each, and how many are admitted.
  unfoldable pub admitted : List Reading → TokenBucket F → ℕ
  admitted [] b = 0
  admitted (r ∷ rs) b =
      let (b', ok) = try_take ops r (fone ops) b in (if ok then 1 else 0) + admitted rs b'

  module _ (laws : NanLaws) where
    capped-IsNan : (u t : F) → IsNan t → IsNan (capped ops u t)
    capped-IsNan u t h = rw (laws.lt-nan u t h) h

    refill-IsNan :
        (r : Reading) (b : TokenBucket F) → IsNan b.tokens → IsNan (refill ops r b).tokens
    unfolding refill
    refill-IsNan r b h = elim (Bool-cases (leb_ℤ (since r.measured b.last) (pos 0))) [
      | inl still ↦ rw (still, refill) h
      | inr later ↦ rw (later, refill) (capped-IsNan b.burst _ (laws.nan-add b.tokens _ h))
    ]

    refill-rps : (r : Reading) (b : TokenBucket F) → (refill ops r b).rps ≡ b.rps
    unfolding refill
    refill-rps r b = ground arith

    nan-fle : (x y : F) → IsNan x → fle ops x y ≡ false
    nan-fle x y h = rw (laws.nan-lt x y h, laws.nan-eq x y h)

    take_one :
        (r : Reading) (b : TokenBucket F)
        → IsNan b.rps
        → IsNan b.tokens
        → ((try_take ops r (fone ops) b).1 ≡ true)
          × IsNan (try_take ops r (fone ops) b).0.rps
          × IsNan (try_take ops r (fone ops) b).0.tokens
    unfolding try_take
    take_one r b h t =
        let full = refill-IsNan r b t in
        rw (nan-fle b.rps (fzero ops) h) (
          rw (laws.nan-lt _ (fone ops) full)
            (refl, rw (refill-rps r b) h, laws.nan-sub _ (fone ops) full))

    admitted_every :
        (rs : List Reading) (b : TokenBucket F)
        → IsNan b.rps
        → IsNan b.tokens
        → admitted rs b ≡ length rs
    unfolding admitted
    admitted_every [] b h t = refl
    admitted_every (r ∷ rs) b h t =
        let (ok, h', t') = take_one r b h t in
        let rest = admitted_every rs (try_take ops r (fone ops) b).0 h' t' in
        rw ok (omega (arith, rest))

    max1-IsNan : (x : F) → IsNan x → IsNan (max1 ops x)
    unfolding max1
    max1-IsNan x h = rw (nan-fle x (fzero ops) h) (rw (laws.nan-lt x (fone ops) h) h)

    -- A NaN rate passes the check of the caps, against any ceiling and with no override, and the
    -- bucket that it then makes admits every request, however many come and however fast.
    pub nan_rate_unlimited :
        (x : F) (d : CapSpec F) (c : Ceiling F) (created : Time) (rs : List Reading)
        → IsNan x
        → validate_caps ops d c false ≡ []
        → (validate_caps ops (record d { per_target_rps = x; global_rps = x }) c false ≡ [])
          × (admitted rs (new_token_bucket created x (max1 ops x)) ≡ length rs)
    unfolding new_token_bucket
    nan_rate_unlimited x d c created rs h v =
        let k = (validate_caps-nil ops d c false).0 v in
        (
          (validate_caps-nil ops (record d { per_target_rps = x; global_rps = x }) c false).1
              (record {
                per_target_rps = inr (laws.nan-lt x (fzero ops) h, inr (laws.lt-nan _ x h));
                global_rps = inr (laws.nan-lt x (fzero ops) h, inr (laws.lt-nan _ x h));
                max_concurrent_sessions = k.max_concurrent_sessions;
                total_request_budget = k.total_request_budget;
                streaming_byte_rate_kbps = k.streaming_byte_rate_kbps;
                concurrent_streams = k.concurrent_streams;
                per_session_max_duration_seconds = k.per_session_max_duration_seconds;
                per_session_max_actions = k.per_session_max_actions;
              }),
          admitted_every rs _ h (max1-IsNan x h),
        )
