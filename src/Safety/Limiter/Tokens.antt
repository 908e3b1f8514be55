-- ===== src/Safety/Limiter/Tokens.antt =====
-- What Acquire and Release do to the tokens. The arithmetic of floats enters by three facts: a
-- subtraction from a number below 2^53 that leaves at least 0 of a whole amount is undone exactly by
-- the addition, taking a token does not raise the number, and the cap of a refill is not above itself.
use phantom_traffic.Prelude.{
  ◌^◌, ◌≡◌, ◌≢◌, refl, String, Bool, true, false, not, Option, none, some, arith, ◌⊎◌, inl, inr,
  eq_iff, Option-cases, subst, if◌then◌else◌, ap,
}
use phantom_traffic.Prelude.Int.{ℤ, pos}
use phantom_traffic.Prelude.Clock.{Time}
use phantom_traffic.Prelude.Context.{CtxErr}
use phantom_traffic.Prelude.Dict.{Dict, get, put, get-put}
use phantom_traffic.Prelude.Float.{Float64, fle, fzero, fone}
use phantom_traffic.Pterr.{GoErr}
use phantom_traffic.Safety.Tripwire.{Tripwire}
use phantom_traffic.Safety.Bucket.{TokenBucket, Reading, refill, try_take, give_back}
use phantom_traffic.Safety.Limiter.{
  Limiter, refused, Readings, bucket_for, charge_bytes, take_bytes, latched, take_global,
  take_target, acquire,
}

module _ {F : Type 0} (ops : Float64 F) where
  open ops use {flt, fadd, fsub, of_int}

  abbrev pub limited : TokenBucket F → Bool
  limited b = not (fle ops b.rps (fzero ops))

  -- What a bucket holds once it is refilled, which is all that a later call can spend; `none` for a
  -- bucket without a limit, whose tokens are never read.
  abbrev pub spendable : Reading → TokenBucket F → Option F
  spendable r b = if limited b then some (refill ops r b).tokens else none

  abbrev pub held : TokenBucket F → Option F
  held b = if limited b then some b.tokens else none

  -- Whole tokens below 2^53 are taken and given back exactly.
  abbrev pub Exact : Type 0
  Exact =
      (x : F)
      → flt x (fone ops) ≡ false
      → flt x (of_int (pos (2 ^ 53))) ≡ true
      → fadd (fsub x (fone ops)) (fone ops) ≡ x

  -- A token that is taken and given back is there again, and a bucket that has none to give is only
  -- refilled.
  take_and_give :
      (r : Reading) (b : TokenBucket F)
      → Exact
      → flt (refill ops r b).tokens (of_int (pos (2 ^ 53))) ≡ true
      → ((try_take ops r (fone ops) b).1 ≡ false
          → held (try_take ops r (fone ops) b).0 ≡ spendable r b)
        × ((try_take ops r (fone ops) b).1 ≡ true
            → held (give_back ops (try_take ops r (fone ops) b).0) ≡ spendable r b)
  unfolding try_take give_back refill
  take_and_give r b exact small = ground (arith, exact (refill ops r b).tokens)

  refused_take :
      (r : Reading) (n : F) (b : TokenBucket F)
      → (try_take ops r n b).1 ≡ false
      → held (try_take ops r n b).0 ≡ spendable r b
  unfolding try_take refill
  refused_take r n b = ground arith

  -- A bucket is as it was, or refilled: no token is gone.
  abbrev pub Kept : Reading → TokenBucket F → TokenBucket F → Type 0
  Kept r b b' = (held b' ≡ held b) ⊎ (held b' ≡ spendable r b)

  abbrev pub BytesKept : Reading → Option (TokenBucket F) → Option (TokenBucket F) → Type 0
  BytesKept r none b' = b' ≡ none
  BytesKept r (some b) none = ⊥
  BytesKept r (some b) (some b') = Kept r b b'

  pub record AllKept (r : Readings) (target : String) (l l' : Limiter F) : Type 0 where
    pub target_kept :
        Kept r.target (bucket_for ops r.created target l) (bucket_for ops r.created target l')
    pub global_kept : Kept r.global l.global l'.global
    pub others_kept : (k : String) → k ≢ target → get k l'.per_target ≡ get k l.per_target
    pub bytes_kept : BytesKept r.bytes l.bytes l'.bytes

  -- Fewer than 2^53 tokens in the two request buckets, once refilled.
  pub record IsSmall (r : Readings) (target : String) (l : Limiter F) : Type 0 where
    pub target_small :
        flt (refill ops r.target (bucket_for ops r.created target l)).tokens (of_int (pos (2 ^ 53)))
        ≡ true
    pub global_small : flt (refill ops r.global l.global).tokens (of_int (pos (2 ^ 53))) ≡ true

  bucket_for-put :
      (created : Time) (target : String) (b : TokenBucket F) (l l' : Limiter F)
      → l'.per_target ≡ put target b l.per_target
      → bucket_for ops created target l' ≡ b
  unfolding bucket_for
  bucket_for-put created target b l l' e =
      ground (arith, get-put target target b l.per_target, eq_iff target target, ap (get target) e)

  others-put :
      (target k : String) (b : TokenBucket F) (m : Dict (TokenBucket F))
      → k ≢ target
      → get k (put target b m) ≡ get k m
  others-put target k b m h = ground (arith, get-put target k b m, eq_iff target k)

  BytesKept-refl : (r : Reading) (b : Option (TokenBucket F)) → BytesKept r b b
  BytesKept-refl r none = refl
  BytesKept-refl r (some b) = inl refl

  -- The ways in which Acquire refuses, with the calls of tryTake that it has made.
  module _ (r : Readings) (target : String) (est : ℤ) (l l' : Limiter F) where
    abbrev took_target : TokenBucket F × Bool
    took_target = try_take ops r.target (fone ops) (bucket_for ops r.created target l)

    abbrev took_global : TokenBucket F × Bool
    took_global = try_take ops r.global (fone ops) l.global

    abbrev AtTarget : Type 0
    AtTarget =
        (took_target.1 ≡ false)
        × (l'.per_target ≡ put target took_target.0 l.per_target)
        × (l'.global ≡ l.global)
        × (l'.bytes ≡ l.bytes)

    abbrev AtGlobal : Type 0
    AtGlobal =
        (took_target.1 ≡ true)
        × (took_global.1 ≡ false)
        × (l'.per_target ≡ put target (give_back ops took_target.0) l.per_target)
        × (l'.global ≡ took_global.0)
        × (l'.bytes ≡ l.bytes)

    abbrev AtBytes : Type 0
    AtBytes =
        (took_target.1 ≡ true)
        × (took_global.1 ≡ true)
        × (l'.per_target ≡ put target (give_back ops took_target.0) l.per_target)
        × (l'.global ≡ give_back ops took_global.0)
        × BytesKept r.bytes l.bytes l'.bytes

    charge_bytes_refused :
        (pt g b : TokenBucket F) (e : GoErr)
        → charge_bytes ops r target est pt g b l ≡ (l', refused e)
        → (l'.per_target ≡ put target (give_back ops pt) l.per_target)
          × (l'.global ≡ give_back ops g)
          × (l'.bytes ≡ some (try_take ops r.bytes (of_int est) b).0)
          × ((try_take ops r.bytes (of_int est) b).1 ≡ false)
    unfolding charge_bytes
    charge_bytes_refused pt g b e h = ground arith

    take_bytes_refused :
        (pt g : TokenBucket F) (e : GoErr)
        → take_bytes ops r target est pt g l ≡ (l', refused e)
        → (l'.per_target ≡ put target (give_back ops pt) l.per_target)
          × (l'.global ≡ give_back ops g)
          × BytesKept r.bytes l.bytes l'.bytes
    unfolding take_bytes
    take_bytes_refused pt g e h = elim (Option-cases l.bytes) [
      | inl nothing ↦ ground arith
      | inr (b, found) ↦
          let (p, q, x, y) = charge_bytes_refused pt g b e (ground arith) in
          (p, q, rw (found, x) (inr (refused_take r.bytes (of_int est) b y)))
    ]

    take_target_refused :
        (e : GoErr)
        → take_target ops r target est l ≡ (l', refused e)
        → AtTarget ⊎ AtGlobal ⊎ AtBytes
    unfolding take_target take_global
    take_target_refused e h = ground (arith, take_bytes_refused took_target.0 took_global.0 e)

  acquire_unchanged :
      (r : Readings) (target : String) (l l' : Limiter F) → l ≡ l' → AllKept r target l l'
  acquire_unchanged r target l l' same = subst (AllKept r target l) same (record {
    target_kept = inl refl;
    global_kept = inl refl;
    others_kept = λ k h. refl;
    bytes_kept = BytesKept-refl r.bytes l.bytes;
  })

  -- A bucket that is put back in place of the target's.
  put-AllKept :
      (r : Readings) (target : String) (l l' : Limiter F) (b : TokenBucket F)
      → l'.per_target ≡ put target b l.per_target
      → Kept r.target (bucket_for ops r.created target l) b
      → Kept r.global l.global l'.global
      → BytesKept r.bytes l.bytes l'.bytes
      → AllKept r target l l'
  put-AllKept r target l l' b e t g k = record {
    target_kept = rw (bucket_for-put r.created target b l l' e) t;
    global_kept = g;
    others_kept = λ k h. rw e (others-put target k b l.per_target h);
    bytes_kept = k;
  }

  refused-AllKept :
      (r : Readings) (target : String) (est : ℤ) (l l' : Limiter F) (e : GoErr)
      → Exact
      → IsSmall r target l
      → take_target ops r target est l ≡ (l', refused e)
      → AllKept r target l l'
  refused-AllKept r target est l l' e exact small h =
      let b = bucket_for ops r.created target l in
      let own = take_and_give r.target b exact small.target_small in
      let shared = take_and_give r.global l.global exact small.global_small in
      elim (take_target_refused r target est l l' e h) [
        | inl (no_token, p, g, k) ↦
            put-AllKept r target l l' _ p (inr (own.0 no_token)) (rw g (inl refl))
              (rw k (BytesKept-refl r.bytes l.bytes))
        | inr (inl (token, no_token, p, g, k)) ↦
            put-AllKept r target l l' _ p (inr (own.1 token)) (rw g (inr (shared.0 no_token)))
              (rw k (BytesKept-refl r.bytes l.bytes))
        | inr (inr (token, token', p, g, k)) ↦
            put-AllKept r target l l' _ p (inr (own.1 token)) (rw g (inr (shared.1 token'))) k
      ]

  -- Acquire refuses without spending: whatever the reason, the bucket of the target, the global
  -- bucket and the byte bucket are as they were or refilled, and the other targets' buckets are
  -- untouched. (Fewer than 2^53 tokens in the two request buckets, and exact whole steps there.)
  pub acquire_refused :
      (ctx : Option CtxErr) (tw : Option Tripwire) (r : Readings) (target : String) (est : ℤ)
      (l l' : Limiter F) (e : GoErr)
      → Exact
      → IsSmall r target l
      → acquire ops ctx tw r target est l ≡ (l', refused e)
      → AllKept r target l l'
  unfolding acquire
  acquire_refused (some c) tw r target est l l' e exact small h =
      acquire_unchanged r target l l' (ground arith)
  acquire_refused none tw r target est l l' e exact small h = elim (Option-cases (latched tw)) [
    | inl open_latch ↦ refused-AllKept r target est l l' e exact small (ground arith)
    | inr (reason, shut) ↦ acquire_unchanged r target l l' (ground arith)
  ]
