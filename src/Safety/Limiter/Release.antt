-- ===== src/Safety/Limiter/Release.antt =====
-- Release and the byte bucket.
use phantom_traffic.Prelude.{
  ◌≡◌, refl, true, false, Option, none, some, arith, inl, inr, Option-cases, Bool-cases,
}
use phantom_traffic.Prelude.Float.{Float64, fle, fzero}
use phantom_traffic.Safety.Bucket.{TokenBucket}
use phantom_traffic.Safety.Limiter.{Limiter, Reservation, release, refund, return_bytes}

module _ {F : Type 0} (ops : Float64 F) where
  open ops use {flt}

  -- A byte bucket that does not exceed its burst still does not.
  abbrev pub BytesBounded : Option (TokenBucket F) → Option (TokenBucket F) → Type 0
  BytesBounded none b' = b' ≡ none
  BytesBounded (some b) none = ⊥
  BytesBounded (some b) (some b') =
      (b'.burst ≡ b.burst) × (flt b.burst b.tokens ≡ false → flt b'.burst b'.tokens ≡ false)

  return_bytes-BytesBounded :
      (n : F) (l : Limiter F)
      → ((x : F) → flt x x ≡ false)
      → BytesBounded l.bytes (return_bytes ops n l).bytes
  unfolding return_bytes
  return_bytes-BytesBounded n l irrefl = elim (Option-cases l.bytes) [
    | inl nothing ↦ rw (nothing, return_bytes) nothing
    | inr (b, found) ↦ elim (Bool-cases (fle ops n (fzero ops))) [
      | inl nothing ↦ rw (found, return_bytes) (rw (nothing, found) (refl, λ h. h))
      | inr some_bytes ↦
          rw (found, return_bytes) (rw some_bytes (refl, λ h. ground (arith, irrefl b.burst)))
    ]
  ]

  BytesBounded-refl : (b : Option (TokenBucket F)) → BytesBounded b b
  BytesBounded-refl none = refl
  BytesBounded-refl (some b) = (refl, λ h. h)

  return_bytes_frame :
      (n : F) (l : Limiter F)
      → ((return_bytes ops n l).global ≡ l.global)
        × ((return_bytes ops n l).per_target ≡ l.per_target)
  unfolding return_bytes
  return_bytes_frame n l = ground arith

  release_again :
      (rsv : Reservation F) (l : Limiter F) → rsv.released ≡ true → release ops rsv l ≡ (rsv, l)
  unfolding release
  release_again rsv l gone = ground arith

  release_first :
      (rsv : Reservation F) (l : Limiter F)
      → rsv.released ≡ false
      → release ops rsv l ≡ (record rsv { released = true }, return_bytes ops (refund ops rsv) l)
  unfolding release
  release_first rsv l fresh = simp fresh

  -- Release gives back at most once, and what it gives back never lifts the byte bucket above its
  -- burst: a second Release changes neither the reservation nor the limiter.
  pub release_once :
      (rsv : Reservation F) (l : Limiter F)
      → ((x : F) → flt x x ≡ false)
      → let (rsv', l') = release ops rsv l in
        (release ops rsv' l' ≡ (rsv', l'))
        × (l'.global ≡ l.global)
        × (l'.per_target ≡ l.per_target)
        × BytesBounded l.bytes l'.bytes
  release_once rsv l irrefl = elim (Bool-cases rsv.released) [
    | inl gone ↦
        rw (release_again rsv l gone)
          (release_again rsv l gone, refl, refl, BytesBounded-refl l.bytes)
    | inr fresh ↦
        let n = refund ops rsv in
        let (kept, kept') = return_bytes_frame n l in
        rw (release_first rsv l fresh)
          (release_again _ _ refl, kept, kept', return_bytes-BytesBounded n l irrefl)
  ]
