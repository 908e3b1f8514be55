-- ===== src/Engine/Histogram/Quantile.antt =====
-- Which sample a percentile stands for.
use phantom_traffic.Prelude.{
  ℕ, suc, ◌+◌, ◌^◌, ◌%◌, ◌≤◌, ◌<◌, ◌≡◌, refl, subst, ◌⊎◌, inl, inr, true, false, List, [], ◌∷◌,
  some, get_elem?, arith, length, All, Bool-cases, if◌then◌else◌, ltb, ◌==◌,
}
use phantom_traffic.Prelude.Int.{ℤ, ◌≤ℤ◌, ◌<ℤ◌, leb_ℤ}
use phantom_traffic.Prelude.Clock.{Duration}
use phantom_traffic.Prelude.Float.{Float64}
use phantom_traffic.Engine.Histogram.{
  hist_buckets, last_bucket, Histogram, empty_counts, new_histogram, record_in, clamped,
  record_sample, sum_from, cross, rank_of, percentile,
}

-- The histogram of some samples, the newest first, on top of `h`.
unfoldable pub record_all : List Duration → Histogram → Histogram
record_all [] h = h
record_all (d ∷ ds) h = record_sample d (record_all ds h)

-- How many samples are at most `b`.
unfoldable pub upto : Duration → List Duration → ℕ
upto b [] = 0
upto b (d ∷ ds) = if leb_ℤ (clamped d) b then suc (upto b ds) else upto b ds

-- The counts are those of the samples `ds`, of which `prev` are at most the boundary before.
abbrev pub Counted : List Duration → ℕ → List Duration → Histogram → Type 0
Counted ds prev [] [] = ⊥
Counted ds prev [] (c ∷ cs) = (prev + c ≡ length ds) × (cs ≡ [])
Counted ds prev (b ∷ bs) [] = ⊥
Counted ds prev (b ∷ bs) (c ∷ cs) = (prev + c ≡ upto b ds) × Counted ds (upto b ds) bs cs

abbrev pub Increasing : List Duration → Type 0
Increasing [] = Unit {0}
Increasing (b ∷ bs) = All (λ c. b ≤ℤ c) bs × Increasing bs

upto-hit :
    (d b : Duration) (ds : List Duration)
    → leb_ℤ (clamped d) b ≡ true
    → upto b (d ∷ ds) ≡ suc (upto b ds)
unfolding upto
upto-hit d b ds h = rw h refl

upto-miss :
    (d b : Duration) (ds : List Duration)
    → leb_ℤ (clamped d) b ≡ false
    → upto b (d ∷ ds) ≡ upto b ds
unfolding upto
upto-miss d b ds h = rw h refl

upto-length : (b : Duration) (ds : List Duration) → upto b ds ≤ length ds
unfolding upto
upto-length b [] = omega arith
upto-length b (d ∷ ds) = ground (arith, upto-length b ds)

empty-Counted : (bs : List Duration) → Counted [] 0 bs (empty_counts bs)
unfolding upto
empty-Counted [] = (omega arith, refl)
empty-Counted (b ∷ bs) = (refl, empty-Counted bs)

-- A sample at or below every boundary that is left is below them all.
later-Counted :
    (d : Duration) (ds : List Duration) (prev : ℕ) (bs : List Duration) (h : Histogram)
    → All (λ b. clamped d ≤ℤ b) bs
    → Counted ds prev bs h
    → Counted (d ∷ ds) (suc prev) bs h
unfolding upto
later-Counted d ds prev [] [] a k = k
later-Counted d ds prev [] (c ∷ cs) a k = (omega arith, k.1)
later-Counted d ds prev (b ∷ bs) [] a k = k
later-Counted d ds prev (b ∷ bs) (c ∷ cs) a k =
    let hit : leb_ℤ (clamped d) b ≡ true = ground arith in
    rw hit (omega arith, later-Counted d ds (upto b ds) bs cs a.1 k.1)

le_trans_below : (d b : ℤ) (bs : List ℤ) → d ≤ℤ b → All (λ c. b ≤ℤ c) bs → All (λ c. d ≤ℤ c) bs
le_trans_below d b [] h a = tt
le_trans_below d b (c ∷ bs) h a = (ground arith, le_trans_below d b bs h a.1)

record_in-Counted :
    (d : Duration) (ds : List Duration) (prev : ℕ) (bs : List Duration) (h : Histogram)
    → length ds + 1 < 2 ^ 64
    → Increasing bs
    → Counted ds prev bs h
    → Counted (d ∷ ds) prev bs (record_in (clamped d) bs h)
unfolding record_in
record_in-Counted d ds prev [] [] s i k = k
record_in-Counted d ds prev [] (c ∷ cs) s i k = (omega arith, k.1)
record_in-Counted d ds prev (b ∷ bs) [] s i k = k
record_in-Counted d ds prev (b ∷ bs) (c ∷ cs) s i k = elim (Bool-cases (leb_ℤ (clamped d) b)) [
  | inl hit ↦
      let below : clamped d ≤ℤ b = ground arith in
      let small = upto-length b ds in
      let up = upto-hit d b ds hit in
      rw (hit, up)
        (
          omega arith,
          later-Counted d ds (upto b ds) bs cs (le_trans_below (clamped d) b bs below i.0) k.1,
        )
  | inr miss ↦
      let up = upto-miss d b ds miss in
      rw (miss, up) (k.0, record_in-Counted d ds (upto b ds) bs cs s i.1 k.1)
]

hist_buckets-Increasing : Increasing hist_buckets
hist_buckets-Increasing = ground arith

record_all-Counted :
    (ds : List Duration)
    → length ds < 2 ^ 64
    → Counted ds 0 hist_buckets (record_all ds new_histogram)
unfolding record_all record_sample
record_all-Counted [] s = empty-Counted hist_buckets
record_all-Counted (d ∷ ds) s =
    record_in-Counted d ds 0 hist_buckets (record_all ds new_histogram) (omega arith)
      hist_buckets-Increasing (record_all-Counted ds (omega arith))

-- What a search for the rank returns over the boundaries `bs`.
abbrev pub Crossed : List Duration → ℕ → List Duration → Duration → Type 0
Crossed ds rank bs r =
    (((i : ℕ) × (get_elem? bs i ≡ some r))
      × (rank < upto r ds)
      × All (λ b. b <ℤ r → upto b ds ≤ rank) bs)
    ⊎ ((r ≡ last_bucket) × All (λ b. upto b ds ≤ rank) bs)

not_before :
    (ds : List Duration) (rank : ℕ) (b : Duration) (bs : List Duration)
    → All (λ c. b ≤ℤ c) bs
    → All (λ c. c <ℤ b → upto c ds ≤ rank) bs
not_before ds rank b [] a = tt
not_before ds rank b (c ∷ bs) a = ((λ l. ground arith), not_before ds rank b bs a.1)

cross-hit :
    (rank prev m : ℕ) (b : Duration) (bs : List Duration) (c : ℕ) (cs : Histogram)
    → (prev + c) % 2 ^ 64 ≡ m
    → ltb rank m ≡ true
    → b ≡ cross rank prev (b ∷ bs) (c ∷ cs)
unfolding cross
cross-hit rank prev m b bs c cs e h = rw (e, h) refl

cross-miss :
    (rank prev m : ℕ) (b : Duration) (bs : List Duration) (c : ℕ) (cs : Histogram)
    → (prev + c) % 2 ^ 64 ≡ m
    → ltb rank m ≡ false
    → cross rank m bs cs ≡ cross rank prev (b ∷ bs) (c ∷ cs)
unfolding cross
cross-miss rank prev m b bs c cs e h = rw (e, h) refl

cross-Crossed :
    (ds : List Duration) (rank prev : ℕ) (bs : List Duration) (h : Histogram)
    → length ds < 2 ^ 64
    → Increasing bs
    → Counted ds prev bs h
    → Crossed ds rank bs (cross rank prev bs h)
cross-Crossed ds rank prev [] h s i k = unfold cross in inr (refl, tt)
cross-Crossed ds rank prev (b ∷ bs) [] s i k = elim k [ ]
cross-Crossed ds rank prev (b ∷ bs) (c ∷ cs) s i k =
    let small = upto-length b ds in
    let cum : (prev + c) % 2 ^ 64 ≡ upto b ds = omega arith in
    elim (Bool-cases (ltb rank (upto b ds))) [
      | inl hit ↦
          subst (Crossed ds rank (b ∷ bs)) (cross-hit rank prev (upto b ds) b bs c cs cum hit)
            (inl ((0, refl), ground arith, ((λ l. ground arith), not_before ds rank b bs i.0)))
      | inr miss ↦
          let low : upto b ds ≤ rank = ground arith in
          subst (Crossed ds rank (b ∷ bs)) (cross-miss rank prev (upto b ds) b bs c cs cum miss)
            (elim (cross-Crossed ds rank (upto b ds) bs cs s i.1 k.1) [
              | inl ((j, e), above, below) ↦ inl ((suc j, e), above, ((λ l. low), below))
              | inr (top, below) ↦ inr (top, (low, below))
            ])
    ]

sum_from-Counted :
    (ds : List Duration) (prev : ℕ) (bs : List Duration) (h : Histogram)
    → length ds < 2 ^ 64
    → Counted ds prev bs h
    → sum_from prev h ≡ length ds
unfolding sum_from
sum_from-Counted ds prev [] [] s k = elim k [ ]
sum_from-Counted ds prev [] (c ∷ cs) s k =
    let whole : (prev + c) % 2 ^ 64 ≡ length ds = omega arith in rw (whole, k.1) refl
sum_from-Counted ds prev (b ∷ bs) [] s k = elim k [ ]
sum_from-Counted ds prev (b ∷ bs) (c ∷ cs) s k =
    let small = upto-length b ds in
    let cum : (prev + c) % 2 ^ 64 ≡ upto b ds = omega arith in
    rw cum (sum_from-Counted ds (upto b ds) bs cs s k.1)

module _ {F : Type 0} (ops : Float64 F) where
  percentile-eq :
      (q : F) (h : Histogram) (n : ℕ)
      → sum_from 0 h ≡ suc n
      → percentile ops q h ≡ cross (rank_of ops q (suc n)) 0 hist_buckets h
  unfolding percentile
  percentile-eq q h n e =
      let some_there : (suc n == 0) ≡ false = ground arith in rw (e, some_there) refl

  -- Of a histogram of at least one and fewer than 2^64 samples, a percentile of rank
  -- `ceil (q * count)` is the lowest boundary that more than `rank` samples are at most, or the
  -- last boundary if there is none.
  pub percentile-Crossed :
      (q : F) (d : Duration) (ds : List Duration)
      → length ds + 1 < 2 ^ 64
      → Crossed
          (d ∷ ds)
          (rank_of ops q (length ds + 1))
          hist_buckets
          (percentile ops q (record_all (d ∷ ds) new_histogram))
  percentile-Crossed q d ds s =
      let k = record_all-Counted (d ∷ ds) (omega arith) in
      let e =
        percentile-eq q (record_all (d ∷ ds) new_histogram) (length ds)
          (sum_from-Counted (d ∷ ds) 0 hist_buckets _ (omega arith) k) in
      let sized : suc (length ds) ≡ length ds + 1 = omega arith in
      rw (e, sized)
        (cross-Crossed (d ∷ ds) (rank_of ops q (length ds + 1)) 0 hist_buckets _ (omega arith)
          hist_buckets-Increasing k)

  -- If the rank of `q` is the number of samples, which are at least one and fewer than 2^64, the
  -- percentile is the last boundary, 30 seconds, whatever the samples are.
  pub percentile_top_rank :
      (q : F) (d : Duration) (ds : List Duration)
      → length ds + 1 < 2 ^ 64
      → length ds + 1 ≤ rank_of ops q (length ds + 1)
      → percentile ops q (record_all (d ∷ ds) new_histogram) ≡ last_bucket
  percentile_top_rank q d ds s top = elim (percentile-Crossed q d ds s) [
    | inl (at, above, below) ↦
        let most = upto-length (percentile ops q (record_all (d ∷ ds) new_histogram)) (d ∷ ds) in
        absurd (omega arith)
    | inr (last, below) ↦ last
  ]
