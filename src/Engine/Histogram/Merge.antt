-- ===== src/Engine/Histogram/Merge.antt =====
-- internal/engine/histogram.go: merging a histogram, against recording its samples.
use phantom_traffic.Prelude.{
  ℕ, suc, ◌+◌, ◌^◌, ◌%◌, ◌<◌, ◌≡◌, ◌∙◌, refl, sym, ap, inl, inr, true, false, List, [], ◌∷◌, arith,
  length, All, Bool-cases,
}
use phantom_traffic.Prelude.Int.{leb_ℤ}
use phantom_traffic.Prelude.Clock.{Duration}
use phantom_traffic.Engine.Histogram.{
  hist_buckets, Histogram, empty_counts, new_histogram, bump, record_in, clamped, record_sample,
  merge,
}
use phantom_traffic.Engine.Histogram.Quantile.{record_all}

add_bump : (c s : ℕ) → (c + bump s) % 2 ^ 64 ≡ bump ((c + s) % 2 ^ 64)
add_bump c s = omega arith

record_in-hit :
    (d b : Duration) (bs : List Duration) (c : ℕ) (cs : Histogram)
    → leb_ℤ d b ≡ true
    → record_in d (b ∷ bs) (c ∷ cs) ≡ bump c ∷ cs
unfolding record_in
record_in-hit d b bs c cs h = rw h refl

record_in-miss :
    (d b : Duration) (bs : List Duration) (c : ℕ) (cs : Histogram)
    → leb_ℤ d b ≡ false
    → record_in d (b ∷ bs) (c ∷ cs) ≡ c ∷ record_in d bs cs
unfolding record_in
record_in-miss d b bs c cs h = rw h refl

length-record_in :
    (d : Duration) (bs : List Duration) (h : Histogram) → length (record_in d bs h) ≡ length h
unfolding record_in
length-record_in d bs [] = refl
length-record_in d [] (c ∷ cs) = refl
length-record_in d (b ∷ bs) (c ∷ cs) = elim (Bool-cases (leb_ℤ d b)) [
  | inl hit ↦ rw hit refl
  | inr miss ↦ rw miss (ap suc (length-record_in d bs cs))
]

merge-record_in :
    (d : Duration) (bs : List Duration) (h g : Histogram)
    → length h ≡ length g
    → merge h (record_in d bs g) ≡ record_in d bs (merge h g)
unfolding merge record_in
merge-record_in d bs [] [] e = refl
merge-record_in d bs [] (s ∷ g) e = absurd (omega arith)
merge-record_in d bs (c ∷ h) [] e = absurd (omega arith)
merge-record_in d [] (c ∷ h) (s ∷ g) e = λ i. add_bump c s i ∷ merge h g
merge-record_in d (b ∷ bs) (c ∷ h) (s ∷ g) e = elim (Bool-cases (leb_ℤ d b)) [
  | inl hit ↦
      rw (record_in-hit d b bs s g hit, record_in-hit d b bs ((c + s) % 2 ^ 64) (merge h g) hit)
        (λ i. add_bump c s i ∷ merge h g)
  | inr miss ↦
      rw (record_in-miss d b bs s g miss, record_in-miss d b bs ((c + s) % 2 ^ 64) (merge h g) miss)
        (λ i. ((c + s) % 2 ^ 64) ∷ merge-record_in d bs h g (omega arith) i)
]

merge-empty_counts :
    (h : Histogram) (bs : List Duration)
    → length h ≡ length (empty_counts bs)
    → All (λ c. c < 2 ^ 64) h
    → merge h (empty_counts bs) ≡ h
unfolding merge
merge-empty_counts [] bs e a = refl
merge-empty_counts (c ∷ []) [] e a = λ i. small c a.0 i ∷ []
  where
    small : (c : ℕ) → c < 2 ^ 64 → (c + 0) % 2 ^ 64 ≡ c
    small c h = omega arith
merge-empty_counts (c ∷ d ∷ h) [] e a = absurd (omega arith)
merge-empty_counts (c ∷ h) (b ∷ bs) e a =
    let same : (c + 0) % 2 ^ 64 ≡ c = omega (arith, a.0) in
    λ i. same i ∷ merge-empty_counts h bs (omega arith) a.1 i

length-record_all :
    (ds : List Duration) → length (record_all ds new_histogram) ≡ length new_histogram
unfolding record_all record_sample
length-record_all [] = refl
length-record_all (d ∷ ds) =
    length-record_in (clamped d) hist_buckets (record_all ds new_histogram) ∙ length-record_all ds

-- Merging the histogram of some samples into any other with uint64 counts is the same as recording
-- the samples there, also where counts wrap.
pub merge-record_all :
    (ds : List Duration) (h : Histogram)
    → length h ≡ length new_histogram
    → All (λ c. c < 2 ^ 64) h
    → merge h (record_all ds new_histogram) ≡ record_all ds h
unfolding record_all record_sample
merge-record_all [] h e a = merge-empty_counts h hist_buckets e a
merge-record_all (d ∷ ds) h e a =
    merge-record_in (clamped d) hist_buckets h (record_all ds new_histogram)
      (e ∙ sym (length-record_all ds))
    ∙ ap (record_in (clamped d) hist_buckets) (merge-record_all ds h e a)
