-- ===== src/Engine/Histogram.antt =====
-- internal/engine/histogram.go: a fixed-bucket latency histogram. The counts are uint64.
pub mod Quantile
pub mod Merge
use phantom_traffic.Prelude.{ℕ, ◌+◌, ◌^◌, ◌%◌, List, [], ◌∷◌, if◌then◌else◌, ltb, ◌==◌}
use phantom_traffic.Prelude.Int.{pos, ltb_ℤ, leb_ℤ}
use phantom_traffic.Prelude.Clock.{Duration}
use phantom_traffic.Prelude.Float.{Float64, fzero, fone}

-- histBuckets, in nanoseconds.
abbrev pub hist_buckets : List Duration
hist_buckets =
    pos 100000
    ∷ pos 250000
    ∷ pos 500000
    ∷ pos 1000000
    ∷ pos 2000000
    ∷ pos 5000000
    ∷ pos 10000000
    ∷ pos 25000000
    ∷ pos 50000000
    ∷ pos 100000000
    ∷ pos 250000000
    ∷ pos 500000000
    ∷ pos 1000000000
    ∷ pos 2000000000
    ∷ pos 5000000000
    ∷ pos 10000000000
    ∷ pos 30000000000
    ∷ []

abbrev pub last_bucket : Duration
last_bucket = pos 30000000000

-- One count for each boundary, and one for what is above the last.
abbrev pub Histogram : Type 0
Histogram = List ℕ

abbrev pub empty_counts : List Duration → Histogram
empty_counts [] = 0 ∷ []
empty_counts (b ∷ bs) = 0 ∷ empty_counts bs

abbrev pub new_histogram : Histogram
new_histogram = empty_counts hist_buckets

abbrev pub bump : ℕ → ℕ
bump n = (n + 1) % 2 ^ 64

-- The loop of record over the boundaries that are left.
unfoldable pub record_in : Duration → List Duration → Histogram → Histogram
record_in d bs [] = []
record_in d [] (c ∷ cs) = bump c ∷ cs
record_in d (b ∷ bs) (c ∷ cs) = if leb_ℤ d b then bump c ∷ cs else c ∷ record_in d bs cs

abbrev pub clamped : Duration → Duration
clamped d = if ltb_ℤ d (pos 0) then pos 0 else d

unfoldable pub record_sample : Duration → Histogram → Histogram
record_sample d h = record_in (clamped d) hist_buckets h

unfoldable pub merge : Histogram → Histogram → Histogram
merge [] src = []
merge (c ∷ h) [] = c ∷ h
merge (c ∷ h) (s ∷ src) = ((c + s) % 2 ^ 64) ∷ merge h src

unfoldable pub sum_from : ℕ → Histogram → ℕ
sum_from acc [] = acc
sum_from acc (c ∷ cs) = sum_from ((acc + c) % 2 ^ 64) cs

-- The loop that finds the bucket where the cumulative count exceeds the rank.
unfoldable pub cross : ℕ → ℕ → List Duration → Histogram → Duration
cross rank cum [] cs = last_bucket
cross rank cum (b ∷ bs) [] = last_bucket
cross rank cum (b ∷ bs) (c ∷ cs) =
    if ltb rank ((cum + c) % 2 ^ 64) then b else cross rank ((cum + c) % 2 ^ 64) bs cs

module _ {F : Type 0} (ops : Float64 F) where
  open ops use {flt, fmul, ceil, of_int, to_uint}

  abbrev pub unit_interval : F → F
  unit_interval q =
      if flt q (fzero ops) then fzero ops else if flt (fone ops) q then fone ops else q

  abbrev pub rank_of : F → ℕ → ℕ
  rank_of q n = to_uint (ceil (fmul (unit_interval q) (of_int (pos n))))

  unfoldable pub percentile : F → Histogram → Duration
  percentile q h =
      if sum_from 0 h == 0 then pos 0 else cross (rank_of q (sum_from 0 h)) 0 hist_buckets h
