-- ===== src/Tests/Measures.antt =====
-- Runs of the selector, the histogram, the counters and the ramp.
use phantom_traffic.Prelude.{
  true, ℕ, ◌≡◌, ◌≢◌, ◌≤◌, ◌<◌, Bool, false, List, [], ◌∷◌, none, some, arith,
}
use phantom_traffic.Prelude.Int.{pos}
use phantom_traffic.Prelude.Clock.{Time, Duration}
use phantom_traffic.Prelude.Dict.{Dict, get}
use phantom_traffic.Protocols.{Result, zero_result, outcome_failure, outcome_cancelled}
use phantom_traffic.Engine.Selector.{
  rotation_sequential, rotation_random, ProtoState, Selector, Draw, next, new_rotating_selector,
}
use phantom_traffic.Engine.Selector.Allowlist.{
  Call, nexts, adds, sets, apply_all, Admitted, next-Admitted,
}
use phantom_traffic.Engine.Histogram.{hist_buckets, Histogram, new_histogram, rank_of, percentile}
use phantom_traffic.Engine.Histogram.Quantile.{
  record_all as record_samples, Crossed, percentile-Crossed,
}
use phantom_traffic.Engine.Publisher.{Publisher, publish, latest}
use phantom_traffic.Engine.Publisher.Delivery.{Delivered, publish-Delivered}
use phantom_traffic.Engine.Stats.{new_collector, snapshot}
use phantom_traffic.Engine.Stats.Totals.{record_all, of_target}
use phantom_traffic.Engine.Stats.Counted.{IsTallyOf, TargetTally, record_all-IsTallyOf}
use phantom_traffic.Engine.Stats.Snapshots.{
  records, adds as adds_shard, connects, apply_all as apply_stats, snapshot_total,
}
use phantom_traffic.Engine.Pacing.{RampPlan}
use phantom_traffic.Tests.Floats.{toy}

abbrev draw : Time → Draw
draw t = record { measured = t; now = t; intn = λ n. 0 }

abbrev selector : Selector ℕ
selector = record { strategy = rotation_sequential; interval = pos 10; by_proto = [] }

abbrev three_targets : ProtoState ℕ
three_targets = record { targets = 7 ∷ 8 ∷ 9 ∷ []; idx = 2; last_rotate = 100 }

abbrev IsSmall : ℕ → Type 0
IsSmall n = n ≤ 9

abbrev picks : List (Call IsSmall)
picks = nexts (draw 110) "http" ∷ adds 111 "dns" 6 ∷ sets (pos 5) ∷ nexts (draw 140) "dns" ∷ []

zero_in_range : (n : ℕ) → 0 < n → 0 < n
zero_in_range n h = h

next-Admitted_example :
    Admitted IsSmall
      (next (draw 150) "http" (
        apply_all IsSmall picks
          (new_rotating_selector 100 rotation_random (pos 10) (("http", 7 ∷ 8 ∷ []) ∷ [])))).1
next-Admitted_example =
    next-Admitted IsSmall 100 rotation_random (pos 10) (("http", 7 ∷ 8 ∷ []) ∷ []) picks (draw 150)
      "http" ((omega arith, (omega arith, tt)), tt)
      (zero_in_range, (omega arith, (tt, (zero_in_range, tt)))) zero_in_range

abbrev samples : List Duration
samples = pos 90000 ∷ pos 40000000000 ∷ pos 3000000 ∷ []

percentile-Crossed_example :
    Crossed samples
      (rank_of toy (some (pos 0)) 3)
      hist_buckets
      (percentile toy (some (pos 0)) (record_samples samples new_histogram))
percentile-Crossed_example =
    percentile-Crossed toy (some (pos 0)) (pos 90000) (pos 40000000000 ∷ pos 3000000 ∷ [])
      (omega arith)

abbrev results : List Result
results =
    record zero_result { target_id = "a"; bytes_in = pos 5 }
    ∷ record zero_result { target_id = "b"; outcome = outcome_failure }
    ∷ record zero_result { target_id = "a"; outcome = outcome_cancelled }
    ∷ []

record_all-IsTallyOf_example :
    let c = record_all results (new_collector ("a" ∷ [])) in
    IsTallyOf results c.global × TargetTally true (of_target "a" results) (get "a" c.shards)
record_all-IsTallyOf_example = record_all-IsTallyOf ("a" ∷ []) results "a" (omega arith)

snapshot_total_example :
    snapshot toy 9 (some (pos 0)) (some (pos 0)) (some (pos 0)) (some (pos 1)) (
      apply_stats
        (connects ∷ adds_shard "c" ∷ records (record zero_result { target_id = "c" }) ∷ [])
        (new_collector ("a" ∷ "b" ∷ [])))
    ≢ none
snapshot_total_example =
    snapshot_total toy ("a" ∷ "b" ∷ [])
      (connects ∷ adds_shard "c" ∷ records (record zero_result { target_id = "c" }) ∷ []) 9
      (some (pos 0)) (some (pos 0)) (some (pos 0)) (some (pos 1))

abbrev plan : RampPlan
plan = record { up = pos 100; start_concurrency = pos 2 }

abbrev counted : Histogram
counted =
    1 ∷ 0 ∷ 0 ∷ 0 ∷ 2 ∷ 0 ∷ 0 ∷ 0 ∷ 0 ∷ 0 ∷ 0 ∷ 0 ∷ 0 ∷ 0 ∷ 0 ∷ 0 ∷ 0 ∷ 18446744073709551615 ∷ []

abbrev weights : Dict ℕ
weights = ("a", 6) ∷ ("b", 4) ∷ []

abbrev publisher : Publisher ℕ
publisher = record {
  cur = 1;
  subs = record { channel = 0; buffer = some 1 } ∷ record { channel = 1; buffer = none } ∷ [];
  next_channel = 2;
}

abbrev drains : ℕ → ℕ → Bool
drains channel n = false

publish-Delivered_example :
    (latest (publish drains 7 publisher) ≡ 7)
    × Delivered drains 7 publisher.subs (publish drains 7 publisher).subs
publish-Delivered_example = publish-Delivered drains 7 publisher
