-- ===== src/Engine/Stats.antt =====
-- internal/engine/stats.go: the counters of a run. The counts are atomic int64, and a snapshot that
-- looks up a shard that is not there dereferences nil: `none`.
pub mod Totals
pub mod Counted
pub mod Outcomes
pub mod Snapshots
use phantom_traffic.Prelude.{String, Option, none, some, List, [], ◌∷◌, ◌++◌, if◌then◌else◌}
use phantom_traffic.Prelude.Int.{ℤ, pos, ◌+ℤ◌, ◌-ℤ◌, int64, eqb_ℤ}
use phantom_traffic.Prelude.Clock.{Time, Duration}
use phantom_traffic.Prelude.Dict.{Dict, get, put}
use phantom_traffic.Prelude.Float.{Float64}
use phantom_traffic.Protocols.{
  Outcome, outcome_success, outcome_failure, outcome_skipped, outcome_cancelled, outcome_panicked,
  outcome_reconnect, Result,
}
use phantom_traffic.Engine.Histogram.{Histogram, new_histogram, record_sample, merge, percentile}

pub record Shard : Type 0 where
  pub requests : ℤ
  pub successes : ℤ
  pub failures : ℤ
  pub reconnects : ℤ
  pub panics : ℤ
  pub bytes_in : ℤ
  pub bytes_out : ℤ
  pub hist : Histogram

pub record TargetStats : Type 0 where
  pub requests : ℤ
  pub successes : ℤ
  pub failures : ℤ
  pub bytes_in : ℤ
  pub bytes_out : ℤ

pub record Snapshot (F : Type 0) : Type 0 where
  pub at : Time
  pub requests : ℤ
  pub successes : ℤ
  pub failures : ℤ
  pub reconnects : ℤ
  pub panics : ℤ
  pub bytes_in : ℤ
  pub bytes_out : ℤ
  pub active_conns : ℤ
  pub cap_saturation_pct : F
  pub latency_p50 : Duration
  pub latency_p90 : Duration
  pub latency_p99 : Duration
  pub per_target : Dict TargetStats

pub record Collector : Type 0 where
  pub global : Shard
  pub shards : Dict Shard
  pub target_ids : List String
  pub active : ℤ

unfoldable pub new_shard : Shard
new_shard = record {
  requests = pos 0;
  successes = pos 0;
  failures = pos 0;
  reconnects = pos 0;
  panics = pos 0;
  bytes_in = pos 0;
  bytes_out = pos 0;
  hist = new_histogram;
}

abbrev pub incr : ℤ → ℤ
incr n = int64 (n +ℤ pos 1)

count_outcome : Outcome → Shard → Shard
count_outcome outcome_success s = record s { successes = incr s.successes }
count_outcome outcome_reconnect s = record s { reconnects = incr s.reconnects }
count_outcome outcome_panicked s = record s { panics = incr s.panics }
count_outcome outcome_failure s = record s { failures = incr s.failures }
count_outcome outcome_skipped s = s
count_outcome outcome_cancelled s = s

-- `if n != 0 { counter.Add(n) }`
abbrev pub add_bytes : ℤ → ℤ → ℤ
add_bytes n counter = if eqb_ℤ n (pos 0) then counter else int64 (counter +ℤ n)

unfoldable pub record_shard : Result → Shard → Shard
unfolding count_outcome
record_shard r s =
    let s' = count_outcome r.outcome (record s { requests = incr s.requests }) in
    record s' {
      bytes_in = add_bytes r.bytes_in s'.bytes_in;
      bytes_out = add_bytes r.bytes_out s'.bytes_out;
      hist = record_sample r.latency s'.hist;
    }

unfoldable pub make_shards : List String → Dict Shard → Dict Shard
make_shards [] m = m
make_shards (id ∷ ids) m = make_shards ids (put id new_shard m)

unfoldable pub new_collector : List String → Collector
unfolding make_shards
new_collector ids = record {
  global = new_shard;
  shards = make_shards ids [];
  target_ids = ids;
  active = pos 0;
}

record_target : Result → Dict Shard → Dict Shard
record_target r m = elim (get r.target_id m) [
  | none ↦ m
  | some s ↦ put r.target_id (record_shard r s) m
]

unfoldable pub record_result : Result → Collector → Collector
unfolding record_target
record_result r c = record c { global = record_shard r c.global; shards = record_target r c.shards }

unfoldable pub add_shard : String → Collector → Collector
add_shard id c = elim (get id c.shards) [
  | some s ↦ c
  | none ↦ record c { shards = put id new_shard c.shards; target_ids = c.target_ids ++ id ∷ [] }
]

unfoldable pub inc_active : Collector → Collector
inc_active c = record c { active = int64 (c.active +ℤ pos 1) }

unfoldable pub dec_active : Collector → Collector
dec_active c = record c { active = int64 (c.active -ℤ pos 1) }

abbrev pub target_stats : Shard → TargetStats
target_stats s = record {
  requests = s.requests;
  successes = s.successes;
  failures = s.failures;
  bytes_in = s.bytes_in;
  bytes_out = s.bytes_out;
}

-- The loop that fills PerTarget.
unfoldable pub fold_targets :
    List String → Dict Shard → Dict TargetStats → Option (Dict TargetStats)
fold_targets [] shards acc = some acc
fold_targets (id ∷ ids) shards acc = elim (get id shards) [
  | none ↦ none
  | some s ↦ fold_targets ids shards (put id (target_stats s) acc)
]

module _ {F : Type 0} (ops : Float64 F) where
  -- At time `now`, with the limiter's saturation and the three quantiles 0.50, 0.90 and 0.99.
  unfoldable pub snapshot : Time → F → F → F → F → Collector → Option (Snapshot F)
  unfolding fold_targets
  snapshot now saturation q50 q90 q99 c = elim (fold_targets c.target_ids c.shards []) [
    | none ↦ none
    | some per_target ↦
        let merged = merge (new_histogram) c.global.hist in
        some (record {
          at = now;
          requests = c.global.requests;
          successes = c.global.successes;
          failures = c.global.failures;
          reconnects = c.global.reconnects;
          panics = c.global.panics;
          bytes_in = c.global.bytes_in;
          bytes_out = c.global.bytes_out;
          active_conns = c.active;
          cap_saturation_pct = saturation;
          latency_p50 = percentile ops q50 merged;
          latency_p90 = percentile ops q90 merged;
          latency_p99 = percentile ops q99 merged;
          per_target = per_target;
        })
  ]
