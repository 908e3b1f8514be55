-- ===== src/Engine/Stats/Counted.antt =====
-- internal/engine/stats.go: the counters of a run, whole and by target, against its results.
use phantom_traffic.Prelude.{
  ◌^◌, ◌≤◌, ◌<◌, ◌≡◌, ◌∙◌, refl, sym, subst, Bool, true, false, ◌||◌, String, str_eq, List, [], ◌∷◌,
  Option, none, some, arith, length, inl, inr, Bool-cases, if◌then◌else◌,
}
use phantom_traffic.Prelude.Dict.{Dict, get, put, get-put}
use phantom_traffic.Protocols.{Result}
use phantom_traffic.Engine.Stats.{Shard, new_shard, make_shards, new_collector}
use phantom_traffic.Engine.Stats.Totals.{
  record_each, record_all, of_target, map_shard, record_all-of_target,
}
use phantom_traffic.Engine.Stats.Outcomes.{
  Tally, count, succeeded, failed, reconnected, crashed, record_each-new_shard,
}

-- The counters of a shard are those of the results: how many there are, and how many of them have the
-- outcome that a counter is for.
abbrev pub IsTallyOf : List Result → Shard → Type 0
IsTallyOf rs s =
    Tally (length rs) (count succeeded rs) (count failed rs) (count reconnected rs)
      (count crashed rs) s

abbrev pub has_id : String → List String → Bool
has_id t [] = false
has_id t (id ∷ ids) = str_eq id t || has_id t ids

length-of_target : (t : String) (rs : List Result) → length (of_target t rs) ≤ length rs
unfolding of_target
length-of_target t [] = omega arith
length-of_target t (r ∷ rs) = ground (arith, length-of_target t rs)

get-make_shards :
    (t : String) (ids : List String) (m : Dict Shard)
    → get t (make_shards ids m) ≡ (if has_id t ids then some new_shard else get t m)
unfolding make_shards
get-make_shards t [] m = refl
get-make_shards t (id ∷ ids) m = elim (Bool-cases (str_eq id t)) [
  | inl hit ↦
      get-make_shards t ids (put id new_shard m) ∙ rw (get-put id t new_shard m, hit) (ground arith)
  | inr miss ↦ get-make_shards t ids (put id new_shard m) ∙ rw (get-put id t new_shard m, miss) refl
]

-- What a target's shard is, by whether the collector knows the target.
abbrev pub TargetTally : Bool → List Result → Option Shard → Type 0
TargetTally true rs o = (s : Shard) × (o ≡ some s) × IsTallyOf rs s
TargetTally false rs o = o ≡ none

known_or_not :
    (b : Bool) (rs : List Result)
    → IsTallyOf rs (record_each rs new_shard)
    → TargetTally b rs (map_shard (record_each rs) (if b then some new_shard else none))
known_or_not true rs h = (record_each rs new_shard, refl, h)
known_or_not false rs h = refl

-- After fewer than 2^63 results on a new collector: the counters of the run are how many results there
-- are and how many have each of the outcomes success, failure, reconnect and panic; those of a target
-- that the collector was made with are the same counts over the results of that target alone; and a
-- target that it was not made with has no shard.
pub record_all-IsTallyOf :
    (ids : List String) (rs : List Result) (t : String)
    → length rs < 2 ^ 63
    → let c = record_all rs (new_collector ids) in
      IsTallyOf rs c.global × TargetTally (has_id t ids) (of_target t rs) (get t c.shards)
unfolding new_collector get
record_all-IsTallyOf ids rs t k =
    let (whole, per) = record_all-of_target rs t (new_collector ids) in
    let few = length-of_target t rs in
    (
      subst (IsTallyOf rs) (sym whole) (record_each-new_shard rs k).0,
      subst (TargetTally (has_id t ids) (of_target t rs))
          (sym (per ∙ (λ i. map_shard (record_each (of_target t rs)) (get-make_shards t ids [] i))))
          (known_or_not (has_id t ids) (of_target t rs)
            (record_each-new_shard (of_target t rs) (omega arith)).0),
    )
