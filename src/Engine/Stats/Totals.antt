-- ===== src/Engine/Stats/Totals.antt =====
-- What the counters add up to over the results of a run.
use text.Mathlib.Text.{◌==◌ as str_eq}
use text.Mathlib.TextEquality.{eq_iff}
use phantom_traffic.Prelude.{
  ◌≡◌, ◌∙◌, refl, sym, inl, inr, true, false, List, [], ◌∷◌, Option, none, some, String, Bool-cases,
  Option-cases, if◌then◌else◌,
}
use phantom_traffic.Prelude.Dict.{Dict, get, put, get-put}
use phantom_traffic.Protocols.{Result}
use phantom_traffic.Engine.Stats.{Shard, Collector, record_shard, record_target, record_result}

unfoldable pub record_each : List Result → Shard → Shard
record_each [] s = s
record_each (r ∷ rs) s = record_each rs (record_shard r s)

unfoldable pub record_all : List Result → Collector → Collector
record_all [] c = c
record_all (r ∷ rs) c = record_all rs (record_result r c)

-- The results of one target, in order.
unfoldable pub of_target : String → List Result → List Result
of_target t [] = []
of_target t (r ∷ rs) = if str_eq r.target_id t then r ∷ of_target t rs else of_target t rs

abbrev pub map_shard : (Shard → Shard) → Option Shard → Option Shard
map_shard f none = none
map_shard f (some s) = some (f s)

record_target-none :
    (r : Result) (m : Dict Shard) → get r.target_id m ≡ none → record_target r m ≡ m
unfolding record_target
record_target-none r m e = rw (e, record_target) refl

record_target-some :
    (r : Result) (m : Dict Shard) (s : Shard)
    → get r.target_id m ≡ some s
    → record_target r m ≡ put r.target_id (record_shard r s) m
unfolding record_target
record_target-some r m s e = rw (e, record_target) refl

get-record_target_same :
    (r : Result) (t : String) (m : Dict Shard)
    → r.target_id ≡ t
    → get t (record_target r m) ≡ map_shard (record_shard r) (get t m)
get-record_target_same r t m e = elim (Option-cases (get r.target_id m)) [
  | inl gone ↦
      let gone' : get t m ≡ none = rw e at gone in rw (record_target-none r m gone, gone') refl
  | inr (s, found) ↦
      let found' : get t m ≡ some s = rw e at found in
      let hit : str_eq r.target_id t ≡ true = (eq_iff r.target_id t).1 e in
      rw (record_target-some r m s found, found')
        (get-put r.target_id t (record_shard r s) m ∙ (rw hit refl))
]

get-record_target_other :
    (r : Result) (t : String) (m : Dict Shard)
    → str_eq r.target_id t ≡ false
    → get t (record_target r m) ≡ get t m
get-record_target_other r t m miss = elim (Option-cases (get r.target_id m)) [
  | inl gone ↦ rw (record_target-none r m gone) refl
  | inr (s, found) ↦
      rw (record_target-some r m s found)
        (get-put r.target_id t (record_shard r s) m ∙ (rw miss refl))
]

map_shard_twice :
    (f g h : Shard → Shard) (o : Option Shard)
    → ((s : Shard) → g (f s) ≡ h s)
    → map_shard g (map_shard f o) ≡ map_shard h o
map_shard_twice f g h none e = refl
map_shard_twice f g h (some s) e = λ i. some (e s i)

map_shard_id : (o : Option Shard) → map_shard (λ s. s) o ≡ o
map_shard_id none = refl
map_shard_id (some s) = refl

map_shard_empty : (t : String) (o : Option Shard) → map_shard (record_each (of_target t [])) o ≡ o
unfolding of_target record_each
map_shard_empty t o = map_shard_id o

of_target-hit :
    (t : String) (r : Result) (rs : List Result)
    → str_eq r.target_id t ≡ true
    → of_target t (r ∷ rs) ≡ r ∷ of_target t rs
unfolding of_target
of_target-hit t r rs h = rw h refl

of_target-miss :
    (t : String) (r : Result) (rs : List Result)
    → str_eq r.target_id t ≡ false
    → of_target t (r ∷ rs) ≡ of_target t rs
unfolding of_target
of_target-miss t r rs h = rw h refl

-- The totals of a run are those of all its results, and the shard of a target is what the results of
-- that target make of it, in their order. A target without a shard gets none.
pub record_all-of_target :
    (rs : List Result) (t : String) (c : Collector)
    → ((record_all rs c).global ≡ record_each rs c.global)
      × (get t (record_all rs c).shards ≡ map_shard (record_each (of_target t rs)) (get t c.shards))
unfolding record_all record_each record_result
record_all-of_target [] t c = (refl, sym (map_shard_empty t (get t c.shards)))
record_all-of_target (r ∷ rs) t c =
    let (whole, per) = record_all-of_target rs t (record_result r c) in
    (
      whole,
      elim (Bool-cases (str_eq r.target_id t)) [
        | inl hit ↦
            let same = get-record_target_same r t c.shards ((eq_iff r.target_id t).0 hit) in
            rw (of_target-hit t r rs hit) (
              per
              ∙ (rw same (
                  map_shard_twice (record_shard r) (record_each (of_target t rs)) _ (get t c.shards)
                    (λ s. refl))))
        | inr miss ↦
            let other = get-record_target_other r t c.shards miss in
            rw (of_target-miss t r rs miss) (per ∙ (rw other refl))
      ],
    )
