-- ===== src/Engine/Stats/Snapshots.antt =====
-- Snapshots of a collector after any calls.
use phantom_traffic.Prelude.{
  ◌≡◌, ◌≢◌, refl, inl, inr, true, List, [], ◌∷◌, none, String, All, All-append, Bool-cases,
  Option-cases,
}
use text.Mathlib.Text.{◌==◌ as str_eq}
use text.Mathlib.TextEquality.{eq_iff}
use phantom_traffic.Prelude.Clock.{Time}
use phantom_traffic.Prelude.Dict.{Dict, get, put, get-put}
use phantom_traffic.Prelude.Float.{Float64}
use phantom_traffic.Protocols.{Result}
use phantom_traffic.Engine.Stats.{
  Shard, TargetStats, Collector, new_shard, record_shard, record_target, record_result,
  new_collector, make_shards, add_shard, inc_active, dec_active, fold_targets, snapshot,
}

pub data Call : Type 0 where
  records : Result → Call
  adds : String → Call
  connects disconnects : Call

unfoldable pub apply : Call → Collector → Collector
apply (records r) c = record_result r c
apply (adds id) c = add_shard id c
apply connects c = inc_active c
apply disconnects c = dec_active c

unfoldable pub apply_all : List Call → Collector → Collector
apply_all [] c = c
apply_all (k ∷ ks) c = apply_all ks (apply k c)

abbrev Present : Dict Shard → String → Type 0
Present m id = get id m ≢ none

put-Present :
    (k : String) (s : Shard) (m : Dict Shard) (id : String) → Present m id → Present (put k s m) id
put-Present k s m id h = elim (Bool-cases (str_eq k id)) [
  | inl hit ↦ rw (get-put k id s m, hit) (λ e. cc)
  | inr miss ↦ rw (get-put k id s m, miss) h
]

put-All :
    (k : String) (s : Shard) (m : Dict Shard) (ids : List String)
    → All (Present m) ids
    → All (Present (put k s m)) ids
put-All k s m [] h = tt
put-All k s m (id ∷ ids) h = (put-Present k s m id h.0, put-All k s m ids h.1)

put_here : (k : String) (s : Shard) (m : Dict Shard) → Present (put k s m) k
put_here k s m =
    let hit : str_eq k k ≡ true = (eq_iff k k).1 refl in rw (get-put k k s m, hit) (λ e. cc)

make_shards_keep :
    (ids : List String) (m : Dict Shard) (id : String)
    → Present m id
    → Present (make_shards ids m) id
unfolding make_shards
make_shards_keep [] m id h = h
make_shards_keep (k ∷ ids) m id h =
    make_shards_keep ids (put k new_shard m) id (put-Present k new_shard m id h)

make_shards-Present : (ids : List String) (m : Dict Shard) → All (Present (make_shards ids m)) ids
unfolding make_shards
make_shards-Present [] m = tt
make_shards-Present (k ∷ ids) m = (
  make_shards_keep ids (put k new_shard m) k (put_here k new_shard m),
  make_shards-Present ids (put k new_shard m),
)

abbrev pub Inv : Collector → Type 0
Inv c = All (Present c.shards) c.target_ids

record_target-All :
    (r : Result) (m : Dict Shard) (ids : List String)
    → All (Present m) ids
    → All (Present (record_target r m)) ids
unfolding record_target
record_target-All r m ids h = elim (Option-cases (get r.target_id m)) [
  | inl gone ↦ rw (gone, record_target) h
  | inr (s, found) ↦ rw (found, record_target) (put-All r.target_id (record_shard r s) m ids h)
]

add_shard-Inv : (id : String) (c : Collector) → Inv c → Inv (add_shard id c)
unfolding add_shard
add_shard-Inv id c v = elim (Option-cases (get id c.shards)) [
  | inl gone ↦
      let m = put id new_shard c.shards in
      rw (gone, add_shard)
        (All-append (Present m) c.target_ids (id ∷ [])
          (put-All id new_shard c.shards c.target_ids v) (put_here id new_shard c.shards, tt))
  | inr (s, found) ↦ rw (found, add_shard) v
]

apply_all-Inv : (ks : List Call) (c : Collector) → Inv c → Inv (apply_all ks c)
unfolding apply_all apply record_result inc_active dec_active
apply_all-Inv [] c v = v
apply_all-Inv (records r ∷ ks) c v =
    apply_all-Inv ks _ (record_target-All r c.shards c.target_ids v)
apply_all-Inv (adds id ∷ ks) c v = apply_all-Inv ks _ (add_shard-Inv id c v)
apply_all-Inv (connects ∷ ks) c v = apply_all-Inv ks _ v
apply_all-Inv (disconnects ∷ ks) c v = apply_all-Inv ks _ v

fold_targets_total :
    (ids : List String) (m : Dict Shard) (acc : Dict TargetStats)
    → All (Present m) ids
    → fold_targets ids m acc ≢ none
unfolding fold_targets
fold_targets_total [] m acc h = λ e. cc
fold_targets_total (id ∷ ids) m acc h = elim (Option-cases (get id m)) [
  | inl gone ↦ absurd (h.0 gone)
  | inr (s, found) ↦ rw (found, fold_targets) (fold_targets_total ids m _ h.1)
]

module _ {F : Type 0} (ops : Float64 F) where
  snapshot_of_fold :
      (now : Time) (sat a b d : F) (c : Collector)
      → fold_targets c.target_ids c.shards [] ≢ none
      → snapshot ops now sat a b d c ≢ none
  unfolding snapshot
  snapshot_of_fold now sat a b d c h = elim (Option-cases (fold_targets c.target_ids c.shards [])) [
    | inl gone ↦ absurd (h gone)
    | inr (m, found) ↦ rw (found, snapshot) (λ e. cc)
  ]

  -- After any calls on a new collector a snapshot finds a shard for every target it lists, so that it
  -- never dereferences nil.
  pub snapshot_total :
      (ids : List String) (ks : List Call) (now : Time) (sat a b d : F)
      → snapshot ops now sat a b d (apply_all ks (new_collector ids)) ≢ none
  unfolding new_collector
  snapshot_total ids ks now sat a b d =
      let v = apply_all-Inv ks (new_collector ids) (make_shards-Present ids []) in
      snapshot_of_fold now sat a b d _ (fold_targets_total _ _ [] v)
