-- ===== src/Engine/Supervisor/Launch.antt =====
-- internal/engine/run.go, Start and targetIDsOf: the breakers and the counters of a run's targets.
use phantom_traffic.Prelude.{
  ◌≡◌, ◌∙◌, refl, ap, subst, Bool, true, false, ◌||◌, List, [], ◌∷◌, ◌++◌, none, some, String,
  arith, if◌then◌else◌, str_eq, Bool-cases, ◌⊎◌, inl, inr,
}
use text.Mathlib.TextEquality.{eq_iff}
use phantom_traffic.Prelude.Dict.{Dict, get, put, get-put}
use phantom_traffic.Protocols.{Target}
use phantom_traffic.Safety.Breaker.{Breaker, new_breaker}
use phantom_traffic.Engine.Stats.{Shard, new_shard, make_shards, new_collector}
use phantom_traffic.Engine.Supervisor.{
  is_seen, add_ids, add_block_ids, target_ids_of, make_breakers, breaker_threshold,
  breaker_cooldown,
}
use phantom_traffic.Scenario.{Scenario, Block}
use phantom_traffic.Scenario.Validate.{all_targets}

-- Whether a target has the ID.
abbrev pub is_named : String → List Target → Bool
is_named id [] = false
is_named id (t ∷ ts) = str_eq t.id id || is_named id ts

-- No ID twice.
abbrev pub NoRepeat : List String → Type 0
NoRepeat [] = Unit
NoRepeat (id ∷ ids) = (is_seen id ids ≡ false) × NoRepeat ids

is_seen-append :
    (id j : String) (ids : List String) → is_seen id (ids ++ j ∷ []) ≡ is_seen id ids || str_eq j id
unfolding is_seen
is_seen-append id j [] = ground arith
is_seen-append id j (k ∷ ids) = ground (arith, is_seen-append id j ids)

NoRepeat-append :
    (j : String) (ids : List String)
    → is_seen j ids ≡ false
    → NoRepeat ids
    → NoRepeat (ids ++ j ∷ [])
unfolding is_seen
NoRepeat-append j [] h n = (refl, tt)
NoRepeat-append j (k ∷ ids) h n = (
  ground (arith, is_seen-append k j ids, eq_iff j k, eq_iff k j, n.0),
  NoRepeat-append j ids (ground arith) n.1,
)

add_ids_lem :
    (id : String) (ids : List String) (ts : List Target)
    → is_seen id (add_ids ids ts) ≡ is_seen id ids || is_named id ts
unfolding add_ids
add_ids_lem id ids [] = ground arith
add_ids_lem id ids (t ∷ ts) = elim (Bool-cases (is_seen t.id ids)) [
  | inl old ↦ rw old (add_ids_lem id ids ts ∙ known old (Bool-cases (str_eq t.id id)))
  | inr new ↦
      rw new (add_ids_lem id (ids ++ t.id ∷ []) ts ∙ ground (arith, is_seen-append id t.id ids))
]
  where
    known :
        is_seen t.id ids ≡ true
        → (str_eq t.id id ≡ true) ⊎ (str_eq t.id id ≡ false)
        → is_seen id ids || is_named id ts ≡ is_seen id ids || (str_eq t.id id || is_named id ts)
    known old (inl same) =
        let there = subst (λ j. is_seen j ids ≡ true) ((eq_iff t.id id).0 same) old in ground arith
    known old (inr other) = ground arith

add_ids-NoRepeat : (ids : List String) (ts : List Target) → NoRepeat ids → NoRepeat (add_ids ids ts)
unfolding add_ids
add_ids-NoRepeat ids [] n = n
add_ids-NoRepeat ids (t ∷ ts) n = elim (Bool-cases (is_seen t.id ids)) [
  | inl old ↦ rw old (add_ids-NoRepeat ids ts n)
  | inr new ↦ rw new (add_ids-NoRepeat (ids ++ t.id ∷ []) ts (NoRepeat-append t.id ids new n))
]

is_named-append :
    (id : String) (ts us : List Target) → is_named id (ts ++ us) ≡ is_named id ts || is_named id us
is_named-append id [] us = refl
is_named-append id (t ∷ ts) us = ground (arith, is_named-append id ts us)

or_assoc : (a b c d e : Bool) → d ≡ a || b → e ≡ b || c → d || c ≡ a || e
or_assoc a b c d e h k = ground arith

add_block_ids_lem :
    {F : Type 0} (id : String) (ids : List String) (bs : List (Block F))
    → is_seen id (add_block_ids ids bs) ≡ is_seen id ids || is_named id (all_targets bs)
unfolding add_block_ids all_targets
add_block_ids_lem id ids [] = ground arith
add_block_ids_lem id ids (b ∷ bs) =
    add_block_ids_lem id (add_ids ids b.targets) bs
    ∙ or_assoc (is_seen id ids) (is_named id b.targets) (is_named id (all_targets bs))
        (is_seen id (add_ids ids b.targets)) (is_named id (b.targets ++ all_targets bs))
        (add_ids_lem id ids b.targets) (is_named-append id b.targets (all_targets bs))

add_block_ids-NoRepeat :
    {F : Type 0} (ids : List String) (bs : List (Block F))
    → NoRepeat ids
    → NoRepeat (add_block_ids ids bs)
unfolding add_block_ids
add_block_ids-NoRepeat ids [] n = n
add_block_ids-NoRepeat ids (b ∷ bs) n =
    add_block_ids-NoRepeat (add_ids ids b.targets) bs (add_ids-NoRepeat ids b.targets n)

abbrev pub fresh : Breaker
unfolding new_breaker
fresh = new_breaker breaker_threshold breaker_cooldown

get-make_breakers :
    (id : String) (ids : List String)
    → get id (make_breakers ids) ≡ (if is_seen id ids then some fresh else none)
unfolding make_breakers is_seen get
get-make_breakers id [] = refl
get-make_breakers id (j ∷ ids) =
    get-put j id (new_breaker breaker_threshold breaker_cooldown) (make_breakers ids)
    ∙ ap (λ o. if str_eq j id then some fresh else o) (get-make_breakers id ids)
    ∙ merged (str_eq j id) (is_seen id ids)
  where
    merged :
        (a b : Bool)
        → (if a then some fresh else (if b then some fresh else none))
          ≡ (if (if a then true else b) then some fresh else none)
    merged true b = refl
    merged false b = refl

get-make_shards :
    (id : String) (ids : List String) (m : Dict Shard)
    → get id (make_shards ids m) ≡ (if is_seen id ids then some new_shard else get id m)
unfolding make_shards is_seen
get-make_shards id [] m = refl
get-make_shards id (j ∷ ids) m =
    get-make_shards id ids (put j new_shard m)
    ∙ ap (λ o. if is_seen id ids then some new_shard else o) (get-put j id new_shard m)
    ∙ merged (str_eq j id) (is_seen id ids)
  where
    merged :
        (a b : Bool)
        → (if b then some new_shard else (if a then some new_shard else get id m))
          ≡ (if (if a then true else b) then some new_shard else get id m)
    merged true true = refl
    merged true false = refl
    merged false b = refl

-- A run that Start makes has, for the ID of every target of every block, a closed breaker of its own and
-- counters at 0, and has neither for any other ID; the IDs that the snapshots go through are these,
-- each once.
pub target_ids_of-covers :
    {F : Type 0} (sc : Scenario F) (id : String)
    → let named = is_named id (all_targets sc.blocks) in
      let ids = target_ids_of sc in
      (is_seen id ids ≡ named)
      × NoRepeat ids
      × (get id (make_breakers ids) ≡ (if named then some fresh else none))
      × (get id (new_collector ids).shards ≡ (if named then some new_shard else none))
unfolding target_ids_of new_collector get
target_ids_of-covers sc id =
    let ids = add_block_ids [] sc.blocks in
    let same : is_seen id ids ≡ is_named id (all_targets sc.blocks) =
      add_block_ids_lem id [] sc.blocks in
    (
      same,
      add_block_ids-NoRepeat [] sc.blocks tt,
      get-make_breakers id ids ∙ ap (λ b. if b then some fresh else none) same,
      get-make_shards id ids [] ∙ ap (λ b. if b then some new_shard else none) same,
    )
