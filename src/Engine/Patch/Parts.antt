-- ===== src/Engine/Patch/Parts.antt =====
-- What the parts of a patch that are no caps leave alone.
use phantom_traffic.Prelude.{
  ℕ, ◌≡◌, inl, inr, String, Bool, true, List, [], ◌∷◌, Option, none, some, Bool-cases, Option-cases,
}
use phantom_traffic.Prelude.Int.{ℤ, pos, leb_ℤ, ltb_ℤ}
use phantom_traffic.Prelude.Clock.{Time}
use phantom_traffic.Prelude.Dict.{Dict, get, put}
use phantom_traffic.Safety.Breaker.{Breaker, force_open}
use phantom_traffic.Engine.Naming.{TargetSpec, Url, Block, block_by_id, structural_check, host_of}
use phantom_traffic.Engine.Semaphore.{set_limit}
use phantom_traffic.Engine.Selector.{set_interval}
use phantom_traffic.Engine.Weights.{normalize_weights}
use phantom_traffic.Engine.Patch.{
  ScenarioPatch, PatchedRun, Step, goes, fails, then_do, on_some, patch_concurrency, patch_weights,
  patch_rotation, add_one, patch_targets_add, patch_targets_disable, parts, in_seconds,
}

module _ {F : Type 0} where
  abbrev pub EachRun : (PatchedRun F → Type 0) → Step F → Type 0
  EachRun P (goes r detail) = P r
  EachRun P (fails r err) = P r

  pub then_do-EachRun :
      (P : PatchedRun F → Type 0) (s : Step F) (next : PatchedRun F → Dict String → Step F)
      → EachRun P s
      → ((r : PatchedRun F) (detail : Dict String) → P r → EachRun P (next r detail))
      → EachRun P (then_do s next)
  unfolding then_do
  then_do-EachRun P (goes r detail) next h k = k r detail h
  then_do-EachRun P (fails r err) next h k = h

  pub on_some-EachRun :
      {A : Type 0} (P : PatchedRun F → Type 0) (o : Option A)
      (f : A → PatchedRun F → Dict String → Step F) (r : PatchedRun F) (detail : Dict String)
      → P r
      → ((a : A) → EachRun P (f a r detail))
      → EachRun P (on_some o f r detail)
  unfolding on_some
  on_some-EachRun P none f r detail h k = h
  on_some-EachRun P (some a) f r detail h k = k a

  -- A property of runs that the parts of a patch keep: the changes that they make do, and so does a
  -- target whose host is admitted.
  pub record Stable (parse : String → Option Url) (permits : String → Bool)
      (P : PatchedRun F → Type 0) : Type 0 where
    pub on_limit : (r : PatchedRun F) (k : ℤ) → P r → P (record r { sem = set_limit k r.sem })
    pub on_weights : (r : PatchedRun F) (w : Dict ℕ) → P r → P (record r { weights = w })
    pub on_interval :
        (r : PatchedRun F) (d : ℤ) → P r → P (record r { selector = set_interval d r.selector })
    pub on_breakers : (r : PatchedRun F) (m : Dict Breaker) → P r → P (record r { breakers = m })
    pub on_target :
        (now : Time) (spec : TargetSpec) (blk : Block) (r : PatchedRun F) (detail : Dict String)
        (host : String)
        → host_of spec.addr (parse spec.addr) ≡ some host
        → permits host ≡ true
        → P r
        → EachRun P (add_one now spec blk r detail)

  module _ {parse : String → Option Url} {permits : String → Bool} {P : PatchedRun F → Type 0}
      (stable : Stable parse permits P) where
    patch_concurrency-EachRun :
        (k : ℤ) (r : PatchedRun F) (detail : Dict String)
        → P r
        → EachRun P (patch_concurrency k r detail)
    unfolding patch_concurrency
    patch_concurrency-EachRun k r detail g = elim (Bool-cases (leb_ℤ k (pos 0))) [
      | inl bad ↦ rw bad g
      | inr good ↦ rw good (stable.on_limit r k g)
    ]

    patch_weights-EachRun :
        (w : Dict ℕ) (r : PatchedRun F) (detail : Dict String)
        → P r
        → EachRun P (patch_weights w r detail)
    unfolding patch_weights
    patch_weights-EachRun w r detail g = elim (Option-cases (normalize_weights r.weights w).1) [
      | inl fine ↦
          rw (fine, patch_weights) (stable.on_weights r (normalize_weights r.weights w).0 g)
      | inr (e, bad) ↦ rw (bad, patch_weights) g
    ]

    patch_rotation-EachRun :
        (k : ℤ) (r : PatchedRun F) (detail : Dict String)
        → P r
        → EachRun P (patch_rotation k r detail)
    unfolding patch_rotation
    patch_rotation-EachRun k r detail g = elim (Bool-cases (ltb_ℤ k (pos 0))) [
      | inl bad ↦ rw bad g
      | inr good ↦ rw good (stable.on_interval r (in_seconds k) g)
    ]

    patch_targets_disable-EachRun :
        (now : Time) (tids : List String) (r : PatchedRun F) (detail : Dict String)
        → P r
        → EachRun P (patch_targets_disable now tids r detail)
    unfolding patch_targets_disable
    patch_targets_disable-EachRun now [] r detail g = g
    patch_targets_disable-EachRun now (tid ∷ tids) r detail g =
        elim (Option-cases (get tid r.breakers)) [
          | inl gone ↦ rw (gone, patch_targets_disable) g
          | inr (b, found) ↦
              let m = put tid (force_open now b) r.breakers in
              rw (found, patch_targets_disable)
                (patch_targets_disable-EachRun now tids (record r { breakers = m }) _
                  (stable.on_breakers r m g))
        ]

    patch_targets_add-EachRun :
        (now : Time) (specs : List TargetSpec) (r : PatchedRun F) (detail : Dict String)
        → P r
        → EachRun P (patch_targets_add parse permits now specs r detail)
    unfolding patch_targets_add
    patch_targets_add-EachRun now [] r detail g = g
    patch_targets_add-EachRun now (spec ∷ specs) r detail g =
        elim (Option-cases (block_by_id spec.block_id r.blocks)) [
          | inl unknown ↦ rw (unknown, patch_targets_add) g
          | inr (blk, known) ↦
              elim (Option-cases (structural_check blk.protocol spec.addr (parse spec.addr))) [
                | inr (e, other) ↦ rw (known, other, patch_targets_add) g
                | inl fits ↦ elim (Option-cases (host_of spec.addr (parse spec.addr))) [
                  | inl invalid ↦ rw (known, fits, invalid, patch_targets_add) g
                  | inr (host, valid) ↦ elim (Bool-cases (permits host)) [
                    | inr denied ↦ rw (known, fits, valid, denied, patch_targets_add) g
                    | inl allowed ↦
                        rw (known, fits, valid, allowed, patch_targets_add)
                          (then_do-EachRun P (add_one now spec blk r detail) _
                            (stable.on_target now spec blk r detail host valid allowed g)
                            (λ r' d g'. patch_targets_add-EachRun now specs r' d g'))
                  ]
                ]
              ]
        ]

    -- After the part on the caps all parts keep the property.
    pub parts-EachRun :
        (now : Time) (p : ScenarioPatch F) (caps : Step F)
        → EachRun P caps
        → EachRun P (parts parse permits now p caps)
    unfolding parts
    parts-EachRun now p caps h =
        let concurrency = then_do-EachRun P caps _ h (λ r d g.
          on_some-EachRun P p.concurrency patch_concurrency r d g
            (λ k. patch_concurrency-EachRun k r d g)) in
        let weights = then_do-EachRun P _ _ concurrency (λ r d g.
          on_some-EachRun P p.weights patch_weights r d g (λ w. patch_weights-EachRun w r d g)) in
        let rotation = then_do-EachRun P _ _ weights (λ r d g.
          on_some-EachRun P p.rotation_int_sec patch_rotation r d g
            (λ k. patch_rotation-EachRun k r d g)) in
        let added =
          then_do-EachRun P _ _ rotation
            (λ r d g. patch_targets_add-EachRun now p.targets_add r d g) in
        then_do-EachRun P _ _ added
          (λ r d g. patch_targets_disable-EachRun now p.targets_disable r d g)
