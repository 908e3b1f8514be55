-- ===== src/Engine/Selector/Rotation.antt =====
-- The order in which targets are visited.
use phantom_traffic.Prelude.{ℕ, suc, ◌+◌, ◌%◌, ◌<◌, ◌≡◌, ◌∙◌, refl, List, [], ◌∷◌, arith, length}
use native.Mathlib.Nat.{mod-lt, mod-add-mod}
use phantom_traffic.Prelude.Int.{pos, ◌≤ℤ◌, ◌<ℤ◌}
use phantom_traffic.Prelude.Clock.{since}
use phantom_traffic.Engine.Selector.{rotation_sequential, ProtoState, Selector, Draw, maybe_rotate}

shift : (i k n : ℕ) → (i + 1 + k) % n ≡ (i + suc k) % n
shift i k n = ground arith

module _ {A : Type 0} where
  -- Rotations one after another, each at least an interval after the one before.
  unfoldable pub rotate_all : List Draw → Selector A → ProtoState A → ProtoState A
  rotate_all [] s st = st
  rotate_all (d ∷ ds) s st = rotate_all ds s (maybe_rotate d s st)

  abbrev pub Due : List Draw → Selector A → ProtoState A → Type 0
  Due [] s st = Unit {0}
  Due (d ∷ ds) s st =
      (s.interval ≤ℤ since d.measured st.last_rotate) × Due ds s (maybe_rotate d s st)

  one_rotation :
      (d : Draw) (s : Selector A) (st : ProtoState A)
      → s.strategy ≡ rotation_sequential
      → pos 0 <ℤ s.interval
      → s.interval ≤ℤ since d.measured st.last_rotate
      → ((maybe_rotate d s st).idx ≡ (st.idx + 1) % length st.targets)
        × ((maybe_rotate d s st).targets ≡ st.targets)
  unfolding maybe_rotate
  one_rotation d s st q p h = ground arith

  bound_of : {i j : ℕ} {xs ys : List A} → i ≡ j → xs ≡ ys → j < length ys → i < length xs
  bound_of p q b = rw (p, q) b

  step_bound :
      (d : Draw) (s : Selector A) (st : ProtoState A)
      → (maybe_rotate d s st).idx ≡ (st.idx + 1) % length st.targets
      → (maybe_rotate d s st).targets ≡ st.targets
      → st.idx < length st.targets
      → (maybe_rotate d s st).idx < length (maybe_rotate d s st).targets
  step_bound d s st moved same b =
      let small = mod-lt (st.idx + 1) {m = length st.targets} (omega arith) in
      bound_of moved same small

  -- Sequential rotation is a round: after `k` rotations the index has moved by `k` around the list,
  -- so that every target is visited once in each round of `length targets`.
  pub rotate_all-idx :
      (ds : List Draw) (s : Selector A) (st : ProtoState A)
      → s.strategy ≡ rotation_sequential
      → pos 0 <ℤ s.interval
      → st.idx < length st.targets
      → Due ds s st
      → ((rotate_all ds s st).idx ≡ (st.idx + length ds) % length st.targets)
        × ((rotate_all ds s st).targets ≡ st.targets)
  unfolding rotate_all
  rotate_all-idx [] s st q p b due = (grind arith, refl)
  rotate_all-idx (d ∷ ds) s st q p b due =
      let (moved, same) = one_rotation d s st q p due.0 in
      let (rest, kept) =
        rotate_all-idx ds s (maybe_rotate d s st) q p (step_bound d s st moved same b) due.1 in
      (
        rest
            ∙ (λ i. (moved i + length ds) % length (same i))
            ∙ mod-add-mod (st.idx + 1) (length st.targets) (length ds)
            ∙ shift (st.idx) (length ds) (length st.targets),
        kept ∙ same,
      )
