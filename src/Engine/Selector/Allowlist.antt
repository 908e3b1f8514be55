-- ===== src/Engine/Selector/Allowlist.antt =====
-- internal/engine/selector.go: what Next hands out, over any calls on a selector.
use native.Mathlib.Nat.{mod-lt}
use phantom_traffic.Prelude.{
  ℕ, ◌+◌, ◌<◌, ◌≡◌, refl, inl, inr, List, [], ◌∷◌, ◌++◌, String, arith, length, get_elem?_total,
  All, All-append, All-get_elem?, Option-cases, length-append,
}
use phantom_traffic.Prelude.Clock.{Time, Duration}
use phantom_traffic.Prelude.Dict.{Dict, get, AllValues, get-AllValues, put-AllValues}
use phantom_traffic.Engine.Selector.{
  RotationStrategy, rotation_sequential, rotation_random, ProtoState, Selector, Draw, Pick, target,
  absent, panicked, next_idx, maybe_rotate, at_index, next_in, next, set_interval, add_target,
  init_states, new_rotating_selector,
}

-- rand.IntN(n) answers below n.
abbrev pub InRange : Draw → Type 0
InRange d = (n : ℕ) → 0 < n → d.intn n < n

next_idx_lt :
    (s : RotationStrategy) (d : Draw) (i n : ℕ) → InRange d → 0 < n → next_idx s d.intn i n < n
unfolding next_idx
next_idx_lt rotation_random d i n r h = r n h
next_idx_lt rotation_sequential d i n r h = mod-lt (i + 1) h

module _ {A : Type 0} (P : A → Type 0) where
  pub data Call : Type 0 where
    nexts : Draw → String → Call
    adds : Time → String → A → Call
    sets : Duration → Call

  unfoldable pub apply : Call → Selector A → Selector A
  apply (nexts d proto) s = (next d proto s).0
  apply (adds t proto a) s = add_target t proto a s
  apply (sets d) s = set_interval d s

  unfoldable pub apply_all : List Call → Selector A → Selector A
  apply_all [] s = s
  apply_all (c ∷ cs) s = apply_all cs (apply c s)

  abbrev pub Admissible : Call → Type 0
  Admissible (nexts d proto) = InRange d
  Admissible (adds t proto a) = P a
  Admissible (sets d) = Unit {0}

  pub record IsGood (st : ProtoState A) : Type 0 where
    pub inside : 0 < length st.targets → st.idx < length st.targets
    pub empty_idx : length st.targets ≡ 0 → st.idx ≡ 0
    pub listed : All P st.targets

  maybe_rotate-IsGood :
      (d : Draw) (s : Selector A) (st : ProtoState A)
      → InRange d
      → 0 < length st.targets
      → IsGood st
      → IsGood (maybe_rotate d s st)
  unfolding maybe_rotate
  maybe_rotate-IsGood d s st r h g =
      let b = next_idx_lt s.strategy d st.idx (length st.targets) r h in ground arith

  add-IsGood :
      (st : ProtoState A) (a : A)
      → P a
      → IsGood st
      → IsGood (record st { targets = st.targets ++ a ∷ [] })
  add-IsGood st a p g = record {
    inside = λ h. ground (arith, length-append st.targets (a ∷ []));
    empty_idx = λ h. ground (arith, length-append st.targets (a ∷ []));
    listed = All-append P st.targets (a ∷ []) g.listed (p, tt);
  }

  -- A pick is either no target or an admitted one.
  abbrev pub Admitted : Pick A → Type 0
  Admitted (target a) = P a
  Admitted absent = Unit {0}
  Admitted panicked = ⊥

  at_index-Admitted :
      (st : ProtoState A) → 0 < length st.targets → IsGood st → Admitted (at_index st)
  unfolding at_index
  at_index-Admitted st h g =
      let (a, e) = get_elem?_total st.targets st.idx (g.inside h) in
      let p = All-get_elem? P st.targets st.idx a g.listed e in rw (e, at_index) p

  new-IsGood :
      (now : Time) (ts : List A)
      → All P ts
      → IsGood (record { targets = ts; idx = 0; last_rotate = now })
  new-IsGood now ts h = record { inside = λ k. k; empty_idx = λ e. refl; listed = h }

  init_states-IsGood :
      (now : Time) (m : Dict (List A)) → AllValues (All P) m → AllValues IsGood (init_states now m)
  unfolding init_states
  init_states-IsGood now [] h = tt
  init_states-IsGood now ((k, ts) ∷ m) h = (new-IsGood now ts h.0, init_states-IsGood now m h.1)

  abbrev pub Inv : Selector A → Type 0
  Inv s = AllValues IsGood s.by_proto

  maybe_rotate-length :
      (d : Draw) (s : Selector A) (st : ProtoState A)
      → length (maybe_rotate d s st).targets ≡ length st.targets
  unfolding maybe_rotate
  maybe_rotate-length d s st = ground arith

  next_in-Inv :
      (d : Draw) (proto : String) (st : ProtoState A) (ts : List A) (s : Selector A)
      → st.targets ≡ ts
      → InRange d
      → IsGood st
      → Inv s
      → Inv (next_in d proto st ts s).0 × Admitted (next_in d proto st ts s).1
  unfolding next_in
  next_in-Inv d proto st [] s e r g v = (v, tt)
  next_in-Inv d proto st (a ∷ rest) s e r g v =
      let full : 0 < length st.targets = rw e (omega arith) in
      let good = maybe_rotate-IsGood d s st r full g in
      let st' = maybe_rotate d s st in
      let full' : 0 < length st'.targets = rw (maybe_rotate-length d s st) full in
      (put-AllValues IsGood proto st' s.by_proto good v, at_index-Admitted st' full' good)

  next-Inv :
      (d : Draw) (proto : String) (s : Selector A)
      → InRange d
      → Inv s
      → Inv (next d proto s).0 × Admitted (next d proto s).1
  unfolding next
  next-Inv d proto s r v = elim (Option-cases (get proto s.by_proto)) [
    | inl none_there ↦ rw (none_there, next) (v, tt)
    | inr (st, e) ↦
        rw (e, next)
          (next_in-Inv d proto st st.targets s refl r (get-AllValues IsGood proto s.by_proto st v e)
            v)
  ]

  add_target-Inv :
      (now : Time) (proto : String) (a : A) (s : Selector A)
      → P a
      → Inv s
      → Inv (add_target now proto a s)
  unfolding add_target
  add_target-Inv now proto a s p v = elim (Option-cases (get proto s.by_proto)) [
    | inl none_there ↦
        rw (none_there, add_target)
          (put-AllValues IsGood proto _ s.by_proto (new-IsGood now (a ∷ []) (p, tt)) v)
    | inr (st, e) ↦
        let good = add-IsGood st a p (get-AllValues IsGood proto s.by_proto st v e) in
        rw (e, add_target) (put-AllValues IsGood proto _ s.by_proto good v)
  ]

  apply_all-Inv :
      (cs : List Call) (s : Selector A) → All Admissible cs → Inv s → Inv (apply_all cs s)
  unfolding apply_all apply set_interval
  apply_all-Inv [] s h v = v
  apply_all-Inv (nexts d proto ∷ cs) s h v = apply_all-Inv cs _ h.1 (next-Inv d proto s h.0 v).0
  apply_all-Inv (adds t proto a ∷ cs) s h v =
      apply_all-Inv cs _ h.1 (add_target-Inv t proto a s h.0 v)
  apply_all-Inv (sets d ∷ cs) s h v = apply_all-Inv cs _ h.1 v

  -- If `P` holds of every target the block starts with and of every target that is added, then after
  -- any calls Next does not index out of range, and a target it returns satisfies `P`. IntN is
  -- taken to answer in its range.
  pub next-Admitted :
      (now : Time) (strategy : RotationStrategy) (interval : Duration) (m : Dict (List A))
      (cs : List Call) (d : Draw) (proto : String)
      → AllValues (All P) m
      → All Admissible cs
      → InRange d
      → Admitted (next d proto (apply_all cs (new_rotating_selector now strategy interval m))).1
  unfolding new_rotating_selector
  next-Admitted now strategy interval m cs d proto h k r =
      (next-Inv d proto (apply_all cs _) r (apply_all-Inv cs _ k (init_states-IsGood now m h))).1
