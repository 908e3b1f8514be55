-- ===== src/Behavior/Session/Steps.antt =====
-- internal/behavior/session.go: what a step of a session is, whatever the draws and the selector.
use phantom_traffic.Prelude.{
  ℕ, zero, suc, ◌%◌, ◌≡◌, ◌∙◌, refl, sym, ap, subst, true, false, ◌&&◌, List, [], ◌∷◌, Option, none,
  some, ◌⊎◌, inl, inr, String, arith, Bool-cases, length, get_elem?, All,
}
use phantom_traffic.Prelude.Int.{pos, ltb_ℤ, leb_ℤ, ◌≤ℤ◌}
use phantom_traffic.Prelude.Clock.{Time, since}
use phantom_traffic.Prelude.Context.{CtxErr}
use phantom_traffic.Prelude.Float.{Float64, fzero}
use phantom_traffic.Protocols.{Target}
use phantom_traffic.Protocols.Action.{PacingMode}
use phantom_traffic.Behavior.{Rand, Math}
use phantom_traffic.Behavior.Mix.{
  Template, TemplateMix, ref, pick, new_template_mix, wheel, whole, pick-wheel,
}
use phantom_traffic.Behavior.Shaper.{shape, shape_non_neg}
use phantom_traffic.Behavior.Selector.{
  TargetSelector, RoundRobin, targets_of, idx_of, rotate_in, round_robin_next,
}
use phantom_traffic.Behavior.Session.{
  Step, PlannedAction, Session, Next, ctx_stopped, panicked, stepped, act, on_target, choose,
  proceed, after_length, next,
}

abbrev pub Has : {A : Type 0} → A → List A → Type 0
Has x [] = ⊥
Has x (y ∷ ys) = (y ≡ x) ⊎ Has x ys

-- A selector whose targets for a protocol satisfy `P`, as long as its state satisfies `I`.
pub record IsSafeSelector {S : Type 0} (sel : TargetSelector S) (P : String → Target → Type 0)
    (I : S → Type 0) : Type 0 where
  pub keeps : (proto : String) (st : S) → I st → I (sel.next_target proto st).0
  pub safe :
      (proto : String) (st : S) (t : Target)
      → I st
      → (sel.next_target proto st).1 ≡ some t
      → P proto t

module _ {S R F : Type 0} (sel : TargetSelector S) (rng : Rand R F) (math : Math F)
    (ops : Float64 F) (P : String → Target → Type 0) (I : S → Type 0)
    (safe : IsSafeSelector sel P I) (first : Template F) (others : List (Template F))
    (m : TemplateMix F) (made : new_template_mix rng math ops (first ∷ others) ≡ inr m) where
  abbrev pub IsPlanned : PacingMode → PlannedAction → Type 0
  IsPlanned pacing a =
      (t : Template F) × Has t (first ∷ others)
      × (a.action_ref ≡ ref t)
      × (a.cause ≡ t.cause)
      × (pacing ≡ t.pacing)
      × P t.protocol a.target

  abbrev pub IsAction : Step → Option PlannedAction → Type 0
  IsAction st none = Unit
  IsAction st (some a) = (st.done ≡ false) × IsPlanned st.pacing a

  -- A session that runs on the mix, with its selector in order.
  abbrev pub IsReady : Session S R F → Type 0
  IsReady s = (s.mix ≡ m) × I s.sel

  abbrev pub IsStep : Next S R F → Type 0
  IsStep (ctx_stopped e) = Unit
  IsStep panicked = ⊥
  IsStep (stepped st s) = (pos 0 ≤ℤ st.wait) × IsAction st st.action × IsReady s

  wheel_hit :
      (x sum : F) (t u : Template F) (ts : List (Template F))
      → ops.flt x (ops.fadd sum t.weight) ≡ true
      → wheel rng math ops x sum t (u ∷ ts) ≡ t
  unfolding wheel
  wheel_hit x sum t u ts h = rw (h, wheel) refl

  wheel_miss :
      (x sum : F) (t u : Template F) (ts : List (Template F))
      → ops.flt x (ops.fadd sum t.weight) ≡ false
      → wheel rng math ops x sum t (u ∷ ts) ≡ wheel rng math ops x (ops.fadd sum t.weight) u ts
  unfolding wheel
  wheel_miss x sum t u ts h = rw (h, wheel) refl

  wheel-Has :
      (x sum : F) (t : Template F) (ts : List (Template F))
      → Has (wheel rng math ops x sum t ts) (t ∷ ts)
  wheel-Has x sum t [] = unfold wheel in inl refl
  wheel-Has x sum t (u ∷ ts) = elim (Bool-cases (ops.flt x (ops.fadd sum t.weight))) [
    | inl here ↦ subst (λ k. Has k (t ∷ u ∷ ts)) (sym (wheel_hit x sum t u ts here)) (inl refl)
    | inr past ↦
        subst (λ k. Has k (t ∷ u ∷ ts)) (sym (wheel_miss x sum t u ts past))
          (inr (wheel-Has x (ops.fadd sum t.weight) u ts))
  ]

  act-IsStep :
      (now : Time) (t : Template F) (target : Target) (s : Session S R F)
      → Has t (first ∷ others)
      → P t.protocol target
      → IsReady s
      → IsStep (act sel rng math ops now t target s)
  unfolding act
  act-IsStep now t target s h p ready =
      let (shaper, dec, r) = shape rng math ops t.cause s.shaper now s.think s.last s.rand in
      let wait = shape_non_neg rng math ops t.cause s.shaper now s.think s.last s.rand in
      elim (Bool-cases dec.idle) [
        | inl idle ↦ rw (idle, act) (wait, tt, ready)
        | inr busy ↦ rw (busy, act) (wait, (refl, (t, h, refl, refl, refl, p)), ready)
      ]

  on_target-IsStep :
      (now : Time) (t : Template F) (target : Option Target) (s : Session S R F)
      → Has t (first ∷ others)
      → ((a : Target) → target ≡ some a → P t.protocol a)
      → IsReady s
      → IsStep (on_target sel rng math ops now t target s)
  unfolding on_target
  on_target-IsStep now t none s h p ready = (omega arith, tt, ready)
  on_target-IsStep now t (some a) s h p ready = act-IsStep now t a s h (p a refl) ready

  choose-IsStep :
      (now : Time) (t : Template F) (s : Session S R F)
      → Has t (first ∷ others)
      → IsReady s
      → IsStep (choose sel rng math ops now (some t) s)
  unfolding choose
  choose-IsStep now t s h ready =
      on_target-IsStep now t (sel.next_target t.protocol s.sel).1
        (record s { sel = (sel.next_target t.protocol s.sel).0 }) h
        (λ a e. safe.safe t.protocol s.sel a ready.1 e)
        (ready.0, safe.keeps t.protocol s.sel ready.1)

  proceed-IsStep :
      (now : Time) (s : Session S R F) → IsReady s → IsStep (proceed sel rng math ops now s)
  unfolding proceed
  proceed-IsStep now s ready =
      let drawn = ap (λ k. (pick rng math ops k s.rand).0) ready.0 in
      let found = drawn ∙ ap (λ k. k.0) (pick-wheel rng math ops first others m s.rand made) in
      let x = ops.fmul (rng.float64 s.rand).0 (whole rng math ops (fzero ops) (first ∷ others)) in
      let chosen = wheel rng math ops x (fzero ops) first others in
      let s' = record s { rand = (pick rng math ops s.mix s.rand).1 } in
      subst (λ k. IsStep (choose sel rng math ops now k s')) (sym found)
        (choose-IsStep now chosen s' (wheel-Has x (fzero ops) first others) ready)

  after_length-IsStep :
      (now : Time) (s : Session S R F) → IsReady s → IsStep (after_length sel rng math ops now s)
  unfolding after_length
  after_length-IsStep now s ready =
      elim (Bool-cases (ops.flt (fzero ops) s.session_shape.abandon)) [
        | inl may ↦
            let s' = record s { rand = (rng.float64 s.rand).1 } in
            elim (Bool-cases (ops.flt (rng.float64 s.rand).0 s.session_shape.abandon)) [
              | inl leaves ↦ rw (may, leaves, after_length) (omega arith, tt, ready)
              | inr stays ↦ rw (may, stays, after_length) (proceed-IsStep now s' ready)
            ]
        | inr never ↦ rw (never, after_length) (proceed-IsStep now s ready)
      ]

  -- A session whose mix NewTemplateMix accepted and whose selector is safe never panics in Next. Every
  -- step that it returns has a wait of at least 0; a step with an action is not the last one, and the
  -- action's reference and cause and the step's pacing are those of one template of the mix, and its
  -- target is one that the selector may give for that template's protocol. The session stays ready.
  pub next-IsStep :
      (ctx : Option CtxErr) (now : Time) (s : Session S R F)
      → IsReady s
      → IsStep (next sel rng math ops ctx now s)
  unfolding next after_length
  next-IsStep (some e) now s ready = tt
  next-IsStep none now s ready =
      elim (Bool-cases (ltb_ℤ (pos 0) s.max_len && leb_ℤ s.max_len (since now s.start))) [
        | inl over ↦ rw (over, next) (omega arith, tt, ready)
        | inr going ↦ rw (going, next) (after_length-IsStep now s ready)
      ]

-- The round robin as a selector, and the targets that it may give.
abbrev pub round_robin : TargetSelector RoundRobin
round_robin = record { next_target = round_robin_next }

abbrev pub Within : (String → Target → Type 0) → RoundRobin → Type 0
Within P s = (proto : String) → All (P proto) (targets_of proto s)

module _ (P : String → Target → Type 0) where
  get_elem?-All :
      (proto : String) (ts : List Target) (i : ℕ) (t : Target)
      → All (P proto) ts
      → get_elem? ts i ≡ some t
      → P proto t
  get_elem?-All proto [] i t h e = absurd (cc)
  get_elem?-All proto (a ∷ ts) zero t h e = let same : a ≡ t = cc in subst (P proto) same h.0
  get_elem?-All proto (a ∷ ts) (suc i) t h e = get_elem?-All proto ts i t h.1 e

  round_robin_keeps :
      (proto : String) (s : RoundRobin) → (round_robin_next proto s).0.by_proto ≡ s.by_proto
  unfolding round_robin_next
  round_robin_keeps proto s = go (targets_of proto s)
    where
      go : (ts : List Target) → (rotate_in proto s ts).0.by_proto ≡ s.by_proto
      go [] = refl
      go (a ∷ ts) = refl

  from_list :
      (proto : String) (s : RoundRobin) (t : Target)
      → (round_robin_next proto s).1 ≡ some t
      → get_elem? (targets_of proto s) (idx_of proto s % length (targets_of proto s)) ≡ some t
  unfolding round_robin_next
  from_list proto s t e = go (targets_of proto s) e
    where
      go :
          (ts : List Target)
          → (rotate_in proto s ts).1 ≡ some t
          → get_elem? ts (idx_of proto s % length ts) ≡ some t
      go [] e = e
      go (a ∷ ts) e = e

  pub round_robin-IsSafeSelector : IsSafeSelector round_robin P (Within P)
  round_robin-IsSafeSelector = record {
    keeps = λ proto s h.
        subst (λ m. Within P (record { by_proto = m; idx = (round_robin_next proto s).0.idx }))
          (sym (round_robin_keeps proto s)) h;
    safe = λ proto s t h e.
        get_elem?-All proto (targets_of proto s) (idx_of proto s % length (targets_of proto s)) t
          (h proto) (from_list proto s t e);
  }
