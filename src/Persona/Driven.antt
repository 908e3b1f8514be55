-- ===== src/Persona/Driven.antt =====
-- internal/persona and internal/behavior together: the session that a persona of a file drives.
use phantom_traffic.Prelude.{
  ◌≡◌, sym, subst, List, [], ◌∷◌, Option, none, some, ◌⊎◌, inl, inr, String, arith,
}
use phantom_traffic.Prelude.Clock.{Time, Duration}
use phantom_traffic.Prelude.Context.{CtxErr}
use phantom_traffic.Prelude.Float.{Float64}
use phantom_traffic.Protocols.{Result, Target}
use phantom_traffic.Behavior.{Rand, Math}
use phantom_traffic.Behavior.Mix.{Template, TemplateMix, new_template_mix}
use phantom_traffic.Behavior.Fingerprint.{Fingerprint}
use phantom_traffic.Behavior.Selector.{TargetSelector}
use phantom_traffic.Behavior.Session.{
  SessionSpec, Session, SessionErr, Step, stepped, new_session, session_of, check_deps, draw_print,
  draw_length, next, observe,
}
use phantom_traffic.Behavior.Session.Steps.{IsSafeSelector, IsStep, IsReady, next-IsStep}
use phantom_traffic.Persona.{Library, RawPersona, Persona, to_spec}
use phantom_traffic.Persona.Compile.{compile, templates_of}
use phantom_traffic.Persona.Sound.{compile-IsSound}

-- One turn of the engine: what the context says, the clock, and the result that is observed after it.
pub record Turn : Type 0 where
  pub ctx : Option CtxErr
  pub now : Time
  pub result : Option Result

module _ {S R F : Type 0} (sel : TargetSelector S) (rng : Rand R F) (math : Math F)
    (ops : Float64 F) where
  session_of-parts :
      (spec : SessionSpec S F) (selector : S) (now : Time) (max_len : Duration)
      (o : SessionErr ⊎ (Option Fingerprint × R)) (s : Session S R F)
      → session_of sel rng math ops spec selector now max_len o ≡ inr s
      → (s.mix ≡ spec.mix) × (s.sel ≡ selector)
  unfolding session_of
  session_of-parts spec selector now max_len (inl e) s h = absurd (cc)
  session_of-parts spec selector now max_len (inr (print, r)) s h = ground arith

  check_deps-parts :
      (spec : SessionSpec S F) (ts : List (Template F)) (selector : S) (clock : Option Time)
      (rand : Option R) (s : Session S R F)
      → check_deps sel rng math ops spec ts (some selector) clock rand ≡ inr s
      → (s.mix ≡ spec.mix) × (s.sel ≡ selector)
  unfolding check_deps
  check_deps-parts spec [] selector clock rand s h = absurd (cc)
  check_deps-parts spec (t ∷ ts) selector none rand s h = absurd (cc)
  check_deps-parts spec (t ∷ ts) selector (some now) none s h = absurd (cc)
  check_deps-parts spec (t ∷ ts) selector (some now) (some r) s h =
      let (r0, parent) = rng.split r in
      let (max_len, r1) = draw_length sel rng math ops spec.session_shape.shape_length r0 in
      session_of-parts spec selector now max_len (draw_print sel rng math ops spec.prints r1) s h

module _ {S R F : Type 0} (sel : TargetSelector S) (lib : Library) (rng : Rand R F) (math : Math F)
    (ops : Float64 F) (P : String → Target → Type 0) (I : S → Type 0)
    (safe : IsSafeSelector sel P I) where
  unfoldable pub observed : Option Result → Session S R F → Session S R F
  observed none s = s
  observed (some res) s = observe sel rng math ops res s

  -- Every step of the turns, as long as the session goes on, is a step of the mix of the templates.
  abbrev pub IsWalk :
      (t : Template F) (ts : List (Template F)) (m : TemplateMix F)
      → new_template_mix rng math ops (t ∷ ts) ≡ inr m
      → List Turn
      → Session S R F
      → Type 0
  IsWalk t ts m made [] s = Unit
  IsWalk t ts m made (turn ∷ turns) s =
      IsStep sel rng math ops P I safe t ts m made (next sel rng math ops turn.ctx turn.now s)
      × ((st : Step) (s' : Session S R F)
          → next sel rng math ops turn.ctx turn.now s ≡ stepped st s'
          → IsWalk t ts m made turns (observed turn.result s'))

  module _ (t : Template F) (ts : List (Template F)) (m : TemplateMix F)
      (made : new_template_mix rng math ops (t ∷ ts) ≡ inr m) where
    observed-IsReady :
        (o : Option Result) (s : Session S R F)
        → IsReady sel rng math ops P I safe t ts m made s
        → IsReady sel rng math ops P I safe t ts m made (observed o s)
    unfolding observed observe
    observed-IsReady none s h = h
    observed-IsReady (some res) s h = h

    IsReady-IsWalk :
        (turns : List Turn) (s : Session S R F)
        → IsReady sel rng math ops P I safe t ts m made s
        → IsWalk t ts m made turns s
    IsReady-IsWalk [] s h = tt
    IsReady-IsWalk (turn ∷ turns) s h =
        let good = next-IsStep sel rng math ops P I safe t ts m made turn.ctx turn.now s h in
        (
          good,
          λ st s' e.
              let step = subst (IsStep sel rng math ops P I safe t ts m made) e good in
              IsReady-IsWalk turns (observed turn.result s')
                (observed-IsReady turn.result s' step.2),
        )

  -- From the file to the traffic: when Compile returns a persona and NewSession a session of it with a
  -- selector in order, then whatever the context, the clock and the results are at each turn, no call
  -- of Next panics, and every step it returns is a step of the persona's templates: its wait is not
  -- negative, and an action has the reference, cause and pacing of one of them and a target that the
  -- selector may give.
  pub compiled_session-IsWalk :
      (table : List Fingerprint) (raw : RawPersona F) (p : Persona F) (selector : S)
      (clock : Option Time) (rand : Option R) (s : Session S R F) (turns : List Turn)
      → compile lib rng math ops table raw ≡ inr p
      → new_session sel rng math ops (to_spec p selector) clock rand ≡ inr s
      → I selector
      → (t : Template F) × (ts : List (Template F)) × (templates_of lib rng math ops raw.raw_mix
          ≡ t ∷ ts)
        × (made : new_template_mix rng math ops (t ∷ ts) ≡ inr p.mix) × IsWalk t ts p.mix made turns
            s
  unfolding new_session to_spec
  compiled_session-IsWalk table raw p selector clock rand s turns compiled created ready =
      let sound = compile-IsSound lib rng math ops table raw p compiled in
      let (t, ts, templates, made) = sound.mix in
      let (mix, own) =
        check_deps-parts sel rng math ops (to_spec p selector) p.mix.templates selector clock rand s
          created in
      (
        t,
        ts,
        templates,
        made,
        IsReady-IsWalk t ts p.mix made turns s (mix, subst I (sym own) ready),
      )
