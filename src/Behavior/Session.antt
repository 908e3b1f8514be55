-- ===== src/Behavior/Session.antt =====
-- internal/behavior/session.go and the shape of plan.go: a virtual user as a state machine.
pub mod Steps
use phantom_traffic.Prelude.{
  ℕ, ◌+◌, Bool, true, false, ◌&&◌, List, [], ◌∷◌, Option, none, some, ◌⊎◌, inl, inr, String,
  if◌then◌else◌, length, get_elem?,
}
use phantom_traffic.Prelude.Int.{pos, ltb_ℤ, leb_ℤ}
use phantom_traffic.Prelude.Clock.{Time, Duration, since}
use phantom_traffic.Prelude.Context.{CtxErr}
use phantom_traffic.Prelude.Float.{Float64, fzero}
use phantom_traffic.Protocols.{Result, Target}
use phantom_traffic.Protocols.Action.{Cause, PacingMode, pacing_shaper_managed, Ref, ref_text}
use phantom_traffic.Behavior.{Rand, Math}
use phantom_traffic.Behavior.Selector.{BranchBounds, TargetSelector}
use phantom_traffic.Behavior.Dist.{Distribution, constant, sample, JitterModel, no_jitter}
use phantom_traffic.Behavior.Mix.{Template, TemplateMix, ref, pick}
use phantom_traffic.Behavior.Burst.{BurstModel, always_active}
use phantom_traffic.Behavior.Shaper.{ChainShaper, TimeOfDay, flat, shape}
use phantom_traffic.Behavior.Fingerprint.{Fingerprint}

pub record SessionShape (F : Type 0) : Type 0 where
  pub shape_length : Option (Distribution F)
  pub inter_task : Option (Distribution F)
  pub abandon : F

pub record PlannedAction : Type 0 where
  pub action_ref : Ref
  pub cause : Cause
  pub target : Target
  pub label : String

pub record Step : Type 0 where
  pub wait : Duration
  pub action : Option PlannedAction
  pub done : Bool
  pub pacing : PacingMode

abbrev pub idle_step : Duration → Step
idle_step wait = record { wait = wait; action = none; done = false; pacing = pacing_shaper_managed }

abbrev pub done_step : Step
done_step = record { wait = pos 0; action = none; done = true; pacing = pacing_shaper_managed }

-- A nil field is `none`. The clock is its time at the call.
pub record SessionSpec (S F : Type 0) : Type 0 where
  pub mix : TemplateMix F
  pub think_time : Option (Distribution F)
  pub jitter_model : Option (JitterModel F)
  pub burst : Option (BurstModel F)
  pub time_of_day : Option (TimeOfDay F)
  pub prints : Option (List Fingerprint)
  pub session_shape : SessionShape F
  pub bounds : BranchBounds
  pub selector : Option S

pub record Session (S R F : Type 0) : Type 0 where
  pub mix : TemplateMix F
  pub think : Distribution F
  pub shaper : ChainShaper F
  pub session_shape : SessionShape F
  pub bounds : BranchBounds
  pub sel : S
  pub rand : R
  pub fingerprint : Option Fingerprint
  pub start : Time
  pub max_len : Duration
  pub step : ℕ
  pub last : Option Result

pub data SessionErr : Type 0 where
  empty_mix selector_required deps_required index_out_of_range : SessionErr

-- What Next returns; `panicked` is an index out of range.
pub data Next (S R F : Type 0) : Type 0 where
  ctx_stopped : CtxErr → Next S R F
  panicked : Next S R F
  stepped : Step → Session S R F → Next S R F

abbrev pub or_default {ℓ} : {A : Type ℓ} → A → Option A → A
or_default d none = d
or_default d (some a) = a

module _ {S R F : Type 0} (sel : TargetSelector S) (rng : Rand R F) (math : Math F)
    (ops : Float64 F) where
  open rng use {float64, int_n, split}
  open ops use {flt}

  unfoldable pub draw_length : Option (Distribution F) → R → Duration × R
  draw_length none r = (pos 0, r)
  draw_length (some d) r = sample rng math ops d r

  -- The chosen print, and whether an index was out of range.
  unfoldable pub draw_print : Option (List Fingerprint) → R → SessionErr ⊎ (Option Fingerprint × R)
  draw_print none r = inr (none, r)
  draw_print (some prints) r =
      let (i, r') = int_n (length prints) r in
      elim (get_elem? prints i) [ none ↦ inl index_out_of_range | some f ↦ inr (some f, r') ]

  -- What NewSession returns, once the print has been drawn.
  unfoldable pub session_of :
      SessionSpec S F
      → S
      → Time
      → Duration
      → SessionErr ⊎ (Option Fingerprint × R)
      → SessionErr ⊎ Session S R F
  session_of spec selector now max_len (inl e) = inl e
  session_of spec selector now max_len (inr (print, r)) = inr (record {
    mix = spec.mix;
    think = or_default (constant (pos 0)) spec.think_time;
    shaper = record {
      jitter_model = or_default no_jitter spec.jitter_model;
      burst = or_default always_active spec.burst;
      tod = or_default flat spec.time_of_day;
    };
    session_shape = spec.session_shape;
    bounds = spec.bounds;
    sel = selector;
    rand = r;
    fingerprint = print;
    start = now;
    max_len = max_len;
    step = 0;
    last = none;
  })

  unfoldable pub make_session : SessionSpec S F → S → Time → R → SessionErr ⊎ Session S R F
  unfolding draw_length draw_print session_of
  make_session spec selector now rand =
      let (r, parent) = split rand in
      let (max_len, r1) = draw_length spec.session_shape.shape_length r in
      session_of spec selector now max_len (draw_print spec.prints r1)

  -- The guards of NewSession, in their order.
  unfoldable pub check_deps :
      SessionSpec S F
      → List (Template F)
      → Option S
      → Option Time
      → Option R
      → SessionErr ⊎ Session S R F
  unfolding make_session
  check_deps spec [] selector clock rand = inl empty_mix
  check_deps spec (t ∷ ts) none clock rand = inl selector_required
  check_deps spec (t ∷ ts) (some s) none rand = inl deps_required
  check_deps spec (t ∷ ts) (some s) (some now) none = inl deps_required
  check_deps spec (t ∷ ts) (some s) (some now) (some r) = make_session spec s now r

  unfoldable pub new_session : SessionSpec S F → Option Time → Option R → SessionErr ⊎ Session S R F
  unfolding check_deps
  new_session spec clock rand = check_deps spec spec.mix.templates spec.selector clock rand

  abbrev pub planned : Template F → Target → PlannedAction
  planned t target = record {
    action_ref = ref t;
    cause = t.cause;
    target = target;
    label = ref_text (ref t);
  }

  -- After the selector has named a target.
  unfoldable pub act : Time → Template F → Target → Session S R F → Next S R F
  act now t target s =
      let (shaper, dec, r) = shape rng math ops t.cause s.shaper now s.think s.last s.rand in
      let s' = record s { shaper = shaper; rand = r; step = s.step + 1 } in
      if dec.idle
      then stepped (idle_step dec.wait) s'
      else stepped
          (record {
            wait = dec.wait;
            action = some (planned t target);
            done = false;
            pacing = t.pacing;
          })
          s'

  -- After the selector has been asked.
  unfoldable pub on_target : Time → Template F → Option Target → Session S R F → Next S R F
  unfolding act
  on_target now t none s = stepped (idle_step (pos 0)) (record s { step = s.step + 1 })
  on_target now t (some target) s = act now t target s

  -- After a template has been picked.
  unfoldable pub choose : Time → Option (Template F) → Session S R F → Next S R F
  unfolding on_target
  choose now none s = panicked
  choose now (some t) s =
      let (selector, target) = sel.next_target t.protocol s.sel in
      on_target now t target (record s { sel = selector })

  unfoldable pub proceed : Time → Session S R F → Next S R F
  unfolding choose
  proceed now s =
      let (t, r) = pick rng math ops s.mix s.rand in choose now t (record s { rand = r })

  unfoldable pub after_length : Time → Session S R F → Next S R F
  unfolding proceed
  after_length now s =
      if flt (fzero ops) s.session_shape.abandon
      then (let (x, r) = float64 s.rand in
          let s' = record s { rand = r } in
          if flt x s.session_shape.abandon then stepped done_step s' else proceed now s')
      else proceed now s

  unfoldable pub next : Option CtxErr → Time → Session S R F → Next S R F
  unfolding after_length
  next (some e) now s = ctx_stopped e
  next none now s =
      if ltb_ℤ (pos 0) s.max_len && leb_ℤ s.max_len (since now s.start)
      then stepped done_step s
      else after_length now s

  unfoldable pub observe : Result → Session S R F → Session S R F
  observe res s = record s { last = some res }
