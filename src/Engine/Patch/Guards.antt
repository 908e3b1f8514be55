-- ===== src/Engine/Patch/Guards.antt =====
-- internal/engine/patch.go: the guards of a patch, on the caps and on the audit.
use phantom_traffic.Prelude.{
  ℕ, ◌+◌, ◌≡◌, ◌∙◌, refl, sym, subst, inl, inr, String, Bool, false, List, [], ◌∷◌, ◌++◌, Option,
  none, some, arith, Bool-cases, Option-cases, if◌then◌else◌,
}
use phantom_traffic.Prelude.Clock.{Time}
use phantom_traffic.Prelude.Int.{◌≤ℤ◌}
use phantom_traffic.Prelude.Dict.{Dict, put}
use phantom_traffic.Prelude.Float.{Float64}
use phantom_traffic.Pterr.{GoErr}
use phantom_traffic.Audit.{Action, Event, scenario_patched}
use phantom_traffic.Safety.Caps.{CapSpec, CapPatch, with_patch}
use phantom_traffic.Engine.Naming.{Url}
use phantom_traffic.Engine.Patch.{
  ScenarioPatch, PatchedRun, Step, goes, fails, add_one, append_event, run_event, finish_patch,
  finish, caps_raised, set_caps, patch_caps, apply_patch,
}
use phantom_traffic.Engine.Patch.Parts.{EachRun, on_some-EachRun, Stable, parts-EachRun}

-- The events of accepted patches.
abbrev pub is_patched : Action → ℕ
is_patched scenario_patched = 1
is_patched _ = 0

abbrev pub patched_count : List Event → ℕ
patched_count [] = 0
patched_count (e ∷ log) = is_patched e.action + patched_count log

pub patched_count-snoc :
    (log : List Event) (e : Event)
    → patched_count (log ++ e ∷ []) ≡ patched_count log + is_patched e.action
patched_count-snoc [] e = omega arith
patched_count-snoc (d ∷ log) e = omega (arith, patched_count-snoc log e)

-- What the caps and the audit log decide of a run.
pub record Guarded {F : Type 0} (Q : CapSpec F → Type 0) (n : ℕ) (r : PatchedRun F) : Type 0 where
  pub caps_ok : Q r.caps
  pub locked : r.cap_override ≡ false
  pub audited : patched_count r.log ≡ n

Guarded-Stable :
    {F : Type 0} (parse : String → Option Url) (permits : String → Bool) (Q : CapSpec F → Type 0)
    (n : ℕ)
    → Stable parse permits (Guarded Q n)
unfolding add_one
Guarded-Stable parse permits Q n = record {
  on_limit = λ r k g. record { caps_ok = g.caps_ok; locked = g.locked; audited = g.audited };
  on_weights = λ r w g. record { caps_ok = g.caps_ok; locked = g.locked; audited = g.audited };
  on_interval = λ r d g. record { caps_ok = g.caps_ok; locked = g.locked; audited = g.audited };
  on_breakers = λ r m g. record { caps_ok = g.caps_ok; locked = g.locked; audited = g.audited };
  on_target = λ now spec blk r detail host e f g. record {
    caps_ok = g.caps_ok;
    locked = g.locked;
    audited = g.audited;
  };
}

-- One for a patch that ApplyPatch accepts.
abbrev pub accepted : Option GoErr → ℕ
accepted none = 1
accepted (some e) = 0

module _ {F : Type 0} where
  pub if_else :
      (P : PatchedRun F → Type 0) (b : Bool) (x y : Step F)
      → b ≡ false
      → EachRun P y
      → EachRun P (if b then x else y)
  if_else P b x y e h = rw e h

  pub append_taken :
      (sink : Event → Option GoErr) (e : Event) (r : PatchedRun F)
      → sink e ≡ none
      → append_event sink e r ≡ (record r { log = r.log ++ e ∷ [] }, none)
  unfolding append_event
  append_taken sink e r h = rw (h, append_event) refl

  pub append_dropped :
      (sink : Event → Option GoErr) (e : Event) (r : PatchedRun F) (err : GoErr)
      → sink e ≡ some err
      → append_event sink e r ≡ (r, some err)
  unfolding append_event
  append_dropped sink e r err h = rw (h, append_event) refl

module _ {F : Type 0} (ops : Float64 F) where
  -- No cap is a greater number than in `c`.
  pub record NotRaised (c next : CapSpec F) : Type 0 where
    pub per_target_rps : ops.flt c.per_target_rps next.per_target_rps ≡ false
    pub global_rps : ops.flt c.global_rps next.global_rps ≡ false
    pub total_request_budget : next.total_request_budget ≤ℤ c.total_request_budget
    pub max_concurrent_sessions : next.max_concurrent_sessions ≡ c.max_concurrent_sessions
    pub streaming_byte_rate_kbps : next.streaming_byte_rate_kbps ≡ c.streaming_byte_rate_kbps
    pub concurrent_streams : next.concurrent_streams ≡ c.concurrent_streams
    pub per_session_max_duration_seconds :
        next.per_session_max_duration_seconds ≡ c.per_session_max_duration_seconds
    pub per_session_max_actions : next.per_session_max_actions ≡ c.per_session_max_actions

  caps_raised-NotRaised :
      (c : CapSpec F) (p : CapPatch F)
      → caps_raised ops c (with_patch c p) ≡ false
      → NotRaised c (with_patch c p)
  unfolding caps_raised with_patch
  caps_raised-NotRaised c p h = record {
    per_target_rps = ground arith;
    global_rps = ground arith;
    total_request_budget = ground arith;
    max_concurrent_sessions = refl;
    streaming_byte_rate_kbps = refl;
    concurrent_streams = refl;
    per_session_max_duration_seconds = refl;
    per_session_max_actions = refl;
  }

  NotRaised-refl : (c : CapSpec F) → ((x : F) → ops.flt x x ≡ false) → NotRaised c c
  NotRaised-refl c irrefl = record {
    per_target_rps = irrefl c.per_target_rps;
    global_rps = irrefl c.global_rps;
    total_request_budget = omega arith;
    max_concurrent_sessions = refl;
    streaming_byte_rate_kbps = refl;
    concurrent_streams = refl;
    per_session_max_duration_seconds = refl;
    per_session_max_actions = refl;
  }

  patch_caps-Guarded :
      (sink : Event → Option GoErr) (cp : CapPatch F) (r : PatchedRun F) (detail : Dict String)
      → Guarded (NotRaised r.caps) (patched_count r.log) r
      → EachRun (Guarded (NotRaised r.caps) (patched_count r.log)) (patch_caps ops sink cp r detail)
  unfolding patch_caps set_caps
  patch_caps-Guarded sink cp r detail g =
      elim (Bool-cases (caps_raised ops r.caps (with_patch r.caps cp))) [
        | inl raised ↦ rw (raised, patch_caps) (if_else _ _ _ _ g.locked g)
        | inr kept ↦
            rw (kept, patch_caps)
              (record {
                caps_ok = caps_raised-NotRaised r.caps cp kept;
                locked = g.locked;
                audited = g.audited;
              })
      ]

  finish-Guarded :
      (sink : Event → Option GoErr) (Q : CapSpec F → Type 0) (n : ℕ) (s : Step F)
      → EachRun (Guarded Q n) s
      → let (r, err) = finish sink s in Q r.caps × (patched_count r.log ≡ n + accepted err)
  unfolding finish finish_patch run_event
  finish-Guarded sink Q n (goes r detail) g =
      let e = run_event scenario_patched (put "run_id" r.id detail) r in
      let Fine = λ (q : PatchedRun F × Option GoErr).
        Q q.0.caps × (patched_count q.0.log ≡ n + accepted q.1) in
      elim (Option-cases (sink e)) [
        | inl taken ↦
            subst Fine (sym (append_taken sink e r taken))
              (g.caps_ok, (patched_count-snoc r.log e ∙ (λ i. g.audited i + 1)))
        | inr (err, dropped) ↦
            subst Fine (sym (append_dropped sink e r err dropped))
              (g.caps_ok, omega (arith, g.audited))
      ]
  finish-Guarded sink Q n (fails r err) g = (g.caps_ok, omega (arith, g.audited))

  -- Without the cap-override flag, no patch leaves a cap at a greater number than it was, whether it is
  -- accepted or refused part way: the two rates and the budget do not compare above what they were, and
  -- the other caps are as they were. (A budget or a rate of 0 or below counts as the number it
  -- is, though the components that read such a cap take it as unlimited.) The audit log gains exactly
  -- one ScenarioPatched event if the patch is accepted and none if it is refused. Condition: the order
  -- of the floats is irreflexive.
  pub apply_patch-NotRaised :
      (sink : Event → Option GoErr) (parse : String → Option Url) (permits : String → Bool)
      (now : Time) (p : ScenarioPatch F) (r : PatchedRun F)
      → r.cap_override ≡ false
      → ((x : F) → ops.flt x x ≡ false)
      → let (r', err) = apply_patch ops sink parse permits now p r in
        NotRaised r.caps r'.caps × (patched_count r'.log ≡ patched_count r.log + accepted err)
  unfolding apply_patch
  apply_patch-NotRaised sink parse permits now p r locked irrefl =
      let Q = NotRaised r.caps in
      let n = patched_count r.log in
      let start : Guarded Q n r = record {
        caps_ok = NotRaised-refl r.caps irrefl;
        locked = locked;
        audited = refl;
      } in
      let G = Guarded Q n in
      let caps =
        on_some-EachRun G p.caps (patch_caps ops sink) r [] start
          (λ cp. patch_caps-Guarded sink cp r [] start) in
      finish-Guarded sink Q n _ (parts-EachRun (Guarded-Stable parse permits Q n) now p _ caps)
