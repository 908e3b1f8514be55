-- ===== src/Safety/Caps.antt =====
-- internal/safety/ceiling.go, capspec.go, cappatch.go and validate.go: the ceiling, the declared
-- caps, what is in force, and the check of the one against the other. The texts of violations are
-- kept as the data that `Sprintf` is given.
pub mod Fleet
pub mod Soundness
use phantom_traffic.Prelude.{
  ◌*◌, String, Bool, not, ◌&&◌, List, [], ◌∷◌, ◌++◌, Option, none, some, if◌then◌else◌,
}
use phantom_traffic.Prelude.Int.{ℤ, pos, quot, pos_part, ltb_ℤ, eqb_ℤ}
use phantom_traffic.Prelude.Clock.{Duration}
use phantom_traffic.Prelude.Float.{Float64, fzero, seconds}

pub record Ceiling (F : Type 0) : Type 0 where
  pub per_target_rps : F
  pub global_rps : F
  pub max_concurrent_sessions : ℤ
  pub total_request_budget : ℤ
  pub streaming_byte_rate_kbps : ℤ
  pub concurrent_streams : ℤ
  pub per_session_max_duration : Duration
  pub per_session_max_actions : ℤ

-- A field that is 0 is unset.
pub record CapSpec (F : Type 0) : Type 0 where
  pub per_target_rps : F
  pub global_rps : F
  pub max_concurrent_sessions : ℤ
  pub total_request_budget : ℤ
  pub streaming_byte_rate_kbps : ℤ
  pub concurrent_streams : ℤ
  pub per_session_max_duration_seconds : ℤ
  pub per_session_max_actions : ℤ

pub record CapPatch (F : Type 0) : Type 0 where
  pub per_target_rps : Option F
  pub global_rps : Option F
  pub total_request_budget : Option ℤ

pub data Msg (F : Type 0) : Type 0 where
  non_positive : Msg F
  above_ceiling_float : F → F → Msg F
  above_ceiling_int : ℤ → ℤ → Msg F

pub record Violation (F : Type 0) : Type 0 where
  pub field : String
  pub msg : Msg F

abbrev pub violation : {F : Type 0} → String → Msg F → Violation F
violation field msg = record { field = field; msg = msg }

-- floorAtOne and floorAtOne64
unfoldable pub floor_at_one : ℤ → ℤ
floor_at_one v = if ltb_ℤ v (pos 1) then pos 1 else v

-- `if agentCount < 1 { agentCount = 1 }`
unfoldable pub at_least_one : ℤ → ℤ
at_least_one n = if ltb_ℤ n (pos 1) then pos 1 else n

-- Go's integer division of a cap by a positive count.
unfoldable pub share : ℤ → ℤ → ℤ
unfolding floor_at_one quot
share cap n = floor_at_one (quot cap (pos_part n))

module _ {F : Type 0} (ops : Float64 F) where
  open ops use {flt, feq, fdiv, of_int, to_int}

  unfoldable pub default_ceiling : Ceiling F
  default_ceiling = record {
    per_target_rps = of_int (pos 10);
    global_rps = of_int (pos 50);
    max_concurrent_sessions = pos 20;
    total_request_budget = pos 1_000_000;
    streaming_byte_rate_kbps = pos 12_000;
    concurrent_streams = pos 3;
    per_session_max_duration = pos (30 * 60 * 1_000_000_000);
    per_session_max_actions = pos 10_000;
  }

  unfoldable pub divided_by : Ceiling F → ℤ → Ceiling F
  unfolding share
  divided_by c agent_count =
      let n = at_least_one agent_count in
      record c {
        per_target_rps = fdiv c.per_target_rps (of_int n);
        global_rps = fdiv c.global_rps (of_int n);
        max_concurrent_sessions = share c.max_concurrent_sessions n;
        total_request_budget = share c.total_request_budget n;
        streaming_byte_rate_kbps = share c.streaming_byte_rate_kbps n;
        concurrent_streams = share c.concurrent_streams n;
      }

  -- int(ceiling.PerSessionMaxDuration.Seconds())
  abbrev pub ceiling_seconds : Ceiling F → ℤ
  ceiling_seconds c = to_int (seconds ops c.per_session_max_duration)

  abbrev pub or_float : F → F → F
  or_float declared ceiling = if feq declared (fzero ops) then ceiling else declared

  abbrev pub or_int : ℤ → ℤ → ℤ
  or_int declared ceiling = if eqb_ℤ declared (pos 0) then ceiling else declared

  unfoldable pub effective : CapSpec F → Ceiling F → CapSpec F
  effective d c = record {
    per_target_rps = or_float d.per_target_rps c.per_target_rps;
    global_rps = or_float d.global_rps c.global_rps;
    max_concurrent_sessions = or_int d.max_concurrent_sessions c.max_concurrent_sessions;
    total_request_budget = or_int d.total_request_budget c.total_request_budget;
    streaming_byte_rate_kbps = or_int d.streaming_byte_rate_kbps c.streaming_byte_rate_kbps;
    concurrent_streams = or_int d.concurrent_streams c.concurrent_streams;
    per_session_max_duration_seconds =
        or_int d.per_session_max_duration_seconds (ceiling_seconds c);
    per_session_max_actions = or_int d.per_session_max_actions c.per_session_max_actions;
  }

  unfoldable pub append_float_violation :
      List (Violation F) → String → F → F → Bool → List (Violation F)
  append_float_violation vs field declared ceiling override =
      if feq declared (fzero ops)
      then vs
      else if flt declared (fzero ops)
      then vs ++ violation field non_positive ∷ []
      else if not override && flt ceiling declared
      then vs ++ violation field (above_ceiling_float declared ceiling) ∷ []
      else vs

  -- appendIntViolation and appendInt64Violation
  unfoldable pub append_int_violation :
      List (Violation F) → String → ℤ → ℤ → Bool → List (Violation F)
  append_int_violation vs field declared ceiling override =
      if eqb_ℤ declared (pos 0)
      then vs
      else if ltb_ℤ declared (pos 0)
      then vs ++ violation field non_positive ∷ []
      else if not override && ltb_ℤ ceiling declared
      then vs ++ violation field (above_ceiling_int declared ceiling) ∷ []
      else vs

  unfoldable pub validate_caps : CapSpec F → Ceiling F → Bool → List (Violation F)
  validate_caps d c o =
      let v₁ = append_float_violation [] "per_target_rps" d.per_target_rps c.per_target_rps o in
      let v₂ = append_float_violation v₁ "global_rps" d.global_rps c.global_rps o in
      let v₃ =
        append_int_violation v₂ "max_concurrent_sessions" d.max_concurrent_sessions
          c.max_concurrent_sessions o in
      let v₄ =
        append_int_violation v₃ "total_request_budget" d.total_request_budget c.total_request_budget
          o in
      let v₅ =
        append_int_violation v₄ "streaming_byte_rate_kbps" d.streaming_byte_rate_kbps
          c.streaming_byte_rate_kbps o in
      let v₆ =
        append_int_violation v₅ "concurrent_streams" d.concurrent_streams c.concurrent_streams o in
      let v₇ =
        append_int_violation v₆ "per_session_max_duration_seconds"
          d.per_session_max_duration_seconds (ceiling_seconds c) o in
      append_int_violation v₇ "per_session_max_actions" d.per_session_max_actions
        c.per_session_max_actions o

-- A nil field of the patch leaves the cap as it is.
abbrev pub overlay {ℓ} : {A : Type ℓ} → Option A → A → A
overlay none a = a
overlay (some b) a = b

unfoldable pub with_patch : {F : Type 0} → CapSpec F → CapPatch F → CapSpec F
with_patch d p = record d {
  per_target_rps = overlay p.per_target_rps d.per_target_rps;
  global_rps = overlay p.global_rps d.global_rps;
  total_request_budget = overlay p.total_request_budget d.total_request_budget;
}
