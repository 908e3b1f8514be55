-- ===== src/Safety/Caps/Soundness.antt =====
-- Declared caps that pass the check, and what is then in force.
use phantom_traffic.Prelude.{
  ◌≡◌, refl, String, Bool, true, false, List, [], ◌⊎◌, ◌↔◌, arith, snoc-ne-nil,
}
use phantom_traffic.Prelude.Int.{ℤ, pos, ◌≤ℤ◌, ◌<ℤ◌}
use phantom_traffic.Prelude.Float.{Float64, fzero, fle}
use phantom_traffic.Safety.Caps.{
  Ceiling, CapSpec, Violation, violation, non_positive, above_ceiling_int, above_ceiling_float,
  ceiling_seconds, effective, or_float, append_float_violation, append_int_violation, validate_caps,
}

-- A cap is unset, or positive and, without the override, at most the ceiling.
abbrev pub IntOk : ℤ → ℤ → Bool → Type 0
IntOk d c o = (d ≡ pos 0) ⊎ ((pos 0 <ℤ d) × ((o ≡ true) ⊎ (d ≤ℤ c)))

module _ {F : Type 0} (ops : Float64 F) where
  open ops use {flt, feq}

  abbrev pub FloatOk : F → F → Bool → Type 0
  FloatOk d c o =
      (feq d (fzero ops) ≡ true) ⊎ ((flt d (fzero ops) ≡ false) × ((o ≡ true) ⊎ (flt c d ≡ false)))

  append_int_violation-nil :
      (vs : List (Violation F)) (field : String) (d c : ℤ) (o : Bool)
      → (append_int_violation ops vs field d c o ≡ []) ↔ ((vs ≡ []) × IntOk d c o)
  unfolding append_int_violation
  append_int_violation-nil vs field d c o = ground (
    arith,
    snoc-ne-nil vs (violation field non_positive),
    snoc-ne-nil vs (violation field (above_ceiling_int d c)),
  )

  append_float_violation-nil :
      (vs : List (Violation F)) (field : String) (d c : F) (o : Bool)
      → (append_float_violation ops vs field d c o ≡ []) ↔ ((vs ≡ []) × FloatOk d c o)
  unfolding append_float_violation
  append_float_violation-nil vs field d c o = ground (
    arith,
    snoc-ne-nil vs (violation field non_positive),
    snoc-ne-nil vs (violation field (above_ceiling_float d c)),
  )

  -- Every declared cap is unset, or in range.
  pub record CapsOk (d : CapSpec F) (c : Ceiling F) (o : Bool) : Type 0 where
    pub per_target_rps : FloatOk d.per_target_rps c.per_target_rps o
    pub global_rps : FloatOk d.global_rps c.global_rps o
    pub max_concurrent_sessions : IntOk d.max_concurrent_sessions c.max_concurrent_sessions o
    pub total_request_budget : IntOk d.total_request_budget c.total_request_budget o
    pub streaming_byte_rate_kbps : IntOk d.streaming_byte_rate_kbps c.streaming_byte_rate_kbps o
    pub concurrent_streams : IntOk d.concurrent_streams c.concurrent_streams o
    pub per_session_max_duration_seconds :
        IntOk d.per_session_max_duration_seconds (ceiling_seconds ops c) o
    pub per_session_max_actions : IntOk d.per_session_max_actions c.per_session_max_actions o

  -- ValidateCaps finds nothing exactly if every cap is unset, or not negative and, without the
  -- override, not above the ceiling (for the two rates: by Go's comparisons of floats).
  pub validate_caps-nil :
      (d : CapSpec F) (c : Ceiling F) (o : Bool) → (validate_caps ops d c o ≡ []) ↔ CapsOk d c o
  unfolding validate_caps
  validate_caps-nil d c o = (split, join)
    where
      split : validate_caps ops d c o ≡ [] → CapsOk d c o
      split h =
          let (e₇, k₈) = (append_int_violation-nil _ _ _ _ o).0 h in
          let (e₆, k₇) = (append_int_violation-nil _ _ _ _ o).0 e₇ in
          let (e₅, k₆) = (append_int_violation-nil _ _ _ _ o).0 e₆ in
          let (e₄, k₅) = (append_int_violation-nil _ _ _ _ o).0 e₅ in
          let (e₃, k₄) = (append_int_violation-nil _ _ _ _ o).0 e₄ in
          let (e₂, k₃) = (append_int_violation-nil _ _ _ _ o).0 e₃ in
          let (e₁, k₂) = (append_float_violation-nil _ _ _ _ o).0 e₂ in
          let (_, k₁) = (append_float_violation-nil _ _ _ _ o).0 e₁ in
          record {
            per_target_rps = k₁;
            global_rps = k₂;
            max_concurrent_sessions = k₃;
            total_request_budget = k₄;
            streaming_byte_rate_kbps = k₅;
            concurrent_streams = k₆;
            per_session_max_duration_seconds = k₇;
            per_session_max_actions = k₈;
          }

      join : CapsOk d c o → validate_caps ops d c o ≡ []
      join k =
          let e₁ = (append_float_violation-nil _ _ _ _ o).1 (refl, k.per_target_rps) in
          let e₂ = (append_float_violation-nil _ _ _ _ o).1 (e₁, k.global_rps) in
          let e₃ = (append_int_violation-nil _ _ _ _ o).1 (e₂, k.max_concurrent_sessions) in
          let e₄ = (append_int_violation-nil _ _ _ _ o).1 (e₃, k.total_request_budget) in
          let e₅ = (append_int_violation-nil _ _ _ _ o).1 (e₄, k.streaming_byte_rate_kbps) in
          let e₆ = (append_int_violation-nil _ _ _ _ o).1 (e₅, k.concurrent_streams) in
          let e₇ =
            (append_int_violation-nil _ _ _ _ o).1 (e₆, k.per_session_max_duration_seconds) in
          (append_int_violation-nil _ _ _ _ o).1 (e₇, k.per_session_max_actions)

  -- The caps of a ceiling are positive: the two rates by the comparison of floats, the session limit in
  -- whole seconds.
  pub record IsPositive (c : Ceiling F) : Type 0 where
    pub per_target_rps : fle ops c.per_target_rps (fzero ops) ≡ false
    pub global_rps : fle ops c.global_rps (fzero ops) ≡ false
    pub max_concurrent_sessions : pos 0 <ℤ c.max_concurrent_sessions
    pub total_request_budget : pos 0 <ℤ c.total_request_budget
    pub streaming_byte_rate_kbps : pos 0 <ℤ c.streaming_byte_rate_kbps
    pub concurrent_streams : pos 0 <ℤ c.concurrent_streams
    pub per_session_max_duration : pos 0 <ℤ ceiling_seconds ops c
    pub per_session_max_actions : pos 0 <ℤ c.per_session_max_actions

  -- A rate that compares neither at or below 0 nor above its ceiling.
  abbrev pub RateWithin : F → F → Type 0
  RateWithin e c = (fle ops e (fzero ops) ≡ false) × (flt c e ≡ false)

  abbrev pub Within : ℤ → ℤ → Type 0
  Within e c = (pos 0 <ℤ e) × (e ≤ℤ c)

  -- What is in force, against the ceiling.
  pub record IsBounded (e : CapSpec F) (c : Ceiling F) : Type 0 where
    pub per_target_rps : RateWithin e.per_target_rps c.per_target_rps
    pub global_rps : RateWithin e.global_rps c.global_rps
    pub max_concurrent_sessions : Within e.max_concurrent_sessions c.max_concurrent_sessions
    pub total_request_budget : Within e.total_request_budget c.total_request_budget
    pub streaming_byte_rate_kbps : Within e.streaming_byte_rate_kbps c.streaming_byte_rate_kbps
    pub concurrent_streams : Within e.concurrent_streams c.concurrent_streams
    pub per_session_max_duration_seconds :
        Within e.per_session_max_duration_seconds (ceiling_seconds ops c)
    pub per_session_max_actions : Within e.per_session_max_actions c.per_session_max_actions

  -- Caps that pass without the override give effective caps within the ceiling: each of the six integer
  -- caps is positive and at most the ceiling's, and each of the two rates compares neither at or below 0,
  -- which would mean unlimited, nor above the ceiling's. (A declared rate that is NaN passes the check
  -- and compares so too.) Conditions: `<` on floats is irreflexive, and every cap of the ceiling is
  -- positive.
  pub effective-IsBounded :
      (d : CapSpec F) (c : Ceiling F)
      → ((x : F) → flt x x ≡ false)
      → IsPositive c
      → validate_caps ops d c false ≡ []
      → IsBounded (effective ops d c) c
  unfolding effective
  effective-IsBounded d c irrefl p h =
      let k = (validate_caps-nil d c false).0 h in
      record {
        per_target_rps = rate k.per_target_rps (irrefl c.per_target_rps) p.per_target_rps;
        global_rps = rate k.global_rps (irrefl c.global_rps) p.global_rps;
        max_concurrent_sessions = ground (arith, k.max_concurrent_sessions);
        total_request_budget = ground (arith, k.total_request_budget);
        streaming_byte_rate_kbps = ground (arith, k.streaming_byte_rate_kbps);
        concurrent_streams = ground (arith, k.concurrent_streams);
        per_session_max_duration_seconds = ground (arith, k.per_session_max_duration_seconds);
        per_session_max_actions = ground (arith, k.per_session_max_actions);
      }
    where
      rate :
          {d c : F}
          → FloatOk d c false
          → flt c c ≡ false
          → fle ops c (fzero ops) ≡ false
          → RateWithin (or_float ops d c) c
      rate {d} {c} k irrefl p = ground (arith, k, irrefl, p)
