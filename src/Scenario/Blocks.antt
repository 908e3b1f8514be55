-- ===== src/Scenario/Blocks.antt =====
-- internal/scenario/validate.go: one block of a scenario. What is added to the errors and what is built
-- are two functions of the same input. Durations are int64, and a product wraps around.
pub mod Sound
use phantom_traffic.Prelude.{
  ℕ, suc, ◌+◌, ◌*◌, Bool, true, false, not, ◌&&◌, ◌||◌, List, [], ◌∷◌, ◌++◌, Option, none, some,
  ◌⊎◌, inl, inr, String, if◌then◌else◌, str_eq, ◌==◌,
}
use Prim.Native.String.{◌++◌ as join}
use phantom_traffic.Prelude.Int.{ℤ, pos, negsuc, sub_ℕ, int64, ltb_ℤ, eqb_ℤ}
use phantom_traffic.Prelude.Clock.{Duration, second}
use phantom_traffic.Prelude.Dict.{Dict, get}
use phantom_traffic.Prelude.Text.{Bytes, codes, trim_space, is_blank}
use phantom_traffic.Pterr.Fields.{error, add_if}
use phantom_traffic.Protocols.{Target}
use phantom_traffic.Protocols.Action.{is_known_protocol}
use phantom_traffic.Engine.Naming.{itoa}
use phantom_traffic.Engine.Pacing.{RampPlan}
use phantom_traffic.Engine.Selector.{RotationStrategy, rotation_sequential}
use phantom_traffic.Persona.{Library, Persona}
use phantom_traffic.Scenario.{Block, RawBlock, RawRamp}
use phantom_traffic.Scenario.Labels.{parse_rotation}
use phantom_traffic.Scenario.Hosts.{validate_target}
use phantom_traffic.Scenario.Windows.{text, Errors, is_none}

-- Options
pub record Options : Type 0 where
  pub allow_insecure : Bool
  pub cap_override : Bool
  pub agent_count : ℤ

unfoldable pub field_path : ℕ → String → String
unfolding itoa
field_path i sub = join "scenarios[" (join (itoa (pos i)) (join "]." sub))

-- The exact product of an integer and a positive unit.
abbrev pub scaled : ℤ → ℕ → ℤ
scaled (pos n) k = pos (n * k)
scaled (negsuc n) k = sub_ℕ 0 (suc n * k)

abbrev pub or_one : ℤ → ℤ
or_one n = if eqb_ℤ n (pos 0) then pos 1 else n

-- time.Duration(rb.DurationMinutes) * time.Minute
unfoldable pub duration_of : RawBlock → Duration
duration_of rb = int64 (scaled rb.duration_minutes 60000000000)

abbrev pub seconds_of : ℤ → Duration
seconds_of n = int64 (scaled n second)

-- An omitted start is the block's concurrency.
abbrev pub start_of : RawRamp → ℤ → ℤ
start_of rr concurrency =
    if eqb_ℤ rr.start_concurrency (pos 0) then concurrency else rr.start_concurrency

unfoldable pub ramp_of : Option RawRamp → ℤ → RampPlan
ramp_of none concurrency = record { up = pos 0; start_concurrency = pos 0 }
ramp_of (some rr) concurrency = record {
  up = seconds_of rr.up_seconds;
  start_concurrency = start_of rr concurrency;
}

abbrev pub or_office : String → String
or_office name = if str_eq name "" then "office-worker" else name

-- The name of the block's persona.
unfoldable pub persona_name : RawBlock → String
unfolding trim_space
persona_name rb = or_office (trim_space rb.persona)

abbrev pub no_target : List String → Bool
no_target [] = true
no_target (a ∷ as') = false

-- The protocol of the block, empty if it is unknown.
abbrev pub proto_of : RawBlock → String
proto_of rb = if is_known_protocol rb.protocol then rb.protocol else ""

abbrev pub add_target : String ⊎ Target → List Target → List Target
add_target (inl reason) ts = ts
add_target (inr t) ts = t ∷ ts

unfoldable pub targets_of : (is_ip : Bytes → Bool) → String → List String → List Target
unfolding validate_target
targets_of is_ip proto [] = []
targets_of is_ip proto (a ∷ addrs) =
    add_target (validate_target is_ip a proto) (targets_of is_ip proto addrs)

abbrev pub or_persona : {F : Type 0} → Persona F → Option (Persona F) → Persona F
or_persona zero none = zero
or_persona zero (some p) = p

abbrev pub or_sequential : Option RotationStrategy → RotationStrategy
or_sequential none = rotation_sequential
or_sequential (some r) = r

module _ {F : Type 0} (lib : Library) (is_ip : Bytes → Bool) where
  open lib use {quote}

  abbrev pub target_errors : ℕ → ℕ → String ⊎ Target → Errors F
  target_errors i j (inl reason) =
      error (join (field_path i "targets") (join "[" (join (itoa (pos j)) "]"))) (text reason)
  target_errors i j (inr t) = []

  unfoldable pub targets_errors : ℕ → ℕ → String → List String → Errors F
  unfolding validate_target field_path
  targets_errors i j proto [] = []
  targets_errors i j proto (a ∷ addrs) =
      target_errors i j (validate_target is_ip a proto) ++ targets_errors i (j + 1) proto addrs

  unfoldable pub load_errors : ℕ → RawBlock → ℤ → Errors F
  unfolding field_path
  load_errors i rb max_concurrent =
      let n = or_one rb.concurrency in
      add_if (ltb_ℤ n (pos 1)) (field_path i "concurrency") (text "must be >= 1")
      ++ (add_if (not (ltb_ℤ n (pos 1)) && ltb_ℤ max_concurrent n) (field_path i "concurrency") (
            text (
              join "concurrency " (
                join (itoa n) (
                  join " exceeds the effective max_concurrent_sessions cap of "
                    (itoa max_concurrent)))))
          ++ add_if (ltb_ℤ rb.duration_minutes (pos 1)) (field_path i "duration_minutes")
              (text "must be >= 1"))

  unfoldable pub ramp_errors : ℕ → Option RawRamp → ℤ → Duration → Errors F
  unfolding field_path
  ramp_errors i none concurrency duration = []
  ramp_errors i (some rr) concurrency duration =
      let start = start_of rr concurrency in
      add_if (ltb_ℤ rr.up_seconds (pos 0)) (field_path i "ramp.up_seconds") (text "must be >= 0")
      ++ (add_if (not (ltb_ℤ rr.up_seconds (pos 0)) && ltb_ℤ duration (seconds_of rr.up_seconds))
            (field_path i "ramp.up_seconds") (text "up_seconds must be <= the block duration")
          ++ add_if (ltb_ℤ start (pos 1) || ltb_ℤ concurrency start)
              (field_path i "ramp.start_concurrency")
              (text (join "start_concurrency must be in 1.." (itoa concurrency))))

  -- validateInsecureGate
  unfoldable pub insecure_errors : ℕ → RawBlock → Options → Errors F
  unfolding field_path is_blank
  insecure_errors i rb opts =
      add_if (rb.allow_insecure && is_blank (codes rb.allow_insecure_reason))
        (field_path i "allow_insecure_reason")
        (text "must be non-empty when allow_insecure is true")
      ++ add_if (rb.allow_insecure && not opts.allow_insecure) (field_path i "allow_insecure") (
          text (
            join "block "
              (join rb.id ": allow_insecure requires the --allow-insecure invocation flag")))

  unfoldable pub block_errors : ℕ → RawBlock → Options → Dict (Persona F) → ℤ → Errors F
  unfolding targets_errors load_errors ramp_errors insecure_errors duration_of persona_name
  block_errors i rb opts personas max_concurrent =
      add_if (is_blank (codes rb.id)) (field_path i "id") (text "must be non-empty")
      ++ (add_if (not (is_known_protocol rb.protocol)) (field_path i "protocol") (
            text (
              join "unknown protocol "
                (join (quote rb.protocol) " (allowed: dns, http, ssh, stream)")))
          ++ (add_if (is_none (parse_rotation rb.target_rotation)) (field_path i "target_rotation")
                (text (
                  join "unknown rotation "
                    (join (quote rb.target_rotation) " (allowed: sequential, random)")))
              ++ (add_if (ltb_ℤ rb.target_rotation_interval_seconds (pos 0))
                    (field_path i "target_rotation_interval_seconds") (text "must be >= 0")
                  ++ (add_if (no_target rb.targets) (field_path i "targets")
                        (text "at least one target is required")
                      ++ (targets_errors i 0 (proto_of rb) rb.targets
                          ++ (add_if (is_none (get (persona_name rb) personas))
                                (field_path i "persona")
                                (text (join "unknown persona " (quote (persona_name rb))))
                              ++ (load_errors i rb max_concurrent
                                  ++ (ramp_errors i rb.ramp (or_one rb.concurrency) (duration_of rb)
                                      ++ insecure_errors i rb opts))))))))

-- The block that is built; `zero` is the zero Persona.
unfoldable pub block_of :
    {F : Type 0} → (is_ip : Bytes → Bool) → Persona F → RawBlock → Dict (Persona F) → Block F
unfolding targets_of duration_of ramp_of persona_name
block_of is_ip zero rb personas = record {
  id = rb.id;
  protocol = proto_of rb;
  targets = targets_of is_ip (proto_of rb) rb.targets;
  rotation = or_sequential (parse_rotation rb.target_rotation);
  rotation_interval =
      if ltb_ℤ rb.target_rotation_interval_seconds (pos 0)
      then pos 0
      else seconds_of rb.target_rotation_interval_seconds;
  allow_insecure = rb.allow_insecure;
  allow_insecure_reason = rb.allow_insecure_reason;
  persona = or_persona zero (get (persona_name rb) personas);
  concurrency = or_one rb.concurrency;
  duration = duration_of rb;
  weight = if rb.weight == 0 then 1 else rb.weight;
  ramp = ramp_of rb.ramp (or_one rb.concurrency);
}
