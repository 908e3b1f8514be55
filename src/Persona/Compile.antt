-- ===== src/Persona/Compile.antt =====
-- internal/persona/validate.go: a raw persona becomes a frozen one, or the list of all that is wrong
-- with it. A part that failed has the zero value of its type, which is never handed out. The embedded
-- table of fingerprints is an argument.
use phantom_traffic.Prelude.{
  ℕ, ◌+◌, Bool, true, false, not, ◌||◌, List, [], ◌∷◌, ◌++◌, Option, none, some, ◌⊎◌, inl, inr,
  String, if◌then◌else◌, str_eq,
}
use Prim.Native.String.{◌++◌ as join}
use phantom_traffic.Prelude.Int.{pos}
use phantom_traffic.Prelude.Float.{Float64, fzero, fone}
use phantom_traffic.Prelude.Text.{codes, is_blank}
use phantom_traffic.Pterr.Fields.{FieldError, error, add_if, result}
use phantom_traffic.Protocols.Action.{cause_navigation, pacing_shaper_managed, is_known_protocol}
use phantom_traffic.Engine.Naming.{itoa}
use phantom_traffic.Behavior.{Rand, Math}
use phantom_traffic.Behavior.Dist.{Distribution, constant, no_jitter}
use phantom_traffic.Behavior.Mix.{Template, TemplateMix, MixErr, new_template_mix, bad_weight?}
use phantom_traffic.Behavior.Burst.{always_active}
use phantom_traffic.Behavior.Shaper.{flat}
use phantom_traffic.Behavior.Fingerprint.{Fingerprint, PrintErr, new_fingerprint_pool}
use phantom_traffic.Behavior.Selector.{default_branch_bounds}
use phantom_traffic.Behavior.Session.{SessionShape}
use phantom_traffic.Persona.{Library, RawDist, RawShape, RawTemplate, RawPersona, Persona}
use phantom_traffic.Persona.Decode.{
  parse_dist, parse_jitter, parse_burst, parse_curve, parse_cause, parse_pacing, valid_verb,
}

pub data Msg : Type 0 where
  text : String → Msg
  of_mix : MixErr → Msg
  of_print : PrintErr → Msg

abbrev pub errors_of {ℓ} : {A : Type ℓ} → String → String ⊎ A → List (FieldError Msg)
errors_of field (inl e) = error field (text e)
errors_of field (inr a) = []

abbrev pub value_or {ℓ κ} : {A : Type ℓ} {E : Type κ} → A → E ⊎ A → A
value_or zero (inl e) = zero
value_or zero (inr a) = a

abbrev pub is_none {ℓ} : {A : Type ℓ} → Option A → Bool
is_none none = true
is_none (some a) = false

abbrev pub or_zero {ℓ} : {A : Type ℓ} → A → Option A → A
or_zero zero none = zero
or_zero zero (some a) = a

abbrev pub made_errors : {F : Type 0} → MixErr ⊎ TemplateMix F → List (FieldError Msg)
made_errors (inl e) = error "mix" (of_mix e)
made_errors (inr m) = []

abbrev pub print_errors : Msg ⊎ List Fingerprint → List (FieldError Msg)
print_errors (inl m) = error "fingerprints" m
print_errors (inr prints) = []

unfoldable pub some_dist : {F : Type 0} → String ⊎ Distribution F → Option (Distribution F)
some_dist (inl e) = none
some_dist (inr d) = some d

abbrev pub of_pool : PrintErr ⊎ List Fingerprint → Msg ⊎ List Fingerprint
of_pool (inl e) = inl (of_print e)
of_pool (inr pool) = inr pool

module _ {R F : Type 0} (lib : Library) (rng : Rand R F) (math : Math F) (ops : Float64 F) where
  open lib use {quote}
  open ops use {flt}

  -- An optional distribution: with no kind it is left out.
  unfoldable pub optional_errors : String → RawDist F → List (FieldError Msg)
  unfolding parse_dist
  optional_errors field rd =
      if str_eq rd.kind "" then [] else errors_of field (parse_dist lib ops rd)

  unfoldable pub optional_dist : RawDist F → Option (Distribution F)
  unfolding some_dist parse_dist
  optional_dist rd = if str_eq rd.kind "" then none else some_dist (parse_dist lib ops rd)

  unfoldable pub shape_errors : RawShape F → List (FieldError Msg)
  unfolding optional_errors
  shape_errors rs =
      optional_errors "session.length" rs.max_length
      ++ (optional_errors "session.inter_task" rs.inter_task
          ++ add_if (flt rs.abandon (fzero ops) || flt (fone ops) rs.abandon) "session.abandon"
              (text "must be in [0,1]"))

  unfoldable pub compile_shape : RawShape F → SessionShape F
  unfolding optional_dist
  compile_shape rs = record {
    shape_length = optional_dist rs.max_length;
    inter_task = optional_dist rs.inter_task;
    abandon = rs.abandon;
  }

  -- The checks of entry `i` of the mix.
  unfoldable pub entry_errors : ℕ → RawTemplate F → List (FieldError Msg)
  unfolding parse_cause parse_pacing valid_verb is_known_protocol bad_weight?
  entry_errors i rm =
      let fp = join "mix[" (join (itoa (pos i)) "]") in
      add_if (not (is_known_protocol rm.protocol)) (join fp ".protocol") (
        text (
          join "unknown protocol " (join (quote rm.protocol) " (allowed: dns, http, ssh, stream)")))
      ++ (add_if (is_none (parse_cause rm.cause)) (join fp ".cause")
            (text (join "unknown cause " (quote rm.cause)))
          ++ (add_if (is_none (parse_pacing rm.pacing)) (join fp ".pacing")
                (text (join "unknown pacing " (quote rm.pacing)))
              ++ (add_if (not (valid_verb rm.verb)) (join fp ".verb")
                    (text "must be non-empty and match [a-z0-9-]")
                  ++ add_if (bad_weight? rng math ops rm.weight) (join fp ".weight")
                      (text "must be a finite positive number"))))

  unfoldable pub template_of : RawTemplate F → Template F
  unfolding parse_cause parse_pacing
  template_of rm = record {
    protocol = rm.protocol;
    verb = rm.verb;
    cause = or_zero cause_navigation (parse_cause rm.cause);
    pacing = or_zero pacing_shaper_managed (parse_pacing rm.pacing);
    weight = rm.weight;
  }

  unfoldable pub entries_errors : ℕ → List (RawTemplate F) → List (FieldError Msg)
  unfolding entry_errors
  entries_errors i [] = []
  entries_errors i (rm ∷ rms) = entry_errors i rm ++ entries_errors (i + 1) rms

  unfoldable pub templates_of : List (RawTemplate F) → List (Template F)
  unfolding template_of
  templates_of [] = []
  templates_of (rm ∷ rms) = template_of rm ∷ templates_of rms

  abbrev pub no_mix : TemplateMix F
  no_mix = record { templates = []; cum_weights = []; total = fzero ops }

  -- The loop's errors, or else NewTemplateMix's.
  unfoldable pub mix_errors_from :
      List (FieldError Msg) → List (RawTemplate F) → List (FieldError Msg)
  unfolding templates_of new_template_mix
  mix_errors_from [] rms = made_errors (new_template_mix rng math ops (templates_of rms))
  mix_errors_from (e ∷ es) rms = e ∷ es

  unfoldable pub mix_errors : List (RawTemplate F) → List (FieldError Msg)
  unfolding entries_errors mix_errors_from
  mix_errors [] = error "mix" (text "at least one template is required")
  mix_errors (rm ∷ rms) = mix_errors_from (entries_errors 0 (rm ∷ rms)) (rm ∷ rms)

  unfoldable pub compile_mix : List (RawTemplate F) → TemplateMix F
  unfolding templates_of new_template_mix
  compile_mix rms = value_or no_mix (new_template_mix rng math ops (templates_of rms))

  unfoldable pub resolve_fingerprints : List Fingerprint → String → Msg ⊎ List Fingerprint
  unfolding new_fingerprint_pool
  resolve_fingerprints table name =
      if str_eq name "" || str_eq name "default"
      then of_pool (new_fingerprint_pool table)
      else inl (
          text (
            join "unknown fingerprint pool "
              (join (quote name) (join " (only " (join (quote "default") ")")))))

  unfoldable pub persona_errors : List Fingerprint → RawPersona F → List (FieldError Msg)
  unfolding parse_dist parse_jitter parse_burst parse_curve shape_errors mix_errors
      resolve_fingerprints
  persona_errors table raw =
      add_if (is_blank (codes raw.name)) "name" (text "must be non-empty")
      ++ (errors_of "think_time" (parse_dist lib ops raw.think_time)
          ++ (errors_of "jitter" (parse_jitter lib ops raw.raw_jitter)
              ++ (errors_of "burst" (parse_burst lib ops raw.raw_burst)
                  ++ (errors_of "time_of_day" (parse_curve lib ops raw.time_of_day)
                      ++ (shape_errors raw.raw_session
                          ++ (mix_errors raw.raw_mix
                              ++ print_errors (resolve_fingerprints table raw.fingerprints)))))))

  unfoldable pub frozen : List Fingerprint → RawPersona F → Persona F
  unfolding parse_dist parse_jitter parse_burst parse_curve compile_shape compile_mix
      resolve_fingerprints default_branch_bounds
  frozen table raw = record {
    name = raw.name;
    mix = compile_mix raw.raw_mix;
    think_time = value_or (constant (pos 0)) (parse_dist lib ops raw.think_time);
    jitter_model = value_or no_jitter (parse_jitter lib ops raw.raw_jitter);
    burst = value_or always_active (parse_burst lib ops raw.raw_burst);
    time_of_day = value_or flat (parse_curve lib ops raw.time_of_day);
    prints = value_or [] (resolve_fingerprints table raw.fingerprints);
    session_shape = compile_shape raw.raw_session;
    bounds = default_branch_bounds;
  }

  unfoldable pub compile : List Fingerprint → RawPersona F → List (FieldError Msg) ⊎ Persona F
  unfolding persona_errors frozen
  compile table raw = result (persona_errors table raw) (frozen table raw)
