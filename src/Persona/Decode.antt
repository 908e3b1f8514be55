-- ===== src/Persona/Decode.antt =====
-- internal/persona/decode.go: the parts of a persona, each with the first error in it.
pub mod Valid
use phantom_traffic.Prelude.{
  ℕ, ◌+◌, Bool, true, false, not, ◌&&◌, ◌||◌, List, [], ◌∷◌, Option, none, some, ◌⊎◌, inl, inr,
  String, if◌then◌else◌, str_eq, ◌==◌, leb, length,
}
use Prim.Native.String.{◌++◌ as join}
use phantom_traffic.Prelude.Int.{pos, ltb_ℤ, leb_ℤ}
use phantom_traffic.Prelude.Clock.{Duration}
use phantom_traffic.Prelude.Float.{Float64, fzero, fone}
use phantom_traffic.Prelude.Text.{Bytes, codes}
use phantom_traffic.Protocols.Action.{
  Cause, cause_navigation, cause_sub_resource, cause_background, cause_control, PacingMode,
  pacing_shaper_managed, pacing_self_paced,
}
use phantom_traffic.Engine.Naming.{itoa}
use phantom_traffic.Behavior.Dist.{
  Distribution, constant, uniform, normal, log_normal, exponential, JitterModel, no_jitter,
  proportional,
}
use phantom_traffic.Behavior.Burst.{BurstModel, always_active, renewal, new_renewal_burst}
use phantom_traffic.Behavior.Shaper.{TimeOfDay, flat, piecewise}
use phantom_traffic.Persona.{Library, RawDist, RawJitter, RawBurst, RawCurve}

-- A value, or the text of an error.
infixl 5 ◌>>=◌ ◌>>◌
abbrev pub ◌>>=◌ {ℓ κ} : {A : Type ℓ} {B : Type κ} → String ⊎ A → (A → String ⊎ B) → String ⊎ B
inl e >>= f = inl e
inr a >>= f = f a

abbrev pub ◌>>◌ {ℓ} : {B : Type ℓ} → String ⊎ Unit {0} → String ⊎ B → String ⊎ B
m >> k = m >>= λ _. k

-- `if bad { return nil, fmt.Errorf(msg) }`
abbrev pub refuse_if : Bool → String → String ⊎ Unit {0}
refuse_if true msg = inl msg
refuse_if false msg = inr tt

-- fmt.Errorf("field: %w", err)
abbrev pub in_field {ℓ} : {A : Type ℓ} → String → String ⊎ A → String ⊎ A
in_field field (inl e) = inl (join field (join ": " e))
in_field field (inr a) = inr a

module _ {F : Type 0} (lib : Library) (ops : Float64 F) where
  open lib use {parse_duration, load_location, quote}
  open ops use {flt}

  unfoldable pub parse_dur : String → String ⊎ Duration
  parse_dur s = if str_eq s "" then inl "missing duration" else parse_duration s

  unfoldable pub parse_constant : RawDist F → String ⊎ Distribution F
  unfolding parse_dur
  parse_constant rd = do
    d ← in_field "d" (parse_dur rd.d)
    refuse_if (ltb_ℤ d (pos 0)) "d must be >= 0"
    inr (constant d)

  unfoldable pub parse_uniform : RawDist F → String ⊎ Distribution F
  unfolding parse_dur
  parse_uniform rd = do
    mn ← in_field "min" (parse_dur rd.min)
    mx ← in_field "max" (parse_dur rd.max)
    refuse_if (ltb_ℤ mn (pos 0)) "min must be >= 0"
    refuse_if (ltb_ℤ mx mn) "max must be >= min"
    inr (uniform mn mx)

  unfoldable pub parse_normal : RawDist F → String ⊎ Distribution F
  unfolding parse_dur
  parse_normal rd = do
    mean ← in_field "mean" (parse_dur rd.mean)
    std ← in_field "stddev" (parse_dur rd.std_dev)
    mn ← in_field "min" (parse_dur rd.min)
    mx ← in_field "max" (parse_dur rd.max)
    refuse_if (ltb_ℤ mean (pos 0)) "mean must be >= 0"
    refuse_if (ltb_ℤ std (pos 0)) "stddev must be >= 0"
    refuse_if (ltb_ℤ mn (pos 0)) "min must be >= 0"
    refuse_if (ltb_ℤ mx mn) "max must be >= min"
    inr (normal mean std mn mx)

  unfoldable pub parse_log_normal : RawDist F → String ⊎ Distribution F
  unfolding parse_dur
  parse_log_normal rd = do
    scale ← in_field "scale" (parse_dur rd.scale)
    refuse_if (flt rd.sigma (fzero ops)) "sigma must be >= 0"
    refuse_if (ltb_ℤ scale (pos 0)) "scale must be >= 0"
    inr (log_normal rd.mu rd.sigma scale)

  unfoldable pub parse_exponential : RawDist F → String ⊎ Distribution F
  unfolding parse_dur
  parse_exponential rd = do
    mean ← in_field "mean" (parse_dur rd.mean)
    refuse_if (leb_ℤ mean (pos 0)) "mean must be > 0"
    inr (exponential mean)

  unfoldable pub parse_dist : RawDist F → String ⊎ Distribution F
  unfolding parse_constant parse_uniform parse_normal parse_log_normal parse_exponential
  parse_dist rd =
      if str_eq rd.kind "constant"
      then parse_constant rd
      else if str_eq rd.kind "uniform"
      then parse_uniform rd
      else if str_eq rd.kind "normal"
      then parse_normal rd
      else if str_eq rd.kind "lognormal"
      then parse_log_normal rd
      else if str_eq rd.kind "exponential"
      then parse_exponential rd
      else if str_eq rd.kind ""
      then inl "kind is required"
      else inl (join "unknown kind " (quote rd.kind))

  -- `v < 0 || v > 1`
  abbrev pub outside_unit : F → Bool
  outside_unit v = flt v (fzero ops) || flt (fone ops) v

  unfoldable pub parse_jitter : RawJitter F → String ⊎ JitterModel F
  parse_jitter rj =
      if str_eq rj.kind "" || str_eq rj.kind "none"
      then inr no_jitter
      else if str_eq rj.kind "proportional"
      then (if outside_unit rj.fraction
          then inl "fraction must be in [0,1]"
          else inr (proportional rj.fraction))
      else inl (join "unknown jitter kind " (quote rj.kind))

  unfoldable pub two_dwells : RawBurst F → String ⊎ BurstModel F
  unfolding parse_dist new_renewal_burst
  two_dwells rb = do
    active ← in_field "active" (parse_dist rb.active)
    idle ← in_field "idle" (parse_dist rb.idle)
    inr (renewal (new_renewal_burst active idle))

  unfoldable pub parse_burst : RawBurst F → String ⊎ BurstModel F
  unfolding two_dwells
  parse_burst rb =
      if str_eq rb.active.kind "" && str_eq rb.idle.kind ""
      then inr always_active
      else two_dwells rb

  -- The loop over a curve, from entry `i` on.
  unfoldable pub check_curve : String → ℕ → List F → String ⊎ Unit {0}
  check_curve name i [] = inr tt
  check_curve name i (v ∷ vs) =
      let rest = check_curve name (i + 1) vs in
      if outside_unit v
      then inl (join name (join "[" (join (itoa (pos i)) "] must be in [0,1]")))
      else rest

  abbrev pub got : String → ℕ → String
  got name n = join name (join " must have 24 entries, got " (itoa (pos n)))

  unfoldable pub full_curve : RawCurve F → String ⊎ TimeOfDay F
  unfolding check_curve
  full_curve rc = do
    refuse_if (str_eq rc.location "")
        "location is required when weekday or weekend curves are provided"
    loc ← in_field "location" (load_location rc.location)
    refuse_if (not (length rc.week_day == 24)) (got "weekday" (length rc.week_day))
    refuse_if (not (length rc.weekend == 24)) (got "weekend" (length rc.weekend))
    check_curve "weekday" 0 rc.week_day
    check_curve "weekend" 0 rc.weekend
    inr (piecewise loc rc.week_day rc.weekend)

  unfoldable pub parse_curve : RawCurve F → String ⊎ TimeOfDay F
  unfolding full_curve
  parse_curve rc =
      if str_eq rc.location "" && ((length rc.week_day == 0) && (length rc.weekend == 0))
      then inr flat
      else full_curve rc

unfoldable pub parse_cause : String → Option Cause
parse_cause s =
    if str_eq s "" || str_eq s "navigation"
    then some cause_navigation
    else if str_eq s "sub-resource"
    then some cause_sub_resource
    else if str_eq s "background"
    then some cause_background
    else if str_eq s "control"
    then some cause_control
    else none

unfoldable pub parse_pacing : String → Option PacingMode
parse_pacing s =
    if str_eq s "" || str_eq s "shaper-managed"
    then some pacing_shaper_managed
    else if str_eq s "self-paced"
    then some pacing_self_paced
    else none

unfoldable pub verb_byte : ℕ → Bool
verb_byte c = (leb 97 c && leb c 122) || ((leb 48 c && leb c 57) || (c == 45))

unfoldable pub verb_bytes : Bytes → Bool
unfolding verb_byte
verb_bytes [] = true
verb_bytes (c ∷ cs) = verb_byte c && verb_bytes cs

unfoldable pub valid_verb : String → Bool
unfolding verb_bytes
valid_verb s = not (str_eq s "") && verb_bytes (codes s)
