-- ===== src/Persona/Decode/Valid.antt =====
-- internal/persona/decode.go: what the distributions and bursts are that the parsers accept.
use phantom_traffic.Prelude.{
  ◌≡◌, refl, Bool, true, false, ◌&&◌, ◌⊎◌, inl, inr, String, arith, if◌then◌else◌, str_eq,
}
use phantom_traffic.Prelude.Int.{pos, ◌≤ℤ◌, ◌<ℤ◌, ltb_ℤ, leb_ℤ}
use phantom_traffic.Prelude.Float.{Float64, fzero}
use phantom_traffic.Behavior.Dist.{Distribution, constant, uniform, normal, log_normal, exponential}
use phantom_traffic.Behavior.Burst.{BurstModel, always_active, renewal, new_renewal_burst}
use phantom_traffic.Persona.{Library, RawDist, RawBurst}
use phantom_traffic.Persona.Decode.{
  parse_dist, parse_constant, parse_uniform, parse_normal, parse_log_normal, parse_exponential,
  parse_dur, parse_burst, in_field, ◌>>=◌, ◌>>◌, refuse_if,
}

-- A postcondition of a value, with a rule for each way in which the parsers are put together.
abbrev pub Ensures : {E A : Type 0} → (A → Type 0) → E ⊎ A → Type 0
Ensures P (inl e) = Unit
Ensures P (inr a) = P a

bind-Ensures :
    {A B : Type 0} (P : B → Type 0) (m : String ⊎ A) (f : A → String ⊎ B)
    → ((a : A) → Ensures P (f a))
    → Ensures P (m >>= f)
bind-Ensures P (inl e) f h = tt
bind-Ensures P (inr a) f h = h a

refuse-Ensures :
    {B : Type 0} (P : B → Type 0) (b : Bool) (msg : String) (k : String ⊎ B)
    → (b ≡ false → Ensures P k)
    → Ensures P (refuse_if b msg >> k)
refuse-Ensures P true msg k h = tt
refuse-Ensures P false msg k h = h refl

pub if-Ensures :
    {E A : Type 0} (P : A → Type 0) (b : Bool) (x y : E ⊎ A)
    → Ensures P x
    → Ensures P y
    → Ensures P (if b then x else y)
if-Ensures P true x y h k = h
if-Ensures P false x y h k = k

module _ {F : Type 0} (ops : Float64 F) where
  abbrev pub IsValidDist : Distribution F → Type 0
  IsValidDist (constant d) = pos 0 ≤ℤ d
  IsValidDist (uniform min max) = (pos 0 ≤ℤ min) × (min ≤ℤ max)
  IsValidDist (normal mean std min max) =
      (pos 0 ≤ℤ mean) × (pos 0 ≤ℤ std) × (pos 0 ≤ℤ min) × (min ≤ℤ max)
  IsValidDist (log_normal mu sigma scale) = (ops.flt sigma (fzero ops) ≡ false) × (pos 0 ≤ℤ scale)
  IsValidDist (exponential mean) = pos 0 <ℤ mean

  abbrev pub IsValidBurst : BurstModel F → Type 0
  IsValidBurst always_active = Unit
  IsValidBurst (renewal b) = IsValidDist b.active_dwell × IsValidDist b.idle_dwell

module _ {F : Type 0} (lib : Library) (ops : Float64 F) where
  parse_constant-Ensures : (rd : RawDist F) → Ensures (IsValidDist ops) (parse_constant lib ops rd)
  unfolding parse_constant
  parse_constant-Ensures rd =
      bind-Ensures (IsValidDist ops) (in_field "d" (parse_dur lib ops rd.d)) _
        λ d. refuse-Ensures (IsValidDist ops) (ltb_ℤ d (pos 0)) _ _ λ h. ground arith

  parse_uniform-Ensures : (rd : RawDist F) → Ensures (IsValidDist ops) (parse_uniform lib ops rd)
  unfolding parse_uniform
  parse_uniform-Ensures rd =
      bind-Ensures (IsValidDist ops) (in_field "min" (parse_dur lib ops rd.min)) _ λ mn.
        bind-Ensures (IsValidDist ops) (in_field "max" (parse_dur lib ops rd.max)) _ λ mx.
          refuse-Ensures (IsValidDist ops) (ltb_ℤ mn (pos 0)) _ _
            λ h. refuse-Ensures (IsValidDist ops) (ltb_ℤ mx mn) _ _ λ k. ground arith

  parse_normal-Ensures : (rd : RawDist F) → Ensures (IsValidDist ops) (parse_normal lib ops rd)
  unfolding parse_normal
  parse_normal-Ensures rd =
      bind-Ensures (IsValidDist ops) (in_field "mean" (parse_dur lib ops rd.mean)) _ λ mean.
        bind-Ensures (IsValidDist ops) (in_field "stddev" (parse_dur lib ops rd.std_dev)) _ λ std.
          bind-Ensures (IsValidDist ops) (in_field "min" (parse_dur lib ops rd.min)) _ λ mn.
            bind-Ensures (IsValidDist ops) (in_field "max" (parse_dur lib ops rd.max)) _ λ mx.
              refuse-Ensures (IsValidDist ops) (ltb_ℤ mean (pos 0)) _ _ λ h1.
                refuse-Ensures (IsValidDist ops) (ltb_ℤ std (pos 0)) _ _ λ h2.
                  refuse-Ensures (IsValidDist ops) (ltb_ℤ mn (pos 0)) _ _
                    λ h3. refuse-Ensures (IsValidDist ops) (ltb_ℤ mx mn) _ _ λ h4. ground arith

  parse_log_normal-Ensures :
      (rd : RawDist F) → Ensures (IsValidDist ops) (parse_log_normal lib ops rd)
  unfolding parse_log_normal
  parse_log_normal-Ensures rd =
      bind-Ensures (IsValidDist ops) (in_field "scale" (parse_dur lib ops rd.scale)) _ λ scale.
        refuse-Ensures (IsValidDist ops) (ops.flt rd.sigma (fzero ops)) _ _
          λ h1. refuse-Ensures (IsValidDist ops) (ltb_ℤ scale (pos 0)) _ _ λ h2. (h1, ground arith)

  parse_exponential-Ensures :
      (rd : RawDist F) → Ensures (IsValidDist ops) (parse_exponential lib ops rd)
  unfolding parse_exponential
  parse_exponential-Ensures rd =
      bind-Ensures (IsValidDist ops) (in_field "mean" (parse_dur lib ops rd.mean)) _
        λ mean. refuse-Ensures (IsValidDist ops) (leb_ℤ mean (pos 0)) _ _ λ h. ground arith

  pub parse_dist-Ensures : (rd : RawDist F) → Ensures (IsValidDist ops) (parse_dist lib ops rd)
  unfolding parse_dist
  parse_dist-Ensures rd =
      if-Ensures (IsValidDist ops) (str_eq rd.kind "constant") _ _ (parse_constant-Ensures rd) (
        if-Ensures (IsValidDist ops) (str_eq rd.kind "uniform") _ _ (parse_uniform-Ensures rd) (
          if-Ensures (IsValidDist ops) (str_eq rd.kind "normal") _ _ (parse_normal-Ensures rd) (
            if-Ensures (IsValidDist ops) (str_eq rd.kind "lognormal") _ _
              (parse_log_normal-Ensures rd)
              (if-Ensures (IsValidDist ops) (str_eq rd.kind "exponential") _ _
                (parse_exponential-Ensures rd)
                (if-Ensures (IsValidDist ops) (str_eq rd.kind "") _ _ tt tt)))))

  pub parse_burst-Ensures : (rb : RawBurst F) → Ensures (IsValidBurst ops) (parse_burst lib ops rb)
  unfolding parse_burst
  parse_burst-Ensures rb =
      if-Ensures (IsValidBurst ops) (str_eq rb.active.kind "" && str_eq rb.idle.kind "") _ _ tt (
        dwells (parse_dist lib ops rb.active) (parse_dist lib ops rb.idle)
          (parse_dist-Ensures rb.active) (parse_dist-Ensures rb.idle))
    where
      dwells :
          (x y : String ⊎ Distribution F)
          → Ensures (IsValidDist ops) x
          → Ensures (IsValidDist ops) y
          → Ensures (IsValidBurst ops) (
              in_field "active" x >>= λ active.
              in_field "idle" y >>= λ idle. inr (renewal (new_renewal_burst active idle)))
      dwells (inl e) y h k = tt
      dwells (inr a) (inl e) h k = tt
      dwells (inr a) (inr b) h k = (h, k)
