-- ===== src/Persona/Sound.antt =====
-- internal/persona/validate.go: what a persona that Compile returns is.
use phantom_traffic.Prelude.{
  ◌<◌, ◌≡◌, refl, subst, Bool, true, false, ◌||◌, List, [], ◌∷◌, Option, none, some, ◌⊎◌, inl, inr,
  String, if◌then◌else◌, str_eq, length, All,
}
use phantom_traffic.Prelude.Int.{pos}
use phantom_traffic.Prelude.Float.{Float64}
use phantom_traffic.Prelude.Text.{codes, is_blank}
use phantom_traffic.Pterr.Fields.{FieldError, append-nil_parts, result-inr, add_if-nil}
use phantom_traffic.Behavior.{Rand, Math}
use phantom_traffic.Behavior.Dist.{Distribution, constant}
use phantom_traffic.Behavior.Mix.{Template, TemplateMix, MixErr, new_template_mix}
use phantom_traffic.Behavior.Burst.{always_active}
use phantom_traffic.Behavior.Fingerprint.{Fingerprint, PrintErr, new_fingerprint_pool}
use phantom_traffic.Behavior.Fingerprint.Checked.{IsConsistent, new_fingerprint_pool-IsConsistent}
use phantom_traffic.Persona.{Library, RawDist, RawTemplate, RawPersona, Persona}
use phantom_traffic.Persona.Decode.{parse_dist, parse_burst}
use phantom_traffic.Persona.Compile.{
  Msg, errors_of, value_or, template_of, templates_of, of_pool, made_errors, no_mix,
  mix_errors_from, entries_errors, mix_errors, compile_mix, resolve_fingerprints, print_errors,
  persona_errors, frozen, compile, optional_dist, some_dist,
}
use phantom_traffic.Persona.Decode.Valid.{
  Ensures, if-Ensures, IsValidDist, IsValidBurst, parse_dist-Ensures, parse_burst-Ensures,
}

abbrev Pool : List Fingerprint → Type 0
Pool fs = (0 < length fs) × All IsConsistent fs

module _ {R F : Type 0} (lib : Library) (rng : Rand R F) (math : Math F) (ops : Float64 F) where
  abbrev pub IsValidOptional : Option (Distribution F) → Type 0
  IsValidOptional none = Unit
  IsValidOptional (some d) = (IsValidDist ops) d

  some_dist-IsValid :
      (m : String ⊎ Distribution F) → Ensures (IsValidDist ops) m → IsValidOptional (some_dist m)
  unfolding some_dist
  some_dist-IsValid (inl e) h = tt
  some_dist-IsValid (inr d) h = h

  optional_dist-IsValid : (rd : RawDist F) → IsValidOptional (optional_dist lib rng math ops rd)
  unfolding optional_dist
  optional_dist-IsValid rd =
      kept (str_eq rd.kind "") (some_dist (parse_dist lib ops rd))
        (some_dist-IsValid (parse_dist lib ops rd) (parse_dist-Ensures lib ops rd))
    where
      kept :
          (b : Bool) (o : Option (Distribution F))
          → IsValidOptional o
          → IsValidOptional (if b then none else o)
      kept true o h = tt
      kept false o h = h

  -- A persona that can drive a session: a mix that NewTemplateMix accepts, of one template for each
  -- entry of the file, and prints that are consistent.
  pub record IsSound (raw : RawPersona F) (p : Persona F) : Type 0 where
    pub named : is_blank (codes p.name) ≡ false
    pub think : (IsValidDist ops) p.think_time
    pub burst : (IsValidBurst ops) p.burst
    pub session_length : IsValidOptional p.session_shape.shape_length
    pub inter_task : IsValidOptional p.session_shape.inter_task
    pub mix :
        (t : Template F) × (ts : List (Template F)) × (templates_of lib rng math ops raw.raw_mix
          ≡ t ∷ ts)
        × (new_template_mix rng math ops (t ∷ ts) ≡ inr p.mix)
    pub prints : (0 < length p.prints) × All IsConsistent p.prints

  errors_of-value :
      {A : Type 0} (P : A → Type 0) (zero : A) (field : String) (m : String ⊎ A)
      → Ensures P m
      → errors_of field m ≡ []
      → P (value_or zero m)
  errors_of-value P zero field (inl e) h k = absurd (cc)
  errors_of-value P zero field (inr a) h k = h

  mix_lem :
      (rms : List (RawTemplate F))
      → mix_errors lib rng math ops rms ≡ []
      → (t : Template F) × (ts : List (Template F)) × (templates_of lib rng math ops rms ≡ t ∷ ts)
        × (new_template_mix rng math ops (t ∷ ts) ≡ inr (compile_mix lib rng math ops rms))
  unfolding mix_errors compile_mix
  mix_lem [] h = absurd (cc)
  mix_lem (rm ∷ rms) h =
      let made = new_template_mix rng math ops (templates_of lib rng math ops (rm ∷ rms)) in
      (
        template_of lib rng math ops rm,
        templates_of lib rng math ops rms,
        refl,
        accepted made (from (entries_errors lib rng math ops 0 (rm ∷ rms)) h),
      )
    where
      accepted :
          (o : MixErr ⊎ TemplateMix F)
          → made_errors o ≡ []
          → o ≡ inr (value_or (no_mix lib rng math ops) o)
      accepted (inl e) h = absurd (cc)
      accepted (inr m) h = refl

      from :
          (es : List (FieldError Msg))
          → mix_errors_from lib rng math ops es (rm ∷ rms) ≡ []
          → made_errors (new_template_mix rng math ops (templates_of lib rng math ops (rm ∷ rms)))
            ≡ []
      from [] h = h
      from (e ∷ es) h = absurd (cc)

  prints_lem :
      (table : List Fingerprint) (name : String)
      → print_errors (resolve_fingerprints lib rng math ops table name) ≡ []
      → let pool = value_or [] (resolve_fingerprints lib rng math ops table name) in
        (0 < length pool) × All IsConsistent pool
  unfolding resolve_fingerprints
  prints_lem table name h =
      value-Ensures Pool (resolve_fingerprints lib rng math ops table name)
        (if-Ensures Pool (str_eq name "" || str_eq name "default") _ _
          (pool (new_fingerprint_pool table) refl) tt)
        h
    where
      pool :
          (o : PrintErr ⊎ List Fingerprint)
          → new_fingerprint_pool table ≡ o
          → Ensures Pool (of_pool o)
      pool (inl e) h = tt
      pool (inr fs) h =
          let (same, some', all) = new_fingerprint_pool-IsConsistent table fs h in (some', all)

      value-Ensures :
          (P : List Fingerprint → Type 0) (m : Msg ⊎ List Fingerprint)
          → Ensures P m
          → print_errors m ≡ []
          → P (value_or [] m)
      value-Ensures P (inl e) h k = absurd (cc)
      value-Ensures P (inr fs) h k = h

  frozen-IsSound :
      (table : List Fingerprint) (raw : RawPersona F)
      → persona_errors lib rng math ops table raw ≡ []
      → IsSound raw (frozen lib rng math ops table raw)
  unfolding persona_errors frozen
  frozen-IsSound table raw e0 =
      let (name, e1) = append-nil_parts _ _ e0 in
      let (think, e2) = append-nil_parts _ _ e1 in
      let (jitter, e3) = append-nil_parts _ _ e2 in
      let (burst, e4) = append-nil_parts _ _ e3 in
      let (curve, e5) = append-nil_parts _ _ e4 in
      let (shape, e6) = append-nil_parts _ _ e5 in
      let (mix, prints) = append-nil_parts _ _ e6 in
      record {
        named = add_if-nil (is_blank (codes raw.name)) "name" _ name;
        think =
            errors_of-value (IsValidDist ops) (constant (pos 0)) "think_time"
              (parse_dist lib ops raw.think_time) (parse_dist-Ensures lib ops raw.think_time) think;
        burst =
            errors_of-value (IsValidBurst ops) always_active "burst"
              (parse_burst lib ops raw.raw_burst) (parse_burst-Ensures lib ops raw.raw_burst) burst;
        session_length = optional_dist-IsValid raw.raw_session.max_length;
        inter_task = optional_dist-IsValid raw.raw_session.inter_task;
        mix = mix_lem raw.raw_mix mix;
        prints = prints_lem table raw.fingerprints prints;
      }

  -- A persona that Compile returns is sound: its name is not blank; every distribution in it has
  -- durations that are not negative and in order; its mix is accepted by NewTemplateMix, with one
  -- template for each entry of the file and at least one; and its fingerprints, at least one, are
  -- safe in a header and consistent.
  pub compile-IsSound :
      (table : List Fingerprint) (raw : RawPersona F) (p : Persona F)
      → compile lib rng math ops table raw ≡ inr p
      → IsSound raw p
  unfolding compile
  compile-IsSound table raw p h =
      let (none_found, same) = result-inr _ _ p h in
      subst (IsSound raw) same (frozen-IsSound table raw none_found)
