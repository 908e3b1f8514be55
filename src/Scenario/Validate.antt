-- ===== src/Scenario/Validate.antt =====
-- internal/scenario/validate.go, Validate: the frozen scenario, or all that is wrong with the raw one, in
-- the order in which the code finds it.
pub mod Parts
pub mod Sound
pub mod Enforced
use phantom_traffic.Prelude.{
  ℕ, ◌+◌, Bool, true, false, not, ◌&&◌, ◌||◌, List, [], ◌∷◌, ◌++◌, Option, none, some, ◌⊎◌, inl,
  inr, String, if◌then◌else◌, str_eq,
}
use Prim.Native.String.{◌++◌ as join}
use phantom_traffic.Prelude.Int.{pos}
use phantom_traffic.Prelude.Dict.{Dict, put}
use phantom_traffic.Prelude.Float.{Float64}
use phantom_traffic.Prelude.Text.{Bytes, codes, trim_space, is_blank}
use phantom_traffic.Pterr.Fields.{FieldError, error, add_if, result}
use phantom_traffic.Protocols.{Target}
use phantom_traffic.Protocols.Allow.{new_target_set}
use phantom_traffic.Safety.Caps as Caps
use phantom_traffic.Safety.Caps.{
  CapSpec, Ceiling, Violation, default_ceiling, divided_by, at_least_one, effective, validate_caps,
}
use phantom_traffic.Engine.Naming.{itoa}
use phantom_traffic.Behavior.{Rand, Math}
use phantom_traffic.Behavior.Fingerprint.{Fingerprint}
use phantom_traffic.Persona.{Library, RawPersona, Persona}
use phantom_traffic.Persona.Compile as PersonaCompile
use phantom_traffic.Persona.Compile.{compile}
use phantom_traffic.Persona.Builtins.{LoadErr}
use phantom_traffic.Scenario.{
  Scenario, Raw, RawBlock, Block, ExecutionMode, exec_parallel, WeightBasis,
  weight_by_vuser_population,
}
use phantom_traffic.Scenario.Labels.{parse_mode, parse_weight_basis}
use phantom_traffic.Scenario.Hosts.{valid_host}
use phantom_traffic.Scenario.Windows.{
  Msg, text, of_persona, of_builtins, of_cap, Errors, is_none, schedule_errors, schedule_of,
}
use phantom_traffic.Scenario.Blocks.{Options, field_path, block_errors, block_of}

abbrev pub no_block : List RawBlock → Bool
no_block [] = true
no_block (rb ∷ rbs) = false

abbrev pub or_parallel : Option ExecutionMode → ExecutionMode
or_parallel none = exec_parallel
or_parallel (some mode) = mode

abbrev pub or_population : Option WeightBasis → WeightBasis
or_population none = weight_by_vuser_population
or_population (some basis) = basis

-- What the built-ins put into the map of personas.
abbrev pub builtins_or_empty : {F : Type 0} → LoadErr ⊎ Dict (Persona F) → Dict (Persona F)
builtins_or_empty (inl e) = []
builtins_or_empty (inr builtins) = builtins

abbrev pub builtin_errors : {F : Type 0} → LoadErr ⊎ Dict (Persona F) → Errors F
builtin_errors (inl e) = error "personas" (of_builtins e)
builtin_errors (inr builtins) = []

unfoldable pub keyed : {F : Type 0} → String → List (FieldError PersonaCompile.Msg) → Errors F
keyed prefix [] = []
keyed prefix (fe ∷ fes) =
    record { field = join prefix fe.field; msg = of_persona fe.msg } ∷ keyed prefix fes

abbrev pub custom_error :
    {F : Type 0} → ℕ → List (FieldError PersonaCompile.Msg) ⊎ Persona F → Errors F
custom_error i (inl fes) = keyed (join "personas[" (join (itoa (pos i)) "].")) fes
custom_error i (inr p) = []

-- `out[p.Name] = p`
abbrev pub put_persona :
    {F : Type 0}
    → List (FieldError PersonaCompile.Msg) ⊎ Persona F
    → Dict (Persona F)
    → Dict (Persona F)
put_persona (inl fes) out = out
put_persona (inr p) out = put p.name p out

unfoldable pub cap_errors : {F : Type 0} → List (Violation F) → Errors F
cap_errors [] = []
cap_errors (v ∷ vs) = record { field = join "caps." v.field; msg = of_cap v.msg } ∷ cap_errors vs

unfoldable pub seen : String → List String → Bool
seen id [] = false
seen id (j ∷ ids) = str_eq j id || seen id ids

abbrev pub see : String → List String → List String
see id ids = if str_eq id "" then ids else id ∷ ids

unfoldable pub all_targets : {F : Type 0} → List (Block F) → List Target
all_targets [] = []
all_targets (b ∷ bs) = b.targets ++ all_targets bs

-- The ceiling of one agent, and the caps in force under it.
unfoldable pub ceiling_of : {F : Type 0} → Float64 F → Options → Ceiling F
unfolding divided_by default_ceiling at_least_one
ceiling_of ops opts = divided_by ops (default_ceiling ops) (at_least_one opts.agent_count)

unfoldable pub caps_of : {F : Type 0} → Float64 F → CapSpec F → Options → CapSpec F
unfolding ceiling_of effective
caps_of ops declared opts = effective ops declared (ceiling_of ops opts)

module _ {R F : Type 0} (lib : Library) (rng : Rand R F) (math : Math F) (ops : Float64 F)
    (is_ip : Bytes → Bool) (table : List Fingerprint) (builtins : LoadErr ⊎ Dict (Persona F))
    (zero : Persona F) where
  open lib use {quote}

  abbrev pub mode_errors : String → Errors F
  mode_errors mode =
      add_if (is_none (parse_mode mode)) "execution.mode"
        (text (join "unknown mode " (join (quote mode) " (allowed: parallel, sequential)")))

  abbrev pub basis_errors : String → Errors F
  basis_errors basis = add_if (is_none (parse_weight_basis basis)) "weight_basis" (
      text (
        join "unknown weight_basis "
          (join (quote basis) " (allowed: vuser_population, concurrency, request_rate)")))

  -- resolvePersonas: the map, and the errors.
  unfoldable pub customs : List (RawPersona F) → Dict (Persona F) → Dict (Persona F)
  unfolding compile
  customs [] out = out
  customs (rp ∷ rps) out = customs rps (put_persona (compile lib rng math ops table rp) out)

  unfoldable pub custom_errors : ℕ → List (RawPersona F) → Errors F
  unfolding compile keyed
  custom_errors i [] = []
  custom_errors i (rp ∷ rps) =
      custom_error i (compile lib rng math ops table rp) ++ custom_errors (i + 1) rps

  unfoldable pub personas_of : List (RawPersona F) → Dict (Persona F)
  unfolding customs
  personas_of rps = customs rps (builtins_or_empty builtins)

  -- The loop over the blocks, after the ids that it has seen.
  unfoldable pub blocks_errors :
      Options → Dict (Persona F) → CapSpec F → ℕ → List String → List RawBlock → Errors F
  unfolding block_errors field_path seen
  blocks_errors opts personas caps i ids [] = []
  blocks_errors opts personas caps i ids (rb ∷ rbs) =
      block_errors lib is_ip i rb opts personas caps.max_concurrent_sessions
      ++ (add_if (seen rb.id ids && not (str_eq rb.id "")) (field_path i "id")
            (text (join "duplicate id " (quote rb.id)))
          ++ blocks_errors opts personas caps (i + 1) (see rb.id ids) rbs)

  unfoldable pub blocks_of : Dict (Persona F) → List RawBlock → List (Block F)
  unfolding block_of
  blocks_of personas [] = []
  blocks_of personas (rb ∷ rbs) = block_of is_ip zero rb personas ∷ blocks_of personas rbs

  -- validateAllowedDomains
  unfoldable pub domain_errors : ℕ → List String → Errors F
  unfolding valid_host trim_space
  domain_errors i [] = []
  domain_errors i (d ∷ ds) =
      add_if (not (valid_host is_ip (codes (trim_space d))))
        (join "allowed_domains[" (join (itoa (pos i)) "]")) (text "not a valid hostname")
      ++ domain_errors (i + 1) ds

  unfoldable pub scenario_errors : Raw F → Options → Errors F
  unfolding custom_errors personas_of blocks_errors domain_errors cap_errors caps_of ceiling_of
      schedule_errors is_blank
  scenario_errors raw opts =
      add_if (is_blank (codes raw.name)) "name" (text "must be non-empty")
      ++ (add_if (no_block raw.scenarios) "scenarios"
            (text "at least one scenario block is required")
          ++ (mode_errors raw.execution.mode
              ++ (builtin_errors builtins
                  ++ (custom_errors 0 raw.personas
                      ++ (cap_errors
                            (validate_caps ops raw.caps (ceiling_of ops opts) opts.cap_override)
                          ++ (blocks_errors opts (personas_of raw.personas)
                                (caps_of ops raw.caps opts) 0 [] raw.scenarios
                              ++ (domain_errors 0 raw.allowed_domains
                                  ++ (basis_errors raw.weight_basis
                                      ++ schedule_errors lib raw.schedule))))))))

  unfoldable pub frozen_scenario : Raw F → Options → Scenario F
  unfolding personas_of blocks_of all_targets caps_of ceiling_of schedule_of new_target_set
  frozen_scenario raw opts =
      let blocks = blocks_of (personas_of raw.personas) raw.scenarios in
      record {
        name = raw.name;
        description = raw.description;
        allowed_domains = raw.allowed_domains;
        agent_count = at_least_one opts.agent_count;
        caps = caps_of ops raw.caps opts;
        ceiling = ceiling_of ops opts;
        cap_override = opts.cap_override;
        execution = record {
          mode = or_parallel (parse_mode raw.execution.mode);
          stop_on_error = raw.execution.stop_on_error;
        };
        blocks = blocks;
        targets = new_target_set (all_targets blocks) raw.allowed_domains;
        weight_basis = or_population (parse_weight_basis raw.weight_basis);
        schedule = schedule_of lib raw.schedule;
      }

  unfoldable pub validate : Raw F → Options → Errors F ⊎ Scenario F
  unfolding scenario_errors frozen_scenario
  validate raw opts = result (scenario_errors raw opts) (frozen_scenario raw opts)
