-- ===== src/Scenario/Validate/Sound.antt =====
-- internal/scenario/validate.go, Validate: what the scenario that it returns is.
use phantom_traffic.Prelude.{
  ◌≡◌, refl, subst, ◌↔◌, Bool, true, false, List, [], ◌∷◌, ◌⊎◌, inl, inr, String, All,
}
use phantom_traffic.Prelude.Int.{ℤ}
use phantom_traffic.Prelude.Dict.{Dict, AllValues, get-AllValues}
use phantom_traffic.Prelude.Float.{Float64}
use phantom_traffic.Prelude.Text.{Bytes, codes, trim_space, is_blank}
use phantom_traffic.Pterr.Fields.{append-nil_parts, result-inr, add_if-nil}
use phantom_traffic.Protocols.Allow.{permits, normalize_host}
use phantom_traffic.Protocols.Allow.Permits.{IsNamed, permits_iff}
use phantom_traffic.Safety.Caps.{effective, validate_caps}
use phantom_traffic.Behavior.{Rand, Math}
use phantom_traffic.Behavior.Fingerprint.{Fingerprint}
use phantom_traffic.Persona.{Library, Persona}
use phantom_traffic.Persona.Builtins.{
  LoadErr, Entry, load_builtins, IsCompiled, load_builtins-AllValues,
}
use phantom_traffic.Scenario.{Scenario, Raw, RawBlock, Block}
use phantom_traffic.Scenario.Hosts.Sound.{IsHost}
use phantom_traffic.Scenario.Windows.Sound.{IsWindow, schedule_of-IsWindow}
use phantom_traffic.Scenario.Blocks.{Options}
use phantom_traffic.Scenario.Blocks.Sound.{IsSoundBlock}
use phantom_traffic.Scenario.Validate.Parts.{
  cap_errors-nil, AreDistinct, ids_of, customs-AreCompiled, Each, blocks_lem, domain_errors-nil,
}
use phantom_traffic.Scenario.Validate.{
  no_block, mode_errors, basis_errors, all_targets, ceiling_of, caps_of, builtins_or_empty,
  builtin_errors, custom_errors, personas_of, scenario_errors, frozen_scenario, validate,
}

module _ {R F : Type 0} (lib : Library) (rng : Rand R F) (math : Math F) (ops : Float64 F)
    (is_ip : Bytes → Bool) (table : List Fingerprint) (entries : List (Entry F))
    (zero : Persona F) where
  abbrev pub loaded : LoadErr ⊎ Dict (Persona F)
  loaded = load_builtins lib rng math ops table entries

  -- The personas that a block can name.
  abbrev pub in_reach : Raw F → Dict (Persona F)
  unfolding personas_of
  in_reach raw = personas_of lib rng math ops is_ip table loaded zero raw.personas

  abbrev pub IsRunnable : Raw F → Options → ℤ → RawBlock → Block F → Type 0
  IsRunnable raw opts max rb b =
      IsSoundBlock lib is_ip opts (in_reach raw) max rb b
      × IsCompiled lib rng math ops table b.persona

  -- What Validate promises of the scenario that it returns.
  pub record IsValid (raw : Raw F) (opts : Options) (sc : Scenario F) : Type 0 where
    pub named : (sc.name ≡ raw.name) × (is_blank (codes sc.name) ≡ false)
    pub some_block : no_block raw.scenarios ≡ false
    pub runnable :
        Each lib rng math ops is_ip table loaded zero
          (IsRunnable raw opts sc.caps.max_concurrent_sessions)
          raw.scenarios
          sc.blocks
    pub distinct : AreDistinct (ids_of raw.scenarios)
    pub declared : validate_caps ops raw.caps sc.ceiling opts.cap_override ≡ []
    pub divided : sc.ceiling ≡ ceiling_of ops opts
    pub in_force : sc.caps ≡ effective ops raw.caps sc.ceiling
    pub domains : All (λ d. IsHost is_ip (codes (trim_space d))) sc.allowed_domains
    pub allowed :
        (host : String)
        → (permits sc.targets host ≡ true)
          ↔ IsNamed (all_targets sc.blocks) sc.allowed_domains (normalize_host host)
    pub daily : All IsWindow sc.schedule.windows

  builtins-AllValues :
      (o : LoadErr ⊎ Dict (Persona F))
      → loaded ≡ o
      → AllValues (IsCompiled lib rng math ops table) (builtins_or_empty o)
  builtins-AllValues (inl e) h = tt
  builtins-AllValues (inr out) h = load_builtins-AllValues lib rng math ops table entries out h

  in_reach-AllValues : (raw : Raw F) → AllValues (IsCompiled lib rng math ops table) (in_reach raw)
  unfolding personas_of
  in_reach-AllValues raw =
      customs-AreCompiled lib rng math ops is_ip table loaded zero raw.personas
        (builtins_or_empty loaded) (builtins-AllValues loaded refl)

  with_personas :
      (raw : Raw F) (opts : Options) (max : ℤ) (rbs : List RawBlock) (bs : List (Block F))
      → Each lib rng math ops is_ip table loaded zero
          (IsSoundBlock lib is_ip opts (in_reach raw) max)
          rbs
          bs
      → Each lib rng math ops is_ip table loaded zero (IsRunnable raw opts max) rbs bs
  with_personas raw opts max [] [] h = tt
  with_personas raw opts max [] (b ∷ bs) h = h
  with_personas raw opts max (rb ∷ rbs) [] h = h
  with_personas raw opts max (rb ∷ rbs) (b ∷ bs) h = (
    (
      h.0,
      get-AllValues (IsCompiled lib rng math ops table) _ (in_reach raw) b.persona
          (in_reach-AllValues raw) h.0.resolved,
    ),
    with_personas raw opts max rbs bs h.1,
  )

  frozen_scenario-IsValid :
      (raw : Raw F) (opts : Options)
      → scenario_errors lib rng math ops is_ip table loaded zero raw opts ≡ []
      → IsValid raw opts (frozen_scenario lib rng math ops is_ip table loaded zero raw opts)
  unfolding scenario_errors frozen_scenario caps_of personas_of
  frozen_scenario-IsValid raw opts e0 =
      let (name, e1) = append-nil_parts _ _ e0 in
      let (given, e2) = append-nil_parts _ _ e1 in
      let (mode, e3) =
        append-nil_parts (mode_errors lib rng math ops is_ip table loaded zero raw.execution.mode) _
          e2 in
      let (builtin, e4) = append-nil_parts (builtin_errors loaded) _ e3 in
      let (custom, e5) =
        append-nil_parts (custom_errors lib rng math ops is_ip table loaded zero 0 raw.personas) _
          e4 in
      let (caps, e6) = append-nil_parts _ _ e5 in
      let (blocks, e7) = append-nil_parts _ _ e6 in
      let (domains, e8) = append-nil_parts _ _ e7 in
      let (basis, schedule) =
        append-nil_parts (basis_errors lib rng math ops is_ip table loaded zero raw.weight_basis) _
          e8 in
      let (each, unseen, distinct) =
        blocks_lem lib rng math ops is_ip table loaded zero opts (in_reach raw)
          (caps_of ops raw.caps opts) 0 [] raw.scenarios blocks in
      record {
        named = (refl, add_if-nil _ _ _ name);
        some_block = add_if-nil _ _ _ given;
        runnable = with_personas raw opts _ raw.scenarios _ each;
        distinct = distinct;
        declared = cap_errors-nil _ caps;
        divided = refl;
        in_force = refl;
        domains =
            domain_errors-nil lib rng math ops is_ip table loaded zero 0 raw.allowed_domains
              domains;
        allowed = λ host. permits_iff _ raw.allowed_domains host;
        daily = schedule_of-IsWindow lib raw.schedule schedule;
      }

  -- A scenario that Validate returns keeps its promises. Its name is not blank, it has a block, and no
  -- two blocks share an ID. Every block is sound: a name that is not blank, a known protocol, a target
  -- for each address of the file and at least one, each with an address that has no scheme, no
  -- credentials, a valid host and a port in range; a concurrency from 1 to the cap in force, a weight
  -- above 0, a duration of at least a minute in the file, a ramp that starts between 1 and the
  -- concurrency and ends within the duration; insecure transport only with the invocation's flag and a
  -- reason; and the persona of its name, which Compile made from a built-in or from the scenario's own.
  -- The declared caps pass the check against the ceiling divided by the agents, and the caps in force
  -- are the effective ones under it. The allowed domains are hosts. The target set permits exactly the
  -- hosts of the blocks' targets and the allowed domains. Every window of the schedule closes after it
  -- opens and within its day.
  pub validate-IsValid :
      (raw : Raw F) (opts : Options) (sc : Scenario F)
      → validate lib rng math ops is_ip table loaded zero raw opts ≡ inr sc
      → IsValid raw opts sc
  unfolding validate
  validate-IsValid raw opts sc h =
      let (none_found, same) = result-inr _ _ sc h in
      subst (IsValid raw opts) same (frozen_scenario-IsValid raw opts none_found)
