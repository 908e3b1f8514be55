-- ===== src/Tests/Traffic.antt =====
-- Runs of a scenario from its file to its traffic.
use phantom_traffic.Prelude.{
  ℕ, ◌+◌, ◌*◌, ◌≤◌, ◌≡◌, ◌↔◌, refl, Bool, true, false, ◌<◌, if◌then◌else◌, str_eq, List, [], ◌∷◌,
  none, some, inr, String, length, All, arith,
}
use phantom_traffic.Prelude.Int.{pos, int64, ◌+ℤ◌, ◌≤ℤ◌}
use phantom_traffic.Prelude.Text.{Bytes, cut, is_blank}
use phantom_traffic.Prelude.Dict.{get, put}
use phantom_traffic.Protocols.{Target}
use phantom_traffic.Behavior.Fingerprint.{new_fingerprint_pool}
use phantom_traffic.Behavior.Fingerprint.Checked.{IsConsistent, new_fingerprint_pool-IsConsistent}
use phantom_traffic.Behavior.Mix.{new_template_mix, pick, pick-wheel, wheel, whole}
use phantom_traffic.Behavior.Dist.{constant}
use phantom_traffic.Behavior.Burst.{renewal, new_renewal_burst, troughs, clone, clone-troughs}
use phantom_traffic.Persona.{Persona}
use phantom_traffic.Persona.Compile.{compile, frozen}
use phantom_traffic.Persona.Sound.{IsSound, compile-IsSound}
use phantom_traffic.Scenario.{Scenario}
use phantom_traffic.Scenario.Validate.{validate, frozen_scenario, ceiling_of}
use phantom_traffic.Scenario.Validate.Sound.{loaded, IsValid, validate-IsValid}
use phantom_traffic.Scenario.Validate.Enforced.{validate-IsBounded, validate-IsRamped}
use phantom_traffic.Safety.Caps.{
  validate_caps, append_int_violation, append_float_violation, default_ceiling, divided_by,
}
use phantom_traffic.Scenario.Labels.{parse_mode, parse_rotation, parse_weight_basis}
use phantom_traffic.Persona.Builtins.{load_builtins}
use phantom_traffic.Safety.Caps.Soundness.{IsBounded}
use phantom_traffic.Scenario.Windows.{parse_hhmm, hour, minute}
use phantom_traffic.Scenario.Windows.Written.{clock_text, parse_hhmm-clock_text}
use phantom_traffic.Protocols.Action.{cause_navigation, pacing_shaper_managed}
use phantom_traffic.Protocols.Allow.{permits, new_target_set, normalize_host}
use phantom_traffic.Protocols.Allow.Permits.{IsNamed, permits_iff}
use phantom_traffic.Behavior.Mix.{Template}
use phantom_traffic.Behavior.Selector.{RoundRobin}
use phantom_traffic.Behavior.Session.{Session, new_session}
use phantom_traffic.Behavior.Session.Steps.{round_robin, Within, round_robin-IsSafeSelector}
use phantom_traffic.Persona.{to_spec}
use phantom_traffic.Persona.Compile.{templates_of}
use phantom_traffic.Persona.Driven.{IsWalk, compiled_session-IsWalk}
use phantom_traffic.Prelude.Float.{seconds}
use phantom_traffic.Engine.Semaphore.{new_semaphore}
use phantom_traffic.Engine.Supervisor.{Tick, initial_limit, run_ramp_governor}
use phantom_traffic.Engine.Supervisor.Ramp.{IsRamped}
use phantom_traffic.Prelude.Clock.{Time}
use phantom_traffic.Scenario.{Block}
use phantom_traffic.Tests.Floats.{Toy, toy, toy_irrefl, times, over}
use phantom_traffic.Tests.Toys.{
  toy_rand, toy_math, toy_lib, chrome, clerk, toy_entries, toy_raw, toy_options,
}

abbrev pub worker : Persona Toy
worker = frozen toy_lib toy_rand toy_math toy (chrome ∷ []) clerk

compiled : compile toy_lib toy_rand toy_math toy (chrome ∷ []) clerk ≡ inr worker
unfolding compile frozen is_blank
compiled = refl

compile-IsSound_example : IsSound toy_lib toy_rand toy_math toy clerk worker
compile-IsSound_example =
    compile-IsSound toy_lib toy_rand toy_math toy (chrome ∷ []) clerk worker compiled

abbrev pub no_ip : Bytes → Bool
no_ip b = false

abbrev pub demo : Scenario Toy
demo =
    frozen_scenario toy_lib toy_rand toy_math toy no_ip (chrome ∷ [])
      (loaded toy_lib toy_rand toy_math toy no_ip (chrome ∷ []) toy_entries worker) worker toy_raw
      toy_options

validated :
    validate toy_lib toy_rand toy_math toy no_ip
      (chrome ∷ [])
      (loaded toy_lib toy_rand toy_math toy no_ip (chrome ∷ []) toy_entries worker)
      worker
      toy_raw
      toy_options
    ≡ inr demo
unfolding validate frozen_scenario parse_mode load_builtins get validate_caps append_int_violation
    append_float_violation parse_rotation cut put int64 parse_weight_basis
validated = refl

validate-IsValid_example :
    IsValid toy_lib toy_rand toy_math toy no_ip
      (chrome ∷ [])
      toy_entries
      worker
      toy_raw
      toy_options
      demo
validate-IsValid_example =
    validate-IsValid toy_lib toy_rand toy_math toy no_ip (chrome ∷ []) toy_entries worker toy_raw
      toy_options demo validated

validate-IsBounded_example : IsBounded toy demo.caps (ceiling_of toy toy_options)
unfolding seconds times over ◌+ℤ◌ default_ceiling ceiling_of divided_by
validate-IsBounded_example =
    validate-IsBounded toy_lib toy_rand toy_math toy no_ip (chrome ∷ []) toy_entries worker toy_raw
      toy_options demo toy_irrefl (omega arith) refl refl refl validated

validate-IsRamped_example :
    All
      (λ (b : Block Toy).
        (b.concurrency ≤ℤ demo.caps.max_concurrent_sessions)
        × ((start : Time) (ts : List Tick)
            → IsRamped b.concurrency
                (run_ramp_governor toy b start ts (new_semaphore (initial_limit toy b)))))
      demo.blocks
validate-IsRamped_example =
    validate-IsRamped toy_lib toy_rand toy_math toy no_ip (chrome ∷ []) toy_entries worker toy_raw
      toy_options demo validated

permits_iff_example :
    (permits (new_target_set [] ("Example.org" ∷ [])) "example.ORG:443" ≡ true)
    ↔ IsNamed [] ("Example.org" ∷ []) (normalize_host "example.ORG:443")
permits_iff_example = permits_iff [] ("Example.org" ∷ []) "example.ORG:443"

parse_hhmm-clock_text_example : parse_hhmm (clock_text 9 5) ≡ some (9 * hour + 5 * minute)
parse_hhmm-clock_text_example = parse_hhmm-clock_text 9 5 (omega arith) (omega arith)

abbrev page : Template Toy
page = record {
  protocol = "http";
  verb = "get";
  cause = cause_navigation;
  pacing = pacing_shaper_managed;
  weight = some (pos 1);
}

made : new_template_mix toy_rand toy_math toy (page ∷ page ∷ []) ≡ inr worker.mix
unfolding new_template_mix frozen
made = refl

pick-wheel_example :
    pick toy_rand toy_math toy worker.mix 0
    ≡ (some (wheel toy_rand toy_math toy (some (pos 0)) (some (pos 0)) page (page ∷ [])), 1)
unfolding whole times ◌+ℤ◌
pick-wheel_example = pick-wheel toy_rand toy_math toy page (page ∷ []) worker.mix 0 made

clone-troughs_example :
    2
      * troughs toy_rand toy_math toy
          (1 ∷ 5 ∷ 9 ∷ [])
          (clone (renewal (new_renewal_burst (constant (pos 3)) (constant (pos 3)))))
          0
    ≤ 3
clone-troughs_example =
    clone-troughs toy_rand toy_math toy (1 ∷ 5 ∷ 9 ∷ [])
      (renewal (new_renewal_burst (constant (pos 3)) (constant (pos 3)))) 0

pool_made : new_fingerprint_pool (chrome ∷ []) ≡ inr (chrome ∷ [])
unfolding new_fingerprint_pool
pool_made = refl

new_fingerprint_pool-IsConsistent_example :
    (chrome ∷ [] ≡ chrome ∷ []) × (0 < length (chrome ∷ [])) × All IsConsistent (chrome ∷ [])
new_fingerprint_pool-IsConsistent_example =
    new_fingerprint_pool-IsConsistent (chrome ∷ []) (chrome ∷ []) pool_made

abbrev site : Target
site = record { id = "example.com:80"; proto = "http"; addr = "example.com:80" }

abbrev IsSite : String → Target → Type 0
IsSite proto t = t ≡ site

abbrev robin : RoundRobin
robin = record { by_proto = ("http", site ∷ []) ∷ []; idx = [] }

robin-Within : Within IsSite robin
unfolding get
robin-Within proto = sites (str_eq "http" proto)
  where
    sites :
        (b : Bool)
        → All
            (IsSite proto)
            (elim (if b then some (site ∷ []) else none) [ none ↦ [] | some ts ↦ ts ])
    sites true = (refl, tt)
    sites false = tt

abbrev visit : Session RoundRobin ℕ Toy
visit = record {
  mix = worker.mix;
  think = constant (pos 2000000000);
  shaper = record {
    jitter_model = worker.jitter_model;
    burst = clone worker.burst;
    tod = worker.time_of_day;
  };
  session_shape = worker.session_shape;
  bounds = worker.bounds;
  sel = robin;
  rand = 2;
  fingerprint = some chrome;
  start = 100;
  max_len = pos 0;
  step = 0;
  last = none;
}

visiting :
    new_session round_robin toy_rand toy_math toy (to_spec worker robin) (some 100) (some 0)
    ≡ inr visit
unfolding new_session to_spec frozen
visiting = refl

compiled_session-IsWalk_example :
    (t : Template Toy) × (ts : List (Template Toy)) × (templates_of toy_lib toy_rand toy_math toy
        clerk.raw_mix
      ≡ t ∷ ts)
    × (made : new_template_mix toy_rand toy_math toy (t ∷ ts) ≡ inr worker.mix) × IsWalk round_robin
        toy_lib toy_rand toy_math toy IsSite
        (Within IsSite)
        (round_robin-IsSafeSelector IsSite)
        t
        ts
        worker.mix
        made
        (record { ctx = none; now = 200; result = none } ∷ [])
        visit
compiled_session-IsWalk_example =
    compiled_session-IsWalk round_robin toy_lib toy_rand toy_math toy IsSite (Within IsSite)
      (round_robin-IsSafeSelector IsSite) (chrome ∷ []) clerk worker robin (some 100) (some 0) visit
      (record { ctx = none; now = 200; result = none } ∷ []) compiled visiting robin-Within
