-- ===== src/Tests/Toys.antt =====
-- Stand-ins for what a scenario needs from outside: a random source, math, the parsers of the standard
-- library, and a scenario with one block.
use phantom_traffic.Prelude.{ℕ, suc, Bool, true, false, List, [], ◌∷◌, ◌++◌, none, some, inr}
use phantom_traffic.Prelude.Int.{pos}
use phantom_traffic.Prelude.Text.{codes}
use phantom_traffic.Safety.Caps.{CapSpec}
use phantom_traffic.Behavior.{Rand, Math}
use phantom_traffic.Behavior.Fingerprint.{Fingerprint}
use phantom_traffic.Prelude.Clock.{utc}
use phantom_traffic.Persona.{Library, RawPersona, RawDist, RawTemplate}
use phantom_traffic.Persona.Builtins.{Entry}
use phantom_traffic.Scenario.{Raw, RawBlock, RawWindow}
use phantom_traffic.Scenario.Blocks.{Options}
use phantom_traffic.Tests.Floats.{Toy}

-- It counts its draws, and always draws the least.
abbrev pub toy_rand : Rand ℕ Toy
toy_rand = record {
  float64 = λ r. (some (pos 0), suc r);
  norm_float64 = λ r. (some (pos 0), suc r);
  exp_float64 = λ r. (some (pos 1), suc r);
  int_n = λ n r. (0, suc r);
  split = λ r. (suc r, suc r);
}

abbrev pub is_missing : Toy → Bool
is_missing none = true
is_missing (some a) = false

abbrev pub toy_math : Math Toy
toy_math = record { exp = λ x. x; is_nan = is_missing; is_inf = λ x. false }

abbrev pub toy_lib : Library
toy_lib = record {
  parse_duration = λ s. inr (pos 2000000000);
  load_location = λ s. inr utc;
  quote = λ s. s;
}

abbrev pub chrome : Fingerprint
chrome = record {
  user_agent = codes "Mozilla/5.0 Chrome/120.0";
  sec_ch_ua = codes "Chromium;" ++ 118 ∷ 61 ∷ 34 ∷ 49 ∷ 50 ∷ 48 ∷ 34 ∷ [];
  sec_ch_ua_platform = codes "Linux";
  accept_language = codes "en";
}

abbrev pub no_dist : RawDist Toy
no_dist = record {
  kind = "";
  d = "";
  min = "";
  max = "";
  mean = "";
  std_dev = "";
  mu = none;
  sigma = none;
  scale = "";
}

abbrev pub two_seconds : RawDist Toy
two_seconds = record {
  kind = "constant";
  d = "2s";
  min = "";
  max = "";
  mean = "";
  std_dev = "";
  mu = none;
  sigma = none;
  scale = "";
}

abbrev pub get_page : RawTemplate Toy
get_page = record {
  protocol = "http";
  verb = "get";
  cause = "";
  pacing = "";
  weight = some (pos 1);
}

abbrev pub clerk : RawPersona Toy
clerk = record {
  name = "office-worker";
  think_time = two_seconds;
  raw_jitter = record { kind = ""; fraction = some (pos 0) };
  raw_burst = record { active = two_seconds; idle = two_seconds };
  time_of_day = record { location = ""; week_day = []; weekend = [] };
  raw_session = record { max_length = no_dist; inter_task = no_dist; abandon = some (pos 0) };
  raw_mix = get_page ∷ get_page ∷ [];
  fingerprints = "default";
}

abbrev pub toy_entries : List (Entry Toy)
toy_entries = record { name = "office.yaml"; decoded = inr clerk } ∷ []

abbrev pub web : RawBlock
web = record {
  id = "web";
  protocol = "http";
  targets = "example.com:80" ∷ [];
  target_rotation = "";
  target_rotation_interval_seconds = pos 0;
  allow_insecure = false;
  allow_insecure_reason = "";
  persona = "";
  concurrency = pos 2;
  duration_minutes = pos 5;
  weight = 0;
  ramp = some (record { up_seconds = pos 60; start_concurrency = pos 1 });
}

abbrev pub no_caps : CapSpec Toy
no_caps = record {
  per_target_rps = some (pos 0);
  global_rps = some (pos 0);
  max_concurrent_sessions = pos 0;
  total_request_budget = pos 0;
  streaming_byte_rate_kbps = pos 0;
  concurrent_streams = pos 0;
  per_session_max_duration_seconds = pos 0;
  per_session_max_actions = pos 0;
}

abbrev pub office_hours : RawWindow
office_hours = record { days = "mon" ∷ "tue" ∷ []; start = "09:00"; end = "17:00" }

abbrev pub toy_raw : Raw Toy
toy_raw = record {
  name = "demo";
  description = "";
  allowed_domains = "example.org" ∷ [];
  caps = no_caps;
  execution = record { mode = ""; stop_on_error = false };
  scenarios = web ∷ [];
  personas = [];
  weight_basis = "";
  schedule = some (record { timezone = "UTC"; windows = office_hours ∷ [] });
}

abbrev pub toy_options : Options
toy_options = record { allow_insecure = false; cap_override = false; agent_count = pos 1 }
