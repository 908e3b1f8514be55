-- ===== src/Persona.antt =====
-- internal/persona/raw.go and persona.go: a persona as the YAML file gives it, and the frozen one. The
-- parsers of durations and of time zones and the quoting of fmt are an interface.
pub mod Decode
pub mod Compile
pub mod Builtins
pub mod Sound
pub mod Driven
use phantom_traffic.Prelude.{ℕ, String, List, some, ◌⊎◌}
use phantom_traffic.Prelude.Clock.{Duration, Location}
use phantom_traffic.Behavior.Dist.{Distribution, JitterModel}
use phantom_traffic.Behavior.Mix.{TemplateMix}
use phantom_traffic.Behavior.Burst.{BurstModel, clone}
use phantom_traffic.Behavior.Shaper.{TimeOfDay}
use phantom_traffic.Behavior.Fingerprint.{Fingerprint}
use phantom_traffic.Behavior.Selector.{BranchBounds}
use phantom_traffic.Behavior.Session.{SessionShape, SessionSpec}

-- time.ParseDuration, time.LoadLocation and strconv.Quote: an error is its text.
pub record Library : Type 0 where
  pub parse_duration : String → String ⊎ Duration
  pub load_location : String → String ⊎ Location
  pub quote : String → String

pub record RawDist (F : Type 0) : Type 0 where
  pub kind : String
  pub d : String
  pub min : String
  pub max : String
  pub mean : String
  pub std_dev : String
  pub mu : F
  pub sigma : F
  pub scale : String

pub record RawJitter (F : Type 0) : Type 0 where
  pub kind : String
  pub fraction : F

pub record RawBurst (F : Type 0) : Type 0 where
  pub active : RawDist F
  pub idle : RawDist F

pub record RawCurve (F : Type 0) : Type 0 where
  pub location : String
  pub week_day : List F
  pub weekend : List F

pub record RawShape (F : Type 0) : Type 0 where
  pub max_length : RawDist F
  pub inter_task : RawDist F
  pub abandon : F

pub record RawTemplate (F : Type 0) : Type 0 where
  pub protocol : String
  pub verb : String
  pub cause : String
  pub pacing : String
  pub weight : F

pub record RawPersona (F : Type 0) : Type 0 where
  pub name : String
  pub think_time : RawDist F
  pub raw_jitter : RawJitter F
  pub raw_burst : RawBurst F
  pub time_of_day : RawCurve F
  pub raw_session : RawShape F
  pub raw_mix : List (RawTemplate F)
  pub fingerprints : String

pub record Persona (F : Type 0) : Type 0 where
  pub name : String
  pub mix : TemplateMix F
  pub think_time : Distribution F
  pub jitter_model : JitterModel F
  pub burst : BurstModel F
  pub time_of_day : TimeOfDay F
  pub prints : List Fingerprint
  pub session_shape : SessionShape F
  pub bounds : BranchBounds

unfoldable pub to_spec : {S F : Type 0} → Persona F → S → SessionSpec S F
to_spec p selector = record {
  mix = p.mix;
  think_time = some p.think_time;
  jitter_model = some p.jitter_model;
  burst = some (clone p.burst);
  time_of_day = some p.time_of_day;
  prints = some p.prints;
  session_shape = p.session_shape;
  bounds = p.bounds;
  selector = some selector;
}
