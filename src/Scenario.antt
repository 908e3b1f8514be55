-- ===== src/Scenario.antt =====
-- internal/scenario/scenario.go, raw.go and enums.go: a scenario as the YAML file gives it, the frozen
-- one, and the texts of its enums.
pub mod Labels
pub mod Hosts
pub mod Windows
pub mod Blocks
pub mod Validate
use phantom_traffic.Prelude.{ℕ, Bool, List, String, Option}
use phantom_traffic.Prelude.Int.{ℤ}
use phantom_traffic.Prelude.Clock.{Duration, Location}
use phantom_traffic.Protocols.{Target}
use phantom_traffic.Protocols.Allow.{TargetSet}
use phantom_traffic.Safety.Caps.{CapSpec, Ceiling}
use phantom_traffic.Engine.Pacing.{RampPlan}
use phantom_traffic.Engine.Selector.{RotationStrategy}
use phantom_traffic.Persona.{RawPersona, Persona}

pub data ExecutionMode : Type 0 where
  exec_parallel exec_sequential : ExecutionMode

pub data WeightBasis : Type 0 where
  weight_by_vuser_population weight_by_concurrency weight_by_request_rate : WeightBasis

-- `days` has seven entries, Sunday first. The ends are nanoseconds since local midnight.
pub record ScheduleWindow : Type 0 where
  pub days : List Bool
  pub start : ℕ
  pub end : ℕ

pub record Schedule : Type 0 where
  pub loc : Location
  pub windows : List ScheduleWindow

pub record Execution : Type 0 where
  pub mode : ExecutionMode
  pub stop_on_error : Bool

pub record Block (F : Type 0) : Type 0 where
  pub id : String
  pub protocol : String
  pub targets : List Target
  pub rotation : RotationStrategy
  pub rotation_interval : Duration
  pub allow_insecure : Bool
  pub allow_insecure_reason : String
  pub persona : Persona F
  pub concurrency : ℤ
  pub duration : Duration
  pub weight : ℕ
  pub ramp : RampPlan

pub record Scenario (F : Type 0) : Type 0 where
  pub name : String
  pub description : String
  pub allowed_domains : List String
  pub agent_count : ℤ
  pub caps : CapSpec F
  pub ceiling : Ceiling F
  pub cap_override : Bool
  pub execution : Execution
  pub blocks : List (Block F)
  pub targets : TargetSet
  pub weight_basis : WeightBasis
  pub schedule : Schedule

pub record RawExecution : Type 0 where
  pub mode : String
  pub stop_on_error : Bool

pub record RawRamp : Type 0 where
  pub up_seconds : ℤ
  pub start_concurrency : ℤ

pub record RawWindow : Type 0 where
  pub days : List String
  pub start : String
  pub end : String

pub record RawSchedule : Type 0 where
  pub timezone : String
  pub windows : List RawWindow

pub record RawBlock : Type 0 where
  pub id : String
  pub protocol : String
  pub targets : List String
  pub target_rotation : String
  pub target_rotation_interval_seconds : ℤ
  pub allow_insecure : Bool
  pub allow_insecure_reason : String
  pub persona : String
  pub concurrency : ℤ
  pub duration_minutes : ℤ
  pub weight : ℕ
  pub ramp : Option RawRamp

-- RawCaps has the fields of CapSpec.
pub record Raw (F : Type 0) : Type 0 where
  pub name : String
  pub description : String
  pub allowed_domains : List String
  pub caps : CapSpec F
  pub execution : RawExecution
  pub scenarios : List RawBlock
  pub personas : List (RawPersona F)
  pub weight_basis : String
  pub schedule : Option RawSchedule
