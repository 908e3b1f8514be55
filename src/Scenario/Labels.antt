-- ===== src/Scenario/Labels.antt =====
-- internal/scenario/enums.go and the parsers of enums in validate.go: the texts of a scenario's choices.
use phantom_traffic.Prelude.{◌≡◌, refl, ◌||◌, String, Option, none, some, if◌then◌else◌, str_eq}
use phantom_traffic.Protocols.Action.{
  Cause, cause_navigation, cause_sub_resource, cause_background, cause_control, cause_text,
  PacingMode, pacing_shaper_managed, pacing_self_paced, pacing_text,
}
use phantom_traffic.Engine.Selector.{RotationStrategy, rotation_sequential, rotation_random}
use phantom_traffic.Persona.Decode.{parse_cause, parse_pacing}
use phantom_traffic.Scenario.{
  ExecutionMode, exec_parallel, exec_sequential, WeightBasis, weight_by_vuser_population,
  weight_by_concurrency, weight_by_request_rate,
}

unfoldable pub rotation_text : RotationStrategy → String
rotation_text rotation_sequential = "sequential"
rotation_text rotation_random = "random"

unfoldable pub mode_text : ExecutionMode → String
mode_text exec_parallel = "parallel"
mode_text exec_sequential = "sequential"

unfoldable pub basis_text : WeightBasis → String
basis_text weight_by_vuser_population = "vuser_population"
basis_text weight_by_concurrency = "concurrency"
basis_text weight_by_request_rate = "request_rate"

unfoldable pub parse_rotation : String → Option RotationStrategy
parse_rotation s =
    if str_eq s "" || str_eq s "sequential"
    then some rotation_sequential
    else if str_eq s "random"
    then some rotation_random
    else none

unfoldable pub parse_mode : String → Option ExecutionMode
parse_mode s =
    if str_eq s "" || str_eq s "parallel"
    then some exec_parallel
    else if str_eq s "sequential"
    then some exec_sequential
    else none

unfoldable pub parse_weight_basis : String → Option WeightBasis
parse_weight_basis s =
    if str_eq s "" || str_eq s "vuser_population"
    then some weight_by_vuser_population
    else if str_eq s "concurrency"
    then some weight_by_concurrency
    else if str_eq s "request_rate"
    then some weight_by_request_rate
    else none

rotation_lem : (r : RotationStrategy) → parse_rotation (rotation_text r) ≡ some r
unfolding parse_rotation rotation_text
rotation_lem rotation_sequential = refl
rotation_lem rotation_random = refl

mode_lem : (m : ExecutionMode) → parse_mode (mode_text m) ≡ some m
unfolding parse_mode mode_text
mode_lem exec_parallel = refl
mode_lem exec_sequential = refl

basis_lem : (b : WeightBasis) → parse_weight_basis (basis_text b) ≡ some b
unfolding parse_weight_basis basis_text
basis_lem weight_by_vuser_population = refl
basis_lem weight_by_concurrency = refl
basis_lem weight_by_request_rate = refl

cause_lem : (c : Cause) → parse_cause (cause_text c) ≡ some c
unfolding parse_cause cause_text
cause_lem cause_navigation = refl
cause_lem cause_sub_resource = refl
cause_lem cause_background = refl
cause_lem cause_control = refl

pacing_lem : (p : PacingMode) → parse_pacing (pacing_text p) ≡ some p
unfolding parse_pacing pacing_text
pacing_lem pacing_shaper_managed = refl
pacing_lem pacing_self_paced = refl

-- The text of a choice, which logs and labels show, reads back as the choice in a scenario or a persona:
-- for the rotation, the execution mode, the weight basis, the cause and the pacing. So no two choices
-- of a kind share a text.
pub parse-text :
    (r : RotationStrategy) (m : ExecutionMode) (b : WeightBasis) (c : Cause) (p : PacingMode)
    → (parse_rotation (rotation_text r) ≡ some r)
      × (parse_mode (mode_text m) ≡ some m)
      × (parse_weight_basis (basis_text b) ≡ some b)
      × (parse_cause (cause_text c) ≡ some c)
      × (parse_pacing (pacing_text p) ≡ some p)
parse-text r m b c p = (rotation_lem r, mode_lem m, basis_lem b, cause_lem c, pacing_lem p)
