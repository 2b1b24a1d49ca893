-- ===== src/Compile/Coverage.antt =====
-- internal/goalcompile/coverage.go: ValidateCoverage, on the capabilities of
-- internal/config/scenarios.go. The trusted validators are the keys whose value is true.
pub mod Complete
use xgoal.Prelude.{
  ℕ, String, string_eq, Bool, true, false, not, ◌&&◌, ◌||◌, Option, none, some, List, [], ◌∷◌, ◌++◌,
  ◌==◌, contains, map, if◌then◌else◌,
}
use xgoal.Prelude.Checks.{first_error, refuse}
use xgoal.Compile.Proposal.{
  Contract, AcceptanceCriterion, CompileError, untrusted_validator, not_final, unknown_scenario,
  missing_business_validator, unmapped_scenario,
}
use xgoal.Compile.WorkGraph.{first_outside}

-- config.Scenario
pub record Scenario : Type 0 where
  pub id : String
  pub description : String
  pub steps : List String
  pub services : List String
  pub validators : List String
  pub artifact_paths : List String

-- config.ValidatorCapability; `kind` is the field Type
pub record ValidatorCapability : Type 0 where
  pub id : String
  pub description : String
  pub coverage : String
  pub kind : String
  pub phases : List String
  pub services : List String
  pub scenario_ids : List String

-- config.ValidationCapabilities
pub record ValidationCapabilities : Type 0 where
  pub validators : List ValidatorCapability
  pub scenarios : List Scenario
  pub required_scenario_ids : List String

-- the maps by id, in which the last entry of an id stays
unfoldable pub scenario_of : String → List Scenario → Option Scenario
scenario_of id [] = none
scenario_of id (s ∷ ss) = elim (scenario_of id ss) [
  | some last ↦ some last
  | none ↦ if s.id == id then some s else none
]

unfoldable pub capability_of : String → List ValidatorCapability → Option ValidatorCapability
capability_of id [] = none
capability_of id (v ∷ vs) = elim (capability_of id vs) [
  | some last ↦ some last
  | none ↦ if v.id == id then some v else none
]

abbrev pub known_scenarios : Option ValidationCapabilities → List Scenario
known_scenarios none = []
known_scenarios (some caps) = caps.scenarios

unfoldable pub supports_final : List ValidatorCapability → String → Bool
unfolding capability_of contains
supports_final vs id = elim (capability_of id vs) [
  | none ↦ false
  | some v ↦ contains "final" v.phases
]

unfoldable pub final_refused : Option ValidationCapabilities → String → Bool
unfolding supports_final
final_refused none id = false
final_refused (some caps) id = not (supports_final caps.validators id)

-- the loop over the validators of a criterion
unfoldable pub validators_error :
    List String → Option ValidationCapabilities → List String → Option CompileError
unfolding contains final_refused
validators_error trusted caps [] = none
validators_error trusted caps (id ∷ ids) =
    let rest = validators_error trusted caps ids in
    if not (contains id trusted)
    then some (untrusted_validator id)
    else if final_refused caps id
    then some (not_final id)
    else rest

-- the loop over the scenarios of a criterion
unfoldable pub scenarios_error : List Scenario → List String → List String → Option CompileError
unfolding scenario_of first_outside
scenarios_error known validators [] = none
scenarios_error known validators (id ∷ ids) = elim (scenario_of id known) [
  | none ↦ some (unknown_scenario id)
  | some s ↦ elim (first_outside missing_business_validator validators s.validators) [
    | some e ↦ some e
    | none ↦ scenarios_error known validators ids
  ]
]

-- the loop over the criteria
unfoldable pub coverage_error :
    List String → Option ValidationCapabilities → List AcceptanceCriterion → Option CompileError
unfolding validators_error scenarios_error first_error
coverage_error trusted caps [] = none
coverage_error trusted caps (c ∷ cs) = first_error (
    validators_error trusted caps c.validators
    ∷ scenarios_error (known_scenarios caps) c.validators c.scenario_ids
    ∷ coverage_error trusted caps cs
    ∷ [])

-- the keys of `covered` after the criteria
unfoldable pub covered_scenarios : List AcceptanceCriterion → List String
covered_scenarios [] = []
covered_scenarios (c ∷ cs) = c.scenario_ids ++ covered_scenarios cs

unfoldable pub required_error : Option ValidationCapabilities → List String → Option CompileError
unfolding first_outside
required_error none covered = none
required_error (some caps) covered =
    first_outside unmapped_scenario covered caps.required_scenario_ids

unfoldable pub validate_coverage :
    Contract → List String → Option ValidationCapabilities → Option CompileError
unfolding coverage_error required_error covered_scenarios first_error
validate_coverage contract trusted caps = first_error (
    coverage_error trusted caps contract.acceptance_criteria
    ∷ required_error caps (covered_scenarios contract.acceptance_criteria)
    ∷ [])
