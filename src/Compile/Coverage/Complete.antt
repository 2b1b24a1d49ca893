-- ===== src/Compile/Coverage/Complete.antt =====
-- What ValidateCoverage of internal/goalcompile/coverage.go makes sure of.
use xgoal.Prelude.{
  ◌≡◌, String, string_eq, false, Option, none, some, List, [], ◌∷◌, arith, All, inl, inr,
  Option-cases,
}
use xgoal.Prelude.Checks.{first_error-none}
use xgoal.Compile.Graph.Paths.{In}
use xgoal.Compile.Proposal.{Contract, AcceptanceCriterion, missing_business_validator}
use xgoal.Compile.WorkGraph.{first_outside}
use xgoal.Compile.WorkGraph.Sound.{first_outside-none}
use xgoal.Compile.Coverage.{
  Scenario, ValidationCapabilities, scenario_of, known_scenarios, final_refused, validators_error,
  scenarios_error, coverage_error, covered_scenarios, required_error, validate_coverage,
}

-- the validator is trusted, and can do the final validation if capabilities are given
abbrev pub IsUsable : List String → Option ValidationCapabilities → String → Type 0
IsUsable trusted caps id = In id trusted × (final_refused caps id ≡ false)

-- the scenario is known, and its validators are among those of the criterion
pub record IsMapped (known : List Scenario) (validators : List String) (id : String) : Type 0 where
  pub scenario : Scenario
  pub found : scenario_of id known ≡ some scenario
  pub asserted : All (λ v. In v validators) scenario.validators

abbrev pub IsCovered : List String → Option ValidationCapabilities → AcceptanceCriterion → Type 0
IsCovered trusted caps c =
    All (IsUsable trusted caps) c.validators
    × All (IsMapped (known_scenarios caps) c.validators) c.scenario_ids

abbrev pub required_ids : Option ValidationCapabilities → List String
required_ids none = []
required_ids (some caps) = caps.required_scenario_ids

validators-IsUsable :
    (trusted : List String) (caps : Option ValidationCapabilities) (ids : List String)
    → validators_error trusted caps ids ≡ none
    → All (IsUsable trusted caps) ids
unfolding validators_error
validators-IsUsable trusted caps [] h = tt
validators-IsUsable trusted caps (id ∷ ids) h =
    ((ground arith, ground arith), validators-IsUsable trusted caps ids (ground arith))

scenarios-IsMapped :
    (known : List Scenario) (validators ids : List String)
    → scenarios_error known validators ids ≡ none
    → All (IsMapped known validators) ids
unfolding scenarios_error
scenarios-IsMapped known validators [] h = tt
scenarios-IsMapped known validators (id ∷ ids) h = elim (Option-cases (scenario_of id known)) [
  | inl lost ↦ absurd (ground arith)
  | inr (s, found) ↦
      elim (Option-cases (first_outside missing_business_validator validators s.validators)) [
        | inl fine ↦ (
          record {
            scenario = s;
            found = found;
            asserted = first_outside-none missing_business_validator validators s.validators fine;
          },
          scenarios-IsMapped known validators ids (ground arith),
        )
        | inr (e, bad) ↦ absurd (ground arith)
      ]
]

criteria-IsCovered :
    (trusted : List String) (caps : Option ValidationCapabilities) (cs : List AcceptanceCriterion)
    → coverage_error trusted caps cs ≡ none
    → All (IsCovered trusted caps) cs
unfolding coverage_error
criteria-IsCovered trusted caps [] h = tt
criteria-IsCovered trusted caps (c ∷ cs) h =
    let checks =
      first_error-none
        (validators_error trusted caps c.validators
          ∷ scenarios_error (known_scenarios caps) c.validators c.scenario_ids
          ∷ coverage_error trusted caps cs
          ∷ [])
        h in
    (
      (
        validators-IsUsable trusted caps c.validators checks.0,
        scenarios-IsMapped (known_scenarios caps) c.validators c.scenario_ids checks.1.0,
      ),
      criteria-IsCovered trusted caps cs checks.1.1.0,
    )

required_covered :
    (caps : Option ValidationCapabilities) (covered : List String)
    → required_error caps covered ≡ none
    → All (λ id. In id covered) (required_ids caps)
unfolding required_error
required_covered none covered h = tt
required_covered (some caps) covered h = first_outside-none _ covered caps.required_scenario_ids h

-- Where ValidateCoverage returns no error, each validator of a criterion is trusted and, with
-- capabilities given, able to do the final validation; each scenario of a criterion is a known one
-- whose validators the criterion has; and each required scenario is one of some criterion.
pub coverage-IsCovered :
    (contract : Contract) (trusted : List String) (caps : Option ValidationCapabilities)
    → validate_coverage contract trusted caps ≡ none
    → All (IsCovered trusted caps) contract.acceptance_criteria
      × All (λ id. In id (covered_scenarios contract.acceptance_criteria)) (required_ids caps)
unfolding validate_coverage
coverage-IsCovered contract trusted caps h =
    let checks =
      first_error-none
        (coverage_error trusted caps contract.acceptance_criteria
          ∷ required_error caps (covered_scenarios contract.acceptance_criteria)
          ∷ [])
        h in
    (
      criteria-IsCovered trusted caps contract.acceptance_criteria checks.0,
      required_covered caps (covered_scenarios contract.acceptance_criteria) checks.1.0,
    )
