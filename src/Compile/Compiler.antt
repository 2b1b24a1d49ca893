-- ===== src/Compile/Compiler.antt =====
-- Compile of internal/goalcompile/compile.go.
pub mod Sound
use xgoal.Prelude.{
  ℕ, String, string_eq, Bool, true, false, not, ◌||◌, Option, none, some, List, [], ◌∷◌, ◌==◌,
  contains, if◌then◌else◌,
}
use xgoal.Prelude.Checks.{first_error}
use xgoal.Prelude.Exec.{Result, ok, err}
use xgoal.Domain.Model.{WorkItem}
use xgoal.Compile.Texts.{safe_id}
use xgoal.Compile.Proposal.{
  Contract, Plan, PlanWork, CompileError, CompileCode, invalid_identities, several_capabilities,
  not_change, hash_failed, contract_error, normalize_contract, normalize_plan,
}
use xgoal.Compile.WorkGraph.{WorkDependency, first_outside, compile_plan}
use xgoal.Compile.Coverage.{ValidatorCapability, ValidationCapabilities, validate_coverage}
use xgoal.Compile.Generated.{Ready, prepare_generated}

pub record Compiled : Type 0 where
  pub contract : Contract
  pub contract_hash : String
  pub plan_hash : String
  pub work_items : List WorkItem
  pub dependencies : List WorkDependency

-- the keys of changeValidators
unfoldable pub change_validators : List ValidatorCapability → List String
unfolding contains
change_validators [] = []
change_validators (v ∷ vs) =
    let rest = change_validators vs in if contains "change" v.phases then v.id ∷ rest else rest

-- the loop over the work items and their validators
unfoldable pub all_change : List String → List PlanWork → Option CompileError
unfolding first_outside first_error
all_change ids [] = none
all_change ids (w ∷ ws) =
    first_error (first_outside not_change ids w.validators ∷ all_change ids ws ∷ [])

unfoldable pub change_error : Option ValidationCapabilities → List PlanWork → Option CompileError
unfolding change_validators all_change
change_error none works = none
change_error (some caps) works = all_change (change_validators caps.validators) works

-- capabilities[0] of the variadic argument; a nil pointer is `none`
unfoldable pub single :
    List (Option ValidationCapabilities) → Result CompileError (Option ValidationCapabilities)
single [] = ok none
single (caps ∷ []) = ok caps
single (caps ∷ more ∷ rest) = err several_capabilities

module _ (code : CompileCode) (goal_id revision_id plan_id : String) where
  -- the rest of Compile, once the proposal is prepared
  unfoldable pub compile_ready : Ready → Result CompileError Compiled
  unfolding first_error validate_coverage change_error compile_plan normalize_plan
  compile_ready r =
      elim (first_error (
        validate_coverage r.contract r.allowed r.capabilities
        ∷ change_error r.capabilities r.plan.work_items
        ∷ [])) [
          | some e ↦ err e
          | none ↦ elim (code.contract_hash r.contract) [
            | none ↦ err hash_failed
            | some contract_hash ↦
                elim (compile_plan code revision_id plan_id r.allowed r.contract r.plan) [
                  | err e ↦ err e
                  | ok (works, dependencies) ↦ elim (code.plan_hash (normalize_plan r.plan)) [
                    | none ↦ err hash_failed
                    | some plan_hash ↦ ok (record {
                      contract = r.contract;
                      contract_hash = contract_hash;
                      plan_hash = plan_hash;
                      work_items = works;
                      dependencies = dependencies;
                    })
                  ]
                ]
          ]
        ]

  -- from the checked contract to the prepared proposal
  unfoldable pub prepare :
      Contract
      → Plan
      → List String
      → List (Option ValidationCapabilities)
      → Result CompileError Ready
  unfolding contract_error single prepare_generated
  prepare c p trusted capabilities = elim (contract_error code c) [
    | some e ↦ err e
    | none ↦ elim (single capabilities) [
      | err e ↦ err e
      | ok caps ↦ prepare_generated goal_id c p trusted caps
    ]
  ]

  unfoldable pub compile :
      Contract
      → Plan
      → List String
      → List (Option ValidationCapabilities)
      → Result CompileError Compiled
  unfolding safe_id normalize_contract prepare compile_ready
  compile c p trusted capabilities =
      elim (not (safe_id goal_id) || not (safe_id revision_id) || not (safe_id plan_id)) [
        | true ↦ err invalid_identities
        | false ↦ elim (prepare (normalize_contract c) p trusted capabilities) [
          | err e ↦ err e
          | ok r ↦ compile_ready r
        ]
      ]
