-- ===== src/Compile/Generated.antt =====
-- internal/goalcompile/generated.go: prepareGenerated. What the source changes in place on its own
-- copies is returned.
pub mod Allowed
pub mod Renamed
use Prim.Native.String.{◌++◌ as ◌<>◌}
use text.Mathlib.Text.{starts_with}
use xgoal.Prelude.{
  ℕ, ◌+◌, String, string_eq, Bool, true, false, not, ◌||◌, Option, none, some, List, [], ◌∷◌, ◌++◌,
  ◌==◌, nat_eq, contains, map, is_empty, if◌then◌else◌,
}
use xgoal.Prelude.Exec.{Result, ok, err}
use xgoal.Compile.Proposal.{
  Contract, AcceptanceCriterion, Plan, PlanWork, Generated, CompileError, replaces_validator,
  namespace_collision, covers_nothing, generated_refused, generated_valid, normalize_plan,
}
use xgoal.Compile.Coverage.{ValidatorCapability, ValidationCapabilities}

-- the plan, the contract's criteria, the allowed validators and the capabilities of the loop
pub record Prepared : Type 0 where
  pub criteria : List AcceptanceCriterion
  pub works : List PlanWork
  pub allowed : List String
  pub capabilities : Option ValidationCapabilities

unfoldable pub namespaced : String → String → String
namespaced goal_id old = if starts_with old (goal_id <> "__") then old else (goal_id <> "__") <> old

-- the ids with one put in place of another, and how many were replaced
unfoldable pub renamed : String → String → List String → List String
renamed old id [] = []
renamed old id (v ∷ vs) = (if v == old then id else v) ∷ renamed old id vs

unfoldable pub occurrences : String → List String → ℕ
occurrences old [] = 0
occurrences old (v ∷ vs) = (if v == old then 1 else 0) + occurrences old vs

unfoldable pub in_criteria : String → List AcceptanceCriterion → ℕ
unfolding occurrences
in_criteria old [] = 0
in_criteria old (c ∷ cs) = occurrences old c.validators + in_criteria old cs

unfoldable pub in_works : String → List PlanWork → ℕ
unfolding occurrences
in_works old [] = 0
in_works old (w ∷ ws) = occurrences old w.validators + in_works old ws

abbrev pub generated_capability : Generated → ValidatorCapability
generated_capability g = record {
  id = g.id;
  description = g.description;
  coverage = "generated";
  kind = "command";
  phases = "change" ∷ "final" ∷ [];
  services = [];
  scenario_ids = [];
}

abbrev pub with_capability :
    Generated → Option ValidationCapabilities → Option ValidationCapabilities
with_capability g none = none
with_capability g (some caps) =
    some (record caps { validators = caps.validators ++ (generated_capability g ∷ []) })

-- what one turn of the loop leaves, where it does not return an error
unfoldable pub prepare_one : String → Generated → Prepared → Prepared
unfolding renamed
prepare_one id g m = record {
  criteria =
      map (λ (c : AcceptanceCriterion). record c { validators = renamed g.id id c.validators })
        m.criteria;
  works = map (λ (w : PlanWork). record w { validators = renamed g.id id w.validators }) m.works;
  allowed = id ∷ m.allowed;
  capabilities = with_capability (record g { id = id }) m.capabilities;
}

-- the loop over the generated validators, on the project's trusted ones
unfoldable pub prepare_each :
    String
    → List String
    → List Generated
    → Prepared
    → Result CompileError (List Generated × Prepared)
unfolding namespaced contains in_criteria in_works prepare_one
prepare_each goal_id trusted [] m = ok ([], m)
prepare_each goal_id trusted (g ∷ gs) m =
    let id = namespaced goal_id g.id in
    elim (contains g.id trusted) [
      | true ↦ err (replaces_validator g.id)
      | false ↦ elim (contains id m.allowed) [
        | true ↦ err (namespace_collision id)
        | false ↦ elim (in_criteria g.id m.criteria == 0 || in_works g.id m.works == 0) [
          | true ↦ err (covers_nothing g.id)
          | false ↦ elim (prepare_each goal_id trusted gs (prepare_one id g m)) [
            | err e ↦ err e
            | ok (rest, m') ↦ ok (record g { id = id } ∷ rest, m')
          ]
        ]
      ]
    ]

-- what prepareGenerated returns
pub record Ready : Type 0 where
  pub contract : Contract
  pub plan : Plan
  pub allowed : List String
  pub capabilities : Option ValidationCapabilities

-- the checks after the loop
unfoldable pub install : Contract → Plan → List Generated × Prepared → Result CompileError Ready
unfolding generated_valid
install c p (gs, m) = elim (generated_valid gs) [
  | false ↦ err generated_refused
  | true ↦ ok (record {
    contract = record c { generated_validators = gs; acceptance_criteria = m.criteria };
    plan = record p { work_items = m.works };
    allowed = m.allowed;
    capabilities = m.capabilities;
  })
]

unfoldable pub prepare_generated :
    String
    → Contract
    → Plan
    → List String
    → Option ValidationCapabilities
    → Result CompileError Ready
unfolding generated_valid prepare_each install normalize_plan
prepare_generated goal_id c p trusted caps =
    let q = normalize_plan p in
    elim (generated_valid c.generated_validators) [
      | false ↦ err generated_refused
      | true ↦ elim (is_empty c.generated_validators) [
        | true ↦ ok (record { contract = c; plan = p; allowed = trusted; capabilities = caps })
        | false ↦
            elim (prepare_each goal_id trusted c.generated_validators (record {
              criteria = c.acceptance_criteria;
              works = q.work_items;
              allowed = trusted;
              capabilities = caps;
            })) [ err e ↦ err e | ok done ↦ install c q done ]
      ]
    ]
