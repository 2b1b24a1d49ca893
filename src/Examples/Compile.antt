-- ===== src/Examples/Compile.antt =====
-- Tests and examples of the goal compiler.
use xgoal.Prelude.{
  ◌≡◌, refl, String, string_eq, Bool, true, false, none, some, List, [], ◌∷◌, ◌++◌, ◌==◌, ==_iff,
  contains, All,
}
use xgoal.Domain.Role
use xgoal.Policy.Paths.{Text, codes, text_eq, split}
use xgoal.Scope.Rules.{trim_slash}
use xgoal.Compile.Graph.{cyclic, reachable}
use xgoal.Compile.Graph.Cycles
use xgoal.Compile.Graph.Cycles.{cyclic_decides}
use xgoal.Compile.Graph.Reachable
use xgoal.Compile.Graph.Reachable.{reachable_decides}
use xgoal.Compile.Overlap.Disjoint.{IsLiteral, IsPlain}
use xgoal.Compile.Proposal.{
  Contract, AcceptanceCriterion, Plan, PlanWork, Generated, CompileCode, cyclic_graph,
  conflicting_scopes, normalize_contract,
}
use xgoal.Compile.WorkGraph.{dependents, keys_of, plan_error, compile_work}
use xgoal.Compile.WorkGraph.Sound.{closed_graph, AllSeparate, plan-AllSeparate}
use xgoal.Compile.Coverage.{ValidationCapabilities, validate_coverage, covered_scenarios}
use xgoal.Compile.Coverage.Complete.{IsCovered, coverage-IsCovered, required_ids}
use xgoal.Compile.Generated.{Ready, prepare_generated, generated_capability}
use xgoal.Compile.Generated.Allowed.{IsReady, prepare_generated-IsReady}
use xgoal.Compile.Compiler.{Compiled, compile}
use xgoal.Compile.Compiler.Sound.{IsSound, compile-IsSound}

abbrev item : String → List String → List String → PlanWork
item key depends_on write_scope = record {
  client_key = key;
  title = "title";
  objective = "objective";
  depends_on = depends_on;
  read_scope = "/src" ∷ [];
  write_scope = write_scope;
  acceptance_criteria = "works" ∷ [];
  validators = "unit" ∷ "smoke" ∷ [];
  recommended_role = Role.implementer;
  required = true;
}

-- "b" depends on "a", and "c" on nothing
abbrev items : List PlanWork
items =
    item "a" [] ("/src/a" ∷ [])
    ∷ item "b" ("a" ∷ []) ("/src/a" ∷ [])
    ∷ item "c" [] ("/docs/c" ∷ [])
    ∷ []

abbrev plan : Plan
plan = record { summary = "three items"; work_items = items }

abbrev criterion : AcceptanceCriterion
criterion = record {
  scenario_ids = "login" ∷ [];
  id = "works";
  statement = "it works";
  validators = "unit" ∷ "smoke" ∷ [];
  human_acceptance = false;
}

abbrev smoke : Generated
smoke = record {
  id = "smoke";
  description = "starts the program";
  runtime = "sh";
  script = "make smoke";
  timeout_seconds = 60;
}

abbrev contract : Contract
contract = record {
  generated_validators = smoke ∷ [];
  acceptance_inputs = [];
  summary = "summary";
  rationale = "rationale";
  in_scope = "code" ∷ [];
  out_of_scope = "deployment" ∷ [];
  constraints = "none" ∷ [];
  acceptance_criteria = criterion ∷ [];
  quality_attributes = "tested" ∷ [];
  human_gates = "release" ∷ [];
  completion_policy = record {
    require_all_required_items = true;
    require_no_blocking_findings = true;
    require_final_validation = true;
  };
}

abbrev capabilities : ValidationCapabilities
capabilities = record {
  validators =
      record {
        id = "unit";
        description = "unit tests";
        coverage = "configured";
        kind = "command";
        phases = "change" ∷ "final" ∷ [];
        services = [];
        scenario_ids = "login" ∷ [];
      }
      ∷ [];
  scenarios =
      record {
        id = "login";
        description = "a user logs in";
        steps = "open" ∷ [];
        services = [];
        validators = "unit" ∷ [];
        artifact_paths = [];
      }
      ∷ [];
  required_scenario_ids = "login" ∷ [];
}

abbrev code : CompileCode
code = record {
  to_lower = λ t. t;
  inputs_valid = λ _. true;
  opaque_id = λ _. "work_0";
  contract_hash = λ _. some "c0";
  plan_hash = λ _. some "p0";
}

abbrev both : List String
both = "unit" ∷ "smoke" ∷ []

cyclic_decides_example :
    Cycles.CycleAnswer
      (dependents items)
      (keys_of items)
      (closed_graph items)
      (cyclic (dependents items) (keys_of items))
cyclic_decides_example = cyclic_decides (dependents items) (keys_of items) (closed_graph items)

two_in_a_cycle :
    plan_error both contract (record {
      summary = "two";
      work_items = item "a" ("b" ∷ []) ("/x" ∷ []) ∷ item "b" ("a" ∷ []) ("/y" ∷ []) ∷ [];
    })
    ≡ some cyclic_graph
unfolding plan_error
two_in_a_cycle = refl

unordered_conflict :
    plan_error both contract (record {
      summary = "two";
      work_items = item "a" [] ("/x/*" ∷ []) ∷ item "b" [] ("/x/y" ∷ []) ∷ [];
    })
    ≡ some (conflicting_scopes "a")
unfolding plan_error
unordered_conflict = refl

-- a question mark is no star for the compiler
question_mark :
    plan_error both contract (record {
      summary = "two";
      work_items = item "a" [] ("/x/a?" ∷ []) ∷ item "b" [] ("/x/ab" ∷ []) ∷ [];
    })
    ≡ none
unfolding plan_error
question_mark = refl

reachable_decides_example :
    Reachable.PathAnswer
      (dependents items)
      (keys_of items)
      (closed_graph items)
      "b"
      "a"
      (reachable (dependents items) (keys_of items) "a" "b")
reachable_decides_example =
    reachable_decides (dependents items) (keys_of items) (closed_graph items) "b" "a"
      (unfold contains in refl)

-- a matcher without metacharacters
abbrev same_text : Text → Text → Bool
same_text p s = s == p

plain : (scope : Text) → IsPlain same_text scope
plain scope = all_literal (split (trim_slash scope))
  where
    all_literal : (ps : List Text) → All (λ p. IsLiteral same_text p) ps
    all_literal [] = tt
    all_literal (p ∷ ps) = (λ no_star s h. (==_iff s p).0 h, all_literal ps)

plan-AllSeparate_example : AllSeparate same_text items items
plan-AllSeparate_example =
    plan-AllSeparate same_text both contract plan
      (
        (plain (codes "/src/a"), tt),
        ((plain (codes "/src/a"), tt), ((plain (codes "/docs/c"), tt), tt)),
      )
      (unfold plan_error in refl)

abbrev plain_criterion : AcceptanceCriterion
plain_criterion = record criterion { validators = "unit" ∷ [] }

abbrev plain_contract : Contract
plain_contract = record contract {
  generated_validators = [];
  acceptance_criteria = plain_criterion ∷ [];
}

coverage-IsCovered_example :
    All (IsCovered both (some capabilities)) (plain_criterion ∷ [])
    × All
        (λ id. contains id (covered_scenarios (plain_criterion ∷ [])) ≡ true)
        (required_ids (some capabilities))
coverage-IsCovered_example =
    coverage-IsCovered plain_contract both (some capabilities) (unfold validate_coverage in refl)

abbrev one_item : Plan
one_item = record { summary = "one item"; work_items = item "a" [] ("/src/a" ∷ []) ∷ [] }

-- the validators of an item and of the criterion, sorted and renamed
abbrev renamed_ids : List String
renamed_ids = "goal__smoke" ∷ "unit" ∷ []

abbrev ready_item : PlanWork
ready_item = record (item "a" [] ("/src/a" ∷ [])) { validators = renamed_ids }

abbrev ready : Ready
ready = record {
  contract = record contract {
    generated_validators = record smoke { id = "goal__smoke" } ∷ [];
    acceptance_criteria = record criterion { validators = renamed_ids } ∷ [];
  };
  plan = record { summary = "one item"; work_items = ready_item ∷ [] };
  allowed = "goal__smoke" ∷ "unit" ∷ [];
  capabilities = some (record capabilities {
    validators =
        capabilities.validators
        ++ (generated_capability (record smoke { id = "goal__smoke" }) ∷ []);
  });
}

prepare_generated-IsReady_example : IsReady "goal" ("unit" ∷ []) ready
prepare_generated-IsReady_example =
    prepare_generated-IsReady "goal" (normalize_contract contract) one_item ("unit" ∷ [])
      (some capabilities) ready (unfold prepare_generated normalize_contract in refl)

abbrev compiled : Compiled
compiled = record {
  contract = ready.contract;
  contract_hash = "c0";
  plan_hash = "p0";
  work_items = compile_work code "revision" "plan" ready_item ∷ [];
  dependencies = [];
}

compile-IsSound_example :
    IsSound code "goal" "revision" "plan" contract one_item ("unit" ∷ []) compiled
compile-IsSound_example =
    compile-IsSound code "goal" "revision" "plan" contract one_item ("unit" ∷ [])
      (some capabilities ∷ []) compiled (unfold compile compile_work in refl)
