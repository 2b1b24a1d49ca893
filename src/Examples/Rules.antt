-- ===== src/Examples/Rules.antt =====
-- The rules on concrete inputs: completion, policy, reconciliation and the state machines.
use xgoal.Prelude.{◌≡◌, ◌≢◌, refl, ◌↔◌, Bool, true, false, not, ◌&&◌, none, some, [], ◌∷◌, All}
use xgoal.Prelude.Exec.{ok, err}
use xgoal.Domain.Goal
use xgoal.Domain.Goal.{GoalState, validate_goal_transition}
use xgoal.Domain.Work.{WorkState}
use xgoal.Domain.Machines.{goal_final, goal_cancel_iff}
use xgoal.Domain.Role
use xgoal.Domain.Role.{Role}
use xgoal.Domain.Policy.{PolicyAction}
use xgoal.Completion.{Input, evaluate}
use xgoal.Completion.Correct.{IsComplete, complete_iff}
use xgoal.Policy as PolicyRules
use xgoal.Policy.{Request, allow}
use xgoal.Policy.Paths.{codes}
use xgoal.Policy.Scope.{scope_contains}
use xgoal.Policy.Containment.{IsCovered, scope_contains_iff}
use xgoal.Policy.Grants.{Granted, allow_iff}
use xgoal.Reconcile as Rec
use xgoal.Reconcile.{
  Failure, FailureClass, failure_error, agent_timeout, invalid_class, retry_new_attempt, Snapshot,
}
use xgoal.Reconcile.Table.{is_stuck, is_agent_failure, decide_error_iff, retry_iff}

abbrev closing : Input
closing = record {
  goal_state = GoalState.verifying;
  required_work_states = WorkState.completed ∷ WorkState.completed ∷ [];
  integration_tree = "tree";
  expected_tree = "tree";
  criteria = record { id = "AC-1"; satisfied = true; current = true; tree_hash = "tree" } ∷ [];
  open_blocking_findings = 0;
  open_required_gates = 0;
  scope_policy_passed = true;
  final_validation_set_current = true;
  final_report_generated = true;
  human_acceptance_required = true;
  human_acceptance_satisfied = true;
}

complete_iff_example : ((evaluate closing).complete ≡ true) ↔ IsComplete closing
complete_iff_example = complete_iff closing

closing_completes : (evaluate closing).complete ≡ true
unfolding evaluate
closing_completes = refl

scope_contains_iff_example :
    (scope_contains (codes "internal" ∷ []) (codes " internal/../internal/a.go" ∷ []) ≡ true) ↔ (
      (codes " internal/../internal/a.go" ∷ [] ≢ [])
      × (codes "internal" ∷ [] ≢ [])
      × All (IsCovered (codes "internal" ∷ [])) (codes " internal/../internal/a.go" ∷ []))
scope_contains_iff_example =
    scope_contains_iff (codes "internal" ∷ []) (codes " internal/../internal/a.go" ∷ [])

scope_tests :
    (scope_contains (codes "internal" ∷ []) (codes " internal/../internal/a.go" ∷ []) ≡ true)
    × (scope_contains (codes "internal" ∷ []) (codes "internal/../docs/a.md" ∷ []) ≡ false)
    × (scope_contains (codes "." ∷ []) (codes "../a" ∷ []) ≡ false)
    × (scope_contains (codes "/a" ∷ []) (codes "a/b" ∷ []) ≡ false)
unfolding scope_contains
scope_tests = (refl, refl, refl, refl)

abbrev write_request : Request
write_request = record {
  role = Role.implementer;
  action = PolicyAction.write_file;
  resources = "internal/a.go" ∷ [];
  write_scope = "internal" ∷ [];
  trusted_profile = false;
  cli_session = false;
}

allow_iff_example :
    (PolicyRules.evaluate write_request ≡ ok allow)
    ↔ ((Role.valid Role.implementer ≡ true) × Granted write_request PolicyAction.write_file)
allow_iff_example = allow_iff write_request

abbrev push_request : Request
push_request = record write_request { action = PolicyAction.push_remote }

abbrev no_change : Snapshot
no_change = record {
  accepted_patch_hash = "p";
  validator_outcome_set_hash = "v";
  resolved_gate_set_hash = "g";
  open_blocking_finding_set_hash = "f";
  plan_revision = 1;
  new_authoritative_evidence = false;
}

abbrev timeout : Failure
timeout = record {
  class = agent_timeout;
  primary_error = "deadline";
  validator_definition_hash = "d";
  base_tree = "b";
  result_tree = "";
  goal_revision_hash = "r";
  relevant_config_hash = "c";
}

abbrev first_timeout : Rec.Input
first_timeout = record {
  failure = timeout;
  previous = no_change;
  current = no_change;
  same_fingerprint_strategy = 0;
  side_effects_observed = false;
}

retry_iff_example : (Rec.decide first_timeout ≡ ok retry_new_attempt) ↔ (
    (failure_error timeout ≡ none)
    × (is_stuck first_timeout ≡ false)
    × (is_agent_failure agent_timeout ≡ true)
    × ◌≡◌ {A = Bool} false false)
retry_iff_example = retry_iff first_timeout

decide_error_iff_example :
    (Rec.decide first_timeout ≡ err invalid_class) ↔ (failure_error timeout ≡ some invalid_class)
decide_error_iff_example = decide_error_iff first_timeout invalid_class

goal_cancel_iff_example :
    (validate_goal_transition GoalState.waiting GoalState.cancelled ≡ none)
    ↔ ((Goal.valid GoalState.waiting && not (goal_final GoalState.waiting)) ≡ true)
goal_cancel_iff_example = goal_cancel_iff GoalState.waiting
