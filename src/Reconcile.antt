-- ===== src/Reconcile.antt =====
-- internal/reconcile/reconcile.go: the failure classes, material progress and the decision table.
-- The reason of a decision is a text fixed by its branch and is left out.
pub mod Table
use xgoal.Prelude.{
  String, string_eq, Bool, true, false, not, ◌&&◌, ◌||◌, ◌==◌, nat_eq, Option, none, some,
  if◌then◌else◌,
}
use xgoal.Prelude.Word.{Int64, is_positive}
use xgoal.Prelude.Exec.{Result, ok, err}
use xgoal.Protocol.Text.{is_blank}

pub data FailureClass : Type 0 where
  agent_unavailable agent_blocked agent_failed agent_protocol_invalid : FailureClass
  agent_timeout agent_interrupted environment_prep_failed scope_violation : FailureClass
  patch_empty patch_conflict validator_failed validator_unavailable : FailureClass
  review_blocked goal_ambiguous policy_blocked no_material_progress : FailureClass
  internal_invariant_violation : FailureClass
  unknown : String → FailureClass

-- membership in `failureClasses`
unfoldable pub valid : FailureClass → Bool
valid (unknown _) = false
valid _ = true

pub record Failure : Type 0 where
  pub class : FailureClass
  pub primary_error : String
  pub validator_definition_hash : String
  pub base_tree : String
  pub result_tree : String
  pub goal_revision_hash : String
  pub relevant_config_hash : String

-- `field_empty` has no label: the source ranges over a map, so which empty field it names is not
-- determined.
pub data FailureError : Type 0 where
  invalid_class primary_error_empty field_empty : FailureError
  unhandled_class : FailureClass → FailureError

-- Failure.Validate
unfoldable pub failure_error : Failure → Option FailureError
unfolding valid
failure_error f =
    if not (valid f.class)
    then some invalid_class
    else if is_blank f.primary_error
    then some primary_error_empty
    else if is_blank f.validator_definition_hash
        || is_blank f.base_tree
        || is_blank f.goal_revision_hash
        || is_blank f.relevant_config_hash
    then some field_empty
    else none

pub record Snapshot : Type 0 where
  pub accepted_patch_hash : String
  pub validator_outcome_set_hash : String
  pub resolved_gate_set_hash : String
  pub open_blocking_finding_set_hash : String
  pub plan_revision : Int64
  pub new_authoritative_evidence : Bool

unfoldable pub material_progress : Snapshot → Snapshot → Bool
material_progress previous current =
    not (current.accepted_patch_hash == previous.accepted_patch_hash)
    || not (current.validator_outcome_set_hash == previous.validator_outcome_set_hash)
    || not (current.resolved_gate_set_hash == previous.resolved_gate_set_hash)
    || not (current.open_blocking_finding_set_hash == previous.open_blocking_finding_set_hash)
    || not (current.plan_revision == previous.plan_revision)
    || current.new_authoritative_evidence

pub data Action : Type 0 where
  retry_new_attempt diagnose fix_work_item switch_strategy : Action
  replan wait_gate quarantine stop_invariant : Action

pub record Input : Type 0 where
  pub failure : Failure
  pub previous : Snapshot
  pub current : Snapshot
  pub same_fingerprint_strategy : Int64
  pub side_effects_observed : Bool

-- the `switch` of `Decide`; the text of a decision's reason is fixed by its branch and left out
unfoldable pub decide_class : FailureClass → Bool → Result FailureError Action
decide_class agent_unavailable side = if side then ok diagnose else ok retry_new_attempt
decide_class agent_failed side = if side then ok diagnose else ok retry_new_attempt
decide_class agent_protocol_invalid side = if side then ok diagnose else ok retry_new_attempt
decide_class agent_timeout side = if side then ok diagnose else ok retry_new_attempt
decide_class agent_interrupted side = if side then ok diagnose else ok retry_new_attempt
decide_class environment_prep_failed side = ok wait_gate
decide_class scope_violation side = ok quarantine
decide_class patch_empty side = ok diagnose
decide_class patch_conflict side = ok fix_work_item
decide_class validator_failed side = ok fix_work_item
decide_class agent_blocked side = ok wait_gate
decide_class validator_unavailable side = ok wait_gate
decide_class goal_ambiguous side = ok wait_gate
decide_class policy_blocked side = ok wait_gate
decide_class review_blocked side = ok fix_work_item
decide_class no_material_progress side = ok switch_strategy
decide_class internal_invariant_violation side = ok stop_invariant
decide_class (unknown s) side = err (unhandled_class (unknown s))

unfoldable pub decide : Input → Result FailureError Action
unfolding failure_error material_progress is_positive decide_class
decide i = elim (failure_error i.failure) [
  | some e ↦ err e
  | none ↦
      if is_positive i.same_fingerprint_strategy && not (material_progress i.previous i.current)
      then ok diagnose
      else decide_class i.failure.class i.side_effects_observed
]
