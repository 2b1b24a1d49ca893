-- ===== src/Kernel/Records.antt =====
-- The records that `RunSimulation` of internal/kernel/kernel.go builds.
use xgoal.Prelude.{◌+◌, ◌*◌, ◌^◌, String, true, false, [], ◌∷◌}
use xgoal.Domain.Goal.{GoalState}
use xgoal.Domain.Work.{WorkState}
use xgoal.Domain.Attempt.{AttemptState}
use xgoal.Domain.Lease.{LeaseState}
use xgoal.Domain.Role.{Role}
use xgoal.Domain.Model.{Time, Goal, WorkItem, Attempt, Lease}
use xgoal.Domain.Model
use xgoal.Protocol.{Evidence, result_status_eq}
use xgoal.Completion
use xgoal.Completion.{Reason, Verdict, evaluate}
use xgoal.Kernel.Interface.{Dependencies, SimulationSpec}

module _ (k : Dependencies) (spec : SimulationSpec) where
  abbrev pub new_goal : Goal
  new_goal = record {
    id = spec.packet.goal.id;
    state = GoalState.draft;
    active_revision_id = spec.packet.goal.contract_hash;
    final_tree = "";
    final_evidence_set_id = "";
    final_report_hash = "";
    version = 1;
  }

  abbrev pub new_work : WorkItem
  new_work = record {
    id = spec.packet.work_item.id;
    plan_revision_id = "";
    state = WorkState.pending;
    title = "";
    objective = spec.packet.work_item.objective;
    read_scope = [];
    write_scope = [];
    acceptance_criteria = [];
    validator_ids = [];
    recommended_role = Role.unknown "";
    required = true;
    version = 1;
  }

  -- 90 * time.Second
  abbrev pub new_lease : Lease
  new_lease = record {
    id = spec.lease_id;
    work_item_id = spec.packet.work_item.id;
    attempt_id = spec.attempt_id;
    holder = "simulation-kernel";
    generation = 1;
    state = LeaseState.active;
    acquired_at = k.now 0;
    heartbeat_at = k.now 1;
    expires_at = k.now 2 + 90 * 10 ^ 9;
    version = 1;
  }

  abbrev pub new_attempt : String → Attempt
  new_attempt packet_hash = record {
    id = spec.attempt_id;
    work_item_id = spec.packet.work_item.id;
    agent_profile_id = spec.agent_profile_id;
    state = AttemptState.created;
    base_tree = spec.packet.project.base_tree;
    result_tree = spec.final_tree;
    packet_hash = packet_hash;
    result_kind = "";
    version = 1;
  }

  abbrev pub stored_evidence : Evidence → Model.Evidence
  stored_evidence e = record {
    id = e.id;
    kind = e.kind;
    subject_id = e.subject_id;
    authority = e.authority;
    goal_revision_hash = e.goal_revision_hash;
    config_hash = e.config_hash;
    tree_hash = e.tree_hash;
    payload_hash = e.payload_hash;
    state = e.state;
  }

  unfoldable pub completion_input : String → Evidence → Completion.Input
  completion_input criterion e = record {
    goal_state = GoalState.verifying;
    required_work_states = WorkState.completed ∷ [];
    integration_tree = spec.final_tree;
    expected_tree = spec.final_tree;
    criteria =
        record { id = criterion; satisfied = true; current = true; tree_hash = e.tree_hash } ∷ [];
    open_blocking_findings = 0;
    open_required_gates = 0;
    scope_policy_passed = spec.scope_policy_passed;
    final_validation_set_current = spec.final_validation_set_current;
    final_report_generated = spec.final_report_generated;
    human_acceptance_required = false;
    human_acceptance_satisfied = false;
  }
