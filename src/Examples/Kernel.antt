-- ===== src/Examples/Kernel.antt =====
-- Runs of the simulation kernel on the memory store.
use xgoal.Prelude.{ℕ, string_eq, ◌≡◌, ◌≢◌, refl, true, false, none, some, [], ◌∷◌}
use xgoal.Prelude.Dict.{get, put, remove}
use xgoal.Prelude.Word.{incr, is_positive}
use xgoal.Prelude.Exec.{ok, err, ◌>>=◌}
use xgoal.Domain.Goal.{GoalState, validate_goal_transition}
use xgoal.Domain.Work.{WorkState, validate_work_transition}
use xgoal.Domain.Attempt.{AttemptState, validate_attempt_transition}
use xgoal.Domain.Role.{Role}
use xgoal.Domain.Authority.{Authority}
use xgoal.Domain.Evidence.{EvidenceState}
use xgoal.Protocol.{AgentResult, ResultStatus, Evidence, agent_result_error}
use xgoal.Completion
use xgoal.Store.Memory as MemoryMethods
use xgoal.Store.Memory.{
  Memory, new_memory, append_event, create_goal, create_work_item, update_goal_state,
  update_work_state, add_evidence,
}
use xgoal.Store.Claims.{
  claim_work, lease_is_active, is_valid_lease, is_valid_attempt, update_attempt_state,
  release_lease,
}
use xgoal.Store.Claims
use xgoal.Protocol.Packet.{WorkPacket, packet_error, invalid_write_scope}
use xgoal.Kernel.Interface.{memory_store, SimulationSpec, Dependencies, index_out_of_range}
use xgoal.Kernel.Trusted.{trusted_evidence}
use xgoal.Kernel.{SimulationOutcome, closure_failed, run_simulation}
use xgoal.Kernel.Safety.{IsClosed, completed-IsClosed}
use xgoal.Kernel.Indexing.{run_simulation-StaysInRange}
use xgoal.Protocol.Packet.Accepted.{IsAccepted, packet-IsAccepted}

abbrev packet : WorkPacket
packet = record {
  harness = none;
  protocol_version = "xgoal.work-packet/v1alpha1";
  project = record { name = "demo"; base_tree = "base"; workspace = "/workspace" };
  goal = record {
    raw_goal = "";
    contract = "";
    id = "goal";
    revision = 1;
    summary = "a goal";
    contract_hash = "contract";
  };
  work_item = record {
    id = "work";
    title = "first";
    objective = "do it";
    dependencies = [];
    read_scope = "/**" ∷ [];
    write_scope = "/src/**" ∷ [];
    acceptance_criteria = "AC-1" ∷ [];
    validator_ids = "go-test" ∷ [];
  };
  role = Role.implementer;
  constraints = record {
    project_network = "deny";
    project_secrets = "deny";
    git_push = false;
    production = false;
  };
  environment = record {
    os = "";
    arch = "";
    git_commit = "";
    tool_versions = [];
    lockfile_hashes = [];
  };
  prior_attempt = none;
  required_output_schema = "xgoal.agent-result/v1alpha1";
}

abbrev spec : SimulationSpec
spec = record {
  packet = packet;
  attempt_id = "attempt";
  lease_id = "lease";
  agent_profile_id = "profile";
  config_hash = "config";
  final_tree = "tree";
  scope_policy_passed = true;
  final_validation_set_current = true;
  final_report_generated = true;
}

abbrev claim : AgentResult
claim = record {
  protocol_version = "xgoal.agent-result/v1alpha1";
  status = ResultStatus.completed;
  summary = "done";
  changed_files_claimed = [];
  checks_claimed = [];
  blockers = [];
  assumptions = [];
  recommended_next_action = "";
}

abbrev proof : Evidence
proof = record {
  protocol_version = "xgoal.evidence/v1alpha1";
  id = "evidence";
  kind = "command";
  subject_id = "work";
  producer = "validator";
  authority = Authority.deterministic;
  goal_revision_hash = "contract";
  config_hash = "config";
  tree_hash = "tree";
  payload_hash = "payload";
  state = EvidenceState.current;
  created_at = 7;
}

abbrev helpers : Dependencies
helpers = record {
  present = true;
  packet_code = record {
    contract_fits = λ _ _. true;
    nfc = λ s. s;
    canonical_hash = λ _. some "packet";
  };
  schema = some "schema";
  now = λ n. n;
  start = λ _. some "handle";
  wait = λ _. (claim, true);
  run_validator = λ _. (proof, true);
}

abbrev clock : ℕ → ℕ
clock n = n

abbrev finished : SimulationOutcome
finished = record {
  completed = true;
  goal_state = GoalState.completed;
  work_state = WorkState.completed;
  attempt_state = AttemptState.succeeded;
  agent_claim = claim;
  evidence = proof;
  reasons = [];
}

simulation_completes : (run_simulation memory_store helpers spec (new_memory clock)).0 ≡ ok finished
unfolding run_simulation ◌>>=◌ get put remove is_positive incr validate_goal_transition
    validate_work_transition validate_attempt_transition append_event create_goal create_work_item
    update_goal_state update_work_state add_evidence claim_work lease_is_active is_valid_lease
    is_valid_attempt update_attempt_state release_lease MemoryMethods.goal MemoryMethods.work_item
    Claims.attempt trusted_evidence Completion.evaluate agent_result_error
simulation_completes = refl

completed-IsClosed_example : IsClosed spec finished
unfolding run_simulation ◌>>=◌ get put remove is_positive incr validate_goal_transition
    validate_work_transition validate_attempt_transition append_event create_goal create_work_item
    update_goal_state update_work_state add_evidence claim_work lease_is_active is_valid_lease
    is_valid_attempt update_attempt_state release_lease MemoryMethods.goal MemoryMethods.work_item
    Claims.attempt trusted_evidence Completion.evaluate agent_result_error
completed-IsClosed_example =
    completed-IsClosed memory_store helpers spec (new_memory clock)
      (run_simulation memory_store helpers spec (new_memory clock)).1 finished refl refl

run_simulation-StaysInRange_example :
    (run_simulation memory_store helpers spec (new_memory clock)).0 ≢ err index_out_of_range
run_simulation-StaysInRange_example =
    run_simulation-StaysInRange memory_store helpers spec (new_memory clock)

packet-IsAccepted_example : IsAccepted packet
unfolding packet_error is_positive
packet-IsAccepted_example = packet-IsAccepted helpers.packet_code packet refl

-- a write scope that leads up is refused
escaping_packet :
    packet_error helpers.packet_code
      (record packet { work_item = record packet.work_item { write_scope = "/src/../etc" ∷ [] } })
    ≡ some (invalid_write_scope "/src/../etc")
unfolding packet_error is_positive
escaping_packet = refl

-- without trusted evidence the attempt fails and the work is reconciled
abbrev forged : Dependencies
forged = record helpers {
  run_validator = λ _. (record proof { authority = Authority.claim }, true);
}

abbrev reconciled : SimulationOutcome
reconciled = record {
  completed = false;
  goal_state = GoalState.running;
  work_state = WorkState.reconciling;
  attempt_state = AttemptState.failed;
  agent_claim = claim;
  evidence = record proof { authority = Authority.claim };
  reasons = closure_failed ∷ [];
}

simulation_reconciles :
    (run_simulation memory_store forged spec (new_memory clock)).0 ≡ ok reconciled
unfolding run_simulation ◌>>=◌ get put remove is_positive incr validate_goal_transition
    validate_work_transition validate_attempt_transition append_event create_goal create_work_item
    update_goal_state update_work_state add_evidence claim_work lease_is_active is_valid_lease
    is_valid_attempt update_attempt_state release_lease MemoryMethods.goal MemoryMethods.work_item
    Claims.attempt trusted_evidence Completion.evaluate agent_result_error
simulation_reconciles = refl
