-- ===== src/Kernel.antt =====
-- internal/kernel/kernel.go: the simulation kernel over a store, an agent adapter and a validator.
pub mod Interface
pub mod Trusted
pub mod Transitions
pub mod Records
pub mod Safety
pub mod Indexing
use xgoal.Prelude.{
  ℕ, ◌+◌, ◌*◌, ◌^◌, String, string_eq, Bool, true, false, not, ◌&&◌, ◌||◌, decide, Option, none,
  some, List, [], ◌∷◌, ◌==◌, if◌then◌else◌, map,
}
use mathlib.Core.List.{head?}
use xgoal.Prelude.Exec.{Result, ok, err, Exec, pure, raise, ◌>>=◌, ◌>>◌}
use xgoal.Domain.Goal.{GoalState}
use xgoal.Domain.Work.{WorkState}
use xgoal.Domain.Attempt.{AttemptState}
use xgoal.Domain.Lease.{LeaseState}
use xgoal.Domain.Role.{Role}
use xgoal.Domain.Model.{Time, Goal, WorkItem, Attempt, Lease}
use xgoal.Domain.Model
use xgoal.Protocol.{
  AgentResult, Evidence, ResultStatus, result_status_eq, ResultStatus-discrete, agent_result_error,
  zero_result, zero_evidence,
}
use xgoal.Protocol.Packet.{packet_error, packet_hash}
use xgoal.Completion
use xgoal.Completion.{Reason, Verdict, evaluate}
use xgoal.Store.Memory.{StoreError}
use Interface.{
  StateStore, Invocation, Request, Dependencies, SimulationSpec, KernelError, store_error,
  dependencies_required, packet_refused, identities_required, schema_unavailable,
  index_out_of_range, hash_failed,
}
use Transitions.{lift, read, transition_goal, transition_work, transition_attempt}
use Records.{new_goal, new_work, new_lease, new_attempt, stored_evidence, completion_input}
use Trusted.{trusted_evidence}

-- a reason of the outcome: the one of `reconcile`, or one of the completion rule
pub data OutcomeReason : Type 0 where
  closure_failed : OutcomeReason
  incomplete : Reason → OutcomeReason

pub record SimulationOutcome : Type 0 where
  pub completed : Bool
  pub goal_state : GoalState
  pub work_state : WorkState
  pub attempt_state : AttemptState
  pub agent_claim : AgentResult
  pub evidence : Evidence
  pub reasons : List OutcomeReason

module _ {S : Type 0} (store : StateStore S) (k : Dependencies) (spec : SimulationSpec) where
  abbrev Action : Type 0 → Type 0
  Action A = Exec KernelError S A

  abbrev goal_id : String
  goal_id = spec.packet.goal.id

  abbrev work_id : String
  work_id = spec.packet.work_item.id

  -- the zero value of the state where the record is missing
  unfoldable pub outcome :
      AgentResult → Evidence → Bool → List OutcomeReason → Action SimulationOutcome
  outcome claim evidence complete reasons s = (
    ok (record {
      completed = complete;
      goal_state = elim (store.goal goal_id s) [ ok g ↦ g.state | err _ ↦ GoalState.unknown "" ];
      work_state = elim (store.work_item work_id s) [
        | ok w ↦ w.state
        | err _ ↦ WorkState.unknown ""
      ];
      attempt_state = elim (store.attempt spec.attempt_id s) [
        | ok a ↦ a.state
        | err _ ↦ AttemptState.unknown ""
      ];
      agent_claim = claim;
      evidence = evidence;
      reasons = reasons;
    }),
    s,
  )

  unfoldable pub reconcile : AgentResult → Evidence → Action SimulationOutcome
  unfolding transition_attempt transition_work lift outcome
  reconcile claim evidence = do
    transition_attempt store spec.attempt_id AttemptState.failed "AttemptFailed"
    transition_work store work_id WorkState.reconciling "AttemptReconciled"
    lift (store.release_lease work_id 1)
    outcome claim evidence false (closure_failed ∷ [])

  abbrev check : Bool → KernelError → Action (Unit {0})
  check b e = if b then pure tt else raise e

  abbrev require : {A : Type 0} → Option A → KernelError → Action A
  require none e = raise e
  require (some a) e = pure a

  -- the checks before the first call of the store
  unfoldable pub check_spec : Action (Unit {0})
  unfolding packet_error
  check_spec = do
    check k.present dependencies_required
    elim (packet_error k.packet_code spec.packet) [
      | none ↦ pure tt
      | some e ↦ raise (packet_refused e)
    ]
    check
        (not (
          spec.attempt_id == ""
          || spec.lease_id == ""
          || spec.agent_profile_id == ""
          || spec.config_hash == ""
          || spec.final_tree == ""))
        identities_required

  -- from the new goal to the running attempt
  unfoldable pub set_up : Action (Unit {0})
  unfolding lift read transition_goal transition_work transition_attempt packet_hash
  set_up = do
    lift (store.create_goal (new_goal k spec) "GoalDrafted")
    transition_goal store goal_id GoalState.ready "GoalRevisionFrozen"
    transition_goal store goal_id GoalState.running "GoalRunning"
    lift (store.create_work_item (new_work k spec) "WorkPending")
    transition_work store work_id WorkState.ready "WorkReady"
    packet_hash ← require (packet_hash k.packet_code spec.packet) hash_failed
    work ← read (store.work_item work_id)
    lift (store.claim_work work_id work.version (new_lease k spec) (new_attempt k spec packet_hash))
    transition_work store work_id WorkState.running "AttemptStarted"
    transition_attempt store spec.attempt_id AttemptState.preparing "AttemptPreparing"
    transition_attempt store spec.attempt_id AttemptState.starting "AttemptStarting"
    transition_attempt store spec.attempt_id AttemptState.running "AttemptStarted"

  -- the completion rule at the end, and its outcome
  unfoldable pub conclude : AgentResult → Evidence → Action SimulationOutcome
  unfolding transition_goal completion_input outcome
  conclude claim e = do
    criterion ← require (head? spec.packet.work_item.acceptance_criteria) index_out_of_range
    let verdict = evaluate (completion_input k spec criterion e)
    if verdict.complete
        then transition_goal store goal_id GoalState.completed "GoalCompleted"
        else pure tt
    outcome claim e verdict.complete (map incomplete verdict.reasons)

  -- from trusted evidence to the verifying goal
  unfoldable pub promote : AgentResult → Evidence → Action SimulationOutcome
  unfolding lift transition_attempt transition_work transition_goal conclude
  promote claim e = do
    lift (store.add_evidence (stored_evidence k spec e) "ValidationFinished")
    transition_attempt store spec.attempt_id AttemptState.promoting "PromotionStarted"
    transition_attempt store spec.attempt_id AttemptState.succeeded "PromotionCommitted"
    transition_work store work_id WorkState.verifying "WorkVerifying"
    transition_work store work_id WorkState.completed "WorkCompleted"
    lift (store.release_lease work_id 1)
    transition_goal store goal_id GoalState.verifying "FinalValidationStarted"
    conclude claim e

  abbrev is_trusted : Evidence → Bool
  is_trusted e =
      trusted_evidence e work_id spec.packet.goal.contract_hash spec.config_hash spec.final_tree

  -- the validator's run on a claim that has passed its checks
  unfoldable pub validate : AgentResult → Action SimulationOutcome
  unfolding transition_attempt promote reconcile
  validate claim = do
    transition_attempt store spec.attempt_id AttemptState.collecting "AgentResultCollected"
    transition_attempt store spec.attempt_id AttemptState.validating "ValidationStarted"
    validator_id ← require (head? spec.packet.work_item.validator_ids) index_out_of_range
    let (e, fine) = k.run_validator (record {
      validator_id = validator_id;
      subject_id = work_id;
      goal_revision_hash = spec.packet.goal.contract_hash;
      config_hash = spec.config_hash;
      tree_hash = spec.final_tree;
    })
    if fine && is_trusted e then promote claim e else reconcile claim e

  -- the adapter's answer
  unfoldable pub collect : AgentResult × Bool → Action SimulationOutcome
  unfolding reconcile validate ResultStatus-discrete decide
  collect (claim, false) = reconcile zero_result zero_evidence
  collect (claim, true) = elim (agent_result_error claim) [
    | some _ ↦ reconcile claim zero_evidence
    | none ↦
        if claim.status == ResultStatus.completed
        then validate claim
        else reconcile claim zero_evidence
  ]

  unfoldable pub start_agent : Action SimulationOutcome
  unfolding reconcile collect
  start_agent = do
    schema ← require k.schema schema_unavailable
    let started = k.start (record {
      invocation_id = spec.attempt_id;
      attempt_id = spec.attempt_id;
      role = spec.packet.role;
      work_dir = spec.packet.project.workspace;
      prompt = "simulation";
      output_schema = schema;
    })
    elim started [
      | none ↦ reconcile zero_result zero_evidence
      | some handle ↦ collect (k.wait handle)
    ]

  unfoldable pub run_simulation : Action SimulationOutcome
  unfolding check_spec set_up start_agent
  run_simulation = do check_spec; set_up; start_agent
