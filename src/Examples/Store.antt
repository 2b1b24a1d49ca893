-- ===== src/Examples/Store.antt =====
-- A goal, a work item and an attempt in the memory store, from their creation to their end.
use xgoal.Prelude.{ℕ, ◌≤◌, string_eq, ◌≡◌, refl, true, some, List, [], ◌∷◌, ◌++◌, arith}
use xgoal.Prelude.Dict.{get, put, remove}
use xgoal.Prelude.Word.{incr, is_positive}
use xgoal.Prelude.Exec.{err}
use xgoal.Domain.Goal.{GoalState, goal_state_eq, validate_goal_transition}
use xgoal.Domain.Work.{WorkState, work_state_eq, validate_work_transition}
use xgoal.Domain.Attempt.{AttemptState, attempt_state_eq, validate_attempt_transition}
use xgoal.Domain.Lease.{LeaseState}
use xgoal.Domain.Role.{Role}
use xgoal.Domain.Authority.{Authority}
use xgoal.Domain.Evidence.{EvidenceState}
use xgoal.Domain.Model.{Time, Goal, WorkItem, Attempt, Lease, Evidence}
use xgoal.Store.Memory.{
  Memory, new_memory, conflict, update_goal_state, update_work_state, create_goal, create_work_item,
  append_event, invalid_goal,
}
use xgoal.Store.Claims.{
  claim_work, lease_is_active, is_valid_lease, is_valid_attempt, update_attempt_state,
  release_lease,
}
use xgoal.Store.Ops.{
  Op, create_goal_op, update_goal_op, create_work_op, update_work_op, claim_op, update_attempt_op,
  release_op, evidence_op, apply, run, apply_error_unchanged,
}
use xgoal.Store.Visits.{Visits}
use xgoal.Store.Abstract.{view, Meets}
use xgoal.Store.Abstract.Refines.{apply-Meets}
use xgoal.Store.Consistency.{IsConsistent, run-IsConsistent}
use xgoal.Store.Track.{bump}
use xgoal.Store.Guarantees.{
  goal_completed_by_verifying, work_completed_by_verifying, attempt_succeeds_by_validating,
  attempt_moves_bounded, work_completed_for_good,
}
use xgoal.Store.Leases.{releases, IsError, lease_excludes}
use xgoal.Store.Versions.{
  stale_goal_update_conflicts, stale_work_update_conflicts, stale_attempt_update_conflicts,
}
use xgoal.Store.Events.{Grows, run-Grows}

abbrev ticks : ℕ → Time
ticks n = n

abbrev start : Memory
start = new_memory ticks

abbrev goal_one : Goal
goal_one = record {
  id = "g";
  state = GoalState.draft;
  active_revision_id = "r";
  final_tree = "";
  final_evidence_set_id = "";
  final_report_hash = "";
  version = 1;
}

abbrev work_one : WorkItem
work_one = record {
  id = "w";
  plan_revision_id = "";
  state = WorkState.pending;
  title = "";
  objective = "o";
  read_scope = [];
  write_scope = [];
  acceptance_criteria = [];
  validator_ids = [];
  recommended_role = Role.implementer;
  required = true;
  version = 1;
}

abbrev lease_one : Lease
lease_one = record {
  id = "l";
  work_item_id = "w";
  attempt_id = "a";
  holder = "h";
  generation = 1;
  state = LeaseState.active;
  acquired_at = 0;
  heartbeat_at = 0;
  expires_at = 90;
  version = 1;
}

abbrev attempt_one : Attempt
attempt_one = record {
  id = "a";
  work_item_id = "w";
  agent_profile_id = "p";
  state = AttemptState.created;
  base_tree = "t";
  result_tree = "u";
  packet_hash = "k";
  result_kind = "";
  version = 1;
}

abbrev created : List Op
created = create_goal_op goal_one "GoalDrafted" ∷ create_work_op work_one "WorkPending" ∷ []

abbrev begun : Memory
begun = run created start

abbrev goal_life : List Op
goal_life =
    update_goal_op "g" 1 GoalState.ready "e"
    ∷ update_goal_op "g" 2 GoalState.running "e"
    ∷ update_goal_op "g" 9 GoalState.waiting "stale"
    ∷ update_goal_op "g" 3 GoalState.verifying "e"
    ∷ update_goal_op "g" 4 GoalState.completed "e"
    ∷ []

abbrev claimed_life : List Op
claimed_life = update_work_op "w" 1 WorkState.ready "e" ∷ claim_op "w" 2 lease_one attempt_one ∷ []

abbrev held : Memory
held = run claimed_life begun

abbrev work_life : List Op
work_life =
    update_work_op "w" 3 WorkState.running "e"
    ∷ update_attempt_op "a" 1 AttemptState.preparing "e"
    ∷ update_attempt_op "a" 2 AttemptState.starting "e"
    ∷ update_attempt_op "a" 3 AttemptState.running "e"
    ∷ update_attempt_op "a" 4 AttemptState.collecting "e"
    ∷ update_attempt_op "a" 5 AttemptState.validating "e"
    ∷ update_attempt_op "a" 6 AttemptState.promoting "e"
    ∷ update_attempt_op "a" 7 AttemptState.succeeded "e"
    ∷ update_work_op "w" 4 WorkState.verifying "e"
    ∷ update_work_op "w" 5 WorkState.completed "e"
    ∷ release_op "w" 1
    ∷ []

abbrev goal_done : Goal
goal_done = record goal_one { state = GoalState.completed; version = 5 }

goal_ends : get "g" (run goal_life begun).goals ≡ some goal_done
unfolding run apply create_goal create_work_item update_goal_state append_event get put is_positive
    incr validate_goal_transition
goal_ends = refl

abbrev work_done : WorkItem
work_done = record work_one { state = WorkState.completed; version = 6 }

abbrev attempt_done : Attempt
attempt_done = record attempt_one { state = AttemptState.succeeded; version = 8 }

attempt_starts : get "a" held.attempts ≡ some attempt_one
unfolding run apply create_goal create_work_item update_work_state claim_work append_event get put
    is_positive incr lease_is_active is_valid_lease is_valid_attempt validate_work_transition
attempt_starts = refl

lease_held : get "w" held.active_leases ≡ some lease_one
unfolding run apply create_goal create_work_item update_work_state claim_work append_event get put
    is_positive incr lease_is_active is_valid_lease is_valid_attempt validate_work_transition
lease_held = refl

work_starts : get "w" begun.work_items ≡ some work_one
unfolding run apply create_goal create_work_item append_event get put is_positive
work_starts = refl

goal_starts : get "g" begun.goals ≡ some goal_one
unfolding run apply create_goal create_work_item append_event get put is_positive
goal_starts = refl

abbrev whole_life : List Op
whole_life = claimed_life ++ work_life

abbrev ended : Memory
ended = run whole_life begun

work_ends : get "w" ended.work_items ≡ some work_done
unfolding run apply create_goal create_work_item update_work_state claim_work update_attempt_state
    release_lease append_event get put remove is_positive incr lease_is_active is_valid_lease
    is_valid_attempt validate_work_transition validate_attempt_transition
work_ends = refl

attempt_ends : get "a" (run work_life held).attempts ≡ some attempt_done
unfolding run apply create_goal create_work_item update_work_state claim_work update_attempt_state
    release_lease append_event get put remove is_positive incr lease_is_active is_valid_lease
    is_valid_attempt validate_work_transition validate_attempt_transition
attempt_ends = refl

goal_completed_by_verifying_example :
    Visits
      (λ (x : Memory). get "g" x.goals)
      (λ (r : Goal). r.state)
      begun
      (GoalState.verifying ∷ GoalState.running ∷ [])
      goal_life
goal_completed_by_verifying_example =
    goal_completed_by_verifying begun "g" goal_one goal_starts refl goal_life goal_done goal_ends
      refl

work_completed_by_verifying_example :
    Visits
      (λ (x : Memory). get "w" x.work_items)
      (λ (r : WorkItem). r.state)
      begun
      (WorkState.verifying ∷ WorkState.running ∷ WorkState.claimed ∷ [])
      whole_life
work_completed_by_verifying_example =
    work_completed_by_verifying begun "w" work_one work_starts refl whole_life work_done work_ends
      refl

attempt_succeeds_by_validating_example :
    Visits
      (λ (x : Memory). get "a" x.attempts)
      (λ (r : Attempt). r.state)
      held
      (AttemptState.promoting ∷ AttemptState.validating ∷ [])
      work_life
attempt_succeeds_by_validating_example =
    attempt_succeeds_by_validating held "a" attempt_one attempt_starts refl work_life attempt_done
      attempt_ends refl

attempt_moves_bounded_example :
    (a' : Attempt) × (n : ℕ) × (get "a" (run work_life held).attempts ≡ some a')
    × (n ≤ 8)
    × (a'.version ≡ bump n 1)
attempt_moves_bounded_example = attempt_moves_bounded work_life held "a" attempt_one attempt_starts

work_completed_for_good_example :
    (w' : WorkItem) × (get "w" (run work_life ended).work_items ≡ some w')
    × (w'.state ≡ WorkState.completed)
    × (w'.version ≡ 6)
work_completed_for_good_example =
    work_completed_for_good work_life ended "w" work_done work_ends refl

lease_excludes_example :
    (get "w" (run goal_life held).active_leases ≡ some lease_one)
    × ((v : ℕ) (lease : Lease) (a : Attempt)
        → IsError (claim_work "w" v lease a (run goal_life held)).0)
unfolding releases
lease_excludes_example =
    lease_excludes "w" lease_one goal_life held refl lease_held
      (refl, (refl, (refl, (refl, (refl, tt)))))

abbrev evidence_one : Evidence
evidence_one = record {
  id = "e";
  kind = "validation";
  subject_id = "w";
  authority = Authority.deterministic;
  goal_revision_hash = "";
  config_hash = "";
  tree_hash = "t";
  payload_hash = "";
  state = EvidenceState.current;
}

abbrev all_calls : List Op
all_calls = created ++ (evidence_op evidence_one "EvidenceAdded" ∷ whole_life)

run-IsConsistent_example : IsConsistent (run all_calls start)
run-IsConsistent_example = run-IsConsistent ticks all_calls

run-Grows_example : Grows held (run work_life held) "attempt/a"
run-Grows_example = run-Grows work_life held "attempt/a"

abbrev claim_again : Op
claim_again = claim_op "w" 2 lease_one attempt_one

apply-Meets_example :
    Meets claim_again (view held) (apply claim_again held).0 (view (apply claim_again held).1)
apply-Meets_example = apply-Meets held claim_again

apply_error_unchanged_example :
    (apply (create_goal_op (record goal_one { id = "" }) "e") start).1 ≡ start
unfolding apply create_goal
apply_error_unchanged_example =
    apply_error_unchanged (create_goal_op (record goal_one { id = "" }) "e") start
      {e = invalid_goal} refl

-- two writers that read the goal, the work item and the attempt at one version, with a third between
stale_goal_update_conflicts_example :
    (update_goal_state "g" 1 GoalState.cancelled "f"
      (run goal_life (update_goal_state "g" 1 GoalState.ready "e" begun).1)).0
    ≡ err (conflict "goal" "g")
unfolding run apply create_goal create_work_item update_goal_state append_event get put is_positive
    incr validate_goal_transition
stale_goal_update_conflicts_example =
    stale_goal_update_conflicts begun (update_goal_state "g" 1 GoalState.ready "e" begun).1 "g" 1
      (omega arith) goal_life (omega arith) GoalState.ready GoalState.cancelled "e" "f" refl

stale_work_update_conflicts_example :
    (update_work_state "w" 1 WorkState.cancelled "f"
      (run claimed_life (update_work_state "w" 1 WorkState.ready "e" begun).1)).0
    ≡ err (conflict "work item" "w")
unfolding run apply create_goal create_work_item update_work_state append_event get put is_positive
    incr validate_work_transition
stale_work_update_conflicts_example =
    stale_work_update_conflicts begun (update_work_state "w" 1 WorkState.ready "e" begun).1 "w" 1
      (omega arith) claimed_life (omega arith) WorkState.ready WorkState.cancelled "e" "f" refl

stale_attempt_update_conflicts_example :
    (update_attempt_state "a" 1 AttemptState.failed "f"
      (run work_life (update_attempt_state "a" 1 AttemptState.preparing "e" held).1)).0
    ≡ err (conflict "attempt" "a")
unfolding run apply create_goal create_work_item update_work_state claim_work update_attempt_state
    append_event get put is_positive incr lease_is_active is_valid_lease is_valid_attempt
    validate_work_transition validate_attempt_transition
stale_attempt_update_conflicts_example =
    stale_attempt_update_conflicts held
      (update_attempt_state "a" 1 AttemptState.preparing "e" held).1 "a" 1 (omega arith) work_life
      (omega arith) AttemptState.preparing AttemptState.failed "e" "f" refl
