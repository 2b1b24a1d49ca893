-- ===== src/Store/Ops.antt =====
-- The mutating methods of internal/store/memory.go as one data type, and runs of them.
use xgoal.Prelude.{String, ◌≡◌, List, [], ◌∷◌, arith}
use xgoal.Prelude.Word.{Int64}
use xgoal.Prelude.Exec.{err}
use xgoal.Domain.Goal.{GoalState}
use xgoal.Domain.Work.{WorkState}
use xgoal.Domain.Attempt.{AttemptState}
use xgoal.Domain.Model.{Goal, WorkItem, Attempt, Lease, Evidence}
use xgoal.Store.Memory.{
  StoreError, Memory, Method, create_goal, update_goal_state, create_work_item, update_work_state,
  add_evidence,
}
use xgoal.Store.Claims.{claim_work, update_attempt_state, release_lease}

pub data Op : Type 0 where
  create_goal_op : Goal → String → Op
  update_goal_op : String → Int64 → GoalState → String → Op
  create_work_op : WorkItem → String → Op
  update_work_op : String → Int64 → WorkState → String → Op
  claim_op : String → Int64 → Lease → Attempt → Op
  update_attempt_op : String → Int64 → AttemptState → String → Op
  release_op : String → Int64 → Op
  evidence_op : Evidence → String → Op

unfoldable pub apply : Op → Method (Unit {0})
apply (create_goal_op goal event) = create_goal goal event
apply (update_goal_op id version state event) = update_goal_state id version state event
apply (create_work_op work event) = create_work_item work event
apply (update_work_op id version state event) = update_work_state id version state event
apply (claim_op id version lease attempt) = claim_work id version lease attempt
apply (update_attempt_op id version state event) = update_attempt_state id version state event
apply (release_op id generation) = release_lease id generation
apply (evidence_op evidence event) = add_evidence evidence event

-- callers that go on after an error, in the order in which the mutex lets them in
unfoldable pub run : List Op → Memory → Memory
run [] m = m
run (op ∷ ops) m = run ops (apply op m).1

-- A property that every method keeps holds after every run.
pub run_keeps :
    (P : Memory → Type 0)
    → ((op : Op) (m : Memory) → P m → P (apply op m).1)
    → (ops : List Op) (m : Memory) → P m
    → P (run ops m)
unfolding run
run_keeps P step [] m h = h
run_keeps P step (op ∷ ops) m h = run_keeps P step ops (apply op m).1 (step op m h)

-- A method that returns an error leaves the store as it was.
pub apply_error_unchanged :
    (op : Op) (m : Memory) {e : StoreError} → (apply op m).0 ≡ err e → (apply op m).1 ≡ m
unfolding apply create_goal update_goal_state create_work_item update_work_state claim_work
    update_attempt_state release_lease add_evidence
apply_error_unchanged (create_goal_op goal event) m h = ground arith
apply_error_unchanged (update_goal_op id version state event) m h = ground arith
apply_error_unchanged _ m h = ground arith
