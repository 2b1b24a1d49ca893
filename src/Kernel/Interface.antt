-- ===== src/Kernel/Interface.antt =====
-- What the kernel of internal/kernel/kernel.go takes from outside: the store, the adapter, the
-- validator, the clock and what the packet's checks call.
use xgoal.Prelude.{ℕ, String, Bool, Option}
use xgoal.Prelude.Word.{Int64}
use xgoal.Prelude.Exec.{Result, Exec}
use xgoal.Domain.Goal.{GoalState}
use xgoal.Domain.Work.{WorkState}
use xgoal.Domain.Attempt.{AttemptState}
use xgoal.Domain.Role.{Role}
use xgoal.Domain.Model
use xgoal.Domain.Model.{Time, Goal, WorkItem, Attempt, Lease}
use xgoal.Protocol.Packet.{WorkPacket, PacketCode, PacketError}
use xgoal.Protocol.{AgentResult, Evidence}
use xgoal.Store.Memory as MemoryMethods
use xgoal.Store.Memory.{StoreError, Memory}
use xgoal.Store.Claims

-- the interface StateStore over a state `S`
pub record StateStore (S : Type 0) : Type 0 where
  pub create_goal : Goal → String → Exec StoreError S (Unit {0})
  pub goal : String → S → Result StoreError Goal
  pub update_goal_state : String → Int64 → GoalState → String → Exec StoreError S (Unit {0})
  pub create_work_item : WorkItem → String → Exec StoreError S (Unit {0})
  pub work_item : String → S → Result StoreError WorkItem
  pub update_work_state : String → Int64 → WorkState → String → Exec StoreError S (Unit {0})
  pub claim_work : String → Int64 → Lease → Attempt → Exec StoreError S (Unit {0})
  pub attempt : String → S → Result StoreError Attempt
  pub update_attempt_state : String → Int64 → AttemptState → String → Exec StoreError S (Unit {0})
  pub release_lease : String → Int64 → Exec StoreError S (Unit {0})
  pub add_evidence : Model.Evidence → String → Exec StoreError S (Unit {0})

-- `*store.Memory` as a StateStore
abbrev pub memory_store : StateStore Memory
memory_store = record {
  create_goal = MemoryMethods.create_goal;
  goal = MemoryMethods.goal;
  update_goal_state = MemoryMethods.update_goal_state;
  create_work_item = MemoryMethods.create_work_item;
  work_item = MemoryMethods.work_item;
  update_work_state = MemoryMethods.update_work_state;
  claim_work = Claims.claim_work;
  attempt = Claims.attempt;
  update_attempt_state = Claims.update_attempt_state;
  release_lease = Claims.release_lease;
  add_evidence = MemoryMethods.add_evidence;
}

pub record SimulationSpec : Type 0 where
  pub packet : WorkPacket
  pub attempt_id : String
  pub lease_id : String
  pub agent_profile_id : String
  pub config_hash : String
  pub final_tree : String
  pub scope_policy_passed : Bool
  pub final_validation_set_current : Bool
  pub final_report_generated : Bool

-- the fields of adapter.Invocation that the kernel sets
pub record Invocation : Type 0 where
  pub invocation_id : String
  pub attempt_id : String
  pub role : Role
  pub work_dir : String
  pub prompt : String
  pub output_schema : String

-- validator.Request
pub record Request : Type 0 where
  pub validator_id : String
  pub subject_id : String
  pub goal_revision_hash : String
  pub config_hash : String
  pub tree_hash : String

-- What the kernel calls beside the store: `packet_code` is what the packet's checks call, `schema`
-- the embedded schema file, `now n` the n-th answer of the clock; `start` and `wait` are the
-- adapter, which return none, or a result beside false, for an error; so does `run_validator`.
pub record Dependencies : Type 0 where
  pub present : Bool
  pub packet_code : PacketCode
  pub schema : Option String
  pub now : ℕ → Time
  pub start : Invocation → Option String
  pub wait : String → AgentResult × Bool
  pub run_validator : Request → Evidence × Bool

pub data KernelError : Type 0 where
  dependencies_required identities_required schema_unavailable index_out_of_range : KernelError
  packet_refused : PacketError → KernelError
  hash_failed : KernelError
  store_error : StoreError → KernelError
