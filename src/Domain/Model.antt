-- ===== src/Domain/Model.antt =====
-- The records of internal/domain/model.go that the stores and the kernel keep.
use xgoal.Prelude.{ℕ, String, Bool, List}
use xgoal.Prelude.Word.{Int64}
use xgoal.Domain.Goal.{GoalState}
use xgoal.Domain.Work.{WorkState}
use xgoal.Domain.Attempt.{AttemptState}
use xgoal.Domain.Lease.{LeaseState}
use xgoal.Domain.Role.{Role}
use xgoal.Domain.Authority.{Authority}
use xgoal.Domain.Evidence.{EvidenceState}
use xgoal.Domain.Effect.{EffectState}

-- time.Time: nanoseconds after the zero time
abbrev pub Time : Type 0
Time = ℕ

pub record Goal : Type 0 where
  pub id : String
  pub state : GoalState
  pub active_revision_id : String
  pub final_tree : String
  pub final_evidence_set_id : String
  pub final_report_hash : String
  pub version : Int64

pub record WorkItem : Type 0 where
  pub id : String
  pub plan_revision_id : String
  pub state : WorkState
  pub title : String
  pub objective : String
  pub read_scope : List String
  pub write_scope : List String
  pub acceptance_criteria : List String
  pub validator_ids : List String
  pub recommended_role : Role
  pub required : Bool
  pub version : Int64

pub record Attempt : Type 0 where
  pub id : String
  pub work_item_id : String
  pub agent_profile_id : String
  pub state : AttemptState
  pub base_tree : String
  pub result_tree : String
  pub packet_hash : String
  pub result_kind : String
  pub version : Int64

pub record Lease : Type 0 where
  pub id : String
  pub work_item_id : String
  pub attempt_id : String
  pub holder : String
  pub generation : Int64
  pub state : LeaseState
  pub acquired_at : Time
  pub heartbeat_at : Time
  pub expires_at : Time
  pub version : Int64

-- `kind` is the field Type; RequestJSON and ObservationJSON are texts, empty for nil
pub record Effect : Type 0 where
  pub id : String
  pub key : String
  pub kind : String
  pub state : EffectState
  pub request_json : String
  pub request_hash : String
  pub observation_json : String
  pub observation_hash : String
  pub version : Int64

pub record Evidence : Type 0 where
  pub id : String
  pub kind : String
  pub subject_id : String
  pub authority : Authority
  pub goal_revision_hash : String
  pub config_hash : String
  pub tree_hash : String
  pub payload_hash : String
  pub state : EvidenceState

-- ID is the text "event_%d" with the number `id`; the ActorID, CorrelationID and Payload of an
-- event of the memory store are always empty.
pub record Event : Type 0 where
  pub id : Int64
  pub aggregate_type : String
  pub aggregate_id : String
  pub sequence : Int64
  pub event_type : String
  pub actor_type : String
  pub created_at : Time
