-- ===== src/Protocol.antt =====
-- The parts of internal/protocol/protocol.go that the kernel checks: an agent's result, which is a
-- claim, and a validator's evidence.
pub mod Text
pub mod Harness
pub mod Packet
pub mod Labels
pub mod Patch
pub mod Receipt
pub mod Review
use xgoal.Prelude.{
  String, String-discrete, string_eq, Bool, true, false, not, ◌||◌, ◌==◌, nat_eq, decide, Option,
  none, some, List, [], Eq, eq_of_discrete, if◌then◌else◌,
}
use xgoal.Domain.Authority
use xgoal.Domain.Authority.{Authority}
use xgoal.Domain.Evidence as EvidenceStates
use xgoal.Domain.Evidence.{EvidenceState}
use xgoal.Domain.Model.{Time}
use Text.{is_blank}

abbrev pub agent_result_version : String
agent_result_version = "xgoal.agent-result/v1alpha1"

abbrev pub evidence_version : String
evidence_version = "xgoal.evidence/v1alpha1"

pub data ResultStatus : Type 0 where
  completed blocked failed : ResultStatus
  unknown : String → ResultStatus

unfoldable pub ResultStatus-discrete : Discrete ResultStatus
unfolding String-discrete
ResultStatus-discrete = hlevel String-discrete

instance abbrev pub result_status_eq : Eq ResultStatus
result_status_eq = eq_of_discrete ResultStatus-discrete

pub record CheckClaim : Type 0 where
  pub name : String
  pub status : String

pub record AgentResult : Type 0 where
  pub protocol_version : String
  pub status : ResultStatus
  pub summary : String
  pub changed_files_claimed : List String
  pub checks_claimed : List CheckClaim
  pub blockers : List String
  pub assumptions : List String
  pub recommended_next_action : String

pub data ProtocolError : Type 0 where
  wrong_protocol_version invalid_status summary_required : ProtocolError
  identity_required hashes_required state_required : ProtocolError

-- AgentResult.Validate
unfoldable pub agent_result_error : AgentResult → Option ProtocolError
unfolding is_blank ResultStatus-discrete decide
agent_result_error r =
    if not (r.protocol_version == agent_result_version)
    then some wrong_protocol_version
    else if not (
        r.status == ResultStatus.completed
        || r.status == ResultStatus.blocked
        || r.status == ResultStatus.failed)
    then some invalid_status
    else if is_blank r.summary
    then some summary_required
    else none

-- protocol.Evidence
pub record Evidence : Type 0 where
  pub protocol_version : String
  pub id : String
  pub kind : String
  pub subject_id : String
  pub producer : String
  pub authority : Authority
  pub goal_revision_hash : String
  pub config_hash : String
  pub tree_hash : String
  pub payload_hash : String
  pub state : EvidenceState
  pub created_at : Time

-- Evidence.Validate
unfoldable pub evidence_error : Evidence → Option ProtocolError
unfolding Authority.valid EvidenceStates.valid
evidence_error e =
    if not (e.protocol_version == evidence_version)
    then some wrong_protocol_version
    else if e.id == ""
        || e.kind == ""
        || e.subject_id == ""
        || e.producer == ""
        || not (Authority.valid e.authority)
    then some identity_required
    else if e.goal_revision_hash == ""
        || e.config_hash == ""
        || e.tree_hash == ""
        || e.payload_hash == ""
    then some hashes_required
    else if not (EvidenceStates.valid e.state) || e.created_at == 0
    then some state_required
    else none

-- the zero values AgentResult{} and Evidence{}
abbrev pub zero_result : AgentResult
zero_result = record {
  protocol_version = "";
  status = ResultStatus.unknown "";
  summary = "";
  changed_files_claimed = [];
  checks_claimed = [];
  blockers = [];
  assumptions = [];
  recommended_next_action = "";
}

abbrev pub zero_evidence : Evidence
zero_evidence = record {
  protocol_version = "";
  id = "";
  kind = "";
  subject_id = "";
  producer = "";
  authority = Authority.unknown "";
  goal_revision_hash = "";
  config_hash = "";
  tree_hash = "";
  payload_hash = "";
  state = EvidenceState.unknown "";
  created_at = 0;
}
