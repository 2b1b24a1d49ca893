-- ===== src/Kernel/Trusted.antt =====
-- `trustedEvidence` of internal/kernel/kernel.go.
use xgoal.Prelude.{String, string_eq, Bool, true, false, ◌&&◌, ◌==◌, decide, none, some}
use xgoal.Domain.Authority.{Authority, Authority-discrete, authority_eq}
use xgoal.Domain.Evidence.{EvidenceState, EvidenceState-discrete, evidence_state_eq}
use xgoal.Protocol.{Evidence, evidence_error}

unfoldable pub trusted_evidence : Evidence → String → String → String → String → Bool
unfolding evidence_error Authority-discrete EvidenceState-discrete decide
trusted_evidence e subject_id goal_hash config_hash tree_hash =
    (elim (evidence_error e) [ none ↦ true | some _ ↦ false ])
    && e.authority == Authority.deterministic
    && e.state == EvidenceState.current
    && e.subject_id == subject_id
    && e.goal_revision_hash == goal_hash
    && e.config_hash == config_hash
    && e.tree_hash == tree_hash
