-- ===== src/Domain/Evidence.antt =====
-- `EvidenceState` of internal/domain/state.go; `unknown` is any other text.
use xgoal.Prelude.{String, String-discrete, Bool, ◌||◌, Eq, ◌==◌, eq_of_discrete, decide}

pub data EvidenceState : Type 0 where
  current stale superseded invalid : EvidenceState
  unknown : String → EvidenceState

unfoldable pub EvidenceState-discrete : Discrete EvidenceState
unfolding String-discrete
EvidenceState-discrete = hlevel String-discrete

instance abbrev pub evidence_state_eq : Eq EvidenceState
evidence_state_eq = eq_of_discrete EvidenceState-discrete

unfoldable pub valid : EvidenceState → Bool
unfolding EvidenceState-discrete decide
valid x = x == current || x == stale || x == superseded || x == invalid
