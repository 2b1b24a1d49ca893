-- ===== src/Domain/Finding.antt =====
-- The review finding state machine of internal/domain/state.go. `opened` is FindingOpen.
use xgoal.Prelude.{String, String-discrete, Bool, Option, [], ◌∷◌, Eq, eq_of_discrete, decide}
use xgoal.Domain.Transitions.{Transitions, TransitionError, set, exists, validate}

-- the constants of `FindingState`, and `unknown` for any other text
pub data FindingState : Type 0 where
  opened resolved_by_patch disproved_by_evidence waived_by_human superseded : FindingState
  unknown : String → FindingState

unfoldable pub FindingState-discrete : Discrete FindingState
unfolding String-discrete
FindingState-discrete = hlevel String-discrete

instance abbrev pub finding_state_eq : Eq FindingState
finding_state_eq = eq_of_discrete FindingState-discrete

unfoldable pub finding_transitions : Transitions FindingState
unfolding set FindingState-discrete decide
finding_transitions =
    (opened, set (resolved_by_patch ∷ disproved_by_evidence ∷ waived_by_human ∷ superseded ∷ []))
    ∷ (resolved_by_patch, [])
    ∷ (disproved_by_evidence, [])
    ∷ (waived_by_human, [])
    ∷ (superseded, [])
    ∷ []

unfoldable pub valid : FindingState → Bool
unfolding exists finding_transitions
valid s = exists finding_transitions s

unfoldable pub validate_finding_transition :
    FindingState → FindingState → Option (TransitionError FindingState)
unfolding validate finding_transitions
validate_finding_transition from to = validate finding_transitions "review finding" from to
