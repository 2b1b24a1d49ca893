-- ===== src/Domain/Work.antt =====
-- The work item state machine of internal/domain/state.go.
use xgoal.Prelude.{String, String-discrete, Bool, Option, [], ◌∷◌, Eq, eq_of_discrete, decide}
use xgoal.Domain.Transitions.{Transitions, TransitionError, set, exists, allows, validate}

-- the constants of `WorkState`, and `unknown` for any other text
pub data WorkState : Type 0 where
  pending ready claimed running verifying reconciling waiting completed cancelled : WorkState
  unknown : String → WorkState

unfoldable pub WorkState-discrete : Discrete WorkState
unfolding String-discrete
WorkState-discrete = hlevel String-discrete

instance abbrev pub work_state_eq : Eq WorkState
work_state_eq = eq_of_discrete WorkState-discrete

unfoldable pub work_transitions : Transitions WorkState
unfolding set WorkState-discrete decide
work_transitions =
    (pending, set (ready ∷ cancelled ∷ []))
    ∷ (ready, set (claimed ∷ waiting ∷ cancelled ∷ []))
    ∷ (claimed, set (running ∷ reconciling ∷ cancelled ∷ []))
    ∷ (running, set (verifying ∷ reconciling ∷ cancelled ∷ []))
    ∷ (verifying, set (completed ∷ reconciling ∷ cancelled ∷ []))
    ∷ (reconciling, set (ready ∷ waiting ∷ cancelled ∷ []))
    ∷ (waiting, set (ready ∷ cancelled ∷ []))
    ∷ (completed, [])
    ∷ (cancelled, [])
    ∷ []

unfoldable pub can_transition : WorkState → WorkState → Bool
unfolding allows work_transitions
can_transition s to = allows work_transitions s to

unfoldable pub valid : WorkState → Bool
unfolding exists work_transitions
valid s = exists work_transitions s

unfoldable pub validate_work_transition : WorkState → WorkState → Option (TransitionError WorkState)
unfolding validate work_transitions
validate_work_transition from to = validate work_transitions "work item" from to
