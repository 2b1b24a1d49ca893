-- ===== src/Domain/Goal.antt =====
-- The goal state machine of internal/domain/state.go.
use xgoal.Prelude.{String, String-discrete, Bool, Option, [], ◌∷◌, Eq, eq_of_discrete, decide}
use xgoal.Domain.Transitions.{Transitions, TransitionError, set, exists, allows, validate}

-- the constants of `GoalState`, and `unknown` for any other text
pub data GoalState : Type 0 where
  draft ready running waiting verifying completed cancelled : GoalState
  unknown : String → GoalState

unfoldable pub GoalState-discrete : Discrete GoalState
unfolding String-discrete
GoalState-discrete = hlevel String-discrete

instance abbrev pub goal_state_eq : Eq GoalState
goal_state_eq = eq_of_discrete GoalState-discrete

unfoldable pub goal_transitions : Transitions GoalState
unfolding set GoalState-discrete decide
goal_transitions =
    (draft, set (ready ∷ cancelled ∷ []))
    ∷ (ready, set (running ∷ cancelled ∷ []))
    ∷ (running, set (waiting ∷ verifying ∷ cancelled ∷ []))
    ∷ (waiting, set (running ∷ cancelled ∷ []))
    ∷ (verifying, set (running ∷ waiting ∷ completed ∷ cancelled ∷ []))
    ∷ (completed, [])
    ∷ (cancelled, [])
    ∷ []

unfoldable pub can_transition : GoalState → GoalState → Bool
unfolding allows goal_transitions
can_transition s to = allows goal_transitions s to

unfoldable pub valid : GoalState → Bool
unfolding exists goal_transitions
valid s = exists goal_transitions s

unfoldable pub validate_goal_transition : GoalState → GoalState → Option (TransitionError GoalState)
unfolding validate goal_transitions
validate_goal_transition from to = validate goal_transitions "goal" from to
