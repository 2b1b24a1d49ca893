-- ===== src/Domain/Plan.antt =====
-- The plan revision state machine of internal/domain/state.go.
use xgoal.Prelude.{String, String-discrete, Bool, Option, [], ◌∷◌, Eq, eq_of_discrete, decide}
use xgoal.Domain.Transitions.{Transitions, TransitionError, set, exists, allows, validate}

-- the constants of `PlanRevisionState`, and `unknown` for any other text
pub data PlanRevisionState : Type 0 where
  draft active superseded : PlanRevisionState
  unknown : String → PlanRevisionState

unfoldable pub PlanRevisionState-discrete : Discrete PlanRevisionState
unfolding String-discrete
PlanRevisionState-discrete = hlevel String-discrete

instance abbrev pub plan_revision_state_eq : Eq PlanRevisionState
plan_revision_state_eq = eq_of_discrete PlanRevisionState-discrete

unfoldable pub plan_transitions : Transitions PlanRevisionState
unfolding set PlanRevisionState-discrete decide
plan_transitions =
    (draft, set (active ∷ [])) ∷ (active, set (superseded ∷ [])) ∷ (superseded, []) ∷ []

unfoldable pub can_transition : PlanRevisionState → PlanRevisionState → Bool
unfolding allows plan_transitions
can_transition s to = allows plan_transitions s to

unfoldable pub valid : PlanRevisionState → Bool
unfolding exists plan_transitions
valid s = exists plan_transitions s

unfoldable pub validate_plan_revision_transition :
    PlanRevisionState → PlanRevisionState → Option (TransitionError PlanRevisionState)
unfolding validate plan_transitions
validate_plan_revision_transition from to = validate plan_transitions "plan revision" from to
