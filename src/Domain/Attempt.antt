-- ===== src/Domain/Attempt.antt =====
-- The attempt state machine of internal/domain/state.go.
use xgoal.Prelude.{
  String, String-discrete, Bool, Option, List, [], ◌∷◌, is_empty, if◌then◌else◌, Eq, eq_of_discrete,
  decide,
}
use xgoal.Domain.Transitions.{
  Transitions, TransitionError, add_targets, set, exists, allows, validate,
}

-- the constants of `AttemptState`, and `unknown` for any other text
pub data AttemptState : Type 0 where
  created preparing starting running collecting validating reviewing promoting succeeded failed
        timed_out interrupted invalid_output quarantined :
      AttemptState
  unknown : String → AttemptState

unfoldable pub AttemptState-discrete : Discrete AttemptState
unfolding String-discrete
AttemptState-discrete = hlevel String-discrete

instance abbrev pub attempt_state_eq : Eq AttemptState
attempt_state_eq = eq_of_discrete AttemptState-discrete

abbrev pub attempt_failures : List AttemptState
attempt_failures = failed ∷ timed_out ∷ interrupted ∷ invalid_output ∷ quarantined ∷ []

-- the literal `result` of `attemptTransitions`
base_transitions : Transitions AttemptState
base_transitions =
    (created, set (preparing ∷ []))
    ∷ (preparing, set (starting ∷ []))
    ∷ (starting, set (running ∷ []))
    ∷ (running, set (collecting ∷ []))
    ∷ (collecting, set (validating ∷ []))
    ∷ (validating, set (reviewing ∷ promoting ∷ []))
    ∷ (reviewing, set (promoting ∷ []))
    ∷ (promoting, set (succeeded ∷ []))
    ∷ (succeeded, [])
    ∷ (failed, [])
    ∷ (timed_out, [])
    ∷ (interrupted, [])
    ∷ (invalid_output, [])
    ∷ (quarantined, [])
    ∷ []

-- the loop over `result`: a state with a target may also fail
with_failures : Transitions AttemptState → Transitions AttemptState
with_failures [] = []
with_failures ((state, targets) ∷ rest) =
    (state, if is_empty targets then targets else add_targets attempt_failures targets)
    ∷ with_failures rest

unfoldable pub attempt_transitions : Transitions AttemptState
unfolding base_transitions with_failures set add_targets AttemptState-discrete decide
attempt_transitions = with_failures base_transitions

unfoldable pub can_transition : AttemptState → AttemptState → Bool
unfolding allows attempt_transitions
can_transition s to = allows attempt_transitions s to

unfoldable pub valid : AttemptState → Bool
unfolding exists attempt_transitions
valid s = exists attempt_transitions s

unfoldable pub validate_attempt_transition :
    AttemptState → AttemptState → Option (TransitionError AttemptState)
unfolding validate attempt_transitions
validate_attempt_transition from to = validate attempt_transitions "attempt" from to
