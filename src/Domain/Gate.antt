-- ===== src/Domain/Gate.antt =====
-- The gate state machine of internal/domain/state.go. `opened` is GateOpen: `open` is a reserved word.
use xgoal.Prelude.{String, String-discrete, Bool, Option, [], ◌∷◌, Eq, eq_of_discrete, decide}
use xgoal.Domain.Transitions.{Transitions, TransitionError, set, exists, allows, validate}

-- the constants of `GateState`, and `unknown` for any other text
pub data GateState : Type 0 where
  opened approved denied expired revoked : GateState
  unknown : String → GateState

unfoldable pub GateState-discrete : Discrete GateState
unfolding String-discrete
GateState-discrete = hlevel String-discrete

instance abbrev pub gate_state_eq : Eq GateState
gate_state_eq = eq_of_discrete GateState-discrete

unfoldable pub gate_transitions : Transitions GateState
unfolding set GateState-discrete decide
gate_transitions =
    (opened, set (approved ∷ denied ∷ expired ∷ []))
    ∷ (approved, set (expired ∷ revoked ∷ []))
    ∷ (denied, [])
    ∷ (expired, [])
    ∷ (revoked, [])
    ∷ []

unfoldable pub can_transition : GateState → GateState → Bool
unfolding allows gate_transitions
can_transition s to = allows gate_transitions s to

unfoldable pub valid : GateState → Bool
unfolding exists gate_transitions
valid s = exists gate_transitions s

unfoldable pub validate_gate_transition : GateState → GateState → Option (TransitionError GateState)
unfolding validate gate_transitions
validate_gate_transition from to = validate gate_transitions "gate" from to
