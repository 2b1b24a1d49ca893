-- ===== src/Domain/Effect.antt =====
-- The external effect state machine of internal/domain/state.go.
use xgoal.Prelude.{String, String-discrete, Bool, Option, [], ◌∷◌, Eq, eq_of_discrete, decide}
use xgoal.Domain.Transitions.{Transitions, TransitionError, set, exists, allows, validate}

-- the constants of `EffectState`, and `unknown` for any other text
pub data EffectState : Type 0 where
  requested executing observing recovering succeeded failed : EffectState
  unknown : String → EffectState

unfoldable pub EffectState-discrete : Discrete EffectState
unfolding String-discrete
EffectState-discrete = hlevel String-discrete

instance abbrev pub effect_state_eq : Eq EffectState
effect_state_eq = eq_of_discrete EffectState-discrete

unfoldable pub effect_transitions : Transitions EffectState
unfolding set EffectState-discrete decide
effect_transitions =
    (requested, set (executing ∷ recovering ∷ []))
    ∷ (executing, set (observing ∷ recovering ∷ []))
    ∷ (observing, set (succeeded ∷ failed ∷ recovering ∷ []))
    ∷ (recovering, set (observing ∷ []))
    ∷ (succeeded, [])
    ∷ (failed, [])
    ∷ []

unfoldable pub can_transition : EffectState → EffectState → Bool
unfolding allows effect_transitions
can_transition s to = allows effect_transitions s to

unfoldable pub valid : EffectState → Bool
unfolding exists effect_transitions
valid s = exists effect_transitions s

unfoldable pub validate_effect_transition :
    EffectState → EffectState → Option (TransitionError EffectState)
unfolding validate effect_transitions
validate_effect_transition from to = validate effect_transitions "effect" from to
