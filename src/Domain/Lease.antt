-- ===== src/Domain/Lease.antt =====
-- The lease state machine of internal/domain/state.go.
use xgoal.Prelude.{String, String-discrete, Bool, Option, [], ◌∷◌, Eq, eq_of_discrete, decide}
use xgoal.Domain.Transitions.{Transitions, TransitionError, set, exists, allows, validate}

-- the constants of `LeaseState`, and `unknown` for any other text
pub data LeaseState : Type 0 where
  active released expired revoked : LeaseState
  unknown : String → LeaseState

unfoldable pub LeaseState-discrete : Discrete LeaseState
unfolding String-discrete
LeaseState-discrete = hlevel String-discrete

instance abbrev pub lease_state_eq : Eq LeaseState
lease_state_eq = eq_of_discrete LeaseState-discrete

unfoldable pub lease_transitions : Transitions LeaseState
unfolding set LeaseState-discrete decide
lease_transitions =
    (active, set (released ∷ expired ∷ revoked ∷ []))
    ∷ (released, [])
    ∷ (expired, [])
    ∷ (revoked, [])
    ∷ []

unfoldable pub can_transition : LeaseState → LeaseState → Bool
unfolding allows lease_transitions
can_transition s to = allows lease_transitions s to

unfoldable pub valid : LeaseState → Bool
unfolding exists lease_transitions
valid s = exists lease_transitions s

unfoldable pub validate_lease_transition :
    LeaseState → LeaseState → Option (TransitionError LeaseState)
unfolding validate lease_transitions
validate_lease_transition from to = validate lease_transitions "lease" from to
