-- ===== src/Domain/Machines.antt =====
-- The validators of internal/domain/state.go against the tables: what they accept, and where a
-- state machine ends.
use xgoal.Prelude.{◌≡◌, refl, ◌↔◌, Bool, true, none, arith, not, ◌||◌, ◌==◌, ◌&&◌}
use xgoal.Domain.Transitions.{allows, exists, IsClosed, validate_iff}
use xgoal.Domain.Transitions.Check.{holds_on, IsClosed-by_check}
use xgoal.Domain.Goal
use xgoal.Domain.Goal.{
  GoalState, goal_state_eq, goal_transitions, validate_goal_transition, GoalState-discrete,
}
use xgoal.Domain.Plan
use xgoal.Domain.Plan.{
  PlanRevisionState, plan_revision_state_eq, plan_transitions, validate_plan_revision_transition,
}
use xgoal.Domain.Work
use xgoal.Domain.Work.{WorkState, work_state_eq, work_transitions, validate_work_transition}
use xgoal.Domain.Attempt
use xgoal.Domain.Attempt.{
  AttemptState, attempt_state_eq, attempt_transitions, validate_attempt_transition,
}
use xgoal.Domain.Lease
use xgoal.Domain.Lease.{LeaseState, lease_state_eq, lease_transitions, validate_lease_transition}
use xgoal.Domain.Gate
use xgoal.Domain.Gate.{GateState, gate_state_eq, gate_transitions, validate_gate_transition}
use xgoal.Domain.Effect
use xgoal.Domain.Effect.{
  EffectState, effect_state_eq, effect_transitions, validate_effect_transition,
}

pub goal-IsClosed : IsClosed goal_transitions
unfolding goal_transitions holds_on exists
goal-IsClosed = IsClosed-by_check goal_transitions refl

plan-IsClosed : IsClosed plan_transitions
unfolding plan_transitions holds_on exists
plan-IsClosed = IsClosed-by_check plan_transitions refl

pub work-IsClosed : IsClosed work_transitions
unfolding work_transitions holds_on exists
work-IsClosed = IsClosed-by_check work_transitions refl

pub attempt-IsClosed : IsClosed attempt_transitions
unfolding attempt_transitions holds_on exists
attempt-IsClosed = IsClosed-by_check attempt_transitions refl

lease-IsClosed : IsClosed lease_transitions
unfolding lease_transitions holds_on exists
lease-IsClosed = IsClosed-by_check lease_transitions refl

gate-IsClosed : IsClosed gate_transitions
unfolding gate_transitions holds_on exists
gate-IsClosed = IsClosed-by_check gate_transitions refl

effect-IsClosed : IsClosed effect_transitions
unfolding effect_transitions holds_on exists
effect-IsClosed = IsClosed-by_check effect_transitions refl

pub goal_accepted :
    (a b : GoalState) → (validate_goal_transition a b ≡ none) ↔ (allows goal_transitions a b ≡ true)
unfolding validate_goal_transition
goal_accepted a b = validate_iff goal_transitions "goal" a b goal-IsClosed

pub work_accepted :
    (a b : WorkState) → (validate_work_transition a b ≡ none) ↔ (allows work_transitions a b ≡ true)
unfolding validate_work_transition
work_accepted a b = validate_iff work_transitions "work item" a b work-IsClosed

pub attempt_accepted :
    (a b : AttemptState)
    → (validate_attempt_transition a b ≡ none) ↔ (allows attempt_transitions a b ≡ true)
unfolding validate_attempt_transition
attempt_accepted a b = validate_iff attempt_transitions "attempt" a b attempt-IsClosed

-- For each of the seven machines with both a validator and a `CanTransition`, and for all texts
-- as states: the validator returns no error exactly when `CanTransition` says yes.
pub validators_agree :
    ((a b : GoalState) → (validate_goal_transition a b ≡ none) ↔ (Goal.can_transition a b ≡ true))
    × ((a b : PlanRevisionState)
        → (validate_plan_revision_transition a b ≡ none) ↔ (Plan.can_transition a b ≡ true))
    × ((a b : WorkState) → (validate_work_transition a b ≡ none) ↔ (Work.can_transition a b ≡ true))
    × ((a b : AttemptState)
        → (validate_attempt_transition a b ≡ none) ↔ (Attempt.can_transition a b ≡ true))
    × ((a b : LeaseState)
        → (validate_lease_transition a b ≡ none) ↔ (Lease.can_transition a b ≡ true))
    × ((a b : GateState) → (validate_gate_transition a b ≡ none) ↔ (Gate.can_transition a b ≡ true))
    × ((a b : EffectState)
        → (validate_effect_transition a b ≡ none) ↔ (Effect.can_transition a b ≡ true))
validators_agree = (
  (λ a b. unfold Goal.can_transition in goal_accepted a b),
  (λ a b.
      unfold validate_plan_revision_transition Plan.can_transition in
      validate_iff plan_transitions "plan revision" a b plan-IsClosed),
  (λ a b. unfold Work.can_transition in work_accepted a b),
  (λ a b. unfold Attempt.can_transition in attempt_accepted a b),
  (λ a b.
      unfold validate_lease_transition Lease.can_transition in
      validate_iff lease_transitions "lease" a b lease-IsClosed),
  (λ a b.
      unfold validate_gate_transition Gate.can_transition in
      validate_iff gate_transitions "gate" a b gate-IsClosed),
  (λ a b.
      unfold validate_effect_transition Effect.can_transition in
      validate_iff effect_transitions "effect" a b effect-IsClosed),
)

-- the final states of a goal and of a work item
abbrev pub goal_final : GoalState → Bool
goal_final s = s == GoalState.completed || s == GoalState.cancelled

abbrev work_final : WorkState → Bool
work_final s = s == WorkState.completed || s == WorkState.cancelled

-- A goal can be cancelled exactly from a state that is valid and not final.
pub goal_cancel_iff :
    (a : GoalState)
    → (validate_goal_transition a GoalState.cancelled ≡ none)
      ↔ ((Goal.valid a && not (goal_final a)) ≡ true)
unfolding validate_goal_transition Goal.valid
goal_cancel_iff GoalState.draft = ground arith
goal_cancel_iff _ = ground arith
