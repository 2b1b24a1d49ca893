-- ===== src/Domain/Histories.antt =====
-- How long a sequence of allowed transitions of an attempt can be, and which states come before
-- which.
use xgoal.Prelude.{
  ℕ, ◌+◌, ◌≤◌, ◌<◌, ◌≡◌, refl, Bool, true, List, [], ◌∷◌, arith, ltb, length, ◌||◌, not, ◌==◌, ◌&&◌,
}
use xgoal.Domain.Transitions.{allows, IsHistory}
use xgoal.Domain.Transitions.Check.{holds_on, holds_on-allows}
use xgoal.Domain.Goal.{GoalState, goal_state_eq}
use xgoal.Domain.Work.{WorkState, work_state_eq}
use xgoal.Domain.Attempt.{AttemptState, attempt_state_eq, attempt_transitions}

-- how far an attempt has come
attempt_rank : AttemptState → ℕ
attempt_rank AttemptState.created = 0
attempt_rank AttemptState.preparing = 1
attempt_rank AttemptState.starting = 2
attempt_rank AttemptState.running = 3
attempt_rank AttemptState.collecting = 4
attempt_rank AttemptState.validating = 5
attempt_rank AttemptState.reviewing = 6
attempt_rank AttemptState.promoting = 7
attempt_rank _ = 8

attempt_rank-step :
    (a b : AttemptState) → allows attempt_transitions a b ≡ true → attempt_rank a < attempt_rank b
unfolding attempt_rank attempt_transitions holds_on
attempt_rank-step a b h = ground (
  arith,
  holds_on-allows (λ x y. ltb (attempt_rank x) (attempt_rank y)) attempt_transitions refl a b,
)

attempt_rank_le : (a : AttemptState) → attempt_rank a ≤ 8
unfolding attempt_rank
attempt_rank_le AttemptState.created = omega arith
attempt_rank_le _ = omega arith

attempt_length :
    (a : AttemptState) (bs : List AttemptState)
    → IsHistory attempt_transitions a bs
    → length bs + attempt_rank a ≤ 8
attempt_length a [] h = omega (arith, attempt_rank_le a)
attempt_length a (b ∷ bs) h = omega (arith, attempt_rank-step a b h.0, attempt_length b bs h.1)

-- From any state, whatever transitions are taken, an attempt ends after at most eight of them.
pub attempt_terminates :
    (a : AttemptState) (bs : List AttemptState) → IsHistory attempt_transitions a bs → length bs ≤ 8
attempt_terminates a bs h = omega (arith, attempt_length a bs h)

-- the states that come before another one on every way to the end
abbrev pub goal_before_verifying : GoalState → Bool
goal_before_verifying s = not (s == GoalState.verifying || s == GoalState.completed)

abbrev pub goal_before_running : GoalState → Bool
goal_before_running s = s == GoalState.draft || s == GoalState.ready || s == GoalState.cancelled

abbrev pub work_before_verifying : WorkState → Bool
work_before_verifying s = not (s == WorkState.verifying || s == WorkState.completed)

abbrev pub work_before_running : WorkState → Bool
work_before_running s = work_before_verifying s && not (s == WorkState.running)

abbrev pub work_before_claimed : WorkState → Bool
work_before_claimed s = work_before_running s && not (s == WorkState.claimed)

abbrev pub attempt_before_promoting : AttemptState → Bool
attempt_before_promoting s = not (s == AttemptState.promoting || s == AttemptState.succeeded)

abbrev pub attempt_before_validating : AttemptState → Bool
attempt_before_validating s =
    attempt_before_promoting s && not (s == AttemptState.validating || s == AttemptState.reviewing)
