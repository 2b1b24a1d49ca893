-- ===== src/Kernel/Transitions.antt =====
-- `transitionGoal`, `transitionWork` and `transitionAttempt` of internal/kernel/kernel.go.
use xgoal.Prelude.{String}
use xgoal.Prelude.Exec.{Result, ok, err, Exec, ◌>>=◌}
use xgoal.Domain.Goal.{GoalState}
use xgoal.Domain.Work.{WorkState}
use xgoal.Domain.Attempt.{AttemptState}
use xgoal.Store.Memory.{StoreError}
use xgoal.Kernel.Interface.{StateStore, KernelError, store_error}

-- if err := ...; err != nil { return SimulationOutcome{}, err }
unfoldable pub lift : {S A : Type 0} → Exec StoreError S A → Exec KernelError S A
lift m s = elim (m s).0 [ ok a ↦ (ok a, (m s).1) | err e ↦ (err (store_error e), (m s).1) ]

unfoldable pub read : {S A : Type 0} → (S → Result StoreError A) → Exec KernelError S A
read f s = elim (f s) [ ok a ↦ (ok a, s) | err e ↦ (err (store_error e), s) ]

module _ {S : Type 0} (store : StateStore S) where
  unfoldable pub transition_goal : String → GoalState → String → Exec KernelError S (Unit {0})
  unfolding lift read
  transition_goal id state event = do
    goal ← read (store.goal id)
    lift (store.update_goal_state id goal.version state event)

  unfoldable pub transition_work : String → WorkState → String → Exec KernelError S (Unit {0})
  unfolding lift read
  transition_work id state event = do
    work ← read (store.work_item id)
    lift (store.update_work_state id work.version state event)

  unfoldable pub transition_attempt : String → AttemptState → String → Exec KernelError S (Unit {0})
  unfolding lift read
  transition_attempt id state event = do
    attempt ← read (store.attempt id)
    lift (store.update_attempt_state id attempt.version state event)
