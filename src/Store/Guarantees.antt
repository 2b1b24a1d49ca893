-- ===== src/Store/Guarantees.antt =====
-- What a caller of the memory store can rely on over any sequence of calls.
use xgoal.Prelude.{
  ℕ, ◌≤◌, String, string_eq, ◌≡◌, refl, sym, ◌∙◌, ap, subst, some, Bool, true, false, List, [], ◌∷◌,
  length,
}
use xgoal.Prelude.Dict.{get}
use xgoal.Domain.Transitions.{allows, IsHistory}
use xgoal.Domain.Transitions.Check.{holds_on, leaves_through}
use xgoal.Domain.Goal.{GoalState, goal_state_eq, goal_transitions}
use xgoal.Domain.Work.{WorkState, work_state_eq, work_transitions}
use xgoal.Domain.Attempt.{AttemptState, attempt_state_eq, attempt_transitions}
use xgoal.Domain.Histories.{
  goal_before_verifying, goal_before_running, work_before_verifying, work_before_running,
  work_before_claimed, attempt_before_promoting, attempt_before_validating, attempt_terminates,
}
use xgoal.Domain.Model.{Goal, WorkItem, Attempt}
use xgoal.Store.Memory.{Memory}
use xgoal.Store.Track.{bump}
use xgoal.Store.Progress.{
  WorkItemFollows, AttemptFollows, goal_advance, work_advance, attempt_advance, work_follows,
  attempt_follows,
}
use xgoal.Store.Visits.{Seen, Visits, leaves-Seen}
use xgoal.Store.Ops.{Op, run}

module _ (m : Memory) (k : String) (g : Goal) (there : get k m.goals ≡ some g)
    (start : g.state ≡ GoalState.draft) where
  -- a region of the goal states that is left through one state only
  goal-Seen :
      (p : GoalState → Bool) (gate : GoalState)
      → holds_on (leaves_through p gate) goal_transitions ≡ true
      → p GoalState.draft ≡ true
      → (ops : List Op) (g' : Goal) → get k (run ops m).goals ≡ some g'
      → p g'.state ≡ false
      → Seen (λ (x : Memory). get k x.goals) (λ (r : Goal). r.state) m gate ops
  goal-Seen p gate only_gate inside ops g' after outside =
      leaves-Seen goal_transitions (λ (r : Goal). r.state) (λ (r : Goal). r.version)
        (λ (x : Memory). get k x.goals) (goal_advance k) p gate only_gate ops m g g' there
        (ap p start ∙ inside) after outside

  -- A goal that is stored as DRAFT, and stored as COMPLETED after some calls of the mutating methods,
  -- is stored as VERIFYING after an earlier one of these calls, and as RUNNING after one before that.
  pub goal_completed_by_verifying :
      (ops : List Op) (g' : Goal)
      → get k (run ops m).goals ≡ some g'
      → g'.state ≡ GoalState.completed
      → Visits
          (λ (x : Memory). get k x.goals)
          (λ (r : Goal). r.state)
          m
          (GoalState.verifying ∷ GoalState.running ∷ [])
          ops
  unfolding holds_on goal_transitions
  goal_completed_by_verifying ops g' after end =
      let at_verifying =
        goal-Seen goal_before_verifying GoalState.verifying refl refl ops g' after
          (ap goal_before_verifying end) in
      let at_running =
        goal-Seen goal_before_running GoalState.running refl refl at_verifying.before
          at_verifying.seen at_verifying.is_there (ap goal_before_running at_verifying.in_state) in
      (at_verifying, (at_running, tt))

module _ (m : Memory) (k : String) (w : WorkItem) (there : get k m.work_items ≡ some w)
    (start : w.state ≡ WorkState.pending) where
  -- a region of the work states that is left through one state only
  work-Seen :
      (p : WorkState → Bool) (gate : WorkState)
      → holds_on (leaves_through p gate) work_transitions ≡ true
      → p WorkState.pending ≡ true
      → (ops : List Op) (w' : WorkItem) → get k (run ops m).work_items ≡ some w'
      → p w'.state ≡ false
      → Seen (λ (x : Memory). get k x.work_items) (λ (r : WorkItem). r.state) m gate ops
  work-Seen p gate only_gate inside ops w' after outside =
      leaves-Seen work_transitions (λ (r : WorkItem). r.state) (λ (r : WorkItem). r.version)
        (λ (x : Memory). get k x.work_items) (work_advance k) p gate only_gate ops m w w' there
        (ap p start ∙ inside) after outside

  -- A work item that is stored as PENDING, and stored as COMPLETED after some calls of the mutating
  -- methods, is stored as VERIFYING after an earlier one of these calls, as RUNNING after one before
  -- that, and as CLAIMED after one before that again.
  pub work_completed_by_verifying :
      (ops : List Op) (w' : WorkItem)
      → get k (run ops m).work_items ≡ some w'
      → w'.state ≡ WorkState.completed
      → Visits
          (λ (x : Memory). get k x.work_items)
          (λ (r : WorkItem). r.state)
          m
          (WorkState.verifying ∷ WorkState.running ∷ WorkState.claimed ∷ [])
          ops
  unfolding holds_on work_transitions
  work_completed_by_verifying ops w' after end =
      let at_verifying =
        work-Seen work_before_verifying WorkState.verifying refl refl ops w' after
          (ap work_before_verifying end) in
      let at_running =
        work-Seen work_before_running WorkState.running refl refl at_verifying.before
          at_verifying.seen at_verifying.is_there (ap work_before_running at_verifying.in_state) in
      let at_claimed =
        work-Seen work_before_claimed WorkState.claimed refl refl at_running.before at_running.seen
          at_running.is_there (ap work_before_claimed at_running.in_state) in
      (at_verifying, (at_running, (at_claimed, tt)))

module _ (m : Memory) (k : String) (a : Attempt) (there : get k m.attempts ≡ some a)
    (start : a.state ≡ AttemptState.created) where
  -- a region of the attempt states that is left through one state only
  attempt-Seen :
      (p : AttemptState → Bool) (gate : AttemptState)
      → holds_on (leaves_through p gate) attempt_transitions ≡ true
      → p AttemptState.created ≡ true
      → (ops : List Op) (a' : Attempt) → get k (run ops m).attempts ≡ some a'
      → p a'.state ≡ false
      → Seen (λ (x : Memory). get k x.attempts) (λ (r : Attempt). r.state) m gate ops
  attempt-Seen p gate only_gate inside ops a' after outside =
      leaves-Seen attempt_transitions (λ (r : Attempt). r.state) (λ (r : Attempt). r.version)
        (λ (x : Memory). get k x.attempts) (attempt_advance k) p gate only_gate ops m a a' there
        (ap p start ∙ inside) after outside

  -- An attempt that is stored as CREATED, and stored as SUCCEEDED after some calls of the mutating
  -- methods, is stored as PROMOTING after an earlier one of these calls, and as VALIDATING after one
  -- before that.
  pub attempt_succeeds_by_validating :
      (ops : List Op) (a' : Attempt)
      → get k (run ops m).attempts ≡ some a'
      → a'.state ≡ AttemptState.succeeded
      → Visits
          (λ (x : Memory). get k x.attempts)
          (λ (r : Attempt). r.state)
          m
          (AttemptState.promoting ∷ AttemptState.validating ∷ [])
          ops
  unfolding holds_on attempt_transitions
  attempt_succeeds_by_validating ops a' after end =
      let at_promoting =
        attempt-Seen attempt_before_promoting AttemptState.promoting refl refl ops a' after
          (ap attempt_before_promoting end) in
      let at_validating =
        attempt-Seen attempt_before_validating AttemptState.validating refl refl at_promoting.before
          at_promoting.seen at_promoting.is_there
          (ap attempt_before_validating at_promoting.in_state) in
      (at_promoting, (at_validating, tt))

-- An attempt that is in the store stays there over any calls of the mutating methods, and they
-- move it at most eight times in all: its version goes up by at most eight.
pub attempt_moves_bounded :
    (ops : List Op) (m : Memory) (k : String) (a : Attempt)
    → get k m.attempts ≡ some a
    → (a' : Attempt) × (n : ℕ) × (get k (run ops m).attempts ≡ some a')
      × (n ≤ 8)
      × (a'.version ≡ bump n a.version)
attempt_moves_bounded ops m k a there =
    let f : AttemptFollows (length ops) a (get k (run ops m).attempts) =
      attempt_follows ops m k a there in
    (f.now, length f.moves, f.is_there, attempt_terminates a.state f.moves f.is_history, f.counts)

no_way_on : (bs : List WorkState) → IsHistory work_transitions WorkState.completed bs → bs ≡ []
unfolding allows work_transitions
no_way_on [] h = refl
no_way_on (b ∷ bs) h = cc

-- A COMPLETED work item stays in the store, COMPLETED and at its version, over any calls of the
-- mutating methods.
pub work_completed_for_good :
    (ops : List Op) (m : Memory) (k : String) (w : WorkItem)
    → get k m.work_items ≡ some w
    → w.state ≡ WorkState.completed
    → (w' : WorkItem) × (get k (run ops m).work_items ≡ some w')
      × (w'.state ≡ WorkState.completed)
      × (w'.version ≡ w.version)
work_completed_for_good ops m k w there done =
    let f : WorkItemFollows (length ops) w (get k (run ops m).work_items) =
      work_follows ops m k w there in
    let none_left : f.moves ≡ [] =
      no_way_on f.moves (subst (λ s. IsHistory work_transitions s f.moves) done f.is_history) in
    (f.now, f.is_there, sym f.ends ∙ (rw none_left done), f.counts ∙ (rw none_left))
