-- ===== src/Store/Progress.antt =====
-- The goals, work items and attempts of internal/store/memory.go over runs of its methods.
use xgoal.Prelude.{ℕ, length, none, String, ◌≡◌, refl, ◌⊎◌, inl, inr, Option, some, List, string_eq}
use xgoal.Prelude.Dict.{get, get-put_free, get-put_over}
use xgoal.Prelude.Word.{incr}
use xgoal.Domain.Machines.{goal_accepted, work_accepted, attempt_accepted}
use xgoal.Domain.Goal.{GoalState, validate_goal_transition, goal_state_eq, goal_transitions}
use xgoal.Domain.Work.{WorkState, validate_work_transition, work_state_eq, work_transitions}
use xgoal.Domain.Attempt.{
  AttemptState, validate_attempt_transition, attempt_state_eq, attempt_transitions,
}
use xgoal.Domain.Model.{Goal, WorkItem, Attempt}
use xgoal.Store.Memory.{Memory, append_event}
use xgoal.Store.Claims.{record_claim}
use xgoal.Store.Step.{
  Step, goal_created, goal_moved, work_created, work_moved, work_claimed, attempt_moved,
  lease_released, evidence_added,
}
use xgoal.Store.Track.{Moves, Follows, follow}
use xgoal.Store.Ops.{Op, run}

abbrev GoalMoves : Goal → Goal → Type 0
GoalMoves = Moves goal_transitions (λ (r : Goal). r.state) (λ (r : Goal). r.version)

abbrev pub GoalFollows : ℕ → Goal → Option Goal → Type 0
GoalFollows = Follows goal_transitions (λ (r : Goal). r.state) (λ (r : Goal). r.version)

goal_moves :
    (g r r' : Goal) (state : GoalState)
    → validate_goal_transition g.state state ≡ none
    → (r' ≡ r) ⊎ ((g ≡ r) × (r' ≡ record g { state = state; version = incr g.version }))
    → GoalMoves r r'
goal_moves g r r' state fine (inl same) = inl same
goal_moves g r r' state fine (inr (old, new)) =
    rw (← old) (rw new (inr ((goal_accepted g.state state).0 fine, refl)))

pub goal_advance :
    (k : String) (m m' : Memory)
    → Step m m'
    → (r : Goal) → get k m.goals ≡ some r
    → (r' : Goal) × (get k m'.goals ≡ some r') × GoalMoves r r'
unfolding append_event record_claim
goal_advance k m m' (goal_created g event free e) r h =
    (r, rw e (get-put_free g.id k g m.goals free h), inl refl)
goal_advance k m m' (goal_moved id g state event found fine e) r h =
    let (r', there, how) =
      get-put_over id k (record g { state = state; version = incr g.version }) m.goals g r found
        h in
    (r', rw e there, goal_moves g r r' state fine how)
goal_advance k m m' (work_created w event free e) r h = (r, rw e h, inl refl)
goal_advance k m m' (work_moved id w state event found fine e) r h = (r, rw e h, inl refl)
goal_advance k m m' (work_claimed id w lease attempt found free fine good_lease good_attempt new e)
      r h =
    (r, rw e h, inl refl)
goal_advance k m m' (attempt_moved id a state event found fine e) r h = (r, rw e h, inl refl)
goal_advance k m m' (lease_released id l found e) r h = (r, rw e h, inl refl)
goal_advance k m m' (evidence_added x event free e) r h = (r, rw e h, inl refl)

abbrev WorkItemMoves : WorkItem → WorkItem → Type 0
WorkItemMoves = Moves work_transitions (λ (r : WorkItem). r.state) (λ (r : WorkItem). r.version)

abbrev pub WorkItemFollows : ℕ → WorkItem → Option WorkItem → Type 0
WorkItemFollows = Follows work_transitions (λ (r : WorkItem). r.state) (λ (r : WorkItem). r.version)

work_moves :
    (w r r' : WorkItem) (state : WorkState)
    → validate_work_transition w.state state ≡ none
    → (r' ≡ r) ⊎ ((w ≡ r) × (r' ≡ record w { state = state; version = incr w.version }))
    → WorkItemMoves r r'
work_moves w r r' state fine (inl same) = inl same
work_moves w r r' state fine (inr (old, new)) =
    rw (← old) (rw new (inr ((work_accepted w.state state).0 fine, refl)))

pub work_advance :
    (k : String) (m m' : Memory)
    → Step m m'
    → (r : WorkItem) → get k m.work_items ≡ some r
    → (r' : WorkItem) × (get k m'.work_items ≡ some r') × WorkItemMoves r r'
unfolding append_event record_claim
work_advance k m m' (goal_created g event free e) r h = (r, rw e h, inl refl)
work_advance k m m' (goal_moved id g state event found fine e) r h = (r, rw e h, inl refl)
work_advance k m m' (work_created w event free e) r h =
    (r, rw e (get-put_free w.id k w m.work_items free h), inl refl)
work_advance k m m' (work_moved id w state event found fine e) r h =
    let (r', there, how) =
      get-put_over id k (record w { state = state; version = incr w.version }) m.work_items w r
        found h in
    (r', rw e there, work_moves w r r' state fine how)
work_advance k m m' (work_claimed id w lease attempt found free fine good_lease good_attempt new e)
      r h =
    let (r', there, how) =
      get-put_over id k (record w { state = WorkState.claimed; version = incr w.version })
        m.work_items w r found h in
    (r', rw e there, work_moves w r r' WorkState.claimed fine how)
work_advance k m m' (attempt_moved id a state event found fine e) r h = (r, rw e h, inl refl)
work_advance k m m' (lease_released id l found e) r h = (r, rw e h, inl refl)
work_advance k m m' (evidence_added x event free e) r h = (r, rw e h, inl refl)

abbrev AttemptMoves : Attempt → Attempt → Type 0
AttemptMoves = Moves attempt_transitions (λ (r : Attempt). r.state) (λ (r : Attempt). r.version)

abbrev pub AttemptFollows : ℕ → Attempt → Option Attempt → Type 0
AttemptFollows = Follows attempt_transitions (λ (r : Attempt). r.state) (λ (r : Attempt). r.version)

attempt_moves :
    (a r r' : Attempt) (state : AttemptState)
    → validate_attempt_transition a.state state ≡ none
    → (r' ≡ r) ⊎ ((a ≡ r) × (r' ≡ record a { state = state; version = incr a.version }))
    → AttemptMoves r r'
attempt_moves a r r' state fine (inl same) = inl same
attempt_moves a r r' state fine (inr (old, new)) =
    rw (← old) (rw new (inr ((attempt_accepted a.state state).0 fine, refl)))

pub attempt_advance :
    (k : String) (m m' : Memory)
    → Step m m'
    → (r : Attempt) → get k m.attempts ≡ some r
    → (r' : Attempt) × (get k m'.attempts ≡ some r') × AttemptMoves r r'
unfolding append_event record_claim
attempt_advance k m m' (goal_created g event free e) r h = (r, rw e h, inl refl)
attempt_advance k m m' (goal_moved id g state event found fine e) r h = (r, rw e h, inl refl)
attempt_advance k m m' (work_created w event free e) r h = (r, rw e h, inl refl)
attempt_advance k m m' (work_moved id w state event found fine e) r h = (r, rw e h, inl refl)
attempt_advance k m m'
      (work_claimed id w lease attempt found free fine good_lease good_attempt new e) r h =
    (r, rw e (get-put_free attempt.id k attempt m.attempts new h), inl refl)
attempt_advance k m m' (attempt_moved id a state event found fine e) r h =
    let (r', there, how) =
      get-put_over id k (record a { state = state; version = incr a.version }) m.attempts a r found
        h in
    (r', rw e there, attempt_moves a r r' state fine how)
attempt_advance k m m' (lease_released id l found e) r h = (r, rw e h, inl refl)
attempt_advance k m m' (evidence_added x event free e) r h = (r, rw e h, inl refl)

-- Over any calls of the mutating methods, failing or not, a goal that is in the store stays there,
-- its state moves only along allowed transitions, and its version grows by one for each of them.
pub goal_follows :
    (ops : List Op) (m : Memory) (k : String) (g : Goal)
    → get k m.goals ≡ some g
    → GoalFollows (length ops) g (get k (run ops m).goals)
goal_follows ops m k g =
    follow goal_transitions _ _ (λ (m : Memory). get k m.goals) (goal_advance k) ops m g

-- The same of a work item.
pub work_follows :
    (ops : List Op) (m : Memory) (k : String) (w : WorkItem)
    → get k m.work_items ≡ some w
    → WorkItemFollows (length ops) w (get k (run ops m).work_items)
work_follows ops m k w =
    follow work_transitions _ _ (λ (m : Memory). get k m.work_items) (work_advance k) ops m w

-- Over any calls of the mutating methods, an attempt that is in the store stays there, its state
-- moves only along allowed transitions, at most eight times, and its version counts them.
pub attempt_follows :
    (ops : List Op) (m : Memory) (k : String) (a : Attempt)
    → get k m.attempts ≡ some a
    → AttemptFollows (length ops) a (get k (run ops m).attempts)
attempt_follows ops m k a =
    follow attempt_transitions _ _ (λ (m : Memory). get k m.attempts) (attempt_advance k) ops m a
