-- ===== src/Store/Abstract.antt =====
-- What the mutating methods of internal/store/memory.go promise, on the abstract store: a lookup
-- function for each kind of record, with no order of the entries, no events and no clock.
pub mod Complies
pub mod Records
pub mod Claims
pub mod Refines
use xgoal.Prelude.{String, string_eq, ◌≡◌, ◌≢◌, true, Option, none, some, ◌==◌, if◌then◌else◌, ◌⊎◌}
use xgoal.Prelude.Dict.{get}
use xgoal.Prelude.Word.{Int64, is_positive, incr}
use xgoal.Prelude.Exec.{Result, ok, err}
use xgoal.Domain.Transitions.{allows}
use xgoal.Domain.Goal.{GoalState, goal_state_eq, goal_transitions}
use xgoal.Domain.Work.{WorkState, work_state_eq, work_transitions}
use xgoal.Domain.Attempt.{AttemptState, attempt_state_eq, attempt_transitions}
use xgoal.Domain.Lease.{LeaseState}
use xgoal.Domain.Model.{Goal, WorkItem, Attempt, Lease, Evidence}
use xgoal.Store.Memory.{Memory, StoreError}
use xgoal.Store.Ops.{
  Op, create_goal_op, update_goal_op, create_work_op, update_work_op, claim_op, update_attempt_op,
  release_op, evidence_op,
}

-- the records by their ids, and the leases by the ids of their work items
pub record View : Type 0 where
  pub goals : String → Option Goal
  pub work_items : String → Option WorkItem
  pub attempts : String → Option Attempt
  pub leases : String → Option Lease
  pub evidence : String → Option Evidence

abbrev pub view : Memory → View
view m = record {
  goals = λ k. get k m.goals;
  work_items = λ k. get k m.work_items;
  attempts = λ k. get k m.attempts;
  leases = λ k. get k m.active_leases;
  evidence = λ k. get k m.evidence;
}

abbrev pub with_entry : {V : Type 0} → String → V → (String → Option V) → String → Option V
with_entry i v f k = if i == k then some v else f k

abbrev pub without_entry : {V : Type 0} → String → (String → Option V) → String → Option V
without_entry i f k = if i == k then none else f k

-- a claim's lease and attempt are new ones of the work item and belong together
pub record IsClaim (id : String) (l : Lease) (a : Attempt) : Type 0 where
  pub lease_id : l.id ≢ ""
  pub lease_work : l.work_item_id ≡ id
  pub lease_attempt : l.attempt_id ≡ a.id
  pub lease_state : l.state ≡ LeaseState.active
  pub generation : is_positive l.generation ≡ true
  pub attempt_id : a.id ≢ ""
  pub attempt_work : a.work_item_id ≡ id
  pub attempt_state : a.state ≡ AttemptState.created
  pub version : is_positive a.version ≡ true

-- no lease of the work item is ACTIVE
abbrev pub NoActive : Option Lease → Type 0
NoActive none = Unit
NoActive (some l) = l.state ≢ LeaseState.active

-- when a call is accepted
abbrev pub Accepts : Op → View → Type 0
Accepts (create_goal_op g event) x =
    (g.id ≢ "") × (is_positive g.version ≡ true) × (x.goals g.id ≡ none)
Accepts (update_goal_op id v state event) x =
    (g : Goal) × (x.goals id ≡ some g)
    × (g.version ≡ v)
    × (allows goal_transitions g.state state ≡ true)
Accepts (create_work_op w event) x =
    (w.id ≢ "") × (is_positive w.version ≡ true) × (x.work_items w.id ≡ none)
Accepts (update_work_op id v state event) x =
    (w : WorkItem) × (x.work_items id ≡ some w)
    × (w.version ≡ v)
    × (allows work_transitions w.state state ≡ true)
Accepts (claim_op id v lease attempt) x =
    (w : WorkItem) × (x.work_items id ≡ some w)
    × (w.version ≡ v)
    × (allows work_transitions w.state WorkState.claimed ≡ true)
    × NoActive (x.leases id)
    × IsClaim id lease attempt
    × (x.attempts attempt.id ≡ none)
Accepts (update_attempt_op id v state event) x =
    (a : Attempt) × (x.attempts id ≡ some a)
    × (a.version ≡ v)
    × (allows attempt_transitions a.state state ≡ true)
Accepts (release_op id generation) x =
    (l : Lease) × (x.leases id ≡ some l)
    × (l.state ≡ LeaseState.active)
    × (l.generation ≡ generation)
Accepts (evidence_op e event) x = (e.id ≢ "") × (x.evidence e.id ≡ none)

abbrev moved_goal : GoalState → Goal → Goal
moved_goal state g = record g { state = state; version = incr g.version }

abbrev moved_work : WorkState → WorkItem → WorkItem
moved_work state w = record w { state = state; version = incr w.version }

abbrev moved_attempt : AttemptState → Attempt → Attempt
moved_attempt state a = record a { state = state; version = incr a.version }

abbrev update_entry :
    {V : Type 0} → String → (V → V) → Option V → (String → Option V) → String → Option V
update_entry id f none look = look
update_entry id f (some v) look = with_entry id (f v) look

-- what an accepted call changes
abbrev pub effect : Op → View → View
effect (create_goal_op g event) x = record x { goals = with_entry g.id g x.goals }
effect (update_goal_op id v state event) x = record x {
  goals = update_entry id (moved_goal state) (x.goals id) x.goals;
}
effect (create_work_op w event) x = record x { work_items = with_entry w.id w x.work_items }
effect (update_work_op id v state event) x = record x {
  work_items = update_entry id (moved_work state) (x.work_items id) x.work_items;
}
effect (claim_op id v lease attempt) x = record x {
  work_items = update_entry id (moved_work WorkState.claimed) (x.work_items id) x.work_items;
  leases = with_entry id lease x.leases;
  attempts = with_entry attempt.id attempt x.attempts;
}
effect (update_attempt_op id v state event) x = record x {
  attempts = update_entry id (moved_attempt state) (x.attempts id) x.attempts;
}
effect (release_op id generation) x = record x { leases = without_entry id x.leases }
effect (evidence_op e event) x = record x { evidence = with_entry e.id e x.evidence }

-- The call with this result and this new store does what the abstract store promises.
abbrev pub Meets : Op → View → Result StoreError (Unit {0}) → View → Type 0
Meets op x result y =
    (Accepts op x × (result ≡ ok tt) × (y ≡ effect op x))
    ⊎ ((Accepts op x → ⊥) × ((e : StoreError) × (result ≡ err e)) × (y ≡ x))
