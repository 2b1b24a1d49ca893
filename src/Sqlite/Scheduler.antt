-- ===== src/Sqlite/Scheduler.antt =====
-- internal/store/sqlite/scheduler.go, with ensureWorkCanBecomeReady of plan_repository.go and the
-- condition gateBlocksExecution of gate_boundary.go. julianday of SQLite is a parameter.
pub mod Agree
use xgoal.Prelude.{
  ℕ, ◌+◌, String, string_eq, Bool, true, false, not, ◌&&◌, ◌||◌, Option, none, some, List, [], ◌∷◌,
  ◌==◌, nat_eq, leb, decide, if◌then◌else◌,
}
use xgoal.Prelude.Word.{incr}
use xgoal.Prelude.Exec.{Result, ok, err}
use xgoal.Prelude.Dict.{Dict, get, put}
use xgoal.Prelude.Checks.{refuse, first_error}
use xgoal.Prelude.Steps.{◌>>=◌, ◌>>◌, check}
use xgoal.Domain.Goal.{GoalState, GoalState-discrete, goal_state_eq}
use xgoal.Domain.Plan.{PlanRevisionState, PlanRevisionState-discrete, plan_revision_state_eq}
use xgoal.Domain.Work.{WorkState, WorkState-discrete, work_state_eq}
use xgoal.Domain.Gate.{GateState, GateState-discrete, gate_state_eq}
use xgoal.Domain.Lease.{LeaseState, LeaseState-discrete, lease_state_eq}
use xgoal.Domain.Model.{Goal, WorkItem, Lease, Time}
use xgoal.Compile.Texts.{sort_by}
use xgoal.Policy.Paths.{codes}
use xgoal.Sqlite.Tables.{
  Database, Method, SqlError, invalid_input, conflict, not_found, EventInput, PreparedEvent,
  Payload, PlanRow, DependencyRow, GateRow, GateDecision, read_goal, read_work_item, prepare_event,
  append_event,
}

abbrev pub is_denied : GateDecision → Bool
is_denied GateDecision.allowed = false
is_denied GateDecision.denied = true
is_denied GateDecision.undecided = false

-- a row of the gates is for the whole goal, or for the work item
abbrev pub concerns : String → Option String → Bool
concerns work_id none = true
concerns work_id (some id) = id == work_id

-- the second NOT EXISTS on the dependencies: a hard prerequisite that is there and not COMPLETED
unfoldable pub waits : Dict String WorkItem → String → List DependencyRow → Bool
unfolding get WorkState-discrete decide
waits works work_id [] = false
waits works work_id (d ∷ ds) =
    (d.to_id == work_id
      && d.dependency_type == "HARD"
      && elim (get d.from_id works) as (λ _. Bool) [
        | none ↦ false
        | some w ↦ not (w.state == WorkState.completed)
      ])
    || waits works work_id ds

module _ (julian_day : Time → ℕ) (now : Time) where
  -- gateBlocksExecution
  unfoldable pub gate_blocks : GateRow → Bool
  unfolding GateState-discrete decide
  gate_blocks g =
      not (g.state == GateState.approved)
      || is_denied g.decision
      || (g.used == 0 && leb (julian_day g.expires_at) (julian_day now))

  unfoldable pub is_gated : String → String → List GateRow → Bool
  unfolding gate_blocks
  is_gated goal_id work_id [] = false
  is_gated goal_id work_id (g ∷ gs) =
      (g.goal_id == goal_id && gate_blocks g && g.required && concerns work_id g.work_item_id)
      || is_gated goal_id work_id gs

  -- the goal revision of a work item's plan, and the revision's goal
  unfoldable pub plan_of : Database → WorkItem → Option (PlanRow × String)
  unfolding get
  plan_of t w = elim (get w.plan_revision_id t.plan_revisions) [
    | none ↦ none
    | some p ↦ elim (get p.goal_revision_id t.goal_revisions) [
      | none ↦ none
      | some goal_id ↦ some (p, goal_id)
    ]
  ]

  -- the WHERE clause of refreshReadyWorkTx
  unfoldable pub is_cleared : String → Goal → Database → String → WorkItem → Bool
  unfolding plan_of waits is_gated PlanRevisionState-discrete WorkState-discrete decide
  is_cleared goal_id goal t id w = elim (plan_of t w) [
    | none ↦ false
    | some (p, owner) ↦
        owner == goal_id
        && p.goal_revision_id == goal.active_revision_id
        && p.status == PlanRevisionState.active
        && w.state == WorkState.pending
        && not (waits t.work_items id t.work_dependencies)
        && not (is_gated goal_id id t.gates)
  ]

  unfoldable pub cleared_ids : String → Goal → Database → List (String × WorkItem) → List String
  unfolding is_cleared
  cleared_ids goal_id goal t [] = []
  cleared_ids goal_id goal t ((id, w) ∷ rows) =
      let rest = cleared_ids goal_id goal t rows in
      if is_cleared goal_id goal t id w then id ∷ rest else rest

  -- the candidates, ordered by id
  unfoldable pub candidates : String → Goal → Database → List String
  unfolding cleared_ids sort_by
  candidates goal_id goal t = sort_by codes (cleared_ids goal_id goal t t.work_items)

  -- the loop over the candidates
  unfoldable pub promote_each : PreparedEvent → List String → Database → Result SqlError Database
  unfolding get append_event WorkState-discrete decide
  promote_each event [] t = ok t
  promote_each event (id ∷ ids) t = elim (get id t.work_items) [
    | none ↦ err (conflict "work item" id)
    | some w ↦ elim (w.state == WorkState.pending) [
      | false ↦ err (conflict "work item" id)
      | true ↦ promote_each event ids (
          append_event "work" id event (record t {
            work_items =
                put id (record w { state = WorkState.ready; version = incr w.version })
                  t.work_items;
          }))
    ]
  ]

  -- refreshReadyWorkTx
  unfoldable pub refresh_ready_work_tx : String → PreparedEvent → Method (List String)
  unfolding read_goal check candidates promote_each GoalState-discrete decide
  refresh_ready_work_tx goal_id event t = do
    goal ← read_goal goal_id t
    check (refuse (not (goal.state == GoalState.running)) (conflict "goal" goal_id) ∷ [])
    t' ← promote_each event (candidates goal_id goal t) t
    ok (candidates goal_id goal t, t')

  unfoldable pub refresh_ready_work :
      (Payload → Option String) → String → EventInput → Method (List String)
  unfolding check prepare_event refresh_ready_work_tx
  refresh_ready_work marshal goal_id event t = do
    check (refuse (goal_id == "") (invalid_input "goal id") ∷ [])
    prepared ← prepare_event marshal event
    refresh_ready_work_tx goal_id prepared t

  -- ensureWorkCanBecomeReady, on the row of a work item
  unfoldable pub ensure_work_can_become_ready : Database → String → WorkItem → Option SqlError
  unfolding plan_of get waits is_gated first_error PlanRevisionState-discrete GoalState-discrete
      decide
  ensure_work_can_become_ready t id w = elim (plan_of t w) [
    | none ↦ some (not_found "plan" id)
    | some (p, owner) ↦ elim (get owner t.goals) [
      | none ↦ some (not_found "plan" id)
      | some goal ↦ first_error (
          refuse
            (not (p.status == PlanRevisionState.active)
              || not (goal.state == GoalState.running)
              || not (goal.active_revision_id == p.goal_revision_id))
            (conflict "work item" id)
          ∷ refuse (waits t.work_items id t.work_dependencies) (conflict "work item" id)
          ∷ refuse (is_gated owner id t.gates) (conflict "work item" id)
          ∷ [])
    ]
  ]

  unfoldable pub some_active : List (String × Lease) → Bool
  unfolding LeaseState-discrete decide
  some_active [] = false
  some_active ((_, lease) ∷ rows) = lease.state == LeaseState.active || some_active rows

  -- the WHERE clause of NextReadyWork
  unfoldable pub is_next : String → Goal → Database → String → WorkItem → Bool
  unfolding plan_of is_gated PlanRevisionState-discrete GoalState-discrete WorkState-discrete decide
  is_next goal_id goal t id w = elim (plan_of t w) [
    | none ↦ false
    | some (p, owner) ↦
        owner == goal_id
        && goal.state == GoalState.running
        && goal.active_revision_id == p.goal_revision_id
        && p.status == PlanRevisionState.active
        && w.state == WorkState.ready
        && not (is_gated goal_id id t.gates)
  ]

  unfoldable pub next_ids : String → Goal → Database → List (String × WorkItem) → List String
  unfolding is_next
  next_ids goal_id goal t [] = []
  next_ids goal_id goal t ((id, w) ∷ rows) =
      let rest = next_ids goal_id goal t rows in
      if is_next goal_id goal t id w then id ∷ rest else rest

  -- ORDER BY id LIMIT 1, on the rows of the query
  unfoldable pub first_id : String → List String → Result SqlError String
  first_id goal_id [] = err (not_found "ready work" goal_id)
  first_id goal_id (id ∷ ids) = ok id

  -- the query of NextReadyWork, which joins the row of the goal
  unfoldable pub next_candidates : String → Database → List String
  unfolding get next_ids sort_by
  next_candidates goal_id t = elim (get goal_id t.goals) [
    | none ↦ []
    | some goal ↦ sort_by codes (next_ids goal_id goal t t.work_items)
  ]

  unfoldable pub next_ready_work : String → Database → Result SqlError WorkItem
  unfolding check some_active next_candidates first_id read_work_item
  next_ready_work goal_id t = do
    check (
        refuse (goal_id == "") (invalid_input "goal id")
        ∷ refuse (some_active t.leases) (not_found "free slot" goal_id)
        ∷ [])
    id ← first_id goal_id (next_candidates goal_id t)
    read_work_item id t
