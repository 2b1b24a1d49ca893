-- ===== src/Store/Memory.antt =====
-- internal/store/memory.go: a method that mutates the store is an `Exec` on `Memory`. The mutex
-- makes each method one step, so the store is used by one method at a time.
use Prim.Native.String.{◌++◌ as str_append}
use xgoal.Prelude.{
  ℕ, Bool, ◌+◌, ◌%◌, ◌^◌, String, not, ◌||◌, none, some, List, [], ◌∷◌, ◌++◌, ◌==◌, length,
  if◌then◌else◌, string_eq, nat_eq,
}
use xgoal.Prelude.Word.{Int64, is_positive, incr}
use xgoal.Prelude.Exec.{Result, ok, err, Exec}
use xgoal.Prelude.Dict.{Dict, get, put}
use xgoal.Domain.Transitions.{TransitionError}
use xgoal.Domain.Goal.{GoalState, validate_goal_transition}
use xgoal.Domain.Work.{WorkState, validate_work_transition}
use xgoal.Domain.Attempt.{AttemptState, attempt_state_eq}
use xgoal.Domain.Lease.{lease_state_eq}
use xgoal.Domain.Model.{Time, Goal, WorkItem, Attempt, Lease, Evidence, Event}

-- The error variables of the package, with the kind and the id that the message shows, and the
-- errors that have no variable.
pub data StoreError : Type 0 where
  already_exists not_found conflict : String → String → StoreError
  active_lease : String → StoreError
  invalid_goal invalid_work_item invalid_lease invalid_attempt invalid_evidence : StoreError
  goal_transition : TransitionError GoalState → StoreError
  work_transition : TransitionError WorkState → StoreError
  attempt_transition : TransitionError AttemptState → StoreError

-- `clock n` is what the n-th call of the clock returns; the store calls it once for each event.
pub record Memory : Type 0 where
  pub clock : ℕ → Time
  pub goals : Dict String Goal
  pub work_items : Dict String WorkItem
  pub attempts : Dict String Attempt
  pub active_leases : Dict String Lease
  pub evidence : Dict String Evidence
  pub events : Dict String (List Event)
  pub next_event_id : Int64

abbrev pub Method : Type 0 → Type 0
Method A = Exec StoreError Memory A

abbrev pub new_memory : (ℕ → Time) → Memory
new_memory source = record {
  clock = source;
  goals = [];
  work_items = [];
  attempts = [];
  active_leases = [];
  evidence = [];
  events = [];
  next_event_id = 0;
}

-- aggregateType + "/" + aggregateID
abbrev pub event_key : String → String → String
event_key kind id = str_append (str_append kind "/") id

-- m.events[key]: the nil slice where the key is missing
unfoldable pub events_at : String → Memory → List Event
unfolding get
events_at key m = elim (get key m.events) [ none ↦ [] | some es ↦ es ]

unfoldable pub events_of : String → String → Memory → List Event
unfolding events_at
events_of kind id m = events_at (event_key kind id) m

-- the event that `appendEvent` builds, with the number that it has just taken
unfoldable pub new_event : String → String → String → Memory → Event
new_event kind id event_type m = record {
  id = incr m.next_event_id;
  aggregate_type = kind;
  aggregate_id = id;
  sequence = (length (events_at (event_key kind id) m) + 1) % 2 ^ 64;
  event_type = event_type;
  actor_type = "kernel";
  created_at = m.clock m.next_event_id;
}

unfoldable pub append_event : String → String → String → Memory → Memory
append_event kind id event_type m =
    let key : String = event_key kind id in
    record m {
      next_event_id = incr m.next_event_id;
      events = put key (events_at key m ++ new_event kind id event_type m ∷ []) m.events;
    }

-- goal.ID == "" || goal.Version <= 0, also of a work item
abbrev pub is_incomplete : String → Int64 → Bool
is_incomplete id version = id == "" || not (is_positive version)

unfoldable pub create_goal : Goal → String → Method (Unit {0})
create_goal goal event_type m =
    if is_incomplete goal.id goal.version
    then (err invalid_goal, m)
    else elim (get goal.id m.goals) [
      | some _ ↦ (err (already_exists "goal" goal.id), m)
      | none ↦ (
        ok tt,
        append_event "goal" goal.id event_type (record m { goals = put goal.id goal m.goals }),
      )
    ]

unfoldable pub goal : String → Memory → Result StoreError Goal
goal id m = elim (get id m.goals) [ none ↦ err (not_found "goal" id) | some g ↦ ok g ]

unfoldable pub update_goal_state : String → Int64 → GoalState → String → Method (Unit {0})
update_goal_state id expected_version state event_type m = elim (get id m.goals) [
  | none ↦ (err (not_found "goal" id), m)
  | some g ↦
      if not (g.version == expected_version)
      then (err (conflict "goal" id), m)
      else elim (validate_goal_transition g.state state) [
        | some e ↦ (err (goal_transition e), m)
        | none ↦ (
          ok tt,
          append_event "goal" id event_type (record m {
            goals = put id (record g { state = state; version = incr g.version }) m.goals;
          }),
        )
      ]
]

unfoldable pub create_work_item : WorkItem → String → Method (Unit {0})
create_work_item work event_type m =
    if is_incomplete work.id work.version
    then (err invalid_work_item, m)
    else elim (get work.id m.work_items) [
      | some _ ↦ (err (already_exists "work item" work.id), m)
      | none ↦ (
        ok tt,
        append_event "work" work.id event_type
            (record m { work_items = put work.id work m.work_items }),
      )
    ]

unfoldable pub work_item : String → Memory → Result StoreError WorkItem
work_item id m = elim (get id m.work_items) [
  | none ↦ err (not_found "work item" id)
  | some w ↦ ok w
]

unfoldable pub update_work_state : String → Int64 → WorkState → String → Method (Unit {0})
update_work_state id expected_version state event_type m = elim (get id m.work_items) [
  | none ↦ (err (not_found "work item" id), m)
  | some work ↦
      if not (work.version == expected_version)
      then (err (conflict "work item" id), m)
      else elim (validate_work_transition work.state state) [
        | some e ↦ (err (work_transition e), m)
        | none ↦ (
          ok tt,
          append_event "work" id event_type (record m {
            work_items =
                put id (record work { state = state; version = incr work.version }) m.work_items;
          }),
        )
      ]
]

unfoldable pub add_evidence : Evidence → String → Method (Unit {0})
add_evidence evidence event_type m =
    if evidence.id == "" then (err invalid_evidence, m) else elim (get evidence.id m.evidence) [
      | some _ ↦ (err (already_exists "evidence" evidence.id), m)
      | none ↦ (
        ok tt,
        append_event "evidence" evidence.id event_type
            (record m { evidence = put evidence.id evidence m.evidence }),
      )
    ]

unfoldable pub evidence : String → Memory → Result StoreError Evidence
evidence id m = elim (get id m.evidence) [ none ↦ err (not_found "evidence" id) | some e ↦ ok e ]
