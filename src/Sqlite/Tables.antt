-- ===== src/Sqlite/Tables.antt =====
-- The tables of internal/store/sqlite that its leases and its scheduler read and write, with the
-- events of goal_repository.go. A table with a text key is a map, any other a list of rows; the
-- number of a row, the random id of an event and all time stamps but those of a lease are left out.
-- A failing body of a transaction is rolled back, so it gives no tables.
use native.Mathlib.Decide.{ℕ_discrete}
use xgoal.Prelude.{
  ℕ, ◌+◌, String, string_eq, Bool, true, false, not, ◌&&◌, ◌||◌, Option, none, some, List, [], ◌∷◌,
  ◌==◌, nat_eq, ltb, decide, if◌then◌else◌,
}
use xgoal.Prelude.Word.{Int64, is_positive}
use xgoal.Prelude.Exec.{Result, ok, err}
use xgoal.Prelude.Dict.{Dict, get}
use xgoal.Domain.Transitions.{TransitionError}
use xgoal.Domain.Plan.{PlanRevisionState}
use xgoal.Domain.Work.{WorkState}
use xgoal.Domain.Attempt.{AttemptState}
use xgoal.Domain.Lease.{LeaseState}
use xgoal.Domain.Lease
use xgoal.Domain.Attempt
use xgoal.Domain.Work
use xgoal.Domain.Goal
use xgoal.Domain.Role
use xgoal.Domain.Gate.{GateState}
use xgoal.Domain.Effect.{EffectState}
use xgoal.Domain.Model.{Goal, WorkItem, Attempt, Lease, Effect, Time}
use xgoal.Policy.Paths.{codes, trim_space, Text, Text-discrete, text_eq}

-- the column decision of gates: domain.GateDecision, or NULL
pub data GateDecision : Type 0 where
  allowed denied undecided : GateDecision

pub record PlanRow : Type 0 where
  pub goal_revision_id : String
  pub status : PlanRevisionState

-- a row of work_dependencies
pub record DependencyRow : Type 0 where
  pub from_id : String
  pub to_id : String
  pub dependency_type : String

-- the columns of gates that the scheduler reads; a missing work item is `none`
pub record GateRow : Type 0 where
  pub goal_id : String
  pub work_item_id : Option String
  pub state : GateState
  pub decision : GateDecision
  pub used : ℕ
  pub required : Bool
  pub expires_at : Time

pub record PromotionRow : Type 0 where
  pub attempt_id : String
  pub state : String

-- any value of Go as an opaque text, or one of the two maps that the leases write
pub data Payload : Type 0 where
  given : String → Payload
  interrupted_lease : String → Int64 → Payload
  stopped_lease : String → Bool → Payload

pub record EventInput : Type 0 where
  pub event_type : String
  pub actor_type : String
  pub actor_id : String
  pub correlation_id : String
  pub payload : Payload

pub record PreparedEvent : Type 0 where
  pub input : EventInput
  pub payload : String

pub record EventRow : Type 0 where
  pub aggregate_type : String
  pub aggregate_id : String
  pub sequence : ℕ
  pub event : PreparedEvent

pub record Database : Type 0 where
  pub goals : Dict String Goal
  pub goal_revisions : Dict String String
  pub plan_revisions : Dict String PlanRow
  pub work_items : Dict String WorkItem
  pub work_dependencies : List DependencyRow
  pub gates : List GateRow
  pub attempts : Dict String Attempt
  pub leases : Dict String Lease
  pub promotions : List PromotionRow
  pub effects : Dict String Effect
  pub events : List EventRow

pub data SqlError : Type 0 where
  invalid_input : String → SqlError
  invalid_event : SqlError
  not_found conflict : String → String → SqlError
  stale_lease expired_lease not_expired invalid_row : String → SqlError
  worker_running pending_promotion : SqlError
  lease_transition : TransitionError LeaseState → SqlError
  attempt_transition : TransitionError AttemptState → SqlError
  work_transition : TransitionError WorkState → SqlError
  effect_transition : TransitionError EffectState → SqlError
  already_exists : String → String → SqlError
  reserved_effect idempotency_conflict : String → SqlError
  observation_required not_canonical : SqlError

-- a method that writes: its answer and the tables, or an error and no write
abbrev pub Method : Type 0 → Type 0
Method A = Database → Result SqlError (A × Database)

-- the row of a key
abbrev pub found : {A : Type 0} → String → String → Option A → Result SqlError A
found kind id none = err (not_found kind id)
found kind id (some a) = ok a

-- the check of scanLease; the times of a row always parse
unfoldable pub is_stored_lease : Lease → Bool
unfolding Lease.valid is_positive
is_stored_lease lease = not (
    not (Lease.valid lease.state)
    || not (is_positive lease.generation)
    || not (is_positive lease.version))

-- readLease
unfoldable pub read_lease : String → Database → Result SqlError Lease
unfolding get is_stored_lease
read_lease id t = elim (get id t.leases) [
  | none ↦ err (not_found "lease" id)
  | some lease ↦ if is_stored_lease lease then ok lease else err (invalid_row id)
]

-- readAttempt
unfoldable pub read_attempt : String → Database → Result SqlError Attempt
unfolding get Attempt.valid is_positive
read_attempt id t = elim (get id t.attempts) [
  | none ↦ err (not_found "attempt" id)
  | some a ↦
      if not (Attempt.valid a.state) || not (is_positive a.version)
      then err (invalid_row id)
      else ok a
]

-- readWorkItem; the four JSON columns of a row always decode
unfoldable pub read_work_item : String → Database → Result SqlError WorkItem
unfolding get Work.valid Role.valid is_positive
read_work_item id t = elim (get id t.work_items) [
  | none ↦ err (not_found "work item" id)
  | some w ↦
      if not (Work.valid w.state)
        || not (Role.valid w.recommended_role)
        || not (is_positive w.version)
      then err (invalid_row id)
      else ok w
]

-- readGoal
unfoldable pub read_goal : String → Database → Result SqlError Goal
unfolding get Goal.valid is_positive
read_goal id t = elim (get id t.goals) [
  | none ↦ err (not_found "goal" id)
  | some g ↦
      if not (Goal.valid g.state) || not (is_positive g.version) then err (invalid_row id) else ok g
]

unfoldable pub has_line_break : Text → Bool
has_line_break [] = false
has_line_break (c ∷ s) = c == b'\r' || c == b'\n' || has_line_break s

-- validEventLabel
unfoldable pub valid_event_label : String → Bool
unfolding trim_space has_line_break Text-discrete ℕ_discrete decide
valid_event_label value =
    not (value == "")
    && trim_space (codes value) == codes value
    && not (has_line_break (codes value))

-- prepareEvent, over canonical.Marshal
unfoldable pub prepare_event :
    (Payload → Option String) → EventInput → Result SqlError PreparedEvent
unfolding valid_event_label
prepare_event marshal event =
    elim (not (valid_event_label event.event_type) || not (valid_event_label event.actor_type)) [
      | true ↦ err invalid_event
      | false ↦ elim (marshal event.payload) [
        | none ↦ err invalid_event
        | some payload ↦ ok (record { input = event; payload = payload })
      ]
    ]

-- COALESCE(MAX(sequence), 0), over the rows of an aggregate
unfoldable pub last_sequence : String → String → List EventRow → ℕ
last_sequence kind id [] = 0
last_sequence kind id (e ∷ es) =
    let rest = last_sequence kind id es in
    if e.aggregate_type == kind && e.aggregate_id == id && ltb rest e.sequence
    then e.sequence
    else rest

-- appendEvent
unfoldable pub append_event : String → String → PreparedEvent → Database → Database
unfolding last_sequence
append_event kind id event t = record t {
  events =
      record {
        aggregate_type = kind;
        aggregate_id = id;
        sequence = last_sequence kind id t.events + 1;
        event = event;
      }
      ∷ t.events;
}
