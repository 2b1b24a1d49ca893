-- ===== src/Store/Step.antt =====
-- The memory store as a transition system: one rule for each write that a method makes, under those
-- conditions of the methods of internal/store/memory.go that the proofs over runs need.
use xgoal.Prelude.{String, ◌≡◌, ◌⊎◌, true, false, none, some, string_eq, nat_eq}
use xgoal.Prelude.Dict.{get, put, remove}
use xgoal.Prelude.Word.{incr}
use xgoal.Domain.Goal.{GoalState, validate_goal_transition}
use xgoal.Domain.Work.{WorkState, validate_work_transition}
use xgoal.Domain.Attempt.{AttemptState, validate_attempt_transition}
use xgoal.Domain.Lease.{lease_state_eq}
use xgoal.Domain.Model.{Goal, WorkItem, Attempt, Lease, Evidence}
use xgoal.Store.Memory.{Memory, append_event}
use xgoal.Store.Claims.{record_claim, lease_is_active, is_valid_lease, is_valid_attempt}

pub data Step (m m' : Memory) : Type 0 where
  goal_created :
      (g : Goal) (event : String)
      → get g.id m.goals ≡ none
      → m' ≡ append_event "goal" g.id event (record m { goals = put g.id g m.goals })
      → Step m m'
  goal_moved :
      (id : String) (g : Goal) (state : GoalState) (event : String)
      → get id m.goals ≡ some g
      → validate_goal_transition g.state state ≡ none
      → m'
        ≡ append_event "goal" id event (record m {
          goals = put id (record g { state = state; version = incr g.version }) m.goals;
        })
      → Step m m'
  work_created :
      (w : WorkItem) (event : String)
      → get w.id m.work_items ≡ none
      → m' ≡ append_event "work" w.id event (record m { work_items = put w.id w m.work_items })
      → Step m m'
  work_moved :
      (id : String) (w : WorkItem) (state : WorkState) (event : String)
      → get id m.work_items ≡ some w
      → validate_work_transition w.state state ≡ none
      → m'
        ≡ append_event "work" id event (record m {
          work_items = put id (record w { state = state; version = incr w.version }) m.work_items;
        })
      → Step m m'
  work_claimed :
      (id : String) (w : WorkItem) (lease : Lease) (attempt : Attempt)
      → get id m.work_items ≡ some w
      → lease_is_active (get id m.active_leases) ≡ false
      → validate_work_transition w.state WorkState.claimed ≡ none
      → is_valid_lease id lease attempt ≡ true
      → is_valid_attempt id attempt ≡ true
      → get attempt.id m.attempts ≡ none
      → m' ≡ record_claim id w lease attempt m
      → Step m m'
  attempt_moved :
      (id : String) (a : Attempt) (state : AttemptState) (event : String)
      → get id m.attempts ≡ some a
      → validate_attempt_transition a.state state ≡ none
      → m'
        ≡ append_event "attempt" id event (record m {
          attempts = put id (record a { state = state; version = incr a.version }) m.attempts;
        })
      → Step m m'
  lease_released :
      (id : String) (l : Lease)
      → get id m.active_leases ≡ some l
      → m'
        ≡ append_event "work" id "LeaseReleased"
            (record m { active_leases = remove id m.active_leases })
      → Step m m'
  evidence_added :
      (e : Evidence) (event : String)
      → get e.id m.evidence ≡ none
      → m' ≡ append_event "evidence" e.id event (record m { evidence = put e.id e m.evidence })
      → Step m m'

abbrev pub Stays : Memory → Memory → Type 0
Stays m m' = (m' ≡ m) ⊎ Step m m'
