-- ===== src/Examples/Sqlite.antt =====
-- Tests and examples of the durable store's leases and scheduler.
use xgoal.Prelude.{
  none, ℕ, ◌≡◌, refl, String, string_eq, true, false, Option, some, List, [], ◌∷◌, arith,
}
use xgoal.Prelude.Word.{incr}
use xgoal.Prelude.Exec.{Result, ok, err}
use xgoal.Prelude.Dict.{get, put}
use xgoal.Domain.Goal.{GoalState}
use xgoal.Domain.Plan.{PlanRevisionState}
use xgoal.Domain.Work.{WorkState}
use xgoal.Domain.Attempt.{AttemptState}
use xgoal.Domain.Lease.{LeaseState}
use xgoal.Domain.Gate.{GateState}
use xgoal.Domain.Effect.{EffectState}
use xgoal.Domain.Role
use xgoal.Domain.Model.{WorkItem, Attempt, Lease, Effect, Time}
use xgoal.Sqlite.Tables.{
  Database, SqlError, not_found, worker_running, EventInput, Payload, given, GateDecision,
}
use xgoal.Sqlite.Leases.{expired_leases, release_lease, resolve_expired_lease}
use xgoal.Sqlite.Leases.Held.{Acted}
use xgoal.Sqlite.Leases.Expiry.{IsResolved, resolve_expired_lease-IsResolved}
use xgoal.Sqlite.Scheduler.{refresh_ready_work, next_ready_work}
use xgoal.Sqlite.Scheduler.Agree.{Refreshed, refresh_ready_work-Refreshed}
use xgoal.Sqlite.Calls.{
  LeaseCall, release, heartbeat, Call, on_lease, refresh, perform_lease, perform, run,
}
use xgoal.Sqlite.Calls.Fencing.{InTime, perform_lease-Acted, closed_lease_fenced}
use xgoal.Sqlite.Effects.{EffectRequest, request_effect, update_effect}
use xgoal.Sqlite.Effects.Once.{
  EffectCall, update_call, run_effects, IsReplay, repeated_request-IsReplay,
}

abbrev work : String → WorkState → WorkItem
work id state = record {
  id = id;
  plan_revision_id = "plan";
  state = state;
  title = "title";
  objective = "objective";
  read_scope = "/src" ∷ [];
  write_scope = "/src" ∷ [];
  acceptance_criteria = "works" ∷ [];
  validator_ids = "unit" ∷ [];
  recommended_role = Role.implementer;
  required = true;
  version = 1;
}

abbrev first_try : Attempt
first_try = record {
  id = "try";
  work_item_id = "a";
  agent_profile_id = "agent";
  state = AttemptState.running;
  base_tree = "tree";
  result_tree = "";
  packet_hash = "hash";
  result_kind = "";
  version = 2;
}

abbrev lease : Lease
lease = record {
  id = "lease";
  work_item_id = "a";
  attempt_id = "try";
  holder = "worker";
  generation = 1;
  state = LeaseState.active;
  acquired_at = 10;
  heartbeat_at = 10;
  expires_at = 20;
  version = 1;
}

-- "b" depends on "a", and "c" on nothing; "d" has a gate of its own
abbrev tables : Database
tables = record {
  goals =
      (
        "goal",
        record {
          id = "goal";
          state = GoalState.running;
          active_revision_id = "revision";
          final_tree = "";
          final_evidence_set_id = "";
          final_report_hash = "";
          version = 3;
        },
      )
      ∷ [];
  goal_revisions = ("revision", "goal") ∷ [];
  plan_revisions =
      ("plan", record { goal_revision_id = "revision"; status = PlanRevisionState.active }) ∷ [];
  work_items =
      ("a", work "a" WorkState.running)
      ∷ ("d", work "d" WorkState.pending)
      ∷ ("c", work "c" WorkState.pending)
      ∷ ("b", work "b" WorkState.pending)
      ∷ [];
  work_dependencies = record { from_id = "a"; to_id = "b"; dependency_type = "HARD" } ∷ [];
  gates =
      record {
        goal_id = "goal";
        work_item_id = some "d";
        state = GateState.opened;
        decision = GateDecision.undecided;
        used = 0;
        required = true;
        expires_at = 100;
      }
      ∷ [];
  attempts = ("try", first_try) ∷ [];
  leases = ("lease", lease) ∷ [];
  promotions = [];
  effects = [];
  events = [];
}

abbrev marshal : Payload → Option String
marshal _ = some "{}"

abbrev day : Time → ℕ
day t = t

abbrev event : EventInput
event = record {
  event_type = "Changed";
  actor_type = "kernel";
  actor_id = "";
  correlation_id = "";
  payload = given "";
}

abbrev answer : {A : Type 0} → A → Result SqlError (A × Database) → A
answer a (ok (b, t')) = b
answer a (err e) = a

abbrev tables_after : {A : Type 0} → Database → Result SqlError (A × Database) → Database
tables_after t (ok (b, t')) = t'
tables_after t (err e) = t

only_c : answer [] (refresh_ready_work day 12 marshal "goal" event tables) ≡ "c" ∷ []
unfolding refresh_ready_work
only_c = refl

slot_taken : next_ready_work day 12 "goal" tables ≡ err (not_found "free slot" "goal")
unfolding next_ready_work
slot_taken = refl

past_its_end : expired_leases 20 tables ≡ ok (lease ∷ [])
unfolding expired_leases
past_its_end = refl

refresh_ready_work-Refreshed_example :
    Refreshed day 12 "goal" tables
      ("c" ∷ [])
      (tables_after tables (refresh_ready_work day 12 marshal "goal" event tables))
refresh_ready_work-Refreshed_example =
    refresh_ready_work-Refreshed day 12 marshal "goal" event tables
      (tables_after tables (refresh_ready_work day 12 marshal "goal" event tables)) ("c" ∷ [])
      (unfold get in (refl, (refl, (refl, (refl, tt))))) (unfold refresh_ready_work in refl)

-- the tables after the worker has given its lease back at time 15
abbrev released : Lease
released = record lease { state = LeaseState.released; version = 2 }

abbrev given_back : Database
given_back = tables_after tables (release_lease marshal 15 "lease" 1 1 event tables)

perform_lease-Acted_example : Acted "lease" 1 (InTime 15 (release 1 event)) tables given_back
perform_lease-Acted_example =
    perform_lease-Acted marshal day 15 "lease" 1 (release 1 event) tables given_back
      (unfold perform_lease release_lease in refl)

-- a heartbeat of the old worker and a refresh come after the lease was given back
abbrev late_calls : List (Time × Call)
late_calls = (16, on_lease "lease" 1 (heartbeat 1 10 event)) ∷ (17, refresh "goal" event) ∷ []

closed_lease_fenced_example :
    (get "lease" (run marshal day late_calls given_back).leases ≡ some released)
    × ((now : Time) (generation : ℕ) (call : LeaseCall)
        → (e : SqlError) × (perform marshal day now
              (on_lease "lease" generation call)
              (run marshal day late_calls given_back)
            ≡ err e))
closed_lease_fenced_example =
    closed_lease_fenced marshal day late_calls "lease" released given_back (record {
      stored = unfold release_lease get put incr in refl;
      over = λ e. absurd (ground arith);
    })

resolve_expired_lease-IsResolved_example :
    IsResolved "lease"
      (record lease { state = LeaseState.expired; version = 2 })
      tables
      (tables_after tables (resolve_expired_lease marshal 25 "lease" 1 1 true event tables))
resolve_expired_lease-IsResolved_example =
    resolve_expired_lease-IsResolved marshal 25 "lease" 1 1 true event tables
      (tables_after tables (resolve_expired_lease marshal 25 "lease" 1 1 true event tables))
      (record lease { state = LeaseState.expired; version = 2 })
      (unfold resolve_expired_lease incr in refl)

still_running : resolve_expired_lease marshal 25 "lease" 1 1 false event tables ≡ err worker_running
unfolding resolve_expired_lease
still_running = refl

-- a canonical value of any payload
abbrev canon : String → Payload → Option (String × String)
canon kind value = some ("{}", "hash")

abbrev publish : EffectRequest
publish = record { id = "effect"; key = "publish"; kind = "report"; request = given "" }

abbrev requested : Effect
requested = record {
  id = "effect";
  key = "publish";
  kind = "report";
  state = EffectState.requested;
  request_json = "{}";
  request_hash = "hash";
  observation_json = "";
  observation_hash = "";
  version = 1;
}

abbrev journalled : Database
journalled = tables_after tables (request_effect marshal canon publish event tables)

-- the effect is started between the two requests
abbrev started : List EffectCall
started = update_call "effect" 1 EffectState.executing none event ∷ []

-- the second request comes with another id
repeated_request-IsReplay_example :
    IsReplay marshal canon requested
      (record publish { id = "other" })
      (run_effects marshal canon started journalled)
      (record requested { state = EffectState.executing; version = 2 })
      false
      (run_effects marshal canon started journalled)
repeated_request-IsReplay_example =
    repeated_request-IsReplay marshal canon publish (record publish { id = "other" }) event event
      tables journalled (run_effects marshal canon started journalled) requested
      (record requested { state = EffectState.executing; version = 2 }) true false started
      (unfold request_effect in refl) refl
      (unfold request_effect run_effects update_effect incr in refl)
