-- ===== src/Store/Claims.antt =====
-- The claims, attempts and leases of internal/store/memory.go.
use xgoal.Prelude.{
  String, Bool, false, not, ◌||◌, Option, none, some, ◌==◌, decide, if◌then◌else◌, string_eq,
  nat_eq,
}
use xgoal.Prelude.Word.{Int64, is_positive, incr}
use xgoal.Prelude.Exec.{Result, ok, err}
use xgoal.Prelude.Dict.{get, put, remove}
use xgoal.Domain.Work.{WorkState, validate_work_transition}
use xgoal.Domain.Attempt.{
  AttemptState, AttemptState-discrete, attempt_state_eq, validate_attempt_transition,
}
use xgoal.Domain.Lease.{LeaseState, LeaseState-discrete, lease_state_eq}
use xgoal.Store.Memory.{
  StoreError, already_exists, not_found, conflict, active_lease, invalid_lease, invalid_attempt,
  work_transition, attempt_transition, Memory, Method, append_event,
}
use xgoal.Domain.Model.{WorkItem, Attempt, Lease}

-- a lease of the work item is there and ACTIVE
unfoldable pub lease_is_active : Option Lease → Bool
unfolding LeaseState-discrete decide
lease_is_active none = false
lease_is_active (some lease) = lease.state == LeaseState.active

unfoldable pub is_valid_lease : String → Lease → Attempt → Bool
unfolding lease_is_active
is_valid_lease work_id lease attempt = not (
    lease.id == ""
    || not (lease.work_item_id == work_id)
    || not (lease.attempt_id == attempt.id)
    || not (lease.state == LeaseState.active)
    || not (is_positive lease.generation))

unfoldable pub is_valid_attempt : String → Attempt → Bool
unfolding AttemptState-discrete decide
is_valid_attempt work_id attempt = not (
    attempt.id == ""
    || not (attempt.work_item_id == work_id)
    || not (attempt.state == AttemptState.created)
    || not (is_positive attempt.version))

-- the writes of `ClaimWork`, after its checks
unfoldable pub record_claim : String → WorkItem → Lease → Attempt → Memory → Memory
record_claim work_id work lease attempt m = append_event "attempt" attempt.id "AttemptCreated" (
    append_event "work" work_id "LeaseAcquired" (record m {
      work_items =
          put work_id (record work { state = WorkState.claimed; version = incr work.version })
            m.work_items;
      active_leases = put work_id lease m.active_leases;
      attempts = put attempt.id attempt m.attempts;
    }))

-- the checks of `ClaimWork` on its two new records, and the writes
unfoldable pub claim_found : String → WorkItem → Lease → Attempt → Method (Unit {0})
unfolding record_claim
claim_found work_id work lease attempt m =
    if not (is_valid_lease work_id lease attempt)
    then (err invalid_lease, m)
    else if not (is_valid_attempt work_id attempt)
    then (err invalid_attempt, m)
    else elim (get attempt.id m.attempts) [
      | some _ ↦ (err (already_exists "attempt" attempt.id), m)
      | none ↦ (ok tt, record_claim work_id work lease attempt m)
    ]

unfoldable pub claim_work : String → Int64 → Lease → Attempt → Method (Unit {0})
unfolding claim_found
claim_work work_id expected_version lease attempt m = elim (get work_id m.work_items) [
  | none ↦ (err (not_found "work item" work_id), m)
  | some work ↦
      if not (work.version == expected_version)
      then (err (conflict "work item" work_id), m)
      else if lease_is_active (get work_id m.active_leases)
      then (err (active_lease work_id), m)
      else elim (validate_work_transition work.state WorkState.claimed) [
        | some e ↦ (err (work_transition e), m)
        | none ↦ claim_found work_id work lease attempt m
      ]
]

unfoldable pub attempt : String → Memory → Result StoreError Attempt
attempt id m = elim (get id m.attempts) [ none ↦ err (not_found "attempt" id) | some a ↦ ok a ]

unfoldable pub update_attempt_state : String → Int64 → AttemptState → String → Method (Unit {0})
update_attempt_state id expected_version state event_type m = elim (get id m.attempts) [
  | none ↦ (err (not_found "attempt" id), m)
  | some a ↦
      if not (a.version == expected_version)
      then (err (conflict "attempt" id), m)
      else elim (validate_attempt_transition a.state state) [
        | some e ↦ (err (attempt_transition e), m)
        | none ↦ (
          ok tt,
          append_event "attempt" id event_type (record m {
            attempts = put id (record a { state = state; version = incr a.version }) m.attempts;
          }),
        )
      ]
]

-- The source also sets the state of its local copy of the lease, which it then drops.
unfoldable pub release_lease : String → Int64 → Method (Unit {0})
unfolding LeaseState-discrete decide
release_lease work_id generation m = elim (get work_id m.active_leases) [
  | none ↦ (err (not_found "lease" work_id), m)
  | some lease ↦
      if not (lease.state == LeaseState.active)
      then (err (not_found "lease" work_id), m)
      else if not (lease.generation == generation)
      then (err (conflict "lease" work_id), m)
      else (
        ok tt,
        append_event "work" work_id "LeaseReleased"
            (record m { active_leases = remove work_id m.active_leases }),
      )
]
