-- ===== src/Sqlite/Leases.antt =====
-- internal/store/sqlite/lease_lifecycle.go: the life of a lease after its claim. `now` is the clock's
-- reading in a call; the conditions of an UPDATE were checked before in the same transaction, so it
-- changes its row.
pub mod Held
pub mod Expiry
use xgoal.Prelude.{
  ℕ, ◌+◌, String, string_eq, Bool, true, false, not, ◌&&◌, ◌||◌, Option, none, some, List, [], ◌∷◌,
  ◌==◌, nat_eq, ltb, leb, decide, if◌then◌else◌,
}
use xgoal.Prelude.Word.{Int64, is_positive, incr}
use xgoal.Prelude.Exec.{Result, ok, err}
use xgoal.Prelude.Dict.{Dict, get, put}
use xgoal.Prelude.Checks.{refuse, first_error}
use xgoal.Prelude.Steps.{◌>>=◌, ◌>>◌, check}
use xgoal.Domain.Transitions.{TransitionError}
use xgoal.Domain.Work.{WorkState, WorkState-discrete, work_state_eq, validate_work_transition}
use xgoal.Domain.Work
use xgoal.Domain.Attempt.{
  AttemptState, AttemptState-discrete, attempt_state_eq, validate_attempt_transition,
}
use xgoal.Domain.Attempt
use xgoal.Domain.Lease.{LeaseState, LeaseState-discrete, lease_state_eq, validate_lease_transition}
use xgoal.Domain.Model.{WorkItem, Attempt, Lease, Time}
use xgoal.Compile.Texts.{sort_by}
use xgoal.Policy.Paths.{codes}
use xgoal.Sqlite.Tables.{
  Database, Method, SqlError, invalid_input, conflict, stale_lease, expired_lease, not_expired,
  worker_running, pending_promotion, lease_transition, attempt_transition, work_transition,
  EventInput, PreparedEvent, Payload, interrupted_lease, stopped_lease, PromotionRow, read_lease,
  read_attempt, read_work_item, prepare_event, append_event, is_stored_lease, invalid_row,
}

abbrev pub refused_transition :
    {S : Type 0} → (TransitionError S → SqlError) → Option (TransitionError S) → Option SqlError
refused_transition e none = none
refused_transition e (some x) = some (e x)

-- the first checks on the lease that a caller names by its generation and version
abbrev pub owner_checks :
    String → Int64 → Int64 → Lease → List (Option SqlError) → List (Option SqlError)
owner_checks id generation version lease more =
    refuse (not (lease.version == version)) (conflict "lease" id)
    ∷ refuse (not (lease.generation == generation) || not (lease.state == LeaseState.active))
        (stale_lease id)
    ∷ more

abbrev pub is_named : String → Int64 → Int64 → Bool
is_named id generation version =
    not (id == "" || not (is_positive generation) || not (is_positive version))

abbrev pub put_lease : String → Lease → Database → Database
put_lease id lease t = record t { leases = put id lease t.leases }

-- the states that an expiry leaves as they are
unfoldable pub is_over : AttemptState → Bool
unfolding AttemptState-discrete decide
is_over s =
    s == AttemptState.failed
    || s == AttemptState.timed_out
    || s == AttemptState.interrupted
    || s == AttemptState.invalid_output
    || s == AttemptState.quarantined

-- the count of the promotions of an attempt that are under way is not zero
unfoldable pub has_pending : String → List PromotionRow → Bool
has_pending id [] = false
has_pending id (p ∷ ps) =
    (p.attempt_id == id && not (p.state == "OBSERVED" || p.state == "FAILED")) || has_pending id ps

-- the writes to the attempt and to its events; the lease's event comes between them
unfoldable pub interrupt : String → Attempt → Database → Database
unfolding is_over
interrupt id a t = if is_over a.state then t else record t {
  attempts =
      put id (record a { state = AttemptState.interrupted; version = incr a.version }) t.attempts;
}

unfoldable pub reconcile_work : String → WorkItem → Database → Database
unfolding WorkState-discrete decide
reconcile_work id w t = if w.state == WorkState.reconciling then t else record t {
  work_items =
      put id (record w { state = WorkState.reconciling; version = incr w.version }) t.work_items;
}

abbrev pub append_unless : Bool → String → String → PreparedEvent → Database → Database
append_unless true kind id event t = t
append_unless false kind id event t = append_event kind id event t

-- an event that the expiry adds to the caller's
abbrev pub follow_up : EventInput → String → Payload → EventInput
follow_up event event_type payload = record event { event_type = event_type; payload = payload }

-- the checks of an expiry after the rows are read
abbrev pub expiry_checks : Database → Lease → Attempt → WorkItem → List (Option SqlError)
expiry_checks t lease a w =
    refused_transition lease_transition (validate_lease_transition lease.state LeaseState.expired)
    ∷ refuse (has_pending lease.attempt_id t.promotions) pending_promotion
    ∷ (if is_over a.state
        then none
        else refused_transition attempt_transition
            (validate_attempt_transition a.state AttemptState.interrupted))
    ∷ (if w.state == WorkState.reconciling
        then none
        else refused_transition work_transition
            (validate_work_transition w.state WorkState.reconciling))
    ∷ []

abbrev pub expired_lease_of : Lease → Lease
expired_lease_of lease = record lease { state = LeaseState.expired; version = incr lease.version }

-- the three writes of an expiry
abbrev pub expire : String → Lease → Attempt → WorkItem → Database → Database
expire id lease a w t =
    reconcile_work lease.work_item_id w
      (interrupt lease.attempt_id a (put_lease id (expired_lease_of lease) t))

module _ (marshal : Payload → Option String) where
  unfoldable pub release_lease : Time → String → Int64 → Int64 → EventInput → Method Lease
  unfolding prepare_event read_lease append_event check validate_lease_transition
      LeaseState-discrete decide
  release_lease now id generation version event t = do
    check (refuse (not (is_named id generation version)) (invalid_input "lease release") ∷ [])
    prepared ← prepare_event marshal event
    lease ← read_lease id t
    check (
        owner_checks id generation version lease (
          refuse (leb lease.expires_at now) (expired_lease id)
          ∷ refused_transition lease_transition
              (validate_lease_transition lease.state LeaseState.released)
          ∷ []))
    let released = record lease { state = LeaseState.released; version = incr lease.version }
    ok (released, append_event "lease" id prepared (put_lease id released t))

  unfoldable pub heartbeat_lease : Time → String → Int64 → Int64 → ℕ → EventInput → Method Lease
  unfolding prepare_event read_lease append_event check LeaseState-discrete decide
  heartbeat_lease now id generation version ttl event t = do
    check (
        refuse (not (is_named id generation version) || not (is_positive ttl))
          (invalid_input "lease heartbeat")
        ∷ [])
    prepared ← prepare_event marshal event
    lease ← read_lease id t
    check (
        owner_checks id generation version lease
          (refuse (leb lease.expires_at now) (expired_lease id) ∷ []))
    let renewed = record lease {
      heartbeat_at = now;
      expires_at = now + ttl;
      version = incr lease.version;
    }
    ok (renewed, append_event "lease" id prepared (put_lease id renewed t))

  unfoldable pub resolve_expired_lease :
      Time → String → Int64 → Int64 → Bool → EventInput → Method Lease
  unfolding prepare_event read_lease read_attempt read_work_item append_event check
      LeaseState-discrete decide is_over has_pending interrupt reconcile_work WorkState-discrete
      validate_lease_transition validate_attempt_transition validate_work_transition
  resolve_expired_lease now id generation version worker_stopped event t = do
    check (
        refuse (not (is_named id generation version)) (invalid_input "expired lease resolution")
        ∷ refuse (not worker_stopped) worker_running
        ∷ [])
    lease_event ← prepare_event marshal event
    attempt_event ←
        prepare_event marshal
          (follow_up event "AttemptInterrupted" (interrupted_lease id generation))
    work_event ← prepare_event marshal (follow_up event "WorkReconciling" (stopped_lease id true))
    lease ← read_lease id t
    check (
        owner_checks id generation version lease
          (refuse (ltb now lease.expires_at) (not_expired id) ∷ []))
    attempt ← read_attempt lease.attempt_id t
    work ← read_work_item lease.work_item_id t
    check (expiry_checks t lease attempt work)
    ok (
      expired_lease_of lease,
      append_unless (work.state == WorkState.reconciling) "work" lease.work_item_id work_event (
          append_unless (is_over attempt.state) "attempt" lease.attempt_id attempt_event
            (append_event "lease" id lease_event (expire id lease attempt work t))),
    )

  unfoldable pub update_attempt_state_with_lease :
      Time → String → Int64 → String → Int64 → AttemptState → EventInput → Method (Unit {0})
  unfolding prepare_event read_lease read_attempt append_event check LeaseState-discrete
      Attempt.valid decide validate_attempt_transition
  update_attempt_state_with_lease now attempt_id version lease_id generation state event t = do
    check (
        refuse
          (attempt_id == ""
            || not (is_positive version)
            || lease_id == ""
            || not (is_positive generation)
            || not (Attempt.valid state))
          (invalid_input "lease-bound attempt update")
        ∷ [])
    prepared ← prepare_event marshal event
    lease ← read_lease lease_id t
    check (
        refuse
          (not (lease.generation == generation)
            || not (lease.attempt_id == attempt_id)
            || not (lease.state == LeaseState.active))
          (stale_lease lease_id)
        ∷ refuse (leb lease.expires_at now) (expired_lease lease_id)
        ∷ [])
    attempt ← read_attempt attempt_id t
    check (
        refuse (not (attempt.version == version)) (conflict "attempt" attempt_id)
        ∷ refused_transition attempt_transition (validate_attempt_transition attempt.state state)
        ∷ [])
    ok (
      tt,
      append_event "attempt" attempt_id prepared (record t {
        attempts =
            put attempt_id (record attempt { state = state; version = incr attempt.version })
              t.attempts;
      }),
    )

-- the rows whose lease is ACTIVE and past its time; the first row that is not valid is an error
unfoldable pub expired_among : Time → List (String × Lease) → Result SqlError (List Lease)
unfolding is_stored_lease LeaseState-discrete decide
expired_among now [] = ok []
expired_among now ((id, lease) ∷ rows) =
    let rest = expired_among now rows in
    if not (lease.state == LeaseState.active)
    then rest
    else if not (is_stored_lease lease)
    then err (invalid_row id)
    else if leb lease.expires_at now
    then (rest >>= λ leases. ok (lease ∷ leases))
    else rest

-- ExpiredLeases
unfoldable pub expired_leases : Time → Database → Result SqlError (List Lease)
unfolding expired_among sort_by
expired_leases now t = expired_among now (sort_by (λ row. codes row.0) t.leases)
