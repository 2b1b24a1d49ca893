-- ===== src/Sqlite/Calls.antt =====
-- The writing methods of internal/store/sqlite/lease_lifecycle.go and scheduler.go as one data type,
-- and runs of them, each in its own transaction.
pub mod Fencing
use xgoal.Prelude.{ℕ, String, Bool, Option, List, [], ◌∷◌}
use xgoal.Prelude.Word.{Int64}
use xgoal.Prelude.Exec.{Result, ok, err}
use xgoal.Domain.Attempt.{AttemptState}
use xgoal.Domain.Model.{Time}
use xgoal.Sqlite.Tables.{Database, SqlError, EventInput, Payload}
use xgoal.Sqlite.Leases.{
  release_lease, heartbeat_lease, resolve_expired_lease, update_attempt_state_with_lease,
}
use xgoal.Sqlite.Scheduler.{refresh_ready_work}

-- a call of a worker or the kernel on a lease, by id and generation
pub data LeaseCall : Type 0 where
  release : Int64 → EventInput → LeaseCall
  heartbeat : Int64 → ℕ → EventInput → LeaseCall
  resolve : Int64 → Bool → EventInput → LeaseCall
  update_attempt : String → Int64 → AttemptState → EventInput → LeaseCall

pub data Call : Type 0 where
  on_lease : String → Int64 → LeaseCall → Call
  refresh : String → EventInput → Call

-- the tables after a transaction, which an error rolls back
abbrev pub committed :
    {A : Type 0} → Database → Result SqlError (A × Database) → Result SqlError Database
committed t (ok (_, t')) = ok t'
committed t (err e) = err e

abbrev pub kept_on_error : Database → Result SqlError Database → Database
kept_on_error t (ok t') = t'
kept_on_error t (err e) = t

module _ (marshal : Payload → Option String) (julian_day : Time → ℕ) where
  unfoldable pub perform_lease :
      Time → String → Int64 → LeaseCall → Database → Result SqlError Database
  unfolding release_lease heartbeat_lease resolve_expired_lease update_attempt_state_with_lease
  perform_lease now id generation (release version event) t =
      committed t (release_lease marshal now id generation version event t)
  perform_lease now id generation (heartbeat version ttl event) t =
      committed t (heartbeat_lease marshal now id generation version ttl event t)
  perform_lease now id generation (resolve version stopped event) t =
      committed t (resolve_expired_lease marshal now id generation version stopped event t)
  perform_lease now id generation (update_attempt attempt_id version state event) t =
      committed t
        (update_attempt_state_with_lease marshal now attempt_id version id generation state event t)

  unfoldable pub perform : Time → Call → Database → Result SqlError Database
  unfolding perform_lease refresh_ready_work
  perform now (on_lease id generation call) t = perform_lease now id generation call t
  perform now (refresh goal_id event) t =
      committed t (refresh_ready_work julian_day now marshal goal_id event t)

  -- calls at their times, one transaction after the other; callers go on after an error
  unfoldable pub run : List (Time × Call) → Database → Database
  unfolding perform
  run [] t = t
  run ((now, call) ∷ calls) t = run calls (kept_on_error t (perform now call t))
