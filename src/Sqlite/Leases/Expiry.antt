-- ===== src/Sqlite/Leases/Expiry.antt =====
-- ResolveExpiredLease of internal/store/sqlite/lease_lifecycle.go: the rows after an expiry.
use xgoal.Prelude.{
  ◌≡◌, refl, ap, subst, ◌∙◌, inl, inr, String, string_eq, Bool, true, false, not, Option, some, [],
  ◌∷◌, ◌==◌, ==_iff, ltb, arith, Bool-cases,
}
use xgoal.Prelude.Word.{Int64, incr}
use xgoal.Prelude.Exec.{ok}
use xgoal.Prelude.Dict.{get, get-put_self}
use xgoal.Prelude.Checks.{refuse, refuse-none}
use xgoal.Prelude.Steps.{>>=-ok, check, check-ok, ok_equal}
use xgoal.Domain.Work.{WorkState, work_state_eq}
use xgoal.Domain.Attempt.{AttemptState, AttemptState-discrete}
use xgoal.Domain.Lease.{LeaseState}
use xgoal.Domain.Model.{WorkItem, Attempt, Lease, Time}
use xgoal.Sqlite.Tables.{
  Database, EventInput, PreparedEvent, Payload, invalid_input, worker_running, not_expired,
  interrupted_lease, stopped_lease, read_lease, read_attempt, read_work_item, prepare_event,
  append_event,
}
use xgoal.Sqlite.Leases.{
  is_named, is_over, has_pending, owner_checks, follow_up, expiry_checks, expire, expired_lease_of,
  append_unless, interrupt, reconcile_work, put_lease, resolve_expired_lease,
}

-- the rows that an expired lease leaves behind
pub record IsResolved (id : String) (lease : Lease) (t t' : Database) : Type 0 where
  pub closed : get id t'.leases ≡ some lease
  pub expired : lease.state ≡ LeaseState.expired
  pub settled : has_pending lease.attempt_id t.promotions ≡ false
  pub attempt : Attempt
  pub attempt_stored : get lease.attempt_id t'.attempts ≡ some attempt
  pub attempt_over : is_over attempt.state ≡ true
  pub work : WorkItem
  pub work_stored : get lease.work_item_id t'.work_items ≡ some work
  pub work_reconciling : work.state ≡ WorkState.reconciling

-- the events do not touch the three tables
record SameRows (t t' : Database) : Type 0 where
  leases : t'.leases ≡ t.leases
  attempts : t'.attempts ≡ t.attempts
  works : t'.work_items ≡ t.work_items

append_unless-SameRows :
    (b : Bool) (kind id : String) (event : PreparedEvent) (t t' : Database)
    → SameRows t t'
    → SameRows t (append_unless b kind id event t')
unfolding append_event
append_unless-SameRows true kind id event t t' s = s
append_unless-SameRows false kind id event t t' s = record {
  leases = s.leases;
  attempts = s.attempts;
  works = s.works;
}

attempt_interrupted :
    (id : String) (a : Attempt) (t : Database)
    → get id t.attempts ≡ some a
    → (b : Attempt) × (get id (interrupt id a t).attempts ≡ some b) × (is_over b.state ≡ true)
unfolding interrupt
attempt_interrupted id a t stored = elim (Bool-cases (is_over a.state)) [
  | inl over ↦ (a, rw over stored, over)
  | inr going ↦
      let b = record a { state = AttemptState.interrupted; version = incr a.version } in
      (b, rw going (get-put_self id b t.attempts), unfold is_over AttemptState-discrete in refl)
]

work_reconciled :
    (id : String) (w : WorkItem) (t : Database)
    → get id t.work_items ≡ some w
    → (v : WorkItem) × (get id (reconcile_work id w t).work_items ≡ some v)
      × (v.state ≡ WorkState.reconciling)
unfolding reconcile_work
work_reconciled id w t stored = elim (Bool-cases (w.state == WorkState.reconciling)) [
  | inl idle ↦ (w, rw idle stored, (==_iff w.state WorkState.reconciling).0 idle)
  | inr busy ↦
      let v = record w { state = WorkState.reconciling; version = incr w.version } in
      (v, rw busy (get-put_self id v t.work_items), refl)
]

stored_attempt :
    (id : String) (t : Database) (a : Attempt)
    → read_attempt id t ≡ ok a
    → get id t.attempts ≡ some a
unfolding read_attempt
stored_attempt id t a h = ground arith

stored_work :
    (id : String) (t : Database) (w : WorkItem)
    → read_work_item id t ≡ ok w
    → get id t.work_items ≡ some w
unfolding read_work_item
stored_work id t w h = ground arith

interrupt-leases : (id : String) (a : Attempt) (t : Database) → (interrupt id a t).leases ≡ t.leases
unfolding interrupt
interrupt-leases id a t = ground (arith, Bool-cases (is_over a.state))

reconcile_work-others :
    (id : String) (w : WorkItem) (t : Database)
    → ((reconcile_work id w t).leases ≡ t.leases) × ((reconcile_work id w t).attempts ≡ t.attempts)
unfolding reconcile_work
reconcile_work-others id w t = elim (Bool-cases (w.state == WorkState.reconciling)) [
  | inl idle ↦ rw idle (refl, refl)
  | inr busy ↦ rw busy (refl, refl)
]

interrupt-works :
    (id : String) (a : Attempt) (t : Database) → (interrupt id a t).work_items ≡ t.work_items
unfolding interrupt
interrupt-works id a t = ground (arith, Bool-cases (is_over a.state))

-- the three writes and the events after them
expire-IsResolved :
    (id : String) (old : Lease) (a : Attempt) (w : WorkItem) (t t' : Database)
    → get old.attempt_id t.attempts ≡ some a
    → get old.work_item_id t.work_items ≡ some w
    → has_pending old.attempt_id t.promotions ≡ false
    → SameRows (expire id old a w t) t'
    → IsResolved id (expired_lease_of old) t t'
expire-IsResolved id old a w t t' stored_a stored_w settled same =
    let t1 = put_lease id (expired_lease_of old) t in
    let t2 = interrupt old.attempt_id a t1 in
    let others = reconcile_work-others old.work_item_id w t2 in
    let b = attempt_interrupted old.attempt_id a t1 stored_a in
    let v =
      work_reconciled old.work_item_id w t2
        (ap (get old.work_item_id) (interrupt-works old.attempt_id a t1) ∙ stored_w) in
    record {
      closed =
          ap (get id) (same.leases ∙ (others.0 ∙ interrupt-leases old.attempt_id a t1))
          ∙ get-put_self id (expired_lease_of old) t.leases;
      expired = refl;
      settled = settled;
      attempt = b.0;
      attempt_stored = ap (get old.attempt_id) (same.attempts ∙ others.1) ∙ b.1;
      attempt_over = b.2;
      work = v.0;
      work_stored = ap (get old.work_item_id) same.works ∙ v.1;
      work_reconciling = v.2;
    }

-- Where `ResolveExpiredLease` succeeds, the lease it returns is stored as EXPIRED, its attempt had no
-- promotion under way and is stored in a state that is over, and its work item is RECONCILING.
pub resolve_expired_lease-IsResolved :
    (marshal : Payload → Option String) (now : Time) (id : String) (generation version : Int64)
    (stopped : Bool) (event : EventInput) (t t' : Database) (lease : Lease)
    → resolve_expired_lease marshal now id generation version stopped event t ≡ ok (lease, t')
    → IsResolved id lease t t'
unfolding resolve_expired_lease append_event
resolve_expired_lease-IsResolved marshal now id generation version stopped event t t' lease h =
    let first =
      refuse (not (is_named id generation version)) (invalid_input "expired lease resolution")
      ∷ refuse (not stopped) worker_running
      ∷ [] in
    >>=-ok (check first) h λ _ _ h1. >>=-ok (prepare_event marshal event) h1 λ lease_event _ h2.
      >>=-ok
        (prepare_event marshal
          (follow_up event "AttemptInterrupted" (interrupted_lease id generation)))
        h2
        λ attempt_event _ h3.
          >>=-ok (prepare_event marshal (follow_up event "WorkReconciling" (stopped_lease id true)))
            h3
            λ work_event _ h4. >>=-ok (read_lease id t) h4 λ old _ h5.
              >>=-ok
                (check (
                  owner_checks id generation version old
                    (refuse (ltb now old.expires_at) (not_expired id) ∷ [])))
                h5
                λ _ _ h6. >>=-ok (read_attempt old.attempt_id t) h6 λ a read_a h7.
                  >>=-ok (read_work_item old.work_item_id t) h7 λ w read_w h8.
                    >>=-ok (check (expiry_checks t old a w)) h8 λ _ checked h9.
                      let settled =
                        refuse-none _ _ (check-ok (expiry_checks t old a w) checked).1.0 in
                      let t1 = expire id old a w t in
                      let t2 = append_event "lease" id lease_event t1 in
                      let over = is_over a.state in
                      let t3 = append_unless over "attempt" old.attempt_id attempt_event t2 in
                      let idle = w.state == WorkState.reconciling in
                      let t4 = append_unless idle "work" old.work_item_id work_event t3 in
                      let same : SameRows t1 t4 =
                        append_unless-SameRows idle "work" old.work_item_id work_event t1 t3 (
                          append_unless-SameRows over "attempt" old.attempt_id attempt_event t1 t2
                            (record { leases = refl; attempts = refl; works = refl })) in
                      subst (λ (x : Lease × Database). IsResolved id x.0 t x.1) (ok_equal h9)
                        (expire-IsResolved id old a w t t4
                          (stored_attempt old.attempt_id t a read_a)
                          (stored_work old.work_item_id t w read_w) settled same)
