-- ===== src/Sqlite/Leases/Held.antt =====
-- Whom the methods of internal/store/sqlite/lease_lifecycle.go obey, and which leases they write.
use xgoal.Prelude.{
  ℕ, ◌<◌, ◌≤◌, ◌≡◌, refl, ap, subst, ◌∙◌, ◌≢◌, inl, inr, String, string_eq, Bool, true, false, not,
  ◌||◌, Option, some, List, [], ◌∷◌, ◌==◌, nat_eq, ==_iff, leb, ltb, arith, Bool-cases,
}
use xgoal.Prelude.Word.{Int64, is_positive}
use xgoal.Prelude.Exec.{ok}
use xgoal.Prelude.Dict.{get, put, get-put}
use xgoal.Prelude.Checks.{refuse, refuse-none}
use xgoal.Prelude.Steps.{>>=-ok, check, check-ok, ok_equal}
use xgoal.Domain.Work.{WorkState, work_state_eq}
use xgoal.Domain.Attempt
use xgoal.Domain.Attempt.{AttemptState, validate_attempt_transition}
use xgoal.Domain.Lease.{LeaseState, lease_state_eq, validate_lease_transition}
use xgoal.Domain.Model.{WorkItem, Attempt, Lease, Time}
use xgoal.Sqlite.Tables.{
  Database, SqlError, EventInput, PreparedEvent, Payload, invalid_input, stale_lease,
  worker_running, interrupted_lease, stopped_lease, read_attempt, read_work_item, conflict,
  expired_lease, not_expired, lease_transition, attempt_transition, read_lease, prepare_event,
  append_event,
}
use xgoal.Sqlite.Leases.{
  is_named, is_over, expired_lease_of, follow_up, expiry_checks, expire, append_unless, interrupt,
  reconcile_work, owner_checks, refused_transition, release_lease, heartbeat_lease,
  resolve_expired_lease, update_attempt_state_with_lease,
}

-- the lease of the id is stored, ACTIVE and of the generation
pub record IsHeld (id : String) (generation : Int64) (lease : Lease) (t : Database) : Type 0 where
  pub stored : get id t.leases ≡ some lease
  pub active : lease.state ≡ LeaseState.active
  pub current : lease.generation ≡ generation

stored_of_read :
    (id : String) (t : Database) (lease : Lease)
    → read_lease id t ≡ ok lease
    → get id t.leases ≡ some lease
unfolding read_lease
stored_of_read id t lease h = ground arith

owner-IsHeld :
    (id : String) (generation version : Int64) (lease : Lease) (more : List (Option SqlError))
    (t : Database)
    → read_lease id t ≡ ok lease
    → check (owner_checks id generation version lease more) ≡ ok tt
    → IsHeld id generation lease t
owner-IsHeld id generation version lease more t read checked =
    let passed = check-ok (owner_checks id generation version lease more) checked in
    let x = refuse-none _ _ passed.1.0 in
    record {
      stored = stored_of_read id t lease read;
      active = ground (arith, ==_iff lease.state LeaseState.active);
      current = ground (arith, ==_iff lease.generation generation);
    }

-- the tests of the clock, and the first check of a bound update
late-lt : (a b : ℕ) → leb a b ≡ false → b < a
late-lt a b h = ground arith

early-le : (a b : ℕ) → ltb a b ≡ false → b ≤ a
early-le a b h = ground arith

not-false : (b : Bool) → not b ≡ false → b ≡ true
not-false b h = ground arith

refused_none : (a b c : Bool) → (not a || not b || not c) ≡ false → (a ≡ true) × (c ≡ true)
refused_none a b c h = (ground arith, ground arith)

-- what a successful call shows: who holds the lease, when, and that no other lease is written
pub record Acted (id : String) (generation : Int64) (In_time : Time → Type 0) (t t' : Database)
    : Type 0 where
  pub lease : Lease
  pub held : IsHeld id generation lease t
  pub in_time : In_time lease.expires_at
  pub others : (k : String) → k ≢ id → get k t'.leases ≡ get k t.leases

put_lease-others :
    (id : String) (lease : Lease) (t : Database) (k : String)
    → k ≢ id
    → get k (put id lease t.leases) ≡ get k t.leases
put_lease-others id lease t k other =
    ground (arith, get-put id k lease t.leases, ==_iff id k, other)

append_unless-leases :
    (b : Bool) (kind id : String) (event : PreparedEvent) (t : Database)
    → (append_unless b kind id event t).leases ≡ t.leases
unfolding append_event
append_unless-leases true kind id event t = refl
append_unless-leases false kind id event t = refl

expire-leases :
    (id : String) (lease : Lease) (a : Attempt) (w : WorkItem) (t : Database)
    → (expire id lease a w t).leases ≡ put id (expired_lease_of lease) t.leases
unfolding interrupt reconcile_work
expire-leases id lease a w t = elim (Bool-cases (w.state == WorkState.reconciling)) [
  | inl idle ↦ ground (arith, Bool-cases (is_over a.state))
  | inr busy ↦ ground (arith, Bool-cases (is_over a.state))
]

-- the leases after an expiry and its events
expiry-leases :
    (id : String) (lease : Lease) (a : Attempt) (w : WorkItem) (t : Database) (b c : Bool)
    (first second third : PreparedEvent)
    → (append_unless b "work" lease.work_item_id third (
        append_unless c "attempt" lease.attempt_id second
          (append_event "lease" id first (expire id lease a w t)))).leases
      ≡ put id (expired_lease_of lease) t.leases
unfolding append_event
expiry-leases id lease a w t b c first second third =
    append_unless-leases b "work" lease.work_item_id third _
    ∙ (append_unless-leases c "attempt" lease.attempt_id second _ ∙ expire-leases id lease a w t)

module _ (marshal : Payload → Option String) (now : Time) where
  pub release_lease-Acted :
      (id : String) (generation version : Int64) (event : EventInput) (t t' : Database)
      (lease : Lease)
      → release_lease marshal now id generation version event t ≡ ok (lease, t')
      → Acted id generation (λ e. now < e) t t'
  unfolding release_lease append_event
  release_lease-Acted id generation version event t t' lease h =
      >>=-ok
        (check (refuse (not (is_named id generation version)) (invalid_input "lease release") ∷ []))
        h
        λ _ _ h1. >>=-ok (prepare_event marshal event) h1 λ prepared _ h2.
          >>=-ok (read_lease id t) h2 λ old read h3.
            let more =
              refuse (leb old.expires_at now) (expired_lease id)
              ∷ refused_transition lease_transition
                  (validate_lease_transition old.state LeaseState.released)
              ∷ [] in
            >>=-ok (check (owner_checks id generation version old more)) h3 λ _ checked h4.
              let late =
                refuse-none _ _
                  (check-ok (owner_checks id generation version old more) checked).1.1.0 in
              record {
                lease = old;
                held = owner-IsHeld id generation version old more t read checked;
                in_time = late-lt old.expires_at now late;
                others = λ k other.
                    subst (λ (x : Lease × Database). get k x.1.leases ≡ get k t.leases)
                      (ok_equal h4) (put_lease-others id _ t k other);
              }

  pub heartbeat_lease-Acted :
      (id : String) (generation version : Int64) (ttl : ℕ) (event : EventInput) (t t' : Database)
      (lease : Lease)
      → heartbeat_lease marshal now id generation version ttl event t ≡ ok (lease, t')
      → Acted id generation (λ e. now < e) t t'
  unfolding heartbeat_lease append_event
  heartbeat_lease-Acted id generation version ttl event t t' lease h =
      >>=-ok
        (check (
          refuse (not (is_named id generation version) || not (is_positive ttl))
            (invalid_input "lease heartbeat")
          ∷ []))
        h
        λ _ _ h1. >>=-ok (prepare_event marshal event) h1 λ prepared _ h2.
          >>=-ok (read_lease id t) h2 λ old read h3.
            let more = refuse (leb old.expires_at now) (expired_lease id) ∷ [] in
            >>=-ok (check (owner_checks id generation version old more)) h3 λ _ checked h4.
              let late =
                refuse-none _ _
                  (check-ok (owner_checks id generation version old more) checked).1.1.0 in
              record {
                lease = old;
                held = owner-IsHeld id generation version old more t read checked;
                in_time = late-lt old.expires_at now late;
                others = λ k other.
                    subst (λ (x : Lease × Database). get k x.1.leases ≡ get k t.leases)
                      (ok_equal h4) (put_lease-others id _ t k other);
              }

  pub resolve_expired_lease-Acted :
      (id : String) (generation version : Int64) (stopped : Bool) (event : EventInput)
      (t t' : Database) (lease : Lease)
      → resolve_expired_lease marshal now id generation version stopped event t ≡ ok (lease, t')
      → Acted id generation (λ e. (e ≤ now) × (stopped ≡ true)) t t'
  unfolding resolve_expired_lease append_event
  resolve_expired_lease-Acted id generation version stopped event t t' lease h =
      let first =
        refuse (not (is_named id generation version)) (invalid_input "expired lease resolution")
        ∷ refuse (not stopped) worker_running
        ∷ [] in
      >>=-ok (check first) h λ _ allowed h1.
        >>=-ok (prepare_event marshal event) h1 λ lease_event _ h2.
          >>=-ok
            (prepare_event marshal
              (follow_up event "AttemptInterrupted" (interrupted_lease id generation)))
            h2
            λ attempt_event _ h3.
              >>=-ok
                (prepare_event marshal (follow_up event "WorkReconciling" (stopped_lease id true)))
                h3
                λ work_event _ h4. >>=-ok (read_lease id t) h4 λ old read h5.
                  let more = refuse (ltb now old.expires_at) (not_expired id) ∷ [] in
                  >>=-ok (check (owner_checks id generation version old more)) h5 λ _ checked h6.
                    >>=-ok (read_attempt old.attempt_id t) h6 λ a _ h7.
                      >>=-ok (read_work_item old.work_item_id t) h7 λ w _ h8.
                        >>=-ok (check (expiry_checks t old a w)) h8 λ _ _ h9.
                          let early =
                            refuse-none _ _
                              (check-ok (owner_checks id generation version old more)
                                checked).1.1.0 in
                          let alive = refuse-none _ _ (check-ok first allowed).1.0 in
                          record {
                            lease = old;
                            held = owner-IsHeld id generation version old more t read checked;
                            in_time = (early-le now old.expires_at early, not-false stopped alive);
                            others = λ k other.
                                subst (λ (x : Lease × Database). get k x.1.leases ≡ get k t.leases)
                                  (ok_equal h9)
                                  (ap (get k) (
                                      expiry-leases id old a w t _ _ lease_event attempt_event
                                        work_event)
                                    ∙ put_lease-others id (expired_lease_of old) t k other);
                          }

  pub update_attempt-Acted :
      (attempt_id : String) (version : Int64) (id : String) (generation : Int64)
      (state : AttemptState) (event : EventInput) (t t' : Database)
      → update_attempt_state_with_lease marshal now attempt_id version id generation state event t
        ≡ ok (tt, t')
      → Acted id generation (λ e. now < e) t t'
  unfolding update_attempt_state_with_lease append_event
  update_attempt-Acted attempt_id version id generation state event t t' h =
      let first =
        refuse
          (attempt_id == ""
            || not (is_positive version)
            || id == ""
            || not (is_positive generation)
            || not (Attempt.valid state))
          (invalid_input "lease-bound attempt update")
        ∷ [] in
      >>=-ok (check first) h λ _ _ h1. >>=-ok (prepare_event marshal event) h1 λ prepared _ h2.
        >>=-ok (read_lease id t) h2 λ old read h3.
          let owner =
            refuse
              (not (old.generation == generation)
                || not (old.attempt_id == attempt_id)
                || not (old.state == LeaseState.active))
              (stale_lease id)
            ∷ refuse (leb old.expires_at now) (expired_lease id)
            ∷ [] in
          >>=-ok (check owner) h3 λ _ checked h4. >>=-ok (read_attempt attempt_id t) h4 λ a _ h5.
            let last =
              refuse (not (a.version == version)) (conflict "attempt" attempt_id)
              ∷ refused_transition attempt_transition (validate_attempt_transition a.state state)
              ∷ [] in
            >>=-ok (check last) h5 λ _ _ h6.
              let both =
                refused_none (old.generation == generation) (old.attempt_id == attempt_id)
                  (old.state == LeaseState.active) (refuse-none _ _ (check-ok owner checked).0) in
              let late = refuse-none _ _ (check-ok owner checked).1.0 in
              record {
                lease = old;
                held = record {
                  stored = stored_of_read id t old read;
                  active = (==_iff old.state LeaseState.active).0 both.1;
                  current = (==_iff old.generation generation).0 both.0;
                };
                in_time = late-lt old.expires_at now late;
                others = λ k other.
                    subst (λ (x : Unit {0} × Database). get k x.1.leases ≡ get k t.leases)
                      (ok_equal h6) refl;
              }
