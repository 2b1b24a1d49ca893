-- ===== src/Sqlite/Calls/Fencing.antt =====
-- The lease methods of internal/store/sqlite/lease_lifecycle.go on a lease that is over, or under
-- another generation.
use xgoal.Prelude.{
  ℕ, ◌≡◌, sym, ap, subst, ◌∙◌, ◌≢◌, ◌<◌, ◌≤◌, inl, inr, String, string_eq, true, not, Option, some,
  List, [], ◌∷◌, ◌==◌, ==_iff, arith, Bool-cases, Option-cases,
}
use xgoal.Prelude.Word.{Int64, incr}
use xgoal.Prelude.Exec.{Result, ok, err, Result-cases}
use xgoal.Prelude.Dict.{get, put}
use xgoal.Prelude.Checks.{refuse}
use xgoal.Prelude.Steps.{>>=-ok, check, ok_equal}
use xgoal.Domain.Goal.{GoalState, goal_state_eq}
use xgoal.Domain.Work.{WorkState, work_state_eq}
use xgoal.Domain.Lease.{LeaseState}
use xgoal.Domain.Model.{Lease, Time}
use xgoal.Sqlite.Tables.{
  Database, SqlError, EventInput, PreparedEvent, Payload, invalid_input, conflict, read_goal,
  prepare_event, append_event,
}
use xgoal.Sqlite.Leases.{
  release_lease, heartbeat_lease, resolve_expired_lease, update_attempt_state_with_lease,
}
use xgoal.Sqlite.Leases.Held.{
  IsHeld, Acted, release_lease-Acted, heartbeat_lease-Acted, resolve_expired_lease-Acted,
  update_attempt-Acted,
}
use xgoal.Sqlite.Scheduler.{candidates, promote_each, refresh_ready_work_tx, refresh_ready_work}
use xgoal.Sqlite.Calls.{
  LeaseCall, release, heartbeat, resolve, update_attempt, Call, on_lease, refresh, committed,
  perform_lease, perform, run,
}

-- the clock's reading fits the call and the end of the lease
abbrev pub InTime : Time → LeaseCall → Time → Type 0
InTime now (release version event) end = now < end
InTime now (heartbeat version ttl event) end = now < end
InTime now (resolve version stopped event) end = (end ≤ now) × (stopped ≡ true)
InTime now (update_attempt attempt_id version state event) end = now < end

committed-ok :
    {A C : Type 0} (t : Database) (r : Result SqlError (A × Database)) {t' : Database}
    → committed t r ≡ ok t'
    → ((a : A) → r ≡ ok (a, t') → C)
    → C
committed-ok t (ok (a, t2)) h use_step = use_step a (ap (λ x. ok (a, x)) (ok_equal h))
committed-ok t (err e) h use_step = absurd (ground arith)

module _ (marshal : Payload → Option String) (julian_day : Time → ℕ) where
  -- A call that names a lease by id and generation and succeeds finds the lease stored, ACTIVE and of
  -- that generation; the clock is before its end, or for the resolution of an expired lease not
  -- before its end with the worker stopped; and no other lease is changed.
  pub perform_lease-Acted :
      (now : Time) (id : String) (generation : Int64) (call : LeaseCall) (t t' : Database)
      → perform_lease marshal julian_day now id generation call t ≡ ok t'
      → Acted id generation (InTime now call) t t'
  unfolding perform_lease
  perform_lease-Acted now id generation (release version event) t t' h =
      committed-ok t (release_lease marshal now id generation version event t) h
        λ lease done. release_lease-Acted marshal now id generation version event t t' lease done
  perform_lease-Acted now id generation (heartbeat version ttl event) t t' h =
      committed-ok t (heartbeat_lease marshal now id generation version ttl event t) h λ lease done.
        heartbeat_lease-Acted marshal now id generation version ttl event t t' lease done
  perform_lease-Acted now id generation (resolve version stopped event) t t' h =
      committed-ok t (resolve_expired_lease marshal now id generation version stopped event t) h
        λ lease done.
          resolve_expired_lease-Acted marshal now id generation version stopped event t t' lease
            done
  perform_lease-Acted now id generation (update_attempt attempt_id version state event) t t' h =
      committed-ok t
        (update_attempt_state_with_lease marshal now attempt_id version id generation state event t)
        h
        λ u done.
          update_attempt-Acted marshal now attempt_id version id generation state event t t' done

  promote_each-leases :
      (now : Time) (event : PreparedEvent) (ids : List String) (t t' : Database)
      → promote_each julian_day now event ids t ≡ ok t'
      → t'.leases ≡ t.leases
  unfolding promote_each append_event
  promote_each-leases now event [] t t' h = ground arith
  promote_each-leases now event (id ∷ ids) t t' h = elim (Option-cases (get id t.work_items)) [
    | inl lost ↦ absurd (ground arith)
    | inr (w, found) ↦ elim (Bool-cases (w.state == WorkState.pending)) [
      | inr busy ↦ absurd (ground arith)
      | inl idle ↦
          let ready = record w { state = WorkState.ready; version = incr w.version } in
          let t1 =
            append_event "work" id event (record t { work_items = put id ready t.work_items }) in
          promote_each-leases now event ids t1 t' (ground arith)
    ]
  ]

  refresh-leases :
      (now : Time) (goal_id : String) (event : EventInput) (t t' : Database) (ids : List String)
      → refresh_ready_work julian_day now marshal goal_id event t ≡ ok (ids, t')
      → t'.leases ≡ t.leases
  unfolding refresh_ready_work refresh_ready_work_tx
  refresh-leases now goal_id event t t' ids h =
      >>=-ok (check (refuse (goal_id == "") (invalid_input "goal id") ∷ [])) h λ _ _ h1.
        >>=-ok (prepare_event marshal event) h1 λ prepared _ h2.
          >>=-ok (read_goal goal_id t) h2 λ goal _ h3.
            >>=-ok
              (check
                (refuse (not (goal.state == GoalState.running)) (conflict "goal" goal_id) ∷ []))
              h3
              λ _ _ h4.
                >>=-ok
                  (promote_each julian_day now prepared (candidates julian_day now goal_id goal t)
                    t)
                  h4
                  λ t2 looped h5.
                    ap (λ (x : List String × Database). x.1.leases) (sym (ok_equal h5))
                    ∙ promote_each-leases now prepared (candidates julian_day now goal_id goal t) t
                        t2 looped

  -- the lease is stored and no longer ACTIVE
  pub record IsClosed (id : String) (lease : Lease) (t : Database) : Type 0 where
    pub stored : get id t.leases ≡ some lease
    pub over : lease.state ≢ LeaseState.active

  closed-not_held :
      (id : String) (lease : Lease) (generation : Int64) {held_lease : Lease} (t : Database)
      → IsClosed id lease t
      → IsHeld id generation held_lease t
      → ⊥
  closed-not_held id lease generation {held_lease = held_lease} t closed held =
      let a = closed.stored in
      let b = held.stored in
      let same : lease ≡ held_lease = ground arith in
      closed.over (ap (λ (l : Lease). l.state) same ∙ held.active)

  perform-IsClosed :
      (now : Time) (call : Call) (id : String) (lease : Lease) (t t' : Database)
      → IsClosed id lease t
      → perform marshal julian_day now call t ≡ ok t'
      → IsClosed id lease t'
  unfolding perform
  perform-IsClosed now (on_lease j generation call) id lease t t' closed h =
      let acted = perform_lease-Acted now j generation call t t' h in
      elim (Bool-cases (j == id)) [
        | inl same ↦ absurd (
            closed-not_held id lease generation t closed
              (subst (λ k. IsHeld k generation acted.lease t) ((==_iff j id).0 same) acted.held))
        | inr other ↦ record {
          stored = acted.others id (λ e. ground (arith, (==_iff j id).1 (sym e))) ∙ closed.stored;
          over = closed.over;
        }
      ]
  perform-IsClosed now (refresh goal_id event) id lease t t' closed h =
      committed-ok t (refresh_ready_work julian_day now marshal goal_id event t) h λ ids done.
        record {
          stored = ap (get id) (refresh-leases now goal_id event t t' ids done) ∙ closed.stored;
          over = closed.over;
        }

  run-IsClosed :
      (calls : List (Time × Call)) (id : String) (lease : Lease) (t : Database)
      → IsClosed id lease t
      → IsClosed id lease (run marshal julian_day calls t)
  unfolding run
  run-IsClosed [] id lease t closed = closed
  run-IsClosed ((now, call) ∷ calls) id lease t closed =
      run-IsClosed calls id lease _ (elim (Result-cases (perform marshal julian_day now call t)) [
        | inl (t', done) ↦ rw done (perform-IsClosed now call id lease t t' closed done)
        | inr (e, failed) ↦ rw failed closed
      ])

  -- A lease that is no longer ACTIVE stays as it is over any further calls of the four methods that
  -- take a lease by id and generation and of `RefreshReadyWork`, and after them each of those four
  -- methods fails on it, under any generation, version and time.
  pub closed_lease_fenced :
      (calls : List (Time × Call)) (id : String) (lease : Lease) (t : Database)
      → IsClosed id lease t
      → (get id (run marshal julian_day calls t).leases ≡ some lease)
        × ((now : Time) (generation : Int64) (call : LeaseCall)
            → (e : SqlError) × (perform marshal julian_day now
                  (on_lease id generation call)
                  (run marshal julian_day calls t)
                ≡ err e))
  unfolding perform
  closed_lease_fenced calls id lease t closed =
      let after = run-IsClosed calls id lease t closed in
      (
        after.stored,
        λ now generation call.
            elim (Result-cases (
              perform_lease marshal julian_day now id generation call
                (run marshal julian_day calls t))) [
                  | inl (t', done) ↦ absurd (
                      closed-not_held id lease generation _ after
                        (perform_lease-Acted now id generation call _ t' done).held)
                  | inr failed ↦ failed
                ],
      )
