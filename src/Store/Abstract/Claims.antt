-- ===== src/Store/Abstract/Claims.antt =====
-- The calls of internal/store/memory.go on attempts, leases and claims keep the promise.
use xgoal.Prelude.{
  String, string_eq, nat_eq, ◌≡◌, ap, ◌∙◌, true, false, Option, none, some, inl, inr, ◌==◌, ==_iff,
  arith, Bool-cases, Option-cases,
}
use xgoal.Prelude.Dict.{get, put, remove}
use xgoal.Prelude.Word.{Int64, incr}
use xgoal.Domain.Machines.{work_accepted, attempt_accepted}
use xgoal.Domain.Work.{WorkState, validate_work_transition}
use xgoal.Domain.Attempt.{AttemptState, attempt_state_eq, validate_attempt_transition}
use xgoal.Domain.Lease.{LeaseState, lease_state_eq}
use xgoal.Domain.Model.{WorkItem, Attempt, Lease}
use xgoal.Store.Memory.{
  Memory, append_event, already_exists, not_found, conflict, work_transition, attempt_transition,
  active_lease, invalid_lease, invalid_attempt,
}
use xgoal.Store.Claims.{
  claim_work, claim_found, record_claim, update_attempt_state, release_lease, lease_is_active,
  is_valid_lease, is_valid_attempt,
}
use xgoal.Store.Ops.{claim_op, update_attempt_op, release_op, apply}
use xgoal.Store.Abstract.{view, IsClaim, NoActive}
use xgoal.Store.Abstract.Complies.{entry_written, entry_removed, Complies, refused, accepted}

good-IsClaim :
    (id : String) (l : Lease) (a : Attempt)
    → is_valid_lease id l a ≡ true
    → is_valid_attempt id a ≡ true
    → IsClaim id l a
unfolding is_valid_lease is_valid_attempt
good-IsClaim id l a hl ha = record {
  lease_id = λ e. absurd (ground (arith, ==_iff l.id ""));
  lease_work = ground (arith, ==_iff l.work_item_id id);
  lease_attempt = ground (arith, ==_iff l.attempt_id a.id);
  lease_state = ground (arith, ==_iff l.state LeaseState.active);
  generation = ground arith;
  attempt_id = λ e. absurd (ground (arith, ==_iff a.id ""));
  attempt_work = ground (arith, ==_iff a.work_item_id id);
  attempt_state = ground (arith, ==_iff a.state AttemptState.created);
  version = ground arith;
}

claim_lease-valid :
    (id : String) (l : Lease) (a : Attempt) → IsClaim id l a → is_valid_lease id l a ≡ true
unfolding is_valid_lease
claim_lease-valid id l a c = ground (
  arith,
  c.lease_id,
  c.lease_work,
  c.lease_attempt,
  c.lease_state,
  c.generation,
  ==_iff l.id "",
  ==_iff l.work_item_id id,
  ==_iff l.attempt_id a.id,
  ==_iff l.state LeaseState.active,
)

claim_attempt-valid :
    (id : String) (l : Lease) (a : Attempt) → IsClaim id l a → is_valid_attempt id a ≡ true
unfolding is_valid_attempt
claim_attempt-valid id l a c = ground (
  arith,
  c.attempt_id,
  c.attempt_work,
  c.attempt_state,
  c.version,
  ==_iff a.id "",
  ==_iff a.work_item_id id,
  ==_iff a.state AttemptState.created,
)

free-NoActive : (l : Option Lease) → lease_is_active l ≡ false → NoActive l
unfolding lease_is_active
free-NoActive none h = tt
free-NoActive (some l) h = λ e. absurd (ground (arith, ==_iff l.state LeaseState.active))

active-refused : (l : Option Lease) → lease_is_active l ≡ true → NoActive l → ⊥
unfolding lease_is_active
active-refused none h n = absurd (ground arith)
active-refused (some l) h n = n ((==_iff l.state LeaseState.active).0 h)

module _ (m : Memory) where
  pub update_attempt_state-Complies :
      (id : String) (v : Int64) (state : AttemptState) (event : String)
      → Complies (update_attempt_op id v state event) m
  unfolding apply update_attempt_state append_event
  update_attempt_state-Complies id v state event =
      let op = update_attempt_op id v state event in
      elim (Option-cases (get id m.attempts)) [
        | inl missing ↦
            refused op m (not_found "attempt" id) (ground arith)
              λ q. absurd (let b = q.1 in ground arith)
        | inr (a, found) ↦ elim (Bool-cases (a.version == v)) [
          | inr other ↦
              refused op m (conflict "attempt" id) (ground arith)
                λ q. absurd (let b = q.1 in let c = q.2 in ground (arith, ==_iff a.version v))
          | inl same ↦ elim (Option-cases (validate_attempt_transition a.state state)) [
            | inr (e, bad) ↦ refused op m (attempt_transition e) (ground arith) λ q.
                absurd
                  (let b = q.1 in let c = q.3 in ground (arith, attempt_accepted a.state state))
            | inl fine ↦
                let new = record a { state = state; version = incr a.version } in
                accepted op m
                  (append_event "attempt" id event (record m { attempts = put id new m.attempts }))
                  (ground arith)
                  (a, found, (==_iff a.version v).0 same, (attempt_accepted a.state state).0 fine)
                  (rw found
                    (ap (λ f. record (view m) { attempts = f }) (entry_written id new m.attempts)))
          ]
        ]
      ]

  pub release_lease-Complies :
      (id : String) (generation : Int64) → Complies (release_op id generation) m
  unfolding apply release_lease append_event
  release_lease-Complies id generation =
      let op = release_op id generation in
      elim (Option-cases (get id m.active_leases)) [
        | inl missing ↦
            refused op m (not_found "lease" id) (ground arith)
              λ a. absurd (let b = a.1 in ground arith)
        | inr (l, found) ↦ elim (Bool-cases (l.state == LeaseState.active)) [
          | inr over ↦ refused op m (not_found "lease" id) (ground arith) λ a.
              absurd
                (let b = a.1 in let c = a.2 in ground (arith, ==_iff l.state LeaseState.active))
          | inl active ↦ elim (Bool-cases (l.generation == generation)) [
            | inr other ↦ refused op m (conflict "lease" id) (ground arith) λ a.
                absurd
                  (let b = a.1 in let c = a.3 in ground (arith, ==_iff l.generation generation))
            | inl same ↦
                accepted op m
                  (append_event "work" id "LeaseReleased"
                    (record m { active_leases = remove id m.active_leases }))
                  (ground arith)
                  (
                    l,
                    found,
                    (==_iff l.state LeaseState.active).0 active,
                    (==_iff l.generation generation).0 same,
                  )
                  (ap (λ f. record (view m) { leases = f }) (entry_removed id m.active_leases))
          ]
        ]
      ]

  claim_found-Complies :
      (id : String) (v : Int64) (lease : Lease) (attempt : Attempt) (w : WorkItem)
      → get id m.work_items ≡ some w
      → w.version ≡ v
      → lease_is_active (get id m.active_leases) ≡ false
      → validate_work_transition w.state WorkState.claimed ≡ none
      → apply (claim_op id v lease attempt) m ≡ claim_found id w lease attempt m
      → Complies (claim_op id v lease attempt) m
  unfolding claim_found record_claim append_event
  claim_found-Complies id v lease attempt w found same free fine start =
      let op = claim_op id v lease attempt in
      elim (Bool-cases (is_valid_lease id lease attempt)) [
        | inr bad ↦
            refused op m invalid_lease (start ∙ ground arith)
              λ a. absurd (let b = claim_lease-valid id lease attempt a.5 in ground arith)
        | inl ok_lease ↦ elim (Bool-cases (is_valid_attempt id attempt)) [
          | inr bad ↦
              refused op m invalid_attempt (start ∙ ground arith)
                λ a. absurd (let b = claim_attempt-valid id lease attempt a.5 in ground arith)
          | inl ok_attempt ↦ elim (Option-cases (get attempt.id m.attempts)) [
            | inr (a, taken) ↦
                refused op m (already_exists "attempt" attempt.id) (start ∙ ground arith)
                  λ q. absurd (let b = q.6 in ground arith)
            | inl new ↦
                let next = record w { state = WorkState.claimed; version = incr w.version } in
                accepted op m (record_claim id w lease attempt m) (start ∙ ground arith)
                  (
                    w,
                    found,
                    same,
                    (work_accepted w.state WorkState.claimed).0 fine,
                    free-NoActive (get id m.active_leases) free,
                    good-IsClaim id lease attempt ok_lease ok_attempt,
                    new,
                  )
                  (rw found (λ i. record (view m) {
                    work_items = entry_written id next m.work_items i;
                    leases = entry_written id lease m.active_leases i;
                    attempts = entry_written attempt.id attempt m.attempts i;
                  }))
          ]
        ]
      ]

  pub claim_work-Complies :
      (id : String) (v : Int64) (lease : Lease) (attempt : Attempt)
      → Complies (claim_op id v lease attempt) m
  unfolding apply claim_work
  claim_work-Complies id v lease attempt =
      let op = claim_op id v lease attempt in
      elim (Option-cases (get id m.work_items)) [
        | inl missing ↦
            refused op m (not_found "work item" id) (ground arith)
              λ a. absurd (let b = a.1 in ground arith)
        | inr (w, found) ↦ elim (Bool-cases (w.version == v)) [
          | inr other ↦
              refused op m (conflict "work item" id) (ground arith)
                λ a. absurd (let b = a.1 in let c = a.2 in ground (arith, ==_iff w.version v))
          | inl same ↦ elim (Bool-cases (lease_is_active (get id m.active_leases))) [
            | inl taken ↦
                refused op m (active_lease id) (ground arith)
                  λ a. active-refused (get id m.active_leases) taken a.4
            | inr free ↦ elim (Option-cases (validate_work_transition w.state WorkState.claimed)) [
              | inr (e, bad) ↦ refused op m (work_transition e) (ground arith) λ a. absurd (
                  let b = a.1 in
                  let c = a.3 in ground (arith, work_accepted w.state WorkState.claimed))
              | inl fine ↦
                  claim_found-Complies id v lease attempt w found ((==_iff w.version v).0 same) free
                    fine (ground arith)
            ]
          ]
        ]
      ]
