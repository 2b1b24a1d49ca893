-- ===== src/Store/Consistency.antt =====
-- The well-formedness of the memory store of internal/store/memory.go, and the methods on it.
use xgoal.Prelude.{
  ℕ, String, ◌≡◌, Option, none, some, List, arith, ◌==◌, ==_iff, string_eq, subst, true, inl, inr,
  Bool-cases,
}
use xgoal.Prelude.Dict.{Dict, get, put, get-put, get-remove}
use xgoal.Prelude.Word.{Int64, incr}
use xgoal.Domain.Work.{WorkState}
use xgoal.Domain.Attempt.{AttemptState}
use xgoal.Domain.Lease.{LeaseState, lease_state_eq}
use xgoal.Domain.Model.{Goal, WorkItem, Attempt, Lease, Evidence, Time}
use xgoal.Store.Memory.{Memory, new_memory, append_event}
use xgoal.Store.Claims.{record_claim, is_valid_lease, is_valid_attempt}
use xgoal.Store.Step.{
  Step, goal_created, goal_moved, work_created, work_moved, work_claimed, attempt_moved,
  lease_released, evidence_added,
}
use xgoal.Store.Refinement.{apply-Step}
use xgoal.Store.Ops.{Op, apply, run, run_keeps}

abbrev pub BelongsTo : String → Option Attempt → Type 0
BelongsTo work_id none = ⊥
BelongsTo work_id (some a) = a.work_item_id ≡ work_id

-- A lease under a work item's id is ACTIVE, names that work item, and its attempt is there and
-- belongs to the same work item.
pub record IsBound (attempts : Dict String Attempt) (work_id : String) (l : Lease) : Type 0 where
  pub is_active : l.state ≡ LeaseState.active
  pub names_work : l.work_item_id ≡ work_id
  pub has_attempt : BelongsTo work_id (get l.attempt_id attempts)

pub record IsConsistent (m : Memory) : Type 0 where
  pub goal_keys : (k : String) (g : Goal) → get k m.goals ≡ some g → g.id ≡ k
  pub work_keys : (k : String) (w : WorkItem) → get k m.work_items ≡ some w → w.id ≡ k
  pub attempt_keys : (k : String) (a : Attempt) → get k m.attempts ≡ some a → a.id ≡ k
  pub evidence_keys : (k : String) (x : Evidence) → get k m.evidence ≡ some x → x.id ≡ k
  pub lease_bound :
      (k : String) (l : Lease) → get k m.active_leases ≡ some l → IsBound m.attempts k l

pub IsConsistent-new : (source : ℕ → Time) → IsConsistent (new_memory source)
unfolding get
IsConsistent-new source = record {
  goal_keys = λ k g p. cc;
  work_keys = λ k g p. cc;
  attempt_keys = λ k g p. cc;
  evidence_keys = λ k x p. cc;
  lease_bound = λ k g p. cc;
}

module _ (attempts : Dict String Attempt) (k : String) (l : Lease) (b : IsBound attempts k l) where
  IsBound-moved :
      (id : String) (a : Attempt) (state : AttemptState) (v : Int64)
      → get id attempts ≡ some a
      → IsBound (put id (record a { state = state; version = v }) attempts) k l
  IsBound-moved id a state v found = record {
    is_active = b.is_active;
    names_work = b.names_work;
    has_attempt = rw get-put (ground (arith, b.has_attempt, ==_iff id l.attempt_id));
  }

  IsBound-created : (a : Attempt) → get a.id attempts ≡ none → IsBound (put a.id a attempts) k l
  IsBound-created a free = record {
    is_active = b.is_active;
    names_work = b.names_work;
    has_attempt = rw get-put (ground (arith, b.has_attempt, ==_iff a.id l.attempt_id));
  }

IsBound-claimed :
    (attempts : Dict String Attempt) (id : String) (l : Lease) (a : Attempt)
    → is_valid_lease id l a ≡ true
    → is_valid_attempt id a ≡ true
    → IsBound (put a.id a attempts) id l
unfolding is_valid_lease is_valid_attempt
IsBound-claimed attempts id l a hl ha = record {
  is_active = ground (arith, ==_iff l.state LeaseState.active);
  names_work = ground (arith, ==_iff l.work_item_id id);
  has_attempt = rw get-put (
      ground (arith, ==_iff a.id l.attempt_id, ==_iff l.attempt_id a.id, ==_iff a.work_item_id id));
}

Step-IsConsistent : {m m' : Memory} → Step m m' → IsConsistent m → IsConsistent m'
unfolding append_event record_claim
Step-IsConsistent {m} (goal_created g event free e) h = rw e (record {
  goal_keys = λ k x p. ground (arith, get-put g.id k g m.goals, ==_iff g.id k, h.goal_keys k x);
  work_keys = λ k x p. ground (arith, h.work_keys k x);
  attempt_keys = λ k x p. ground (arith, h.attempt_keys k x);
  evidence_keys = λ k x p. ground (arith, h.evidence_keys k x);
  lease_bound = λ k x p. ground (arith, h.lease_bound k x);
})
Step-IsConsistent {m} (goal_moved id g state event found fine e) h = rw e (record {
  goal_keys = λ k x p. ground (
    arith,
    get-put id k (record g { state = state; version = incr g.version }) m.goals,
    ==_iff id k,
    h.goal_keys k x,
    h.goal_keys id g,
  );
  work_keys = λ k x p. ground (arith, h.work_keys k x);
  attempt_keys = λ k x p. ground (arith, h.attempt_keys k x);
  evidence_keys = λ k x p. ground (arith, h.evidence_keys k x);
  lease_bound = λ k x p. ground (arith, h.lease_bound k x);
})
Step-IsConsistent {m} (work_created w event free e) h = rw e (record {
  goal_keys = λ k x p. ground (arith, h.goal_keys k x);
  work_keys =
      λ k x p. ground (arith, get-put w.id k w m.work_items, ==_iff w.id k, h.work_keys k x);
  attempt_keys = λ k x p. ground (arith, h.attempt_keys k x);
  evidence_keys = λ k x p. ground (arith, h.evidence_keys k x);
  lease_bound = λ k x p. ground (arith, h.lease_bound k x);
})
Step-IsConsistent {m} (work_moved id w state event found fine e) h = rw e (record {
  goal_keys = λ k x p. ground (arith, h.goal_keys k x);
  work_keys = λ k x p. ground (
    arith,
    get-put id k (record w { state = state; version = incr w.version }) m.work_items,
    ==_iff id k,
    h.work_keys k x,
    h.work_keys id w,
  );
  attempt_keys = λ k x p. ground (arith, h.attempt_keys k x);
  evidence_keys = λ k x p. ground (arith, h.evidence_keys k x);
  lease_bound = λ k x p. ground (arith, h.lease_bound k x);
})
Step-IsConsistent {m} (attempt_moved id a state event found fine e) h = rw e (record {
  goal_keys = λ k x p. ground (arith, h.goal_keys k x);
  work_keys = λ k x p. ground (arith, h.work_keys k x);
  attempt_keys = λ k x p. ground (
    arith,
    get-put id k (record a { state = state; version = incr a.version }) m.attempts,
    ==_iff id k,
    h.attempt_keys k x,
    h.attempt_keys id a,
  );
  evidence_keys = λ k x p. ground (arith, h.evidence_keys k x);
  lease_bound =
      λ k x p. IsBound-moved m.attempts k x (h.lease_bound k x p) id a state (incr a.version) found;
})
Step-IsConsistent {m} (lease_released id l found e) h = rw e (record {
  goal_keys = λ k x p. ground (arith, h.goal_keys k x);
  work_keys = λ k x p. ground (arith, h.work_keys k x);
  attempt_keys = λ k x p. ground (arith, h.attempt_keys k x);
  evidence_keys = λ k x p. ground (arith, h.evidence_keys k x);
  lease_bound = λ k x p. ground (arith, get-remove id k m.active_leases, h.lease_bound k x);
})
Step-IsConsistent {m} (evidence_added x event free e) h = rw e (record {
  goal_keys = λ k x p. ground (arith, h.goal_keys k x);
  work_keys = λ k x p. ground (arith, h.work_keys k x);
  attempt_keys = λ k x p. ground (arith, h.attempt_keys k x);
  evidence_keys =
      λ k y p. ground (arith, get-put x.id k x m.evidence, ==_iff x.id k, h.evidence_keys k y);
  lease_bound = λ k x p. ground (arith, h.lease_bound k x);
})
Step-IsConsistent {m} (work_claimed id w lease attempt found free fine ok_lease ok_attempt new e)
      h =
    rw e (record {
      goal_keys = λ k x p. ground (arith, h.goal_keys k x);
      work_keys = λ k x p. ground (
        arith,
        get-put id k (record w { state = WorkState.claimed; version = incr w.version })
            m.work_items,
        ==_iff id k,
        h.work_keys k x,
        h.work_keys id w,
      );
      attempt_keys = λ k x p.
          ground (
            arith,
            get-put attempt.id k attempt m.attempts,
            ==_iff attempt.id k,
            h.attempt_keys k x,
          );
      evidence_keys = λ k x p. ground (arith, h.evidence_keys k x);
      lease_bound = λ k x p. elim (Bool-cases (id == k)) [
        | inl same ↦
            subst (λ j. IsBound (put attempt.id attempt m.attempts) j x) ((==_iff id k).0 same)
              (subst (IsBound (put attempt.id attempt m.attempts) id)
                (ground (arith, get-put id k lease m.active_leases))
                (IsBound-claimed m.attempts id lease attempt ok_lease ok_attempt))
        | inr other ↦
            IsBound-created m.attempts k x
              (h.lease_bound k x (ground (arith, get-put id k lease m.active_leases))) attempt new
      ];
    })

apply-IsConsistent : (op : Op) (m : Memory) → IsConsistent m → IsConsistent (apply op m).1
apply-IsConsistent op m h = elim (apply-Step m op) [
  | inl same ↦ rw same h
  | inr step ↦ Step-IsConsistent step h
]

-- From a new store, after any calls of the mutating methods, failing or not: each goal, work item,
-- attempt and evidence record stands under its own id, and each lease is ACTIVE, names the work item that it is kept under, and
-- belongs to an attempt that is there and works on the same work item.
pub run-IsConsistent :
    (source : ℕ → Time) (ops : List Op) → IsConsistent (run ops (new_memory source))
run-IsConsistent source ops =
    run_keeps IsConsistent apply-IsConsistent ops (new_memory source) (IsConsistent-new source)
