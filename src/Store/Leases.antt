-- ===== src/Store/Leases.antt =====
-- The leases of internal/store/memory.go over runs of its methods.
use xgoal.Prelude.{
  String, ◌≡◌, Bool, false, some, List, [], ◌∷◌, arith, ◌==◌, ◌&&◌, ==_iff, string_eq, nat_eq, All,
  inl, inr, Bool-cases, Option-cases,
}
use xgoal.Prelude.Dict.{get, get-put, get-remove}
use xgoal.Prelude.Word.{Int64}
use xgoal.Prelude.Exec.{Result, err}
use xgoal.Domain.Lease.{LeaseState, lease_state_eq}
use xgoal.Domain.Model.{Attempt, Lease}
use xgoal.Store.Memory.{
  not_found, active_lease, conflict, Memory, append_event, create_goal, update_goal_state,
  create_work_item, update_work_state, add_evidence,
}
use xgoal.Store.Claims.{claim_work, lease_is_active, update_attempt_state, release_lease}
use xgoal.Store.Ops.{Op, create_goal_op, claim_op, release_op, apply, run}

-- the call gives back the lease of the work item, in its generation
unfoldable pub releases : String → Int64 → Op → Bool
releases work_id generation (release_op id g) = id == work_id && g == generation
releases work_id generation _ = false

abbrev pub IsError : {A E : Type 0} → Result E A → Type 0
IsError {A} {E} r = (e : E) × (r ≡ err e)

module _ (k : String) (l : Lease) (m : Memory) (held : get k m.active_leases ≡ some l)
    (active : l.state ≡ LeaseState.active) where
  lease_stays :
      (op : Op) → releases k l.generation op ≡ false → get k (apply op m).1.active_leases ≡ some l
  unfolding apply lease_is_active releases create_goal update_goal_state create_work_item
      update_work_state claim_work update_attempt_state release_lease add_evidence append_event
  lease_stays (create_goal_op g event) h = ground arith
  lease_stays (claim_op id n v a) h = elim (Bool-cases (id == k)) [
    | inl same ↦ ground (arith, ==_iff id k, ==_iff l.state LeaseState.active)
    | inr other ↦ ground (arith, get-put id k v m.active_leases)
  ]
  lease_stays (release_op id g) h =
      ground (arith, ==_iff id k, get-remove id k m.active_leases, ==_iff l.generation g)
  lease_stays _ h = ground arith

  claim_held : (v : Int64) (lease : Lease) (a : Attempt) → IsError (claim_work k v lease a m).0
  unfolding claim_work lease_is_active
  claim_held v lease a = elim (Option-cases (get k m.work_items)) [
    | inl missing ↦ (not_found "work item" k, ground arith)
    | inr (w, found) ↦ elim (Bool-cases (w.version == v)) [
      | inl same ↦ (active_lease k, ground (arith, ==_iff l.state LeaseState.active))
      | inr other ↦ (conflict "work item" k, ground arith)
    ]
  ]

lease_stays_run :
    (k : String) (l : Lease)
    → l.state ≡ LeaseState.active
    → (ops : List Op) (m : Memory) → get k m.active_leases ≡ some l
    → All (λ op. releases k l.generation op ≡ false) ops
    → get k (run ops m).active_leases ≡ some l
unfolding run
lease_stays_run k l active [] m held quiet = held
lease_stays_run k l active (op ∷ ops) m held quiet =
    lease_stays_run k l active ops (apply op m).1 (lease_stays k l m held active op quiet.0) quiet.1

-- While a work item has an ACTIVE lease, and until a call gives that lease back in its generation,
-- the lease stays as it is over any other calls, and every claim of the work item fails.
pub lease_excludes :
    (k : String) (l : Lease) (ops : List Op) (m : Memory)
    → l.state ≡ LeaseState.active
    → get k m.active_leases ≡ some l
    → All (λ op. releases k l.generation op ≡ false) ops
    → (get k (run ops m).active_leases ≡ some l)
      × ((v : Int64) (lease : Lease) (a : Attempt) → IsError (claim_work k v lease a (run ops m)).0)
lease_excludes k l ops m active held quiet =
    let stays : get k (run ops m).active_leases ≡ some l =
      lease_stays_run k l active ops m held quiet in
    (stays, λ v lease a. claim_held k l (run ops m) stays active v lease a)
