-- ===== src/Store/Refinement.antt =====
-- The methods of internal/store/memory.go beside the transition system of `Step`.
use xgoal.Prelude.{
  String, ◌≡◌, inl, inr, false, none, some, arith, ◌==◌, string_eq, nat_eq, ◌&&◌, subst, Bool-cases,
  Option-cases,
}
use xgoal.Prelude.Dict.{get}
use xgoal.Prelude.Word.{Int64}
use xgoal.Domain.Goal.{GoalState, validate_goal_transition}
use xgoal.Domain.Work.{WorkState, validate_work_transition}
use xgoal.Domain.Attempt.{AttemptState, validate_attempt_transition}
use xgoal.Domain.Lease.{LeaseState, lease_state_eq}
use xgoal.Domain.Model.{Goal, WorkItem, Attempt, Lease, Evidence}
use xgoal.Store.Memory.{
  Memory, create_goal, update_goal_state, create_work_item, update_work_state, add_evidence,
  is_incomplete,
}
use xgoal.Store.Claims.{
  claim_work, claim_found, update_attempt_state, release_lease, lease_is_active, is_valid_lease,
  is_valid_attempt,
}
use xgoal.Store.Ops.{
  Op, create_goal_op, update_goal_op, create_work_op, update_work_op, claim_op, update_attempt_op,
  release_op, evidence_op, apply,
}
use xgoal.Store.Step.{
  Stays, goal_created, goal_moved, work_created, work_moved, work_claimed, attempt_moved,
  lease_released, evidence_added,
}

module _ (m : Memory) where
  create_goal-Stays : (g : Goal) (event : String) → Stays m (create_goal g event m).1
  unfolding create_goal
  create_goal-Stays g event = elim (Option-cases (get g.id m.goals)) [
    | inl free ↦ elim (Bool-cases (is_incomplete g.id g.version)) [
      | inl bad ↦ inl (ground arith)
      | inr fine ↦ inr (goal_created g event free (ground arith))
    ]
    | inr (x, taken) ↦ inl (ground arith)
  ]

  update_goal_state-Stays :
      (id : String) (v : Int64) (state : GoalState) (event : String)
      → Stays m (update_goal_state id v state event m).1
  unfolding update_goal_state
  update_goal_state-Stays id v state event = elim (Option-cases (get id m.goals)) [
    | inl missing ↦ inl (ground arith)
    | inr (g, found) ↦ elim (Option-cases (validate_goal_transition g.state state)) [
      | inr (e, bad) ↦ inl (ground arith)
      | inl fine ↦ elim (Bool-cases (g.version == v)) [
        | inl same ↦ inr (goal_moved id g state event found fine (ground arith))
        | inr other ↦ inl (ground arith)
      ]
    ]
  ]

  create_work_item-Stays : (w : WorkItem) (event : String) → Stays m (create_work_item w event m).1
  unfolding create_work_item
  create_work_item-Stays w event = elim (Option-cases (get w.id m.work_items)) [
    | inl free ↦ elim (Bool-cases (is_incomplete w.id w.version)) [
      | inl bad ↦ inl (ground arith)
      | inr fine ↦ inr (work_created w event free (ground arith))
    ]
    | inr (x, taken) ↦ inl (ground arith)
  ]

  update_work_state-Stays :
      (id : String) (v : Int64) (state : WorkState) (event : String)
      → Stays m (update_work_state id v state event m).1
  unfolding update_work_state
  update_work_state-Stays id v state event = elim (Option-cases (get id m.work_items)) [
    | inl missing ↦ inl (ground arith)
    | inr (w, found) ↦ elim (Option-cases (validate_work_transition w.state state)) [
      | inr (e, bad) ↦ inl (ground arith)
      | inl fine ↦ elim (Bool-cases (w.version == v)) [
        | inl same ↦ inr (work_moved id w state event found fine (ground arith))
        | inr other ↦ inl (ground arith)
      ]
    ]
  ]

  update_attempt_state-Stays :
      (id : String) (v : Int64) (state : AttemptState) (event : String)
      → Stays m (update_attempt_state id v state event m).1
  unfolding update_attempt_state
  update_attempt_state-Stays id v state event = elim (Option-cases (get id m.attempts)) [
    | inl missing ↦ inl (ground arith)
    | inr (a, found) ↦ elim (Option-cases (validate_attempt_transition a.state state)) [
      | inr (e, bad) ↦ inl (ground arith)
      | inl fine ↦ elim (Bool-cases (a.version == v)) [
        | inl same ↦ inr (attempt_moved id a state event found fine (ground arith))
        | inr other ↦ inl (ground arith)
      ]
    ]
  ]

  release_lease-Stays : (id : String) (v : Int64) → Stays m (release_lease id v m).1
  unfolding release_lease
  release_lease-Stays id v = elim (Option-cases (get id m.active_leases)) [
    | inl missing ↦ inl (ground arith)
    | inr (l, found) ↦ elim (Bool-cases (l.state == LeaseState.active && l.generation == v)) [
      | inl fine ↦ inr (lease_released id l found (ground arith))
      | inr other ↦ inl (ground arith)
    ]
  ]

  add_evidence-Stays : (e : Evidence) (event : String) → Stays m (add_evidence e event m).1
  unfolding add_evidence
  add_evidence-Stays e event = elim (Option-cases (get e.id m.evidence)) [
    | inl free ↦ elim (Bool-cases (e.id == "")) [
      | inl bad ↦ inl (ground arith)
      | inr fine ↦ inr (evidence_added e event free (ground arith))
    ]
    | inr (x, taken) ↦ inl (ground arith)
  ]

  claim_found-Stays :
      (id : String) (w : WorkItem) (lease : Lease) (attempt : Attempt)
      → get id m.work_items ≡ some w
      → lease_is_active (get id m.active_leases) ≡ false
      → validate_work_transition w.state WorkState.claimed ≡ none
      → Stays m (claim_found id w lease attempt m).1
  unfolding claim_found
  claim_found-Stays id w lease attempt found free fine =
      elim (Option-cases (get attempt.id m.attempts)) [
        | inr (a, taken) ↦ inl (ground arith)
        | inl new ↦ elim (Bool-cases (is_valid_lease id lease attempt)) [
          | inr bad ↦ inl (ground arith)
          | inl ok_lease ↦ elim (Bool-cases (is_valid_attempt id attempt)) [
            | inr bad ↦ inl (ground arith)
            | inl ok_attempt ↦ inr (
                work_claimed id w lease attempt found free fine ok_lease ok_attempt new
                  (ground arith))
          ]
        ]
      ]

  claim_work-Stays :
      (id : String) (v : Int64) (lease : Lease) (attempt : Attempt)
      → Stays m (claim_work id v lease attempt m).1
  unfolding claim_work
  claim_work-Stays id v lease attempt = elim (Option-cases (get id m.work_items)) [
    | inl missing ↦ inl (ground arith)
    | inr (w, found) ↦ elim (Bool-cases (lease_is_active (get id m.active_leases))) [
      | inl taken ↦ inl (ground arith)
      | inr free ↦ elim (Option-cases (validate_work_transition w.state WorkState.claimed)) [
        | inr (e, bad) ↦ inl (ground arith)
        | inl fine ↦ elim (Bool-cases (w.version == v)) [
          | inr other ↦ inl (ground arith)
          | inl same ↦
              subst (λ x. Stays m x) (ground arith)
                (claim_found-Stays id w lease attempt found free fine)
        ]
      ]
    ]
  ]

  -- Every method either leaves the store as it was or makes one step of the relation.
  pub apply-Step : (op : Op) → Stays m (apply op m).1
  unfolding apply
  apply-Step (create_goal_op g event) = create_goal-Stays g event
  apply-Step (update_goal_op id v state event) = update_goal_state-Stays id v state event
  apply-Step (create_work_op w event) = create_work_item-Stays w event
  apply-Step (update_work_op id v state event) = update_work_state-Stays id v state event
  apply-Step (claim_op id v lease attempt) = claim_work-Stays id v lease attempt
  apply-Step (update_attempt_op id v state event) = update_attempt_state-Stays id v state event
  apply-Step (release_op id generation) = release_lease-Stays id generation
  apply-Step (evidence_op e event) = add_evidence-Stays e event
