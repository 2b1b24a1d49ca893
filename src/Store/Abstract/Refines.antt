-- ===== src/Store/Abstract/Refines.antt =====
-- The methods of internal/store/memory.go keep what the abstract store promises.
use xgoal.Prelude.{string_eq, nat_eq}
use xgoal.Domain.Attempt.{attempt_state_eq}
use xgoal.Domain.Lease.{lease_state_eq}
use xgoal.Store.Memory.{Memory}
use xgoal.Store.Ops.{
  Op, create_goal_op, update_goal_op, create_work_op, update_work_op, claim_op, update_attempt_op,
  release_op, evidence_op, apply,
}
use xgoal.Store.Abstract.{view, Meets}
use xgoal.Store.Abstract.Records.{
  create_goal-Complies, update_goal_state-Complies, create_work_item-Complies,
  update_work_state-Complies, add_evidence-Complies,
}
use xgoal.Store.Abstract.Claims.{
  update_attempt_state-Complies, release_lease-Complies, claim_work-Complies,
}

module _ (m : Memory) where
  -- Every call of a mutating method succeeds exactly if the abstract store accepts it, and the
  -- abstract store is then changed by the call's effect and by nothing else; a call that is not
  -- accepted returns an error and changes nothing.
  pub apply-Meets : (op : Op) → Meets op (view m) (apply op m).0 (view (apply op m).1)
  apply-Meets (create_goal_op g event) = create_goal-Complies m g event
  apply-Meets (update_goal_op id v state event) = update_goal_state-Complies m id v state event
  apply-Meets (create_work_op w event) = create_work_item-Complies m w event
  apply-Meets (update_work_op id v state event) = update_work_state-Complies m id v state event
  apply-Meets (claim_op id v lease attempt) = claim_work-Complies m id v lease attempt
  apply-Meets (update_attempt_op id v state event) =
      update_attempt_state-Complies m id v state event
  apply-Meets (release_op id generation) = release_lease-Complies m id generation
  apply-Meets (evidence_op e event) = add_evidence-Complies m e event
