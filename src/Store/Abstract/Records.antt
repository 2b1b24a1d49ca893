-- ===== src/Store/Abstract/Records.antt =====
-- The calls of internal/store/memory.go on goals, work items and evidence keep the promise.
use xgoal.Prelude.{
  String, string_eq, nat_eq, ap, inl, inr, ◌==◌, ==_iff, arith, Bool-cases, Option-cases,
}
use xgoal.Prelude.Dict.{get, put}
use xgoal.Prelude.Word.{Int64, incr}
use xgoal.Domain.Machines.{goal_accepted, work_accepted}
use xgoal.Domain.Goal.{GoalState, validate_goal_transition}
use xgoal.Domain.Work.{WorkState, validate_work_transition}
use xgoal.Domain.Attempt.{attempt_state_eq}
use xgoal.Domain.Lease.{lease_state_eq}
use xgoal.Domain.Model.{Goal, WorkItem, Evidence}
use xgoal.Store.Memory.{
  Memory, append_event, is_incomplete, create_goal, update_goal_state, create_work_item,
  update_work_state, add_evidence, invalid_goal, invalid_work_item, invalid_evidence,
  already_exists, not_found, conflict, goal_transition, work_transition,
}
use xgoal.Store.Ops.{
  create_goal_op, update_goal_op, create_work_op, update_work_op, evidence_op, apply,
}
use xgoal.Store.Abstract.{view}
use xgoal.Store.Abstract.Complies.{entry_written, Complies, refused, accepted}

module _ (m : Memory) where
  pub create_goal-Complies : (g : Goal) (event : String) → Complies (create_goal_op g event) m
  unfolding apply create_goal append_event
  create_goal-Complies g event =
      let op = create_goal_op g event in
      elim (Bool-cases (is_incomplete g.id g.version)) [
        | inl bad ↦
            refused op m invalid_goal (ground arith)
              λ a. absurd (ground (arith, a.0, a.1, ==_iff g.id ""))
        | inr fine ↦ elim (Option-cases (get g.id m.goals)) [
          | inr (x, taken) ↦
              refused op m (already_exists "goal" g.id) (ground arith)
                λ a. absurd (ground (arith, a.2))
          | inl free ↦
              accepted op m
                (append_event "goal" g.id event (record m { goals = put g.id g m.goals }))
                (ground arith) ((λ e. absurd (ground (arith, ==_iff g.id ""))), ground arith, free)
                (ap (λ f. record (view m) { goals = f }) (entry_written g.id g m.goals))
        ]
      ]

  pub update_goal_state-Complies :
      (id : String) (v : Int64) (state : GoalState) (event : String)
      → Complies (update_goal_op id v state event) m
  unfolding apply update_goal_state append_event
  update_goal_state-Complies id v state event =
      let op = update_goal_op id v state event in
      elim (Option-cases (get id m.goals)) [
        | inl missing ↦
            refused op m (not_found "goal" id) (ground arith)
              λ a. absurd (let b = a.1 in ground arith)
        | inr (g, found) ↦ elim (Bool-cases (g.version == v)) [
          | inr other ↦
              refused op m (conflict "goal" id) (ground arith)
                λ a. absurd (let b = a.1 in let c = a.2 in ground (arith, ==_iff g.version v))
          | inl same ↦ elim (Option-cases (validate_goal_transition g.state state)) [
            | inr (e, bad) ↦ refused op m (goal_transition e) (ground arith) λ a.
                absurd (let b = a.1 in let c = a.3 in ground (arith, goal_accepted g.state state))
            | inl fine ↦
                let new = record g { state = state; version = incr g.version } in
                accepted op m
                  (append_event "goal" id event (record m { goals = put id new m.goals }))
                  (ground arith)
                  (g, found, (==_iff g.version v).0 same, (goal_accepted g.state state).0 fine)
                  (rw found
                    (ap (λ f. record (view m) { goals = f }) (entry_written id new m.goals)))
          ]
        ]
      ]

  pub create_work_item-Complies :
      (w : WorkItem) (event : String) → Complies (create_work_op w event) m
  unfolding apply create_work_item append_event
  create_work_item-Complies w event =
      let op = create_work_op w event in
      elim (Bool-cases (is_incomplete w.id w.version)) [
        | inl bad ↦
            refused op m invalid_work_item (ground arith)
              λ a. absurd (ground (arith, a.0, a.1, ==_iff w.id ""))
        | inr fine ↦ elim (Option-cases (get w.id m.work_items)) [
          | inr (x, taken) ↦
              refused op m (already_exists "work item" w.id) (ground arith)
                λ a. absurd (ground (arith, a.2))
          | inl free ↦
              accepted op m
                (append_event "work" w.id event (record m { work_items = put w.id w m.work_items }))
                (ground arith) ((λ e. absurd (ground (arith, ==_iff w.id ""))), ground arith, free)
                (ap (λ f. record (view m) { work_items = f }) (entry_written w.id w m.work_items))
        ]
      ]

  pub update_work_state-Complies :
      (id : String) (v : Int64) (state : WorkState) (event : String)
      → Complies (update_work_op id v state event) m
  unfolding apply update_work_state append_event
  update_work_state-Complies id v state event =
      let op = update_work_op id v state event in
      elim (Option-cases (get id m.work_items)) [
        | inl missing ↦
            refused op m (not_found "work item" id) (ground arith)
              λ a. absurd (let b = a.1 in ground arith)
        | inr (w, found) ↦ elim (Bool-cases (w.version == v)) [
          | inr other ↦
              refused op m (conflict "work item" id) (ground arith)
                λ a. absurd (let b = a.1 in let c = a.2 in ground (arith, ==_iff w.version v))
          | inl same ↦ elim (Option-cases (validate_work_transition w.state state)) [
            | inr (e, bad) ↦ refused op m (work_transition e) (ground arith) λ a.
                absurd (let b = a.1 in let c = a.3 in ground (arith, work_accepted w.state state))
            | inl fine ↦
                let new = record w { state = state; version = incr w.version } in
                accepted op m
                  (append_event "work" id event (record m { work_items = put id new m.work_items }))
                  (ground arith)
                  (w, found, (==_iff w.version v).0 same, (work_accepted w.state state).0 fine)
                  (rw found (
                    ap (λ f. record (view m) { work_items = f })
                      (entry_written id new m.work_items)))
          ]
        ]
      ]

  pub add_evidence-Complies : (x : Evidence) (event : String) → Complies (evidence_op x event) m
  unfolding apply add_evidence append_event
  add_evidence-Complies x event =
      let op = evidence_op x event in
      elim (Bool-cases (x.id == "")) [
        | inl bad ↦
            refused op m invalid_evidence (ground arith) λ a. absurd (a.0 ((==_iff x.id "").0 bad))
        | inr fine ↦ elim (Option-cases (get x.id m.evidence)) [
          | inr (y, taken) ↦
              refused op m (already_exists "evidence" x.id) (ground arith)
                λ a. absurd (ground (arith, a.1))
          | inl free ↦
              accepted op m
                (append_event "evidence" x.id event (record m { evidence = put x.id x m.evidence }))
                (ground arith) ((λ e. absurd (ground (arith, ==_iff x.id ""))), free)
                (ap (λ f. record (view m) { evidence = f }) (entry_written x.id x m.evidence))
        ]
      ]
