-- ===== src/Store/Versions.antt =====
-- The version checks of the updates of internal/store/memory.go, on a writer whose version another
-- one has used up, with any calls in between.
use xgoal.Prelude.{
  ℕ, suc, zero, ◌+◌, ◌%◌, ◌^◌, ◌<◌, ◌≢◌, String, ◌≡◌, sym, ◌∙◌, ap, some, List, ==_iff, length,
  arith, string_eq, nat_eq, inl, inr, Option-cases,
}
use xgoal.Prelude.Dict.{get, get-put_self}
use xgoal.Prelude.Word.{Int64, IsInt64, incr}
use xgoal.Prelude.Exec.{ok, err}
use xgoal.Domain.Goal.{GoalState}
use xgoal.Domain.Work.{WorkState}
use xgoal.Domain.Attempt.{AttemptState}
use xgoal.Domain.Model.{Goal, WorkItem, Attempt}
use xgoal.Store.Memory.{conflict, Memory, append_event, update_goal_state, update_work_state}
use xgoal.Store.Claims.{update_attempt_state}
use xgoal.Store.Track.{bump}
use xgoal.Store.Progress.{
  GoalFollows, WorkItemFollows, AttemptFollows, goal_follows, work_follows, attempt_follows,
}
use xgoal.Store.Ops.{Op, run}

bump-mod : (n : ℕ) (v : Int64) → IsInt64 v → bump n v ≡ (v + n) % 2 ^ 64
unfolding incr
bump-mod zero v range = omega arith
bump-mod (suc n) v range = omega (arith, bump-mod n ((v + 1) % 2 ^ 64) (omega arith))

-- fewer than 2 ^ 64 moves give another version
bump-ne_self : (n : ℕ) (v : Int64) → IsInt64 v → suc n < 2 ^ 64 → bump n (incr v) ≢ v
unfolding incr
bump-ne_self n v range few same = omega (arith, bump-mod n ((v + 1) % 2 ^ 64) (omega arith), same)

module _ (m m' : Memory) (id : String) (v : Int64) (range : IsInt64 v) (ops : List Op)
    (few : suc (length ops) < 2 ^ 64) where
  updated_goal :
      (s : GoalState) (e : String)
      → update_goal_state id v s e m ≡ (ok tt, m')
      → (g : Goal) × (get id m'.goals ≡ some g) × (g.version ≡ incr v)
  unfolding update_goal_state append_event
  updated_goal s e h = elim (Option-cases (get id m.goals)) [
    | inl missing ↦ absurd (ground arith)
    | inr (g, found) ↦
        let new : Goal = record g { state = s; version = incr g.version } in
        (new, ground (arith, get-put_self id new m.goals), ground (arith, ==_iff g.version v))
  ]

  -- After an update of a goal that expects an int64 version and succeeds, and after any fewer
  -- than 2 ^ 64 - 1 further calls of the mutating methods, an update that expects the same version
  -- fails with a conflict, whatever states the two ask for.
  pub stale_goal_update_conflicts :
      (s t : GoalState) (e f : String)
      → update_goal_state id v s e m ≡ (ok tt, m')
      → (update_goal_state id v t f (run ops m')).0 ≡ err (conflict "goal" id)
  unfolding update_goal_state
  stale_goal_update_conflicts s t e f h =
      let (g, there, up) = updated_goal s e h in
      let q : GoalFollows (length ops) g (get id (run ops m').goals) =
        goal_follows ops m' id g there in
      let other : q.now.version ≢ v = λ same.
        bump-ne_self (length q.moves) v range (omega (arith, q.few, few))
          (ap (bump (length q.moves)) (sym up) ∙ sym q.counts ∙ same) in
      ground (arith, q.is_there, other, ==_iff q.now.version v)

  updated_work :
      (s : WorkState) (e : String)
      → update_work_state id v s e m ≡ (ok tt, m')
      → (w : WorkItem) × (get id m'.work_items ≡ some w) × (w.version ≡ incr v)
  unfolding update_work_state append_event
  updated_work s e h = elim (Option-cases (get id m.work_items)) [
    | inl missing ↦ absurd (ground arith)
    | inr (w, found) ↦
        let new : WorkItem = record w { state = s; version = incr w.version } in
        (new, ground (arith, get-put_self id new m.work_items), ground (arith, ==_iff w.version v))
  ]

  -- After an update of a work item that expects an int64 version and succeeds, and after any fewer
  -- than 2 ^ 64 - 1 further calls of the mutating methods, an update that expects the same version
  -- fails with a conflict, whatever states the two ask for.
  pub stale_work_update_conflicts :
      (s t : WorkState) (e f : String)
      → update_work_state id v s e m ≡ (ok tt, m')
      → (update_work_state id v t f (run ops m')).0 ≡ err (conflict "work item" id)
  unfolding update_work_state
  stale_work_update_conflicts s t e f h =
      let (w, there, up) = updated_work s e h in
      let q : WorkItemFollows (length ops) w (get id (run ops m').work_items) =
        work_follows ops m' id w there in
      let other : q.now.version ≢ v = λ same.
        bump-ne_self (length q.moves) v range (omega (arith, q.few, few))
          (ap (bump (length q.moves)) (sym up) ∙ sym q.counts ∙ same) in
      ground (arith, q.is_there, other, ==_iff q.now.version v)

  updated_attempt :
      (s : AttemptState) (e : String)
      → update_attempt_state id v s e m ≡ (ok tt, m')
      → (a : Attempt) × (get id m'.attempts ≡ some a) × (a.version ≡ incr v)
  unfolding update_attempt_state append_event
  updated_attempt s e h = elim (Option-cases (get id m.attempts)) [
    | inl missing ↦ absurd (ground arith)
    | inr (a, found) ↦
        let new : Attempt = record a { state = s; version = incr a.version } in
        (new, ground (arith, get-put_self id new m.attempts), ground (arith, ==_iff a.version v))
  ]

  -- After an update of an attempt that expects an int64 version and succeeds, and after any fewer
  -- than 2 ^ 64 - 1 further calls of the mutating methods, an update that expects the same version
  -- fails with a conflict, whatever states the two ask for.
  pub stale_attempt_update_conflicts :
      (s t : AttemptState) (e f : String)
      → update_attempt_state id v s e m ≡ (ok tt, m')
      → (update_attempt_state id v t f (run ops m')).0 ≡ err (conflict "attempt" id)
  unfolding update_attempt_state
  stale_attempt_update_conflicts s t e f h =
      let (a, there, up) = updated_attempt s e h in
      let q : AttemptFollows (length ops) a (get id (run ops m').attempts) =
        attempt_follows ops m' id a there in
      let other : q.now.version ≢ v = λ same.
        bump-ne_self (length q.moves) v range (omega (arith, q.few, few))
          (ap (bump (length q.moves)) (sym up) ∙ sym q.counts ∙ same) in
      ground (arith, q.is_there, other, ==_iff q.now.version v)
