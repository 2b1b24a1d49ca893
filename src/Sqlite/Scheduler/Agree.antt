-- ===== src/Sqlite/Scheduler/Agree.antt =====
-- The scheduler of internal/store/sqlite/scheduler.go beside ensureWorkCanBecomeReady, which a claim
-- runs.
use xgoal.Prelude.{
  ℕ, ◌≡◌, refl, sym, ap, subst, ◌∙◌, ◌↔◌, inl, inr, String, string_eq, true, false, not, Option,
  none, some, List, [], ◌∷◌, ◌==◌, ==_iff, contains, arith, Bool-cases, Option-cases, decide,
  if◌then◌else◌,
}
use xgoal.Prelude.Word.{incr}
use xgoal.Prelude.Exec.{ok}
use xgoal.Prelude.Dict.{Dict, get, put, get-put}
use xgoal.Prelude.Checks.{first_error, refuse, refuse-none}
use xgoal.Prelude.Steps.{>>=-ok, check, check-ok}
use xgoal.Domain.Goal.{GoalState, goal_state_eq}
use xgoal.Domain.Plan.{plan_revision_state_eq}
use xgoal.Domain.Work.{WorkState, WorkState-discrete, work_state_eq}
use xgoal.Domain.Model.{Goal, WorkItem, Time}
use xgoal.Compile.Texts.{insert_by, sort_by}
use xgoal.Compile.Graph.Paths.{In}
use xgoal.Policy.Paths.{codes}
use xgoal.Sqlite.Tables.{
  Database, conflict, invalid_input, EventInput, PreparedEvent, Payload, PlanRow, read_goal,
  prepare_event, append_event,
}
use xgoal.Sqlite.Scheduler.{
  plan_of, is_gated, is_cleared, cleared_ids, candidates, promote_each, refresh_ready_work_tx,
  refresh_ready_work, ensure_work_can_become_ready,
}

contains-insert_by :
    (k a : String) (ks : List String) → contains k (insert_by codes a ks) ≡ contains k (a ∷ ks)
unfolding contains insert_by
contains-insert_by k a [] = refl
contains-insert_by k a (j ∷ js) = ground (arith, contains-insert_by k a js)

contains-sort_by : (k : String) (ks : List String) → contains k (sort_by codes ks) ≡ contains k ks
unfolding sort_by contains
contains-sort_by k [] = refl
contains-sort_by k (j ∷ js) =
    contains-insert_by k j (sort_by codes js) ∙ ground (arith, contains-sort_by k js)

-- each key of the rows is there once
abbrev pub IsKeyed : {V : Type 0} → Dict String V → Type 0
IsKeyed [] = Unit
IsKeyed ((k, v) ∷ m) = (get k m ≡ none) × IsKeyed m

module _ (julian_day : Time → ℕ) (now : Time) where
  -- the work item belongs to the goal by its plan
  abbrev pub BelongsTo : Database → WorkItem → String → Type 0
  BelongsTo t w goal_id = (p : PlanRow) × (plan_of julian_day now t w ≡ some (p, goal_id))

  -- a pending item of the goal that a claim's check lets through
  pub record IsDue (goal_id : String) (t : Database) (id : String) (w : WorkItem) : Type 0 where
    pub pending : w.state ≡ WorkState.pending
    pub owned : BelongsTo t w goal_id
    pub ensured : ensure_work_can_become_ready julian_day now t id w ≡ none

  cleared-IsDue :
      (goal_id : String) (goal : Goal) (t : Database) (id : String) (w : WorkItem)
      → get goal_id t.goals ≡ some goal
      → (goal.state == GoalState.running) ≡ true
      → is_cleared julian_day now goal_id goal t id w ≡ true
      → IsDue goal_id t id w
  unfolding is_cleared ensure_work_can_become_ready first_error
  cleared-IsDue goal_id goal t id w there running h =
      elim (Option-cases (plan_of julian_day now t w)) [
        | inl lost ↦ absurd (ground arith)
        | inr ((p, owner), found) ↦
            let same : owner ≡ goal_id = ground (arith, ==_iff owner goal_id) in
            let at_owner : get owner t.goals ≡ some goal = ap (λ o. get o t.goals) same ∙ there in
            record {
              pending = ground (arith, ==_iff w.state WorkState.pending);
              owned = (p, found ∙ ap (λ o. some (p, o)) same);
              ensured = ground (
                arith,
                at_owner,
                ==_iff p.goal_revision_id goal.active_revision_id,
                ==_iff goal.active_revision_id p.goal_revision_id,
                ap (λ o. is_gated julian_day now o id t.gates) same,
              );
            }
      ]

  IsDue-cleared :
      (goal_id : String) (goal : Goal) (t : Database) (id : String) (w : WorkItem)
      → get goal_id t.goals ≡ some goal
      → IsDue goal_id t id w
      → is_cleared julian_day now goal_id goal t id w ≡ true
  unfolding is_cleared ensure_work_can_become_ready first_error
  IsDue-cleared goal_id goal t id w there due =
      let p = due.owned.0 in
      let found = due.owned.1 in
      let fine = due.ensured in
      ground (
        arith,
        ==_iff goal_id goal_id,
        ==_iff w.state WorkState.pending,
        due.pending,
        ==_iff p.goal_revision_id goal.active_revision_id,
        ==_iff goal.active_revision_id p.goal_revision_id,
      )

  absent-not_listed :
      (goal_id : String) (goal : Goal) (t : Database) (k : String) (rows : Dict String WorkItem)
      → get k rows ≡ none
      → contains k (cleared_ids julian_day now goal_id goal t rows) ≡ false
  unfolding cleared_ids contains get
  absent-not_listed goal_id goal t k [] h = refl
  absent-not_listed goal_id goal t k ((id, v) ∷ rows) h =
      ground (arith, absent-not_listed goal_id goal t k rows)

  -- a listed id is that of a cleared row
  cleared_ids_sound :
      (goal_id : String) (goal : Goal) (t : Database) (k : String) (w : WorkItem)
      (rows : Dict String WorkItem)
      → IsKeyed rows
      → get k rows ≡ some w
      → In k (cleared_ids julian_day now goal_id goal t rows)
      → is_cleared julian_day now goal_id goal t k w ≡ true
  unfolding cleared_ids contains get
  cleared_ids_sound goal_id goal t k w [] u there h = absurd (ground arith)
  cleared_ids_sound goal_id goal t k w ((id, v) ∷ rows) u there h = elim (Bool-cases (id == k)) [
    | inl same ↦
        let e = (==_iff id k).0 same in
        let f : v ≡ w = ground arith in
        ground (
          arith,
          ap (λ i. is_cleared julian_day now goal_id goal t i v) e,
          ap (λ x. is_cleared julian_day now goal_id goal t k x) f,
          absent-not_listed goal_id goal t k rows (subst (λ i. get i rows ≡ none) e u.0),
        )
    | inr other ↦ cleared_ids_sound goal_id goal t k w rows u.1 (ground arith) (ground arith)
  ]

  cleared_ids_complete :
      (goal_id : String) (goal : Goal) (t : Database) (k : String) (w : WorkItem)
      (rows : Dict String WorkItem)
      → get k rows ≡ some w
      → is_cleared julian_day now goal_id goal t k w ≡ true
      → In k (cleared_ids julian_day now goal_id goal t rows)
  unfolding cleared_ids contains get
  cleared_ids_complete goal_id goal t k w [] there h = absurd (ground arith)
  cleared_ids_complete goal_id goal t k w ((id, v) ∷ rows) there h = elim (Bool-cases (id == k)) [
    | inl same ↦
        let e = (==_iff id k).0 same in
        let f : v ≡ w = ground arith in
        ground (
          arith,
          ap (λ i. is_cleared julian_day now goal_id goal t i v) e,
          ap (λ x. is_cleared julian_day now goal_id goal t k x) f,
        )
    | inr other ↦ ground (arith, cleared_ids_complete goal_id goal t k w rows)
  ]

  pub promoted : WorkItem → WorkItem
  promoted w = record w { state = WorkState.ready; version = incr w.version }

  ready_not_pending : (WorkState.ready == WorkState.pending) ≡ false
  unfolding WorkState-discrete decide
  ready_not_pending = refl

  -- what the loop does to the row of a key
  pub record Changed (ids : List String) (t t' : Database) (k : String) : Type 0 where
    pub hit :
        In k ids
        → (w : WorkItem) × (get k t.work_items ≡ some w)
          × (w.state ≡ WorkState.pending)
          × (get k t'.work_items ≡ some (promoted w))
    pub missed : contains k ids ≡ false → get k t'.work_items ≡ get k t.work_items

  -- one promotion, and those after it
  Changed-cons :
      (event : PreparedEvent) (id : String) (ids : List String) (t t1 t' : Database) (k : String)
      (w : WorkItem)
      → get id t.work_items ≡ some w
      → w.state ≡ WorkState.pending
      → get k t1.work_items ≡ (if id == k then some (promoted w) else get k t.work_items)
      → Changed ids t1 t' k
      → Changed (id ∷ ids) t t' k
  unfolding contains promoted
  Changed-cons event id ids t t1 t' k w found idle step c = elim (Bool-cases (id == k)) [
    | inl same ↦
        let here : get k t.work_items ≡ some w =
          subst (λ i. get i t.work_items ≡ some w) ((==_iff id k).0 same) found in
        record {
          hit = λ _. elim (Bool-cases (contains k ids)) [
            | inl again ↦
                absurd let x = c.hit again in let row = x.1 in let state = x.2 in ground arith
            | inr last ↦ (w, here, idle, c.missed last ∙ ground arith)
          ];
          missed = λ out. absurd (ground arith);
        }
    | inr other ↦
        let same_row : get k t1.work_items ≡ get k t.work_items = ground arith in
        record {
          hit = λ there. let x = c.hit (ground arith) in (x.0, sym same_row ∙ x.1, x.2, x.3);
          missed = λ out. c.missed (ground arith) ∙ same_row;
        }
  ]

  promote_each-Changed :
      (event : PreparedEvent) (ids : List String) (t t' : Database) (k : String)
      → promote_each julian_day now event ids t ≡ ok t'
      → Changed ids t t' k
  unfolding promote_each contains append_event promoted
  promote_each-Changed event [] t t' k h = record {
    hit = λ there. absurd (ground arith);
    missed = λ _. ground arith;
  }
  promote_each-Changed event (id ∷ ids) t t' k h = elim (Option-cases (get id t.work_items)) [
    | inl lost ↦ absurd (ground arith)
    | inr (w, found) ↦ elim (Bool-cases (w.state == WorkState.pending)) [
      | inr busy ↦ absurd (ground arith)
      | inl idle ↦
          let t1 =
            append_event "work" id event
              (record t { work_items = put id (promoted w) t.work_items }) in
          Changed-cons event id ids t t1 t' k w found ((==_iff w.state WorkState.pending).0 idle)
            (get-put id k (promoted w) t.work_items)
            (promote_each-Changed event ids t1 t' k (ground arith))
    ]
  ]

  -- what a refresh does to the work items
  pub record Refreshed (goal_id : String) (t : Database) (ids : List String) (t' : Database)
      : Type 0 where
    pub due :
        (k : String) (w : WorkItem) → get k t.work_items ≡ some w → In k ids ↔ IsDue goal_id t k w
    pub changed : (k : String) → Changed ids t t' k

  running_goal :
      (goal_id : String) (t : Database) (goal : Goal)
      → read_goal goal_id t ≡ ok goal
      → get goal_id t.goals ≡ some goal
  unfolding read_goal
  running_goal goal_id t goal h = ground arith

  refresh-Refreshed :
      (goal_id : String) (event : PreparedEvent) (t t' : Database) (ids : List String)
      → IsKeyed t.work_items
      → refresh_ready_work_tx julian_day now goal_id event t ≡ ok (ids, t')
      → Refreshed goal_id t ids t'
  unfolding refresh_ready_work_tx candidates
  refresh-Refreshed goal_id event t t' ids keyed h = >>=-ok (read_goal goal_id t) h λ goal read h1.
      let running_checks =
        refuse (not (goal.state == GoalState.running)) (conflict "goal" goal_id) ∷ [] in
      >>=-ok (check running_checks) h1 λ _ checked h2.
        >>=-ok (promote_each julian_day now event (candidates julian_day now goal_id goal t) t) h2
          λ t2 looped h3.
            let there = running_goal goal_id t goal read in
            let running : (goal.state == GoalState.running) ≡ true =
              (let x = refuse-none _ _ (check-ok running_checks checked).0 in ground arith) in
            let listed : ids ≡ candidates julian_day now goal_id goal t = ground arith in
            let last : t2 ≡ t' = ground arith in
            record {
              due = λ k w row.
                  let sorted_too =
                    contains-sort_by k (cleared_ids julian_day now goal_id goal t t.work_items) in
                  (
                    λ h. cleared-IsDue goal_id goal t k w there running (
                        cleared_ids_sound goal_id goal t k w t.work_items keyed row
                          (sym sorted_too ∙ subst (λ l. In k l) listed h)),
                    λ d.
                        subst (λ l. In k l) (sym listed)
                          (sorted_too
                            ∙ cleared_ids_complete goal_id goal t k w t.work_items row
                                (IsDue-cleared goal_id goal t k w there d)),
                  );
              changed = λ k.
                  subst (λ x. Changed ids t x k) last
                    (subst (λ l. Changed l t t2 k) (sym listed)
                      (promote_each-Changed event (candidates julian_day now goal_id goal t) t t2 k
                        looped));
            }

  -- Where `RefreshReadyWork` succeeds on a table with distinct ids, it lists a work item exactly if
  -- the item is pending, belongs to the goal and passes the check that a claim runs; the listed
  -- items, which were pending, are then READY under their next version, and all others are as before.
  pub refresh_ready_work-Refreshed :
      (marshal : Payload → Option String) (goal_id : String) (event : EventInput) (t t' : Database)
      (ids : List String)
      → IsKeyed t.work_items
      → refresh_ready_work julian_day now marshal goal_id event t ≡ ok (ids, t')
      → Refreshed goal_id t ids t'
  unfolding refresh_ready_work
  refresh_ready_work-Refreshed marshal goal_id event t t' ids keyed h =
      >>=-ok (check (refuse (goal_id == "") (invalid_input "goal id") ∷ [])) h λ _ _ h1.
        >>=-ok (prepare_event marshal event) h1
          λ prepared _ h2. refresh-Refreshed goal_id prepared t t' ids keyed h2
