-- ===== src/Completion.antt =====
-- internal/completion/completion.go, which internal/kernel/completion.go passes on.
pub mod Correct
use xgoal.Prelude.{
  ℕ, zero, suc, String, string_eq, Bool, true, false, not, ◌&&◌, ◌||◌, decide, List, [], ◌∷◌, ◌++◌,
  ◌==◌, nat_eq, is_empty, if◌then◌else◌,
}
use xgoal.Prelude.Word.{Int64}
use xgoal.Domain.Goal.{GoalState, GoalState-discrete, goal_state_eq}
use xgoal.Domain.Work.{WorkState, WorkState-discrete, work_state_eq}

pub record CriterionStatus : Type 0 where
  pub id : String
  pub satisfied : Bool
  pub current : Bool
  pub tree_hash : String

pub record Input : Type 0 where
  pub goal_state : GoalState
  pub required_work_states : List WorkState
  pub integration_tree : String
  pub expected_tree : String
  pub criteria : List CriterionStatus
  pub open_blocking_findings : Int64
  pub open_required_gates : Int64
  pub scope_policy_passed : Bool
  pub final_validation_set_current : Bool
  pub final_report_generated : Bool
  pub human_acceptance_required : Bool
  pub human_acceptance_satisfied : Bool

-- the reasons that `Evaluate` formats, in the order of the code
pub data Reason : Type 0 where
  goal_not_verifying : Reason
  required_work_empty : Reason
  required_work_is : ℕ → WorkState → Reason
  tree_mismatch : Reason
  criteria_empty : Reason
  criterion_not_satisfied : String → Reason
  findings_open : Reason
  gates_open : Reason
  scope_not_passed : Reason
  validation_not_current : Reason
  report_not_generated : Reason
  acceptance_missing : Reason

pub record Verdict : Type 0 where
  pub complete : Bool
  pub reasons : List Reason

-- if failed { reasons = append(reasons, reason) }
abbrev pub when : Bool → Reason → List Reason
when failed reason = if failed then reason ∷ [] else []

-- the loop over RequiredWorkStates, from index `i`
unfoldable pub work_reasons : ℕ → List WorkState → List Reason
unfolding WorkState-discrete decide
work_reasons i [] = []
work_reasons i (state ∷ states) =
    when (not (state == WorkState.completed)) (required_work_is i state)
    ++ work_reasons (suc i) states

unfoldable pub criterion_fails : String → CriterionStatus → Bool
criterion_fails tree c = c.id == "" || not c.satisfied || not c.current || not (c.tree_hash == tree)

-- the loop over Criteria
unfoldable pub criterion_reasons : String → List CriterionStatus → List Reason
unfolding criterion_fails
criterion_reasons tree [] = []
criterion_reasons tree (c ∷ cs) =
    when (criterion_fails tree c) (criterion_not_satisfied c.id) ++ criterion_reasons tree cs

unfoldable pub reasons_of : Input → List Reason
unfolding work_reasons criterion_reasons GoalState-discrete decide
reasons_of i =
    when (not (i.goal_state == GoalState.verifying)) goal_not_verifying
    ++ (when (is_empty i.required_work_states) required_work_empty
        ++ (work_reasons 0 i.required_work_states
            ++ (when (i.integration_tree == "" || not (i.integration_tree == i.expected_tree))
                  tree_mismatch
                ++ (when (is_empty i.criteria) criteria_empty
                    ++ (criterion_reasons i.integration_tree i.criteria
                        ++ (when (not (i.open_blocking_findings == 0)) findings_open
                            ++ (when (not (i.open_required_gates == 0)) gates_open
                                ++ (when (not i.scope_policy_passed) scope_not_passed
                                    ++ (when (not i.final_validation_set_current)
                                          validation_not_current
                                        ++ (when (not i.final_report_generated) report_not_generated
                                            ++ when
                                                (i.human_acceptance_required
                                                  && not i.human_acceptance_satisfied)
                                                acceptance_missing))))))))))

unfoldable pub evaluate : Input → Verdict
unfolding reasons_of
evaluate i = record { complete = is_empty (reasons_of i); reasons = reasons_of i }
