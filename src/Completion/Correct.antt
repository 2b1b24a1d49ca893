-- ===== src/Completion/Correct.antt =====
-- Evaluate of internal/completion/completion.go beside its conditions of completion.
use xgoal.Prelude.{
  ℕ, suc, String, string_eq, ◌≡◌, ◌≢◌, refl, ◌↔◌, ◌⊎◌, Bool, true, false, not, ◌&&◌, ◌||◌, List, [],
  ◌∷◌, ◌++◌, ◌==◌, ==_iff, nat_eq, is_empty, all_of, All, arith,
}
use xgoal.Domain.Goal.{GoalState, goal_state_eq}
use xgoal.Domain.Work.{WorkState, work_state_eq}
use xgoal.Completion.{
  CriterionStatus, Input, Reason, when, work_reasons, criterion_fails, criterion_reasons, evaluate,
}

-- a criterion that is named, satisfied and current on the tree
pub record IsMet (tree : String) (c : CriterionStatus) : Type 0 where
  pub named : c.id ≢ ""
  pub satisfied : c.satisfied ≡ true
  pub current : c.current ≡ true
  pub on_tree : c.tree_hash ≡ tree

-- what a goal's completion asks for
pub record IsComplete (i : Input) : Type 0 where
  pub verifying : i.goal_state ≡ GoalState.verifying
  pub some_work : i.required_work_states ≢ []
  pub work_done : All (λ s. s ≡ WorkState.completed) i.required_work_states
  pub tree_known : i.integration_tree ≢ ""
  pub tree_expected : i.integration_tree ≡ i.expected_tree
  pub some_criteria : i.criteria ≢ []
  pub criteria_met : All (IsMet i.integration_tree) i.criteria
  pub no_findings : i.open_blocking_findings ≡ 0
  pub no_gates : i.open_required_gates ≡ 0
  pub scope_passed : i.scope_policy_passed ≡ true
  pub validation_current : i.final_validation_set_current ≡ true
  pub report_generated : i.final_report_generated ≡ true
  pub accepted : (i.human_acceptance_required ≡ false) ⊎ (i.human_acceptance_satisfied ≡ true)

is_empty-append : (xs ys : List Reason) → is_empty (xs ++ ys) ≡ (is_empty xs && is_empty ys)
is_empty-append [] ys = refl
is_empty-append (x ∷ xs) ys = refl

is_empty-when : (b : Bool) (r : Reason) → is_empty (when b r) ≡ not b
is_empty-when true r = refl
is_empty-when false r = refl

work_reasons_iff :
    (i : ℕ) (ss : List WorkState)
    → (is_empty (work_reasons i ss) ≡ true) ↔ All (λ s. s ≡ WorkState.completed) ss
unfolding work_reasons
work_reasons_iff i [] = (λ _. tt, λ _. refl)
work_reasons_iff i (s ∷ ss) =
    rw (is_empty-append, is_empty-when)
      (
        λ h. (
          ground (arith, ==_iff s WorkState.completed),
          (work_reasons_iff (suc i) ss).0 (ground arith),
        ),
        λ h. ground (arith, ==_iff s WorkState.completed, (work_reasons_iff (suc i) ss).1 h.1),
      )

criterion_iff :
    (tree : String) (c : CriterionStatus) → (criterion_fails tree c ≡ false) ↔ IsMet tree c
unfolding criterion_fails
criterion_iff tree c = (
  λ h. record {
    named = ground (arith, ==_iff c.id "");
    satisfied = ground arith;
    current = ground arith;
    on_tree = ground (arith, ==_iff c.tree_hash tree);
  },
  λ h. ground (arith, ==_iff c.id "", ==_iff c.tree_hash tree),
)

criterion_reasons_iff :
    (tree : String) (cs : List CriterionStatus)
    → (is_empty (criterion_reasons tree cs) ≡ true) ↔ All (IsMet tree) cs
unfolding criterion_reasons
criterion_reasons_iff tree [] = (λ _. tt, λ _. refl)
criterion_reasons_iff tree (c ∷ cs) =
    rw (is_empty-append, is_empty-when)
      (
        λ h. (
          (criterion_iff tree c).0 (ground arith),
          (criterion_reasons_iff tree cs).0 (ground arith),
        ),
        λ h. ground (arith, (criterion_iff tree c).1 h.0, (criterion_reasons_iff tree cs).1 h.1),
      )

is_empty_iff {ℓ} : {A : Type ℓ} (xs : List A) → (is_empty xs ≡ false) ↔ (xs ≢ [])
is_empty_iff [] = (λ h. cc, λ h. absurd (h refl))
is_empty_iff (x ∷ xs) = (λ h e. cc, λ h. refl)

-- the tests of `Evaluate`, in the order of the code
checks : Input → List Bool
checks i =
    (i.goal_state == GoalState.verifying)
    ∷ not (is_empty i.required_work_states)
    ∷ is_empty (work_reasons 0 i.required_work_states)
    ∷ not (i.integration_tree == "" || not (i.integration_tree == i.expected_tree))
    ∷ not (is_empty i.criteria)
    ∷ is_empty (criterion_reasons i.integration_tree i.criteria)
    ∷ (i.open_blocking_findings == 0)
    ∷ (i.open_required_gates == 0)
    ∷ i.scope_policy_passed
    ∷ i.final_validation_set_current
    ∷ i.final_report_generated
    ∷ not (i.human_acceptance_required && not i.human_acceptance_satisfied)
    ∷ []

not-not : (b : Bool) → not (not b) ≡ b
not-not true = refl
not-not false = refl

and-true : (b : Bool) → (b && true) ≡ b
and-true true = refl
and-true false = refl

complete-eq-checks : (i : Input) → (evaluate i).complete ≡ all_of (λ b. b) (checks i)
unfolding evaluate checks
complete-eq-checks i = simp (is_empty-append, is_empty-when, not-not, and-true)

all_of_iff : (bs : List Bool) → (all_of (λ b. b) bs ≡ true) ↔ All (λ b. b ≡ true) bs
all_of_iff [] = (λ _. tt, λ _. refl)
all_of_iff (b ∷ bs) = (
  λ h. (ground arith, (all_of_iff bs).0 (ground arith)),
  λ h. ground (arith, (all_of_iff bs).1 h.1),
)

checks_sound : (i : Input) → All (λ b. b ≡ true) (checks i) → IsComplete i
unfolding checks
checks_sound i
      (
        goal,
        (
          work,
          (
            done,
            (
              tree,
              (criteria, (met, (findings, (gates, (scope, (validation, (report, (accept, _)))))))),
            ),
          ),
        ),
      ) =
    record {
      verifying = (==_iff i.goal_state GoalState.verifying).0 goal;
      some_work = (is_empty_iff i.required_work_states).0 (ground arith);
      work_done = (work_reasons_iff 0 i.required_work_states).0 done;
      tree_known = ground (arith, ==_iff i.integration_tree "");
      tree_expected = ground (arith, ==_iff i.integration_tree i.expected_tree);
      some_criteria = (is_empty_iff i.criteria).0 (ground arith);
      criteria_met = (criterion_reasons_iff i.integration_tree i.criteria).0 met;
      no_findings = ground arith;
      no_gates = ground arith;
      scope_passed = scope;
      validation_current = validation;
      report_generated = report;
      accepted = ground arith;
    }

checks_hold : (i : Input) → IsComplete i → All (λ b. b ≡ true) (checks i)
unfolding checks
checks_hold i c = (
  (==_iff i.goal_state GoalState.verifying).1 c.verifying,
  (
    ground (arith, (is_empty_iff i.required_work_states).1 c.some_work),
    (
      (work_reasons_iff 0 i.required_work_states).1 c.work_done,
      (
        ground (
          arith,
          c.tree_known,
          c.tree_expected,
          ==_iff i.integration_tree "",
          ==_iff i.integration_tree i.expected_tree,
        ),
        (
          ground (arith, (is_empty_iff i.criteria).1 c.some_criteria),
          (
            (criterion_reasons_iff i.integration_tree i.criteria).1 c.criteria_met,
            (
              ground (arith, c.no_findings),
              (
                ground (arith, c.no_gates),
                (
                  c.scope_passed,
                  (c.validation_current, (c.report_generated, (ground (arith, c.accepted), tt))),
                ),
              ),
            ),
          ),
        ),
      ),
    ),
  ),
)

-- `Evaluate` reports completion exactly when the goal is VERIFYING, there is required work and all
-- of it is COMPLETED, the integration tree is known and is the expected one, there are criteria and
-- each is named, satisfied and current on that tree, no blocking finding and no required gate is
-- open, scope, validation and report are in order, and a human has accepted if that is required.
pub complete_iff : (i : Input) → ((evaluate i).complete ≡ true) ↔ IsComplete i
complete_iff i = rw (complete-eq-checks i) (
  λ h. checks_sound i ((all_of_iff (checks i)).0 h),
  λ c. (all_of_iff (checks i)).1 (checks_hold i c),
)
