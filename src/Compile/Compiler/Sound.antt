-- ===== src/Compile/Compiler/Sound.antt =====
-- The validators and the work graph of what Compile of internal/goalcompile/compile.go returns.
use xgoal.Prelude.{
  ◌≡◌, sym, ap, ◌∙◌, ◌++◌, map, subst, ◌⊎◌, inl, inr, String, string_eq, not, ◌||◌, Option, none,
  List, [], ◌∷◌, arith, All, Bool-cases, Option-cases,
}
use xgoal.Prelude.Checks.{first_error, first_error-none}
use xgoal.Prelude.Exec.{ok, Result-cases}
use xgoal.Compile.Graph.Paths.{In}
use xgoal.Domain.Model.{WorkItem}
use xgoal.Policy.Paths.{codes}
use xgoal.Compile.Texts.{safe_id, sort_by}
use xgoal.Compile.Proposal.{
  Contract, AcceptanceCriterion, Plan, PlanWork, CompileCode, contract_error, normalize_contract,
  normalize_plan,
}
use xgoal.Compile.WorkGraph.{
  WorkDependency, criterion_ids, compile_work, compile_dependencies, compile_plan, plan_error,
}
use xgoal.Compile.WorkGraph.Sound.{IsWorkGraph, plan-IsWorkGraph, plan-InAllowed}
use xgoal.Compile.Coverage.{ValidationCapabilities, validate_coverage}
use xgoal.Compile.Coverage.Complete.{IsCovered, coverage-IsCovered}
use xgoal.Compile.Generated.{Ready}
use xgoal.Compile.Generated.Allowed.{IsOwn, ids_of, IsReady, prepare_generated-IsReady}
use xgoal.Compile.Generated.Renamed.{outline, IsRenamed, prepare_generated-IsRenamed}
use xgoal.Compile.Compiler.{Compiled, change_error, single, compile_ready, prepare, compile}

-- a validator of the project or a generated one of the contract
abbrev pub IsKnown : List String → Contract → String → Type 0
IsKnown trusted c v = In v trusted ⊎ In v (ids_of c.generated_validators)

module _ (code : CompileCode) (goal_id revision_id plan_id : String) where
  -- The result is made of the plan, which is the proposed one but for the names of validators and the
  -- order of its lists, and the plan is a work graph that covers the proposed contract.
  pub record IsSound (c : Contract) (p : Plan) (trusted : List String) (done : Compiled)
      : Type 0 where
    pub plan : Plan
    pub same_items :
        (outline plan.work_items ≡ outline p.work_items)
        ⊎ (outline plan.work_items ≡ outline (normalize_plan p).work_items)
    pub same_criteria : criterion_ids done.contract ≡ criterion_ids (normalize_contract c)
    pub works :
        done.work_items
        ≡ sort_by
            (λ (w : WorkItem). codes w.id)
            (map (compile_work code revision_id plan_id) plan.work_items)
    pub dependencies :
        done.dependencies
        ≡ sort_by
            (λ (d : WorkDependency). codes d.from_id ++ codes d.to_id)
            (compile_dependencies code revision_id plan_id plan.work_items)
    pub graph : IsWorkGraph done.contract plan.work_items
    pub own : All (IsOwn goal_id trusted) done.contract.generated_validators
    pub known :
        All
          (λ (x : AcceptanceCriterion). All (IsKnown trusted done.contract) x.validators)
          done.contract.acceptance_criteria
    pub items_known :
        All (λ (w : PlanWork). All (IsKnown trusted done.contract) w.validators) plan.work_items

All-map :
    {A : Type 0} {P Q : A → Type 0} (f : (a : A) → P a → Q a) (xs : List A) → All P xs → All Q xs
All-map f [] h = tt
All-map f (x ∷ xs) h = (f x h.0, All-map f xs h.1)

-- a covered criterion names known validators only
validators-IsKnown :
    (goal_id : String) (trusted : List String) (r : Ready)
    → IsReady goal_id trusted r
    → (c : AcceptanceCriterion) → IsCovered r.allowed r.capabilities c
    → All (IsKnown trusted r.contract) c.validators
validators-IsKnown goal_id trusted r i c h = All-map (λ v u. i.only v u.0) c.validators h.0

module _ (code : CompileCode) (goal_id revision_id plan_id : String) where
  -- the parts of a compilation that succeeds
  record IsBuilt (r : Ready) (done : Compiled) : Type 0 where
    covered : validate_coverage r.contract r.allowed r.capabilities ≡ none
    graph : plan_error r.allowed r.contract r.plan ≡ none
    same : done.contract ≡ r.contract
    works :
        done.work_items
        ≡ sort_by
            (λ (w : WorkItem). codes w.id)
            (map (compile_work code revision_id plan_id) r.plan.work_items)
    dependencies :
        done.dependencies
        ≡ sort_by
            (λ (d : WorkDependency). codes d.from_id ++ codes d.to_id)
            (compile_dependencies code revision_id plan_id r.plan.work_items)

  compile_ready-IsBuilt :
      (r : Ready) (done : Compiled)
      → compile_ready code goal_id revision_id plan_id r ≡ ok done
      → IsBuilt r done
  unfolding compile_ready compile_plan
  compile_ready-IsBuilt r done h =
      elim (Option-cases (
        first_error (
          validate_coverage r.contract r.allowed r.capabilities
          ∷ change_error r.capabilities r.plan.work_items
          ∷ []))) [
            | inr (e, bad) ↦ absurd (ground arith)
            | inl fine ↦ elim (Option-cases (code.contract_hash r.contract)) [
              | inl none_there ↦ absurd (ground arith)
              | inr (contract_hash, hashed) ↦
                  elim (Option-cases (plan_error r.allowed r.contract r.plan)) [
                    | inr (e, bad) ↦ absurd (ground arith)
                    | inl graph ↦ elim (Option-cases (code.plan_hash (normalize_plan r.plan))) [
                      | inl none_there ↦ absurd (ground arith)
                      | inr (plan_hash, known) ↦ record {
                        covered =
                            (first_error-none
                              (validate_coverage r.contract r.allowed r.capabilities
                                ∷ change_error r.capabilities r.plan.work_items
                                ∷ [])
                              fine).0;
                        graph = graph;
                        same = ground arith;
                        works = ground arith;
                        dependencies = ground arith;
                      }
                    ]
                  ]
            ]
          ]

  IsSound-built :
      (c : Contract) (p : Plan) (trusted : List String) (r : Ready) (done : Compiled)
      → IsReady goal_id trusted r
      → IsRenamed (normalize_contract c) p r
      → IsBuilt r done
      → IsSound code goal_id revision_id plan_id c p trusted done
  IsSound-built c p trusted r done i n b = record {
    plan = r.plan;
    same_items = n.items;
    same_criteria = ap criterion_ids b.same ∙ n.criteria;
    works = b.works;
    dependencies = b.dependencies;
    graph =
        subst (λ x. IsWorkGraph x r.plan.work_items) (sym b.same)
          (plan-IsWorkGraph r.allowed r.contract r.plan b.graph);
    own =
        subst (λ (x : Contract). All (IsOwn goal_id trusted) x.generated_validators) (sym b.same)
          i.own;
    known =
        subst
          (λ (x : Contract).
            All (λ (y : AcceptanceCriterion). All (IsKnown trusted x) y.validators)
              x.acceptance_criteria)
          (sym b.same)
          (All-map (validators-IsKnown goal_id trusted r i) r.contract.acceptance_criteria
            (coverage-IsCovered r.contract r.allowed r.capabilities b.covered).0);
    items_known =
        subst
          (λ (x : Contract).
            All (λ (w : PlanWork). All (IsKnown trusted x) w.validators) r.plan.work_items)
          (sym b.same)
          (All-map
            (λ (w : PlanWork) (h : All (λ v. In v r.allowed) w.validators).
              All-map (λ v u. i.only v u) w.validators h)
            r.plan.work_items (plan-InAllowed r.allowed r.contract r.plan b.graph));
  }

  prepare-IsReady :
      (c : Contract) (p : Plan) (trusted : List String)
      (capabilities : List (Option ValidationCapabilities)) (r : Ready)
      → prepare code goal_id revision_id plan_id c p trusted capabilities ≡ ok r
      → IsReady goal_id trusted r × IsRenamed c p r
  unfolding prepare
  prepare-IsReady c p trusted capabilities r h = elim (Option-cases (contract_error code c)) [
    | inr (e, bad) ↦ absurd (ground arith)
    | inl fine ↦ elim (Result-cases (single capabilities)) [
      | inr (e, bad) ↦ absurd (ground arith)
      | inl (caps, one) ↦ (
        prepare_generated-IsReady goal_id c p trusted caps r (ground arith),
        prepare_generated-IsRenamed goal_id trusted c p caps r (ground arith),
      )
    ]
  ]

-- What `Compile` returns without an error is made of a plan that is the proposed one or its normal
-- form, but for the names of validators: the returned work items and dependencies are those of its
-- items, sorted. The plan has no key that leads to itself through its dependencies, and a required
-- item of it names each criterion of the proposed contract. The criteria and the items name only
-- trusted validators of the project and generated ones of the returned contract, and the ids of the
-- latter begin with the goal's prefix and are not those of trusted validators.
pub compile-IsSound :
    (code : CompileCode) (goal_id revision_id plan_id : String) (c : Contract) (p : Plan)
    (trusted : List String) (capabilities : List (Option ValidationCapabilities)) (done : Compiled)
    → compile code goal_id revision_id plan_id c p trusted capabilities ≡ ok done
    → IsSound code goal_id revision_id plan_id c p trusted done
unfolding compile
compile-IsSound code goal_id revision_id plan_id c p trusted capabilities done h =
    elim (Bool-cases
      (not (safe_id goal_id) || not (safe_id revision_id) || not (safe_id plan_id))) [
        | inl bad ↦ absurd (ground arith)
        | inr fine ↦
            elim (Result-cases (
              prepare code goal_id revision_id plan_id (normalize_contract c) p trusted
                capabilities)) [
                  | inr (e, bad) ↦ absurd (ground arith)
                  | inl (r, prepared) ↦
                      let both =
                        prepare-IsReady code goal_id revision_id plan_id (normalize_contract c) p
                          trusted capabilities r prepared in
                      IsSound-built code goal_id revision_id plan_id c p trusted r done both.0
                        both.1
                        (compile_ready-IsBuilt code goal_id revision_id plan_id r done
                          (ground arith))
                ]
      ]
