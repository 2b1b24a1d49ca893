-- ===== src/Kernel/Safety.antt =====
-- RunSimulation of internal/kernel/kernel.go: what its completed outcomes rest on.
use xgoal.Prelude.{
  String, ◌≡◌, Bool, true, false, ◌&&◌, ◌==◌, ==_iff, Option, none, some, arith, if◌then◌else◌,
  Bool-cases, Option-cases, inl, inr,
}
use xgoal.Prelude.Exec.{Result, ok, err, Exec, continue, ◌>>=◌}
use xgoal.Protocol.{
  AgentResult, Evidence, ResultStatus, result_status_eq, agent_result_error, zero_result,
  zero_evidence,
}
use xgoal.Completion.{evaluate}
use xgoal.Completion.Correct.{complete_iff}
use xgoal.Kernel.Interface.{StateStore, Dependencies, SimulationSpec, KernelError}
use xgoal.Kernel.Trusted.{trusted_evidence}
use xgoal.Kernel.Records.{completion_input}
use xgoal.Kernel.{
  SimulationOutcome, outcome, reconcile, conclude, promote, validate, collect, start_agent,
  run_simulation, check_spec,
}

-- what a successful run's result satisfies
record Ensures {S A : Type 0} (P : A → Type 0) (m : Exec KernelError S A) : Type 0 where
  at : (s s' : S) (a : A) → m s ≡ (ok a, s') → P a

module _ {S A B : Type 0} {P : B → Type 0} where
  continue_ensures :
      (f : A → Exec KernelError S B)
      → ((a : A) → Ensures P (f a))
      → (r : Result KernelError A) (s s' : S) (b : B) → continue r f s ≡ (ok b, s')
      → P b
  continue_ensures f each (ok a) s s' b e = (each a).at s s' b e
  continue_ensures f each (err x) s s' b e = absurd (ground arith)

  Ensures-bind :
      (m : Exec KernelError S A) (f : A → Exec KernelError S B)
      → ((a : A) → Ensures P (f a))
      → Ensures P (m >>= f)
  unfolding ◌>>=◌
  Ensures-bind m f each = record { at = λ s s' b e. continue_ensures f each (m s).0 (m s).1 s' b e }

-- What a completed simulation has: a valid claim of completion, trusted evidence for the work item,
-- the contract, the configuration and the final tree, and the three flags of the specification.
pub record IsClosed (spec : SimulationSpec) (o : SimulationOutcome) : Type 0 where
  pub claim_valid : agent_result_error o.agent_claim ≡ none
  pub claim_completed : o.agent_claim.status ≡ ResultStatus.completed
  pub evidence_trusted :
      trusted_evidence o.evidence spec.packet.work_item.id spec.packet.goal.contract_hash
        spec.config_hash spec.final_tree
      ≡ true
  pub scope_passed : spec.scope_policy_passed ≡ true
  pub validation_current : spec.final_validation_set_current ≡ true
  pub report_generated : spec.final_report_generated ≡ true

abbrev Closes : SimulationSpec → SimulationOutcome → Type 0
Closes spec o = o.completed ≡ true → IsClosed spec o

module _ {S : Type 0} (store : StateStore S) (k : Dependencies) (spec : SimulationSpec) where
  reconcile-Closes :
      (claim : AgentResult) (e : Evidence) → Ensures (Closes spec) (reconcile store k spec claim e)
  unfolding reconcile
  reconcile-Closes claim e = Ensures-bind _ _ λ _. Ensures-bind _ _ λ _.
      Ensures-bind _ _ λ _. record { at = λ s s' o h c. absurd (unfold outcome in ground arith) }

  conclude-Closes :
      (claim : AgentResult) (e : Evidence)
      → agent_result_error claim ≡ none
      → claim.status ≡ ResultStatus.completed
      → trusted_evidence e spec.packet.work_item.id spec.packet.goal.contract_hash spec.config_hash
          spec.final_tree
        ≡ true
      → Ensures (Closes spec) (conclude store k spec claim e)
  unfolding conclude
  conclude-Closes claim e valid done trusted = Ensures-bind _ _ λ criterion. Ensures-bind _ _ λ _.
      record {
        at = λ s s' o h c.
            let rule : (evaluate (completion_input k spec criterion e)).complete ≡ true =
              unfold outcome in ground arith in
            let facts = (complete_iff (completion_input k spec criterion e)).0 rule in
            unfold outcome completion_input in
            record {
              claim_valid = ground arith;
              claim_completed = ground arith;
              evidence_trusted = ground arith;
              scope_passed = facts.scope_passed;
              validation_current = facts.validation_current;
              report_generated = facts.report_generated;
            };
      }

  module _ (claim : AgentResult) (valid : agent_result_error claim ≡ none)
      (done : claim.status ≡ ResultStatus.completed) where
    promote-Closes :
        (e : Evidence)
        → trusted_evidence e spec.packet.work_item.id spec.packet.goal.contract_hash
            spec.config_hash spec.final_tree
          ≡ true
        → Ensures (Closes spec) (promote store k spec claim e)
    unfolding promote
    promote-Closes e trusted = Ensures-bind _ _ λ _. Ensures-bind _ _ λ _. Ensures-bind _ _ λ _.
        Ensures-bind _ _ λ _. Ensures-bind _ _ λ _.
          Ensures-bind _ _ λ _. Ensures-bind _ _ λ _. conclude-Closes claim e valid done trusted

    validate-Closes : Ensures (Closes spec) (validate store k spec claim)
    unfolding validate
    validate-Closes =
        Ensures-bind _ _ λ _. Ensures-bind _ _ λ _. Ensures-bind _ _ λ validator_id. judged _
      where
        judged :
            (answer : Evidence × Bool)
            → Ensures (Closes spec) (
                if answer.1
                  && trusted_evidence answer.0 spec.packet.work_item.id
                      spec.packet.goal.contract_hash spec.config_hash spec.final_tree
                then promote store k spec claim answer.0
                else reconcile store k spec claim answer.0)
        judged (e, false) = reconcile-Closes claim e
        judged (e, true) =
            elim (Bool-cases (
              trusted_evidence e spec.packet.work_item.id spec.packet.goal.contract_hash
                spec.config_hash spec.final_tree)) [
                  | inl good ↦ rw good (promote-Closes e good)
                  | inr bad ↦ rw bad (reconcile-Closes claim e)
                ]

  collect-Closes :
      (answer : AgentResult × Bool) → Ensures (Closes spec) (collect store k spec answer)
  unfolding collect
  collect-Closes (claim, false) = reconcile-Closes zero_result zero_evidence
  collect-Closes (claim, true) = elim (Option-cases (agent_result_error claim)) [
    | inr (x, bad) ↦ rw (bad, collect) (reconcile-Closes claim zero_evidence)
    | inl valid ↦ elim (Bool-cases (claim.status == ResultStatus.completed)) [
      | inl done ↦
          rw (valid, done, collect)
            (validate-Closes claim valid ((==_iff claim.status ResultStatus.completed).0 done))
      | inr other ↦ rw (valid, other, collect) (reconcile-Closes claim zero_evidence)
    ]
  ]

  start_agent-Closes : Ensures (Closes spec) (start_agent store k spec)
  unfolding start_agent
  start_agent-Closes = Ensures-bind _ _ λ schema. started _
    where
      started :
          (o : Option String)
          → Ensures (Closes spec) (elim o as (λ _. Exec KernelError S SimulationOutcome) [
            | none ↦ reconcile store k spec zero_result zero_evidence
            | some handle ↦ collect store k spec (k.wait handle)
          ])
      started none = reconcile-Closes zero_result zero_evidence
      started (some handle) = collect-Closes (k.wait handle)

-- Over any store, adapter and validator: where `RunSimulation` returns a completed outcome without
-- an error, the outcome's claim is valid and claims completion, its evidence is trusted for the work
-- item, the contract, the configuration and the final tree, and the scope policy, the final
-- validation set and the final report of the specification are in order.
pub completed-IsClosed :
    {S : Type 0} (store : StateStore S) (k : Dependencies) (spec : SimulationSpec) (s s' : S)
    (o : SimulationOutcome)
    → run_simulation store k spec s ≡ (ok o, s')
    → o.completed ≡ true
    → IsClosed spec o
unfolding run_simulation
completed-IsClosed store k spec s s' o =
    (Ensures-bind {P = Closes spec} (check_spec store k spec) _
        λ _. Ensures-bind _ _ λ _. start_agent-Closes store k spec).at
      s s' o
