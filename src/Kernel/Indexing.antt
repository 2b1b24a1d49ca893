-- ===== src/Kernel/Indexing.antt =====
-- RunSimulation of internal/kernel/kernel.go: its reads of the first validator and of the first
-- acceptance criterion of the packet.
use mathlib.Core.List.{head?}
use xgoal.Prelude.{
  String, ◌≡◌, refl, ◌≢◌, Bool, true, false, Option, none, some, List, [], ◌∷◌, arith, Option-cases,
  inl, inr, if◌then◌else◌,
}
use xgoal.Prelude.Exec.{Result, ok, err, Exec, pure, raise, continue, ◌>>=◌}
use xgoal.Domain.Goal.{GoalState}
use xgoal.Domain.Work.{WorkState}
use xgoal.Domain.Attempt.{AttemptState}
use xgoal.Protocol.{
  AgentResult, Evidence, result_status_eq, agent_result_error, zero_result, zero_evidence,
}
use xgoal.Protocol.Packet.{PacketError, packet_error}
use xgoal.Protocol.Packet.Accepted.{IsAccepted, packet-IsAccepted}
use xgoal.Store.Memory.{StoreError}
use xgoal.Kernel.Interface.{
  StateStore, SimulationSpec, Dependencies, KernelError, index_out_of_range, packet_refused,
}
use xgoal.Kernel.Transitions.{lift, read, transition_goal, transition_work, transition_attempt}
use xgoal.Completion.{evaluate}
use xgoal.Kernel.Records.{completion_input}
use xgoal.Kernel.{
  SimulationOutcome, OutcomeReason, outcome, reconcile, check_spec, set_up, conclude, promote,
  validate, collect, start_agent, run_simulation, require,
}

-- no run of it ends with an index that is out of range
record StaysInRange {S A : Type 0} (m : Exec KernelError S A) : Type 0 where
  at : (s : S) → (m s).0 ≢ err index_out_of_range

module _ {S A B : Type 0} where
  continue-StaysInRange :
      (f : A → Exec KernelError S B) (r : Result KernelError A) (s : S)
      → r ≢ err index_out_of_range
      → ((a : A) → r ≡ ok a → StaysInRange (f a))
      → (continue r f s).0 ≢ err index_out_of_range
  continue-StaysInRange f (ok a) s first rest h = (rest a refl).at s h
  continue-StaysInRange f (err e) s first rest h = first (ground arith)

  StaysInRange-given :
      (m : Exec KernelError S A) (f : A → Exec KernelError S B)
      → StaysInRange m
      → ((a : A) (s : S) → (m s).0 ≡ ok a → StaysInRange (f a))
      → StaysInRange (m >>= f)
  unfolding ◌>>=◌
  StaysInRange-given m f first rest = record {
    at = λ s. continue-StaysInRange f (m s).0 (m s).1 (first.at s) (λ a e. rest a s e);
  }

  StaysInRange-bind :
      {m : Exec KernelError S A} {f : A → Exec KernelError S B}
      → StaysInRange m
      → ((a : A) → StaysInRange (f a))
      → StaysInRange (m >>= f)
  StaysInRange-bind first rest = StaysInRange-given _ _ first (λ a s e. rest a)

module _ {S A : Type 0} where
  lift-StaysInRange : (m : Exec StoreError S A) → StaysInRange (lift m)
  unfolding lift
  lift-StaysInRange m = record { at = λ s h. ground arith }

  read-StaysInRange : (f : S → Result StoreError A) → StaysInRange (read f)
  unfolding read
  read-StaysInRange f = record { at = λ s h. ground arith }

module _ {S : Type 0} (store : StateStore S) (k : Dependencies) (spec : SimulationSpec) where
  outcome-StaysInRange :
      (claim : AgentResult) (e : Evidence) (b : Bool) (rs : List OutcomeReason)
      → StaysInRange (outcome store k spec claim e b rs)
  unfolding outcome
  outcome-StaysInRange claim e b rs = record { at = λ s h. ground arith }

  goal-StaysInRange :
      (id : String) (s : GoalState) (event : String)
      → StaysInRange (transition_goal store id s event)
  unfolding transition_goal
  goal-StaysInRange id s event =
      StaysInRange-bind (read-StaysInRange (store.goal id)) λ _. lift-StaysInRange _

  work-StaysInRange :
      (id : String) (s : WorkState) (event : String)
      → StaysInRange (transition_work store id s event)
  unfolding transition_work
  work-StaysInRange id s event =
      StaysInRange-bind (read-StaysInRange (store.work_item id)) λ _. lift-StaysInRange _

  attempt-StaysInRange :
      (id : String) (s : AttemptState) (event : String)
      → StaysInRange (transition_attempt store id s event)
  unfolding transition_attempt
  attempt-StaysInRange id s event =
      StaysInRange-bind (read-StaysInRange (store.attempt id)) λ _. lift-StaysInRange _

  reconcile-StaysInRange :
      (claim : AgentResult) (e : Evidence) → StaysInRange (reconcile store k spec claim e)
  unfolding reconcile
  reconcile-StaysInRange claim e = StaysInRange-bind (attempt-StaysInRange _ _ _) λ _.
      StaysInRange-bind (work-StaysInRange _ _ _)
        λ _. StaysInRange-bind (lift-StaysInRange _) λ _. outcome-StaysInRange claim e _ _

  require-StaysInRange :
      {A : Type 0} (o : Option A) (e : KernelError)
      → e ≢ index_out_of_range
      → StaysInRange (require store k spec o e)
  require-StaysInRange none e other = record { at = λ s h. other (ground arith) }
  require-StaysInRange (some a) e other = record { at = λ s h. ground arith }

  first-StaysInRange :
      {A : Type 0} (xs : List A)
      → xs ≢ []
      → StaysInRange (require store k spec (head? xs) index_out_of_range)
  first-StaysInRange [] there = absurd (there refl)
  first-StaysInRange (x ∷ xs) there = record { at = λ s h. ground arith }

  set_up-StaysInRange : StaysInRange (set_up store k spec)
  unfolding set_up
  set_up-StaysInRange = StaysInRange-bind (lift-StaysInRange _) λ _.
      StaysInRange-bind (goal-StaysInRange _ _ _) λ _.
        StaysInRange-bind (goal-StaysInRange _ _ _) λ _.
          StaysInRange-bind (lift-StaysInRange _) λ _.
            StaysInRange-bind (work-StaysInRange _ _ _) λ _.
              StaysInRange-bind (require-StaysInRange _ _ (λ e. cc)) λ _.
                StaysInRange-bind (read-StaysInRange _) λ _.
                  StaysInRange-bind (lift-StaysInRange _) λ _.
                    StaysInRange-bind (work-StaysInRange _ _ _) λ _.
                      StaysInRange-bind (attempt-StaysInRange _ _ _) λ _.
                        StaysInRange-bind (attempt-StaysInRange _ _ _)
                          λ _. attempt-StaysInRange _ _ _

  either-StaysInRange :
      {A : Type 0} (b : Bool) {m n : Exec KernelError S A}
      → StaysInRange m
      → StaysInRange n
      → StaysInRange (if b then m else n)
  either-StaysInRange true first second = first
  either-StaysInRange false first second = second

  module _ (fits : IsAccepted spec.packet) where
    conclude-StaysInRange :
        (claim : AgentResult) (e : Evidence) → StaysInRange (conclude store k spec claim e)
    unfolding conclude
    conclude-StaysInRange claim e =
        StaysInRange-bind (first-StaysInRange _ fits.criteria_there) λ criterion.
          StaysInRange-bind
            (either-StaysInRange (evaluate (completion_input k spec criterion e)).complete
              (goal-StaysInRange _ _ _) (record { at = λ s h. ground arith }))
            λ _. outcome-StaysInRange claim e _ _

    promote-StaysInRange :
        (claim : AgentResult) (e : Evidence) → StaysInRange (promote store k spec claim e)
    unfolding promote
    promote-StaysInRange claim e = StaysInRange-bind (lift-StaysInRange _) λ _.
        StaysInRange-bind (attempt-StaysInRange _ _ _) λ _.
          StaysInRange-bind (attempt-StaysInRange _ _ _) λ _.
            StaysInRange-bind (work-StaysInRange _ _ _) λ _.
              StaysInRange-bind (work-StaysInRange _ _ _) λ _.
                StaysInRange-bind (lift-StaysInRange _) λ _.
                  StaysInRange-bind (goal-StaysInRange _ _ _) λ _. conclude-StaysInRange claim e

    validate-StaysInRange : (claim : AgentResult) → StaysInRange (validate store k spec claim)
    unfolding validate
    validate-StaysInRange claim = StaysInRange-bind (attempt-StaysInRange _ _ _) λ _.
        StaysInRange-bind (attempt-StaysInRange _ _ _) λ _.
          StaysInRange-bind (first-StaysInRange _ fits.validators_there) λ _.
            either-StaysInRange _ (promote-StaysInRange claim _) (reconcile-StaysInRange claim _)

    collect-StaysInRange :
        (answer : AgentResult × Bool) → StaysInRange (collect store k spec answer)
    unfolding collect
    collect-StaysInRange (claim, false) = reconcile-StaysInRange zero_result zero_evidence
    collect-StaysInRange (claim, true) = elim (Option-cases (agent_result_error claim)) [
      | inr (x, bad) ↦ rw (bad, collect) (reconcile-StaysInRange claim zero_evidence)
      | inl valid ↦
          rw (valid, collect)
            (either-StaysInRange _ (validate-StaysInRange claim)
              (reconcile-StaysInRange claim zero_evidence))
    ]

    start_agent-StaysInRange : StaysInRange (start_agent store k spec)
    unfolding start_agent
    start_agent-StaysInRange = StaysInRange-bind (require-StaysInRange _ _ (λ e. cc)) λ _. started _
      where
        started :
            (o : Option String)
            → StaysInRange (elim o as (λ _. Exec KernelError S SimulationOutcome) [
              | none ↦ reconcile store k spec zero_result zero_evidence
              | some handle ↦ collect store k spec (k.wait handle)
            ])
        started none = reconcile-StaysInRange zero_result zero_evidence
        started (some handle) = collect-StaysInRange (k.wait handle)

  checked_packet :
      (s : S)
      → (check_spec store k spec s).0 ≡ ok tt
      → packet_error k.packet_code spec.packet ≡ none
  unfolding check_spec ◌>>=◌
  checked_packet s h = elim (Option-cases (packet_error k.packet_code spec.packet)) [
    | inl fine ↦ fine
    | inr (e, bad) ↦ absurd (ground arith)
  ]

  check-StaysInRange :
      (b : Bool) (e : KernelError)
      → e ≢ index_out_of_range
      → StaysInRange (if b then pure tt else raise {S = S} {A = Unit {0}} e)
  check-StaysInRange b e other =
      either-StaysInRange b (record { at = λ s h. ground arith })
        (record { at = λ s h. other (ground arith) })

  check_spec-StaysInRange : StaysInRange (check_spec store k spec)
  unfolding check_spec
  check_spec-StaysInRange = StaysInRange-bind (check-StaysInRange k.present _ (λ e. cc)) λ _.
      StaysInRange-bind (packet_checked (packet_error k.packet_code spec.packet))
        λ _. check-StaysInRange _ _ (λ e. cc)
    where
      packet_checked :
          (o : Option PacketError)
          → StaysInRange (elim o as (λ _. Exec KernelError S (Unit {0})) [
            | none ↦ pure tt
            | some e ↦ raise (packet_refused e)
          ])
      packet_checked none = record { at = λ s h. ground arith }
      packet_checked (some e) = record { at = λ s h. ground arith }

-- Over any store, adapter and validator, `RunSimulation` never reads the first validator or the
-- first acceptance criterion of a packet that has none: with the checks of the packet before them,
-- its two unguarded reads at index 0 cannot panic.
pub run_simulation-StaysInRange :
    {S : Type 0} (store : StateStore S) (k : Dependencies) (spec : SimulationSpec) (s : S)
    → (run_simulation store k spec s).0 ≢ err index_out_of_range
unfolding run_simulation
run_simulation-StaysInRange store k spec s =
    (StaysInRange-given (check_spec store k spec) _ (check_spec-StaysInRange store k spec)
        λ a t done. StaysInRange-bind (set_up-StaysInRange store k spec) λ _.
          start_agent-StaysInRange store k spec
            (packet-IsAccepted k.packet_code spec.packet (checked_packet store k spec t done))).at
      s
