-- ===== src/Reconcile/Table.antt =====
-- What the decision table of internal/reconcile/reconcile.go decides.
use xgoal.Prelude.{
  ◌≡◌, ◌≢◌, ◌↔◌, inl, inr, Bool, true, false, not, ◌&&◌, none, some, arith, Option-cases,
}
use xgoal.Prelude.Word.{is_positive}
use xgoal.Prelude.Exec.{ok, err}
use xgoal.Reconcile.{
  FailureClass, agent_unavailable, agent_failed, agent_protocol_invalid, agent_timeout,
  agent_interrupted, Failure, FailureError, failure_error, valid, material_progress,
  retry_new_attempt, diagnose, Input, decide_class, decide,
}

-- the agent failures that a new attempt can mend
abbrev pub is_agent_failure : FailureClass → Bool
is_agent_failure agent_unavailable = true
is_agent_failure agent_failed = true
is_agent_failure agent_protocol_invalid = true
is_agent_failure agent_timeout = true
is_agent_failure agent_interrupted = true
is_agent_failure _ = false

-- the same failure and strategy again, with nothing gained
abbrev pub is_stuck : Input → Bool
is_stuck i = is_positive i.same_fingerprint_strategy && not (material_progress i.previous i.current)

class_valid : (f : Failure) → failure_error f ≡ none → valid f.class ≡ true
unfolding failure_error
class_valid f h = ground arith

class_decides :
    (c : FailureClass) (side : Bool) (e : FailureError)
    → valid c ≡ true
    → decide_class c side ≢ err e
unfolding decide_class valid
class_decides agent_unavailable side e h = ground arith
class_decides _ side e h = ground arith

-- `Decide` fails exactly when the failure does not validate, with the error of the validation: the
-- table has a row for every failure class.
pub decide_error_iff :
    (i : Input) (e : FailureError) → (decide i ≡ err e) ↔ (failure_error i.failure ≡ some e)
decide_error_iff i e = (
  λ h. elim (Option-cases (failure_error i.failure)) [
    | inr (x, bad) ↦ unfold decide in ground arith
    | inl fine ↦ absurd (
        unfold decide in
        ground (
          arith,
          class_decides i.failure.class i.side_effects_observed e (class_valid i.failure fine),
        ))
  ],
  λ h. unfold decide in ground (arith, h),
)

class_retries :
    (c : FailureClass) (side : Bool)
    → (decide_class c side ≡ ok retry_new_attempt) ↔ ((is_agent_failure c ≡ true) × (side ≡ false))
unfolding decide_class
class_retries agent_unavailable side = (λ h. ground arith, λ h. ground (arith, h.1))
class_retries agent_failed side = (λ h. ground arith, λ h. ground (arith, h.1))
class_retries agent_protocol_invalid side = (λ h. ground arith, λ h. ground (arith, h.1))
class_retries agent_timeout side = (λ h. ground arith, λ h. ground (arith, h.1))
class_retries agent_interrupted side = (λ h. ground arith, λ h. ground (arith, h.1))
class_retries _ side = (λ h. absurd (ground arith), λ h. absurd (ground (arith, h.0)))

-- `Decide` retries with a new attempt exactly when the failure validates, it is one of the five
-- isolated agent failures, no side effects were observed, and the same fingerprint and strategy has
-- not come again without material progress.
pub retry_iff :
    (i : Input)
    → (decide i ≡ ok retry_new_attempt) ↔ (
        (failure_error i.failure ≡ none)
        × (is_stuck i ≡ false)
        × (is_agent_failure i.failure.class ≡ true)
        × (i.side_effects_observed ≡ false))
unfolding decide
retry_iff i =
    let row = class_retries i.failure.class i.side_effects_observed in
    (
      λ h. (ground arith, ground arith, (row.0 (ground arith)).0, (row.0 (ground arith)).1),
      λ h. ground (arith, h.0, h.1, row.1 (h.2, h.3)),
    )

-- A valid failure whose fingerprint and strategy come again without material progress is diagnosed,
-- whatever its class and its side effects.
pub stuck_is_diagnosed :
    (i : Input) → failure_error i.failure ≡ none → is_stuck i ≡ true → decide i ≡ ok diagnose
unfolding decide
stuck_is_diagnosed i valid_failure stuck = ground arith
