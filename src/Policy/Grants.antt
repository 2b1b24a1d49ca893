-- ===== src/Policy/Grants.antt =====
-- What the role defaults of internal/policy/policy.go allow.
use xgoal.Prelude.{◌≢◌, ◌≡◌, refl, ◌↔◌, ◌⊎◌, inl, inr, true, false, map, arith, ==_iff}
use xgoal.Prelude.Exec.{ok}
use xgoal.Domain.Role
use xgoal.Domain.Role.{Role, role_eq}
use xgoal.Domain.Policy.{PolicyAction}
use xgoal.Policy.Paths.{codes}
use xgoal.Policy.Scope.{scope_contains}
use xgoal.Policy.{Decision, allow, Request, evaluate}

-- who may do what without a gate
abbrev pub Granted : Request → PolicyAction → Type 0
Granted r PolicyAction.read_file = Unit
Granted r PolicyAction.write_file =
    (r.role ≡ Role.implementer)
    × (scope_contains (map codes r.write_scope) (map codes r.resources) ≡ true)
Granted r PolicyAction.exec_command = (r.role ≡ Role.planner) ⊎ (r.role ≡ Role.implementer)
Granted r PolicyAction.connect_provider = r.trusted_profile ≡ true
Granted r PolicyAction.use_provider_credential = (r.trusted_profile ≡ true) × (r.cli_session ≡ true)
Granted r _ = ⊥

Granted-of_allow :
    (r : Request) (a : PolicyAction) → r.action ≡ a → evaluate r ≡ ok allow → Granted r a
unfolding evaluate scope_contains
Granted-of_allow r PolicyAction.read_file e h = tt
Granted-of_allow r PolicyAction.write_file e h = ground (arith, ==_iff r.role Role.implementer)
Granted-of_allow r PolicyAction.exec_command e h =
    ground (
      arith,
      ==_iff r.role Role.reviewer,
      ==_iff r.role Role.implementer,
      ==_iff r.role Role.planner,
    )
Granted-of_allow r _ e h = ground arith

allow_of_Granted :
    (r : Request) (a : PolicyAction)
    → r.action ≡ a
    → Role.valid r.role ≡ true
    → Granted r a
    → evaluate r ≡ ok allow
unfolding evaluate scope_contains
allow_of_Granted r PolicyAction.read_file e v g = ground arith
allow_of_Granted r PolicyAction.write_file e v g =
    ground (arith, g.0, g.1, ==_iff r.role Role.implementer)
allow_of_Granted r PolicyAction.exec_command e v g = elim g [
  | inl p ↦ ground (arith, p, ==_iff r.role Role.reviewer)
  | inr p ↦ ground (arith, p, ==_iff r.role Role.reviewer)
]
allow_of_Granted r PolicyAction.connect_provider e v g = ground (arith, g)
allow_of_Granted r PolicyAction.use_provider_credential e v g = ground (arith, g.0, g.1)
allow_of_Granted r _ e v g = absurd g

valid_of_ok : (r : Request) {d : Decision} → evaluate r ≡ ok d → Role.valid r.role ≡ true
unfolding evaluate
valid_of_ok r h = ground arith

-- A request is allowed without a gate exactly when its role is valid and it is: a read; a write by
-- an implementer within the frozen scope; a command of a planner or an implementer; a provider
-- connection of a trusted profile; or a provider credential of a trusted profile in a CLI session.
pub allow_iff :
    (r : Request) → (evaluate r ≡ ok allow) ↔ ((Role.valid r.role ≡ true) × Granted r r.action)
allow_iff r = (
  λ h. (valid_of_ok r h, Granted-of_allow r r.action refl h),
  λ g. allow_of_Granted r r.action refl g.0 g.1,
)

-- who may not do what, whatever a gate says
abbrev pub Refused : Request → PolicyAction → Type 0
Refused r PolicyAction.write_file = r.role ≢ Role.implementer
Refused r PolicyAction.exec_command = r.role ≡ Role.reviewer
Refused r PolicyAction.connect_provider = r.trusted_profile ≡ false
Refused r PolicyAction.modify_git_history = Unit
Refused r PolicyAction.push_remote = Unit
Refused r PolicyAction.deploy_production = Unit
Refused r PolicyAction.delete_external_data = Unit
Refused r _ = ⊥
