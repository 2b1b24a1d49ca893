-- ===== src/Policy.antt =====
-- internal/policy/policy.go: the role defaults, and the resources that a scope contains. The reason
-- of a result is a text fixed by its branch and is left out.
pub mod Paths
pub mod Scope
pub mod Containment
pub mod Grants
use xgoal.Prelude.{
  String, Bool, true, false, not, ◌&&◌, ◌||◌, ◌==◌, decide, List, [], ◌∷◌, is_empty, all_of, map,
  if◌then◌else◌, none, some, Option,
}
use xgoal.Prelude.Exec.{Result, ok, err}
use xgoal.Domain.Role
use xgoal.Domain.Role.{Role, Role-discrete, role_eq}
use xgoal.Domain.Policy as Actions
use xgoal.Domain.Policy.{PolicyAction}
use Paths.{Text, codes}
use Scope.{within_scope}

pub data Decision : Type 0 where
  allow deny require_gate : Decision

-- the fields of Request; the text of a result's reason is fixed by its branch and left out
pub record Request : Type 0 where
  pub role : Role
  pub action : PolicyAction
  pub resources : List String
  pub write_scope : List String
  pub trusted_profile : Bool
  pub cli_session : Bool

pub data PolicyError : Type 0 where
  invalid_request unhandled_action : PolicyError

-- the `switch` of `Evaluate`
unfoldable pub decide_action : PolicyAction → Request → Result PolicyError Decision
unfolding within_scope Role-discrete decide
decide_action PolicyAction.read_file r = ok allow
decide_action PolicyAction.write_file r =
    if not (r.role == Role.implementer)
    then ok deny
    else if within_scope (map codes r.resources) (map codes r.write_scope)
    then ok allow
    else ok require_gate
decide_action PolicyAction.exec_command r = if r.role == Role.reviewer then ok deny else ok allow
decide_action PolicyAction.connect_provider r = if r.trusted_profile then ok allow else ok deny
decide_action PolicyAction.use_provider_credential r =
    if r.trusted_profile && r.cli_session then ok allow else ok require_gate
decide_action PolicyAction.access_project_network r = ok require_gate
decide_action PolicyAction.use_project_secret r = ok require_gate
decide_action PolicyAction.modify_validator r = ok require_gate
decide_action PolicyAction.publish_artifact r = ok require_gate
decide_action PolicyAction.expand_scope r = ok require_gate
decide_action PolicyAction.read_env r = ok require_gate
decide_action PolicyAction.modify_git_history r = ok deny
decide_action PolicyAction.push_remote r = ok deny
decide_action PolicyAction.deploy_production r = ok deny
decide_action PolicyAction.delete_external_data r = ok deny
decide_action (PolicyAction.unknown _) r = err unhandled_action

unfoldable pub evaluate : Request → Result PolicyError Decision
unfolding decide_action Role.valid Actions.valid
evaluate r =
    if not (Role.valid r.role) || not (Actions.valid r.action)
    then err invalid_request
    else decide_action r.action r
