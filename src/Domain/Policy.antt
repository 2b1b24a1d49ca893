-- ===== src/Domain/Policy.antt =====
-- `PolicyAction` of internal/domain/state.go; `unknown` is any other text.
use xgoal.Prelude.{String, Bool, true, false}

pub data PolicyAction : Type 0 where
  read_file write_file exec_command connect_provider access_project_network read_env
        use_provider_credential use_project_secret modify_validator modify_git_history push_remote
        publish_artifact deploy_production delete_external_data expand_scope :
      PolicyAction
  unknown : String → PolicyAction

-- the `switch` of `Valid`
unfoldable pub valid : PolicyAction → Bool
valid read_file = true
valid write_file = true
valid exec_command = true
valid connect_provider = true
valid access_project_network = true
valid read_env = true
valid use_provider_credential = true
valid use_project_secret = true
valid modify_validator = true
valid modify_git_history = true
valid push_remote = true
valid publish_artifact = true
valid deploy_production = true
valid delete_external_data = true
valid expand_scope = true
valid (unknown _) = false
