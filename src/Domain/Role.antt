-- ===== src/Domain/Role.antt =====
-- `Role` of internal/domain/state.go; `unknown` is any other text.
use xgoal.Prelude.{String, String-discrete, Bool, ◌||◌, Eq, ◌==◌, eq_of_discrete, decide}

pub data Role : Type 0 where
  planner implementer reviewer : Role
  unknown : String → Role

unfoldable pub Role-discrete : Discrete Role
unfolding String-discrete
Role-discrete = hlevel String-discrete

instance abbrev pub role_eq : Eq Role
role_eq = eq_of_discrete Role-discrete

unfoldable pub valid : Role → Bool
unfolding Role-discrete decide
valid x = x == planner || x == implementer || x == reviewer
