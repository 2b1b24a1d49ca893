-- ===== src/Domain/Authority.antt =====
-- `Authority` of internal/domain/state.go; `unknown` is any other text.
use xgoal.Prelude.{String, String-discrete, Bool, ◌||◌, Eq, ◌==◌, eq_of_discrete, decide}

pub data Authority : Type 0 where
  decision deterministic fact inference claim : Authority
  unknown : String → Authority

unfoldable pub Authority-discrete : Discrete Authority
unfolding String-discrete
Authority-discrete = hlevel String-discrete

instance abbrev pub authority_eq : Eq Authority
authority_eq = eq_of_discrete Authority-discrete

unfoldable pub valid : Authority → Bool
unfolding Authority-discrete decide
valid x = x == decision || x == deterministic || x == fact || x == inference || x == claim
