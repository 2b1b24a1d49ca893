-- ===== src/Prelude/Checks.antt =====
-- A row of checks, each of which may refuse with an error: the first refusal is the answer.
use mathlib.Core.Path.{◌≡◌, refl}
use mathlib.Core.Bool.{Bool, true, false}
use mathlib.Core.Option.{Option, none, some}
use mathlib.Core.List.{List, [], ◌∷◌}
use native.Mathlib.Omega.{arith}
use xgoal.Prelude.Lists.{All}

module _ {E : Type 0} where
  unfoldable pub first_error : List (Option E) → Option E
  first_error [] = none
  first_error (none ∷ checks) = first_error checks
  first_error (some e ∷ checks) = some e

  abbrev pub refuse : Bool → E → Option E
  refuse true e = some e
  refuse false e = none

  pub first_error-none :
      (checks : List (Option E)) → first_error checks ≡ none → All (λ c. c ≡ none) checks
  unfolding first_error
  first_error-none [] h = tt
  first_error-none (none ∷ checks) h = (refl, first_error-none checks h)
  first_error-none (some e ∷ checks) h = absurd (ground arith)

  pub refuse-none : (b : Bool) (e : E) → refuse b e ≡ none → b ≡ false
  refuse-none true e h = absurd (ground arith)
  refuse-none false e h = refl
