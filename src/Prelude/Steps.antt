-- ===== src/Prelude/Steps.antt =====
-- Chains of steps that may fail, and checks as steps. A result binds by its own `>>=`.
use mathlib.Core.Path.{◌≡◌, refl}
use mathlib.Core.Option.{Option, none, some}
use mathlib.Core.List.{List}
use native.Mathlib.Omega.{arith}
use xgoal.Prelude.Lists.{All}
use xgoal.Prelude.Exec.{Result, ok, err}
use xgoal.Prelude.Checks.{first_error, first_error-none}

module _ {E A B : Type 0} where
  infixl 10 ◌>>=◌ ◌>>◌
  abbrev pub ◌>>=◌ : Result E A → (A → Result E B) → Result E B
  ok a >>= f = f a
  err e >>= f = err e

  abbrev pub ◌>>◌ : Result E A → Result E B → Result E B
  r >> s = r >>= λ _. s

  -- a chain that succeeds succeeds at each step
  pub >>=-ok :
      {C : Type 0} (r : Result E A) {f : A → Result E B} {b : B}
      → (r >>= f) ≡ ok b
      → ((a : A) → r ≡ ok a → f a ≡ ok b → C)
      → C
  >>=-ok (ok a) h use_step = use_step a refl h
  >>=-ok (err e) h use_step = absurd (ground arith)

module _ {E A : Type 0} where
  pub ok_equal : {a b : A} → ◌≡◌ {A = Result E A} (ok a) (ok b) → a ≡ b
  ok_equal h = ground arith

module _ {E : Type 0} where
  -- a row of checks as a step
  unfoldable pub check : List (Option E) → Result E (Unit {0})
  unfolding first_error
  check checks = elim (first_error checks) [ none ↦ ok tt | some e ↦ err e ]

  pub check-ok :
      (checks : List (Option E)) {u : Unit {0}} → check checks ≡ ok u → All (λ c. c ≡ none) checks
  unfolding check
  check-ok checks h = first_error-none checks (ground arith)
