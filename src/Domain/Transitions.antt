-- ===== src/Domain/Transitions.antt =====
-- The transition tables of internal/domain/state.go: `transitions[T]`, `allows`, `validate`, `set`.
pub mod Check
use xgoal.Prelude.{
  String, ◌≡◌, ◌↔◌, Bool, true, false, not, Option, none, some, List, [], ◌∷◌, ◌++◌, arith, Eq,
  contains, if◌then◌else◌,
}
use xgoal.Prelude.Dict.{Dict, get}

-- map[T]map[T]struct{}: the inner map is used as a set of target states
abbrev pub Transitions : Type 0 → Type 0
Transitions T = Dict T (List T)

-- the errors that `validate` formats, with the values that they show
pub data TransitionError (T : Type 0) : Type 0 where
  unknown_source : String → T → TransitionError T
  unknown_target : String → T → TransitionError T
  invalid_transition : String → T → T → TransitionError T

module _ {T : Type 0} ⦃e : Eq T⦄ where
  -- targets[value] = struct{}{}
  unfoldable pub add_target : T → List T → List T
  unfolding contains
  add_target v targets = if contains v targets then targets else targets ++ v ∷ []

  unfoldable pub add_targets : List T → List T → List T
  unfolding add_target
  add_targets [] targets = targets
  add_targets (v ∷ vs) targets = add_targets vs (add_target v targets)

  -- set(values...)
  unfoldable pub set : List T → List T
  unfolding add_targets
  set values = add_targets values []

  -- _, exists := t[s]
  unfoldable pub exists : Transitions T → T → Bool
  unfolding get
  exists t s = elim (get s t) [ none ↦ false | some _ ↦ true ]

  unfoldable pub allows : Transitions T → T → T → Bool
  unfolding get contains
  allows t from to = elim (get from t) [ none ↦ false | some targets ↦ contains to targets ]

  -- `none` is the nil error
  unfoldable pub validate : Transitions T → String → T → T → Option (TransitionError T)
  unfolding exists allows
  validate t kind from to =
      if not (exists t from)
      then some (unknown_source kind from)
      else if not (exists t to)
      then some (unknown_target kind to)
      else if not (allows t from to)
      then some (invalid_transition kind from to)
      else none

  -- every target of the table is one of its keys
  abbrev pub IsClosed : Transitions T → Type 0
  IsClosed t = (a b : T) → allows t a b ≡ true → exists t b ≡ true

  exists-allows : (t : Transitions T) (a b : T) → allows t a b ≡ true → exists t a ≡ true
  unfolding allows exists
  exists-allows t a b h = ground arith

  -- Over a closed table, `validate` returns nil exactly when `allows` says yes.
  pub validate_iff :
      (t : Transitions T) (kind : String) (a b : T)
      → IsClosed t
      → (validate t kind a b ≡ none) ↔ (allows t a b ≡ true)
  unfolding validate
  validate_iff t kind a b closed = ground (arith, exists-allows t a b, closed a b)

  -- the states that follow one another from `a`
  abbrev pub IsHistory : Transitions T → T → List T → Type 0
  IsHistory t a [] = Unit
  IsHistory t a (b ∷ bs) = (allows t a b ≡ true) × IsHistory t b bs

  abbrev pub last : T → List T → T
  last a [] = a
  last a (b ∷ bs) = last b bs
