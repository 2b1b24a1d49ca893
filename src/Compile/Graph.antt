-- ===== src/Compile/Graph.antt =====
-- `cyclic` and `reachable` of internal/goalcompile/compile.go: two depth-first searches over the
-- dependencies of a plan. The maps of marks are lists; the keys of a map come in the order of a
-- list, which stands for any order. `none` is a search that has run out of fuel.
pub mod Paths
pub mod Cycles
pub mod Reachable
use xgoal.Prelude.{
  ℕ, zero, suc, String, string_eq, Bool, true, false, not, Option, none, some, List, [], ◌∷◌, ◌==◌,
  contains, length, if◌then◌else◌, is_empty,
}

-- delete(m, k), on a set of keys
unfoldable pub delete : String → List String → List String
delete k [] = []
delete k (j ∷ js) = let rest = delete k js in if j == k then rest else j ∷ rest

pub record Marks : Type 0 where
  pub visiting : List String
  pub visited : List String

abbrev pub no_marks : Marks
no_marks = record { visiting = []; visited = [] }

abbrev pub Search : Type 0 → Type 0
Search S = S → Option (Bool × S)

-- a loop that returns true at the first key where the search is true
unfoldable pub first_true : {S : Type 0} → (String → Search S) → List String → Search S
first_true go [] m = some (false, m)
first_true go (n ∷ ns) m = elim (go n m) [
  | none ↦ none
  | some (true, m') ↦ some (true, m')
  | some (false, m') ↦ first_true go ns m'
]

module _ (next : String → List String) where
  -- `visit` of `cyclic`
  unfoldable pub visit : ℕ → String → Search Marks
  unfolding contains first_true delete
  visit zero n m = none
  visit (suc fuel) n m = elim (contains n m.visiting) [
    | true ↦ some (true, m)
    | false ↦ elim (contains n m.visited) [
      | true ↦ some (false, m)
      | false ↦ elim (first_true (visit fuel) (next n) (record m { visiting = n ∷ m.visiting })) [
        | none ↦ none
        | some (true, m') ↦ some (true, m')
        | some (false, m') ↦
            some (false, record { visiting = delete n m'.visiting; visited = n ∷ m'.visited })
      ]
    ]
  ]

  unfoldable pub cyclic : List String → Option Bool
  unfolding visit
  cyclic nodes = elim (first_true (visit (suc (length nodes))) nodes no_marks) [
    | none ↦ none
    | some (answer, _) ↦ some answer
  ]

  -- `reachable`, whose state is the set of the seen keys
  unfoldable pub reach : String → ℕ → String → Search (List String)
  unfolding contains first_true
  reach target zero n seen = none
  reach target (suc fuel) n seen = elim (n == target) [
    | true ↦ some (true, seen)
    | false ↦ elim (contains n seen) [
      | true ↦ some (false, seen)
      | false ↦ first_true (reach target fuel) (next n) (n ∷ seen)
    ]
  ]

  unfoldable pub reachable : List String → String → String → Option Bool
  unfolding reach
  reachable nodes n target = elim (reach target (suc (length nodes)) n []) [
    | none ↦ none
    | some (answer, _) ↦ some answer
  ]
