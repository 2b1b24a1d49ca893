-- ===== src/Scope/Matching.antt =====
-- matchSegments of internal/scope/scope.go. The source keeps the two whole slices and the indices;
-- here the slices from the indices on come beside them, and the indices are the keys of the two
-- maps. `segment_matches` is the answer of path.Match, which is no on its error.
pub mod Remember
pub mod Correct
pub mod Fits
use xgoal.Prelude.{
  ℕ, suc, Bool, true, false, Option, none, some, List, [], ◌∷◌, ◌==◌, nat_eq, Eq, eq_of_discrete,
  decide,
}
use native.Mathlib.Decide.{ℕ_discrete}
use xgoal.Prelude.Dict.{Dict, get, put}
use xgoal.Policy.Paths.{Text, Text-discrete, text_eq}

abbrev pub Key : Type 0
Key = ℕ × ℕ

unfoldable pub Key-discrete : Discrete Key
unfolding ℕ_discrete
Key-discrete = hlevel ℕ_discrete

instance abbrev pub key_eq : Eq Key
key_eq = eq_of_discrete Key-discrete

-- the two maps; a missing key reads as false
pub record Tables : Type 0 where
  pub memo : Dict Key Bool
  pub visited : Dict Key Bool

abbrev pub no_tables : Tables
no_tables = record { memo = []; visited = [] }

abbrev pub value_at : Key → Dict Key Bool → Bool
value_at k d = elim (get k d) [ none ↦ false | some b ↦ b ]

abbrev pub Search : Type 0
Search = Tables → Bool × Tables

-- the answer in the memo of a visited key; or a mark, the search, and its answer into the memo
unfoldable pub remember : Key → Search → Search
unfolding Key-discrete ℕ_discrete decide
remember k search t = elim (value_at k t.visited) [
  | true ↦ (value_at k t.memo, t)
  | false ↦
      let found = search (record t { visited = put k true t.visited }) in
      (found.0, record found.1 { memo = put k found.0 found.1.memo })
]

-- the operator || on searches
abbrev pub or_search : Search → Search → Search
or_search first second t = elim (first t).0 [ true ↦ first t | false ↦ second (first t).1 ]

abbrev pub answer : Bool → Search
answer b t = (b, t)

abbrev pub stars : Text
stars = b'*' ∷ b'*' ∷ []

module _ (segment_matches : Text → Text → Bool) where
  unfoldable pub match_segments : List Text → List Text → ℕ → ℕ → Search
  unfolding remember Text-discrete ℕ_discrete decide
  match_segments [] [] i j = remember (i, j) (answer true)
  match_segments [] (s ∷ ss) i j = remember (i, j) (answer false)
  match_segments (p ∷ ps) [] i j =
      remember (i, j)
        λ t. elim (p == stars) [ true ↦ match_segments ps [] (suc i) j t | false ↦ (false, t) ]
  match_segments (p ∷ ps) (s ∷ ss) i j =
      remember (i, j)
        λ t. elim (p == stars) [
          | true ↦
              or_search (λ u. match_segments ps (s ∷ ss) (suc i) j u)
                (λ u. match_segments (p ∷ ps) ss i (suc j) u) t
          | false ↦ elim (segment_matches p s) [
            | true ↦ match_segments ps ss (suc i) (suc j) t
            | false ↦ (false, t)
          ]
        ]

  -- what it searches, without the maps
  unfoldable pub matches : List Text → List Text → Bool
  unfolding Text-discrete ℕ_discrete decide
  matches [] [] = true
  matches [] (s ∷ ss) = false
  matches (p ∷ ps) [] = elim (p == stars) [ true ↦ matches ps [] | false ↦ false ]
  matches (p ∷ ps) (s ∷ ss) = elim (p == stars) [
    | true ↦ elim (matches ps (s ∷ ss)) [ true ↦ true | false ↦ matches (p ∷ ps) ss ]
    | false ↦ elim (segment_matches p s) [ true ↦ matches ps ss | false ↦ false ]
  ]
