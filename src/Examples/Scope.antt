-- ===== src/Examples/Scope.antt =====
-- Scope patterns on repository paths.
use xgoal.Prelude.{◌≡◌, refl, ◌↔◌, Bool, true, false, List, [], ◌∷◌, none, some, ◌==◌, ◌||◌, All}
use xgoal.Prelude.Exec.{ok, err}
use xgoal.Prelude.Dict.{get, put}
use xgoal.Policy.Paths.{Text, text_eq, codes}
use xgoal.Scope.Names.{normalize_repository_path}
use xgoal.Scope.Matching.{no_tables, match_segments}
use xgoal.Scope.Matching.Fits.{Fits, match_segments_iff}
use xgoal.Scope.Rules.{ScopePolicy, ScopeCode, denied, invalid_segment, new_policy, check_paths}
use xgoal.Scope.Rules.Decides.{FitsSome, check_paths_iff}

-- a match of single segments that knows one wildcard
abbrev equal_or_star : Text → Text → Bool
equal_or_star p s = p == codes "*" || p == s

abbrev scope_code : ScopeCode
scope_code = record { nfc = λ s. s; segment_matches = equal_or_star; fails_on_probe = λ s. false }

abbrev pattern : List Text
pattern = codes "src" ∷ codes "**" ∷ codes "main.go" ∷ []

abbrev path : List Text
path = codes "src" ∷ codes "a" ∷ codes "b" ∷ codes "main.go" ∷ []

path_fits : (match_segments equal_or_star pattern path 0 0 no_tables).0 ≡ true
unfolding match_segments get put
path_fits = refl

other_path_fails :
    (match_segments equal_or_star pattern (codes "doc" ∷ codes "main.go" ∷ []) 0 0 no_tables).0
    ≡ false
unfolding match_segments get put
other_path_fails = refl

match_segments_iff_example :
    ((match_segments equal_or_star pattern path 0 0 no_tables).0 ≡ true)
    ↔ Fits equal_or_star pattern path
match_segments_iff_example = match_segments_iff equal_or_star pattern path

abbrev policy : ScopePolicy
policy = record {
  write = record { raw = codes "/src/**"; segments = codes "src" ∷ codes "**" ∷ [] } ∷ [];
  deny = record { raw = codes "/src/lock"; segments = codes "src" ∷ codes "lock" ∷ [] } ∷ [];
}

policy_compiled : new_policy scope_code (codes "/src/**" ∷ []) (codes "/src/lock" ∷ []) ≡ ok policy
unfolding new_policy
policy_compiled = refl

upward_pattern :
    new_policy scope_code (codes "/src/../x" ∷ []) [] ≡ err (invalid_segment (codes "/src/../x"))
unfolding new_policy
upward_pattern = refl

write_allowed : check_paths scope_code policy (codes "src/a" ∷ codes "src/b/c" ∷ []) ≡ none
unfolding check_paths get put
write_allowed = refl

write_denied :
    check_paths scope_code policy (codes "src/lock" ∷ []) ≡ some (denied (codes "src/lock"))
unfolding check_paths get put
write_denied = refl

check_paths_iff_example :
    (check_paths scope_code policy (codes "src/a" ∷ codes "src/lock" ∷ []) ≡ none)
    ↔ All
        (λ p. (FitsSome scope_code policy.deny p → ⊥) × FitsSome scope_code policy.write p)
        (codes "src/a" ∷ codes "src/lock" ∷ [])
check_paths_iff_example = check_paths_iff scope_code policy (codes "src/a" ∷ codes "src/lock" ∷ [])

git_path_refused : normalize_repository_path (λ s. s) (codes "a/.GIT/config") ≡ none
unfolding normalize_repository_path
git_path_refused = refl

plain_path_normal : normalize_repository_path (λ s. s) (codes "a/b") ≡ some (codes "a/b")
unfolding normalize_repository_path
plain_path_normal = refl
