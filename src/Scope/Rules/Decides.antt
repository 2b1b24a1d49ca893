-- ===== src/Scope/Rules/Decides.antt =====
-- What the check of a write policy decides.
use xgoal.Prelude.{◌≡◌, refl, ◌↔◌, ◌⊎◌, inl, inr, true, List, [], ◌∷◌, none, All, arith, Bool-cases}
use xgoal.Policy.Paths.{Text, split}
use xgoal.Scope.Matching.{match_segments, no_tables}
use xgoal.Scope.Matching.Fits.{Fits, match_segments_iff}
use xgoal.Scope.Rules.{Pattern, ScopePolicy, ScopeCode, matches_any, check_paths}

module _ (code : ScopeCode) where
  -- the path fits one of the patterns
  pub FitsSome : List Pattern → Text → Type 0
  FitsSome [] path = ⊥
  FitsSome (p ∷ ps) path = Fits code.segment_matches p.segments (split path) ⊎ FitsSome ps path

  matches_any_iff :
      (ps : List Pattern) (path : Text) → (matches_any code ps path ≡ true) ↔ FitsSome ps path
  unfolding matches_any FitsSome
  matches_any_iff [] path = (λ h. absurd (ground arith), λ f. absurd f)
  matches_any_iff (p ∷ ps) path =
      let one = match_segments_iff code.segment_matches p.segments (split path) in
      (
        λ h.
            elim (Bool-cases
              (match_segments code.segment_matches p.segments (split path) 0 0 no_tables).0) [
                | inl fits ↦ inl (one.0 fits)
                | inr fails ↦ inr ((matches_any_iff ps path).0 (ground arith))
              ],
        λ f. elim f [
          | inl fits ↦ ground (arith, one.1 fits)
          | inr later ↦ ground (arith, (matches_any_iff ps path).1 later)
        ],
      )

-- `CheckWrite` lets canonical paths through exactly when each of them fits some write pattern and
-- no deny pattern, so a deny pattern always wins.
pub check_paths_iff :
    (code : ScopeCode) (policy : ScopePolicy) (paths : List Text)
    → (check_paths code policy paths ≡ none)
      ↔ All (λ path. (FitsSome code policy.deny path → ⊥) × FitsSome code policy.write path) paths
unfolding check_paths
check_paths_iff code policy [] = (λ h. tt, λ h. refl)
check_paths_iff code policy (path ∷ paths) =
    let deny = matches_any_iff code policy.deny path in
    let write = matches_any_iff code policy.write path in
    let rest = check_paths_iff code policy paths in
    (
      λ h. (
        ((λ f. absurd (ground (arith, deny.1 f))), write.0 (ground arith)),
        rest.0 (ground arith),
      ),
      λ h. elim (Bool-cases (matches_any code policy.deny path)) [
        | inl bad ↦ absurd (h.0.0 (deny.0 bad))
        | inr fine ↦ ground (arith, write.1 h.0.1, rest.1 h.1)
      ],
    )
