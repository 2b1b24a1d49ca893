-- ===== src/Compile/Overlap.antt =====
-- scopesMayOverlap and literalPrefix of internal/goalcompile/compile.go.
pub mod Disjoint
use xgoal.Prelude.{
  ℕ, String, Bool, true, false, not, ◌&&◌, ◌||◌, List, [], ◌∷◌, ◌++◌, ◌==◌, nat_eq, if◌then◌else◌,
  decide, is_empty,
}
use native.Mathlib.Decide.{ℕ_discrete}
use xgoal.Policy.Paths.{Text, codes, Text-discrete, text_eq, split}
use xgoal.Scope.Names.{join}
use xgoal.Scope.Rules.{trim_slash}

-- strings.Contains(segment, "*")
unfoldable pub has_star : Text → Bool
has_star [] = false
has_star (c ∷ s) = c == b'*' || has_star s

-- the segments before the first with a star
unfoldable pub literal_segments : List Text → List Text
unfolding has_star
literal_segments [] = []
literal_segments (s ∷ ss) = let rest = literal_segments ss in if has_star s then [] else s ∷ rest

unfoldable pub literal_prefix : Text → Text
unfolding literal_segments join split trim_slash
literal_prefix scope = join (literal_segments (split (trim_slash scope)))

-- strings.HasPrefix(s, prefix)
unfoldable pub has_prefix : Text → Text → Bool
has_prefix s [] = true
has_prefix [] (p ∷ ps) = false
has_prefix (c ∷ s) (p ∷ ps) = c == p && has_prefix s ps

abbrev slash : Text
slash = b'/' ∷ []

unfoldable pub prefixes_meet : Text → Text → Bool
unfolding has_prefix Text-discrete ℕ_discrete decide
prefixes_meet ap bp =
    is_empty ap
    || is_empty bp
    || ap == bp
    || has_prefix ap (bp ++ slash)
    || has_prefix bp (ap ++ slash)

-- the two loops of scopesMayOverlap
unfoldable pub meets_some : Text → List Text → Bool
unfolding prefixes_meet literal_prefix
meets_some a [] = false
meets_some a (b ∷ bs) = prefixes_meet (literal_prefix a) (literal_prefix b) || meets_some a bs

unfoldable pub scopes_may_overlap : List Text → List Text → Bool
unfolding meets_some
scopes_may_overlap [] right = false
scopes_may_overlap (a ∷ left) right = meets_some a right || scopes_may_overlap left right
