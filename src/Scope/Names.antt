-- ===== src/Scope/Names.antt =====
-- NormalizeRepositoryPath of internal/scope/scope.go, over the Unicode normal form NFC.
use xgoal.Prelude.{
  ℕ, Bool, false, not, ◌&&◌, ◌||◌, Option, none, some, List, [], ◌∷◌, ◌++◌, ◌==◌, nat_eq, leb, ◌+◌,
  if◌then◌else◌, decide, map,
}
use native.Mathlib.Decide.{ℕ_discrete}
use xgoal.Policy.Paths.{
  Text, Text-discrete, text_eq, CleanPath, split, clean, is_rooted, dot, dot_dot,
}

-- strings.ContainsAny(value, "\\\r\n\x00")
unfoldable pub has_forbidden : Text → Bool
has_forbidden [] = false
has_forbidden (c ∷ s) = c == 92 || c == 13 || c == 10 || c == 0 || has_forbidden s

-- strings.Contains(segment, "**")
unfoldable pub has_stars : Text → Bool
has_stars [] = false
has_stars (c ∷ []) = false
has_stars (c ∷ d ∷ s) = (c == b'*' && d == b'*') || has_stars (d ∷ s)

abbrev lower : ℕ → ℕ
lower c = if leb 65 c && leb c 90 then c + 32 else c

-- strings.EqualFold(segment, ".git"): its letters fold with their capitals alone
unfoldable pub is_git : Text → Bool
unfolding Text-discrete ℕ_discrete decide
is_git s = map lower s == (b'.' ∷ b'g' ∷ b'i' ∷ b't' ∷ [])

unfoldable pub is_forbidden_segment : Text → Bool
unfolding is_git Text-discrete ℕ_discrete decide
is_forbidden_segment s = s == [] || s == dot || s == dot_dot || is_git s

unfoldable pub some_forbidden : List Text → Bool
unfolding is_forbidden_segment
some_forbidden [] = false
some_forbidden (s ∷ ss) = is_forbidden_segment s || some_forbidden ss

-- the segments with a slash between them
unfoldable pub join : List Text → Text
join [] = []
join (s ∷ []) = s
join (s ∷ t ∷ ss) = s ++ (b'/' ∷ join (t ∷ ss))

-- the text of a clean path
unfoldable pub render : CleanPath → Text
unfolding join
render p = elim p.segments [
  | [] ↦ if p.rooted then b'/' ∷ [] else dot
  | s ∷ ss ↦ if p.rooted then b'/' ∷ join (s ∷ ss) else join (s ∷ ss)
]

module _ (nfc : Text → Text) where
  unfoldable pub normalize_repository_path : Text → Option Text
  unfolding has_forbidden is_rooted some_forbidden render clean split Text-discrete ℕ_discrete
      decide
  normalize_repository_path value =
      if value == [] || is_rooted value || has_forbidden value
      then none
      else if not (render (clean (nfc value)) == nfc value)
      then none
      else if some_forbidden (split (nfc value))
      then none
      else some (nfc value)
