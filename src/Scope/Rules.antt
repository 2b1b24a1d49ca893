-- ===== src/Scope/Rules.antt =====
-- The compiled write policy of internal/scope/scope.go: NewPolicy, compilePatterns, compilePattern,
-- matchesAny and the loop of CheckWrite over the canonical paths.
pub mod Decides
use xgoal.Prelude.{
  ℕ, Bool, true, false, not, ◌&&◌, ◌||◌, List, [], ◌∷◌, Option, none, some, ◌==◌, nat_eq, decide,
  if◌then◌else◌, is_empty,
}
use native.Mathlib.Decide.{ℕ_discrete}
use xgoal.Prelude.Exec.{Result, ok, err}
use xgoal.Policy.Paths.{Text, Text-discrete, text_eq, split, is_rooted, dot, dot_dot}
use xgoal.Scope.Names.{has_forbidden, has_stars}
use xgoal.Scope.Matching.{no_tables, stars, match_segments}

pub record Pattern : Type 0 where
  pub raw : Text
  pub segments : List Text

pub record ScopePolicy : Type 0 where
  pub write : List Pattern
  pub deny : List Pattern

pub data ScopeError : Type 0 where
  write_required : ScopeError
  invalid_pattern trailing_slash invalid_segment duplicate_pattern : Text → ScopeError
  denied outside_scope : Text → ScopeError

-- The normal form NFC, and path.Match: its answer, which is no on an error, and whether it fails
-- on the probe.
pub record ScopeCode : Type 0 where
  pub nfc : Text → Text
  pub segment_matches : Text → Text → Bool
  pub fails_on_probe : Text → Bool

-- strings.HasSuffix(s, "/")
unfoldable pub ends_with_slash : Text → Bool
ends_with_slash [] = false
ends_with_slash (c ∷ []) = c == b'/'
ends_with_slash (c ∷ d ∷ s) = ends_with_slash (d ∷ s)

-- strings.TrimPrefix(s, "/")
unfoldable pub trim_slash : Text → Text
trim_slash [] = []
trim_slash (c ∷ s) = if c == b'/' then s else c ∷ s

unfoldable pub raw_seen : Text → List Text → Bool
unfolding Text-discrete ℕ_discrete decide
raw_seen r [] = false
raw_seen r (q ∷ seen) = r == q || raw_seen r seen

module _ (code : ScopeCode) where
  unfoldable pub has_invalid_segment : List Text → Bool
  unfolding has_stars Text-discrete ℕ_discrete decide
  has_invalid_segment [] = false
  has_invalid_segment (s ∷ ss) =
      s == []
      || s == dot
      || s == dot_dot
      || (has_stars s && not (s == stars))
      || (not (s == stars) && code.fails_on_probe s)
      || has_invalid_segment ss

  unfoldable pub compile_pattern : Text → Result ScopeError Pattern
  unfolding has_forbidden ends_with_slash trim_slash has_invalid_segment split is_rooted
      Text-discrete ℕ_discrete decide
  compile_pattern value =
      if value == [] || not (is_rooted value) || has_forbidden value
      then err (invalid_pattern value)
      else let canonical = code.nfc value in
        let is_root = canonical == (b'/' ∷ []) in
        if not is_root && ends_with_slash canonical
        then err (trailing_slash value)
        else let segments = if is_root then [] else split (trim_slash canonical) in
          if has_invalid_segment segments
          then err (invalid_segment value)
          else ok (record { raw = canonical; segments = segments })

  unfoldable pub compile_patterns : List Text → List Text → Result ScopeError (List Pattern)
  unfolding compile_pattern raw_seen
  compile_patterns seen [] = ok []
  compile_patterns seen (value ∷ values) = elim (compile_pattern value) [
    | err e ↦ err e
    | ok p ↦ elim (raw_seen p.raw seen) [
      | true ↦ err (duplicate_pattern value)
      | false ↦ elim (compile_patterns (p.raw ∷ seen) values) [
        | err e ↦ err e
        | ok ps ↦ ok (p ∷ ps)
      ]
    ]
  ]

  unfoldable pub new_policy : List Text → List Text → Result ScopeError ScopePolicy
  unfolding compile_patterns
  new_policy write_patterns deny_patterns =
      if is_empty write_patterns
      then err write_required
      else elim (compile_patterns [] write_patterns) [
        | err e ↦ err e
        | ok write ↦ elim (compile_patterns [] deny_patterns) [
          | err e ↦ err e
          | ok deny ↦ ok (record { write = write; deny = deny })
        ]
      ]

  unfoldable pub matches_any : List Pattern → Text → Bool
  unfolding match_segments split
  matches_any [] path = false
  matches_any (p ∷ ps) path =
      (match_segments code.segment_matches p.segments (split path) 0 0 no_tables).0
      || matches_any ps path

  -- the loop of CheckWrite, over the canonical paths in any order
  unfoldable pub check_paths : ScopePolicy → List Text → Option ScopeError
  unfolding matches_any
  check_paths policy [] = none
  check_paths policy (path ∷ paths) =
      let rest = check_paths policy paths in
      if matches_any policy.deny path
      then some (denied path)
      else if not (matches_any policy.write path)
      then some (outside_scope path)
      else rest
