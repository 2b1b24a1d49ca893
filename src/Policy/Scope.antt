-- ===== src/Policy/Scope.antt =====
-- `withinScope` of internal/policy/policy.go.
use xgoal.Prelude.{
  Bool, true, false, not, ◌&&◌, ◌||◌, ◌==◌, decide, Option, none, some, List, [], ◌∷◌, is_empty,
  if◌then◌else◌,
}
use xgoal.Policy.Paths.{Text, Text-discrete, text_eq, dot_dot, CleanPath, trim_space, clean, rel}

-- err == nil && relative != ".." && !HasPrefix(relative, "../")
unfoldable pub stays_inside : Option (List Text) → Bool
unfolding Text-discrete decide
stays_inside none = false
stays_inside (some []) = true
stays_inside (some (s ∷ ss)) = not (s == dot_dot)

-- filepath.Clean(strings.TrimSpace(item))
unfoldable pub normalize : Text → CleanPath
unfolding clean trim_space
normalize s = clean (trim_space s)

-- item == "." (a clean path is never the empty text)
unfoldable pub is_dot : CleanPath → Bool
is_dot p = not p.rooted && is_empty p.segments

-- The loop over the roots. The source sorts them first, which does not change whether one matches.
unfoldable pub some_root : List Text → CleanPath → Bool
unfolding rel normalize stays_inside
some_root [] item = false
some_root (root ∷ roots) item = stays_inside (rel (normalize root) item) || some_root roots item

unfoldable pub every_item : List Text → List Text → Bool
unfolding is_dot normalize some_root
every_item [] authorized = true
every_item (item ∷ items) authorized =
    not (is_dot (normalize item))
    && some_root authorized (normalize item)
    && every_item items authorized

unfoldable pub within_scope : List Text → List Text → Bool
unfolding every_item
within_scope requested authorized =
    if is_empty requested || is_empty authorized then false else every_item requested authorized

-- ScopeContains
unfoldable pub scope_contains : List Text → List Text → Bool
unfolding within_scope
scope_contains authorized requested = within_scope requested authorized
