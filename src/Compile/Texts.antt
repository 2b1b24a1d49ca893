-- ===== src/Compile/Texts.antt =====
-- The small checks and the sorting of internal/goalcompile/compile.go. A text of the model is
-- always valid UTF-8.
use xgoal.Prelude.{
  String, string_eq, Bool, true, false, not, ◌&&◌, ◌||◌, List, [], ◌∷◌, ◌==◌, nat_eq, ltb, contains,
  if◌then◌else◌, decide, is_empty,
}
use native.Mathlib.Decide.{ℕ_discrete}
use xgoal.Policy.Paths.{Text, codes, Text-discrete, text_eq, split, clean, is_rooted}
use xgoal.Protocol.Text.{is_blank}
use xgoal.Protocol.Packet.{has_backslash_or_nul, all_scope_segments}
use xgoal.Scope.Names.{has_forbidden, render}

-- strings.ContainsRune(value, '/')
unfoldable pub has_slash : Text → Bool
has_slash [] = false
has_slash (c ∷ s) = c == b'/' || has_slash s

-- safeID
unfoldable pub safe_id : String → Bool
unfolding is_blank has_slash has_forbidden
safe_id value = not (is_blank value) && not (has_slash (codes value) || has_forbidden (codes value))

unfoldable pub unique_from : List String → List String → Bool
unfolding is_blank contains
unique_from seen [] = true
unique_from seen (v ∷ vs) =
    let rest = unique_from (v ∷ seen) vs in if is_blank v || contains v seen then false else rest

-- uniqueNonBlank
unfoldable pub unique_non_blank : List String → Bool
unfolding unique_from
unique_non_blank values = unique_from [] values

-- validScope
unfoldable pub valid_work_scope : Text → Bool
unfolding has_backslash_or_nul all_scope_segments split clean render is_rooted Text-discrete
    ℕ_discrete decide
valid_work_scope [] = false
valid_work_scope (c ∷ s) =
    c == b'/'
    && not (is_empty s)
    && not (has_backslash_or_nul s)
    && render (clean (c ∷ s)) == (c ∷ s)
    && all_scope_segments (split s)

-- a <= b, on texts: by code points, which is the order of their bytes
unfoldable pub text_leb : Text → Text → Bool
text_leb [] t = true
text_leb (c ∷ s) [] = false
text_leb (c ∷ s) (d ∷ t) = if c == d then text_leb s t else ltb c d

module _ {A : Type 0} (key : A → Text) where
  unfoldable pub insert_by : A → List A → List A
  unfolding text_leb
  insert_by a [] = a ∷ []
  insert_by a (b ∷ bs) = if text_leb (key a) (key b) then a ∷ b ∷ bs else b ∷ insert_by a bs

  -- sort.Slice by a key; where keys are equal the source leaves the order open
  unfoldable pub sort_by : List A → List A
  unfolding insert_by
  sort_by [] = []
  sort_by (a ∷ as') = insert_by a (sort_by as')

-- sorted
unfoldable pub sorted : List String → List String
unfolding sort_by
sorted values = sort_by codes values
