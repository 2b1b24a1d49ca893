-- ===== src/Protocol/Labels.antt =====
-- The small checks of internal/protocol/m2.go and review.go on texts and times. A text of the model
-- is always valid UTF-8; the normal form NFC is a parameter.
use native.Mathlib.Decide.{ℕ_discrete}
use xgoal.Prelude.{
  ℕ, String, string_eq, Bool, true, false, not, ◌&&◌, ◌||◌, List, [], ◌∷◌, ◌==◌, nat_eq, decide,
  if◌then◌else◌,
}
use xgoal.Domain.Model.{Time}
use xgoal.Policy.Paths.{
  Text, codes, Text-discrete, text_eq, trim_space, split, clean, is_rooted, dot, dot_dot,
}
use xgoal.Protocol.Harness.{byte_length, is_hex}
use xgoal.Scope.Names.{render, is_git}

-- strings.ContainsAny(value, "\r\n")
unfoldable pub has_new_line : Text → Bool
has_new_line [] = false
has_new_line (c ∷ s) = c == 13 || c == 10 || has_new_line s

-- strings.ContainsAny(value, "\r\n\x00")
unfoldable pub has_control : Text → Bool
has_control [] = false
has_control (c ∷ s) = c == 13 || c == 10 || c == 0 || has_control s

-- a backslash or a NUL
unfoldable pub has_escape : Text → Bool
has_escape [] = false
has_escape (c ∷ s) = c == 92 || c == 0 || has_escape s

-- validLowerHex
unfoldable pub valid_lower_hex : String → ℕ → Bool
unfolding byte_length is_hex
valid_lower_hex value n = byte_length (codes value) == n && is_hex (codes value)

-- validSHA256
unfoldable pub valid_sha256 : String → Bool
unfolding valid_lower_hex
valid_sha256 value = valid_lower_hex value 64

-- validGitObjectID
unfoldable pub valid_git_object_id : String → Bool
unfolding valid_lower_hex
valid_git_object_id value = valid_lower_hex value 40 || valid_lower_hex value 64

-- validMode
abbrev pub valid_mode : String → Bool
valid_mode value = value == "100644" || value == "100755" || value == "120000"

-- validLabel
unfoldable pub valid_label : String → Bool
unfolding trim_space has_control Text-discrete ℕ_discrete decide
valid_label value =
    not (value == "") && trim_space (codes value) == codes value && not (has_control (codes value))

-- strings.HasPrefix(value, "../")
unfoldable pub leads_up : Text → Bool
leads_up [] = false
leads_up (a ∷ []) = false
leads_up (a ∷ b ∷ []) = false
leads_up (a ∷ b ∷ c ∷ s) = a == b'.' && b == b'.' && c == b'/'

-- validRelativePath
unfoldable pub valid_relative_path : Text → Bool → Bool
unfolding has_escape is_rooted clean render leads_up Text-discrete ℕ_discrete decide
valid_relative_path value allow_dot =
    if value == dot && allow_dot
    then true
    else not (value == [])
      && not (has_escape value)
      && not (is_rooted value)
      && render (clean value) == value
      && not (value == dot)
      && not (value == dot_dot)
      && not (leads_up value)

unfoldable pub some_git : List Text → Bool
unfolding is_git
some_git [] = false
some_git (s ∷ ss) = is_git s || some_git ss

-- validBundlePath
unfoldable pub valid_bundle_path : (Text → Text) → Text → Bool
unfolding valid_relative_path has_new_line some_git split Text-discrete ℕ_discrete decide
valid_bundle_path nfc value =
    valid_relative_path value false
    && nfc value == value
    && not (has_new_line value)
    && not (some_git (split value))

-- cleanAbsolute
unfoldable pub clean_absolute : Text → Bool
unfolding is_rooted clean render has_control Text-discrete ℕ_discrete decide
clean_absolute value =
    not (value == []) && is_rooted value && render (clean value) == value && not (has_control value)

unfoldable pub unique_after : String → List String → Bool
unfolding valid_label
unique_after previous [] = true
unique_after previous (v ∷ vs) = valid_label v && not (v == previous) && unique_after v vs

-- uniqueNonEmpty
unfoldable pub unique_non_empty : List String → Bool
unfolding valid_label unique_after
unique_non_empty [] = true
unique_non_empty (v ∷ vs) = valid_label v && unique_after v vs

-- a time.Time: nanoseconds after the zero time, and the offset of its zone
pub record Stamp : Type 0 where
  pub at : Time
  pub offset : ℕ

-- utcTime
abbrev pub is_utc : Stamp → Bool
is_utc t = if t.at == 0 then false else t.offset == 0
