-- ===== src/Protocol/Harness.antt =====
-- internal/protocol/harness.go: the project instructions that a packet refers to.
use xgoal.Prelude.{
  ℕ, String, string_eq, Bool, true, false, not, ◌&&◌, ◌||◌, Option, none, some, List, [], ◌∷◌, ◌==◌,
  nat_eq, leb, ltb, ◌+◌, length, if◌then◌else◌, decide,
}
use native.Mathlib.Decide.{ℕ_discrete}
use xgoal.Policy.Paths.{Text, codes, Text-discrete, text_eq}
use xgoal.Scope.Names.{normalize_repository_path}
use xgoal.Protocol.Text.{is_blank}

pub record InstructionFile : Type 0 where
  pub path : String
  pub kind : String
  pub sha256 : String

pub record HarnessInput : Type 0 where
  pub type : String
  pub provider : String
  pub required : Bool
  pub found : Bool
  pub compatible : Bool
  pub files : List InstructionFile
  pub diagnostics : List String
  pub delegation : String
  pub delivery : String
  pub load_observation : String

pub data HarnessError : Type 0 where
  invalid_input invalid_hash : HarnessError
  invalid_reference : String → HarnessError

-- the bytes of a code point in UTF-8
abbrev bytes_of : ℕ → ℕ
bytes_of c = if ltb c 128 then 1 else if ltb c 2048 then 2 else if ltb c 65536 then 3 else 4

-- len(s), in bytes
unfoldable pub byte_length : Text → ℕ
byte_length [] = 0
byte_length (c ∷ s) = bytes_of c + byte_length s

-- every character is of "0123456789abcdef"
unfoldable pub is_hex : Text → Bool
is_hex [] = true
is_hex (c ∷ s) = ((leb 48 c && leb c 57) || (leb 97 c && leb c 102)) && is_hex s

unfoldable pub was_seen : Text → List Text → Bool
unfolding Text-discrete ℕ_discrete decide
was_seen p [] = false
was_seen p (q ∷ seen) = p == q || was_seen p seen

module _ (nfc : Text → Text) where
  -- the path of a reference is its own normal form
  unfoldable pub is_normal : Text → Bool
  unfolding normalize_repository_path Text-discrete ℕ_discrete decide
  is_normal p = elim (normalize_repository_path nfc p) [ none ↦ false | some q ↦ q == p ]

  -- the loop over Files
  unfoldable pub files_error : List Text → List InstructionFile → Option HarnessError
  unfolding is_normal was_seen byte_length is_hex
  files_error seen [] = none
  files_error seen (file ∷ files) =
      let rest = files_error (codes file.path ∷ seen) files in
      if not (is_normal (codes file.path))
        || was_seen (codes file.path) seen
        || not (byte_length (codes file.sha256) == 64)
        || file.kind == ""
      then some (invalid_reference file.path)
      else if not (is_hex (codes file.sha256))
      then some invalid_hash
      else rest

  -- HarnessInput.Validate
  unfoldable pub harness_error : HarnessInput → Option HarnessError
  unfolding files_error is_blank
  harness_error input =
      if input.provider == ""
        || ltb 256 (length input.files)
        || not (input.delivery == "packet-path-references")
        || not (input.load_observation == "unknown")
        || is_blank input.delegation
        || ltb 8192 (byte_length (codes input.delegation))
      then some invalid_input
      else files_error [] input.files
