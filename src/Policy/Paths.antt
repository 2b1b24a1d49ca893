-- ===== src/Policy/Paths.antt =====
-- What internal/policy/policy.go uses of Go's strings and path/filepath, on a Unix system: TrimSpace,
-- Clean and Rel. A text is the list of its code points, and a clean path is kept in parts.
use Prim.Native.Char.{code}
use xgoal.Prelude.{
  ℕ, String, Bool, false, not, ◌&&◌, ◌||◌, Option, none, some, List, [], ◌∷◌, ◌++◌, ◌==◌, nat_eq,
  Eq, if◌then◌else◌, eq_of_discrete, decide, map,
}
use mathlib.Core.List.{reverse}
use native.Mathlib.Decide.{ℕ_discrete}
use xgoal.Protocol.Text.{is_space}

abbrev pub Text : Type 0
Text = List ℕ

abbrev pub codes : String → Text
codes String.[] = []
codes (String.◌∷◌ c s) = code c ∷ codes s

unfoldable pub Text-discrete : Discrete Text
unfolding ℕ_discrete
Text-discrete = hlevel ℕ_discrete

instance abbrev pub text_eq : Eq Text
text_eq = eq_of_discrete Text-discrete

unfoldable pub trim_left : Text → Text
unfolding is_space
trim_left [] = []
trim_left (c ∷ s) = if is_space c then trim_left s else c ∷ s

-- strings.TrimSpace
unfoldable pub trim_space : Text → Text
unfolding trim_left
trim_space s = reverse (trim_left (reverse (trim_left s)))

-- one more character before the first segment
unfoldable pub onto_first : ℕ → List Text → List Text
onto_first c [] = (c ∷ []) ∷ []
onto_first c (s ∷ ss) = (c ∷ s) ∷ ss

-- the parts between the slashes
unfoldable pub split : Text → List Text
unfolding onto_first
split [] = [] ∷ []
split (c ∷ s) = let rest = split s in if c == b'/' then [] ∷ rest else onto_first c rest

abbrev pub dot : Text
dot = b'.' ∷ []

abbrev pub dot_dot : Text
dot_dot = b'.' ∷ b'.' ∷ []

-- A clean path: "." is the relative path of no segments, and "/" the rooted one.
pub record CleanPath : Type 0 where
  pub rooted : Bool
  pub segments : List Text

-- one segment onto the clean ones, which are kept in reverse
unfoldable pub push_segment : Bool → Text → List Text → List Text
unfolding Text-discrete decide
push_segment rooted s [] =
    if s == [] || s == dot then [] else if s == dot_dot && rooted then [] else s ∷ []
push_segment rooted s (top ∷ below) =
    if s == [] || s == dot
    then top ∷ below
    else if s == dot_dot && not (top == dot_dot)
    then below
    else s ∷ top ∷ below

unfoldable pub clean_segments : Bool → List Text → List Text → List Text
unfolding push_segment
clean_segments rooted [] done = reverse done
clean_segments rooted (s ∷ ss) done = clean_segments rooted ss (push_segment rooted s done)

unfoldable pub is_rooted : Text → Bool
is_rooted [] = false
is_rooted (c ∷ s) = c == b'/'

-- filepath.Clean
unfoldable pub clean : Text → CleanPath
unfolding is_rooted split clean_segments
clean s = record { rooted = is_rooted s; segments = clean_segments (is_rooted s) (split s) [] }

-- the segments of filepath.Rel after the common ones; none is its error
unfoldable pub rel_segments : List Text → List Text → Option (List Text)
unfolding Text-discrete decide
rel_segments [] target = some target
rel_segments (b ∷ base) [] = if b == dot_dot then none else some (dot_dot ∷ map (λ _. dot_dot) base)
rel_segments (b ∷ base) (t ∷ target) =
    let rest = rel_segments base target in
    if b == t
    then rest
    else if b == dot_dot
    then none
    else some (dot_dot ∷ (map (λ _. dot_dot) base ++ t ∷ target))

-- filepath.Rel
unfoldable pub rel : CleanPath → CleanPath → Option (List Text)
unfolding rel_segments
rel base target =
    if (base.rooted && target.rooted) || (not base.rooted && not target.rooted)
    then rel_segments base.segments target.segments
    else none
