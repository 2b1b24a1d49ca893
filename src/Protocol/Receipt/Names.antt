-- ===== src/Protocol/Receipt/Names.antt =====
-- The environment names of a valid snapshot of internal/protocol/m2.go, which the source compares
-- with their neighbours only.
use text.Mathlib.TextEquality.{Char-path}
use xgoal.Prelude.{
  ◌≡◌, refl, sym, subst, String, string_eq, true, false, not, ◌||◌, none, List, [], ◌∷◌, ◌==◌,
  ==_iff, nat_eq, contains, arith, Bool-cases, inl, inr,
}
use xgoal.Prelude.Checks.{first_error-none, refuse-none}
use xgoal.Policy.Paths.{Text, codes}
use xgoal.Compile.Texts.{text_leb}
use xgoal.Protocol.Labels.{unique_after, unique_non_empty}
use xgoal.Protocol.Review.Distinct.{AllDistinct}
use xgoal.Protocol.Receipt.{EnvironmentSnapshot, are_sorted, snapshot_checks, snapshot_error}

codes_path : (s t : String) → codes s ≡ codes t → s ≡ t
codes_path String.[] String.[] h = refl
codes_path String.[] (String.◌∷◌ d t) h = absurd (ground arith)
codes_path (String.◌∷◌ c s) String.[] h = absurd (ground arith)
codes_path (String.◌∷◌ c s) (String.◌∷◌ d t) h =
    let first = Char-path c d (ground arith) in let rest = codes_path s t (ground arith) in cc

text_leb_antisym : (s t : Text) → text_leb s t ≡ true → text_leb t s ≡ true → s ≡ t
unfolding text_leb
text_leb_antisym [] [] h g = refl
text_leb_antisym [] (d ∷ t) h g = absurd (ground arith)
text_leb_antisym (c ∷ s) [] h g = absurd (ground arith)
text_leb_antisym (c ∷ s) (d ∷ t) h g = elim (Bool-cases (c == d)) [
  | inl same ↦
      let e = (==_iff c d).0 same in
      let rest =
        text_leb_antisym s t (ground (arith, ==_iff c d, ==_iff d c))
          (ground (arith, ==_iff c d, ==_iff d c)) in
      cc
  | inr other ↦ absurd (ground (arith, ==_iff c d, ==_iff d c))
]

text_leb_trans : (s t u : Text) → text_leb s t ≡ true → text_leb t u ≡ true → text_leb s u ≡ true
unfolding text_leb
text_leb_trans [] t u h g = refl
text_leb_trans (c ∷ s) [] u h g = absurd (ground arith)
text_leb_trans (c ∷ s) (d ∷ t) [] h g = absurd (ground arith)
text_leb_trans (c ∷ s) (d ∷ t) (e ∷ u) h g =
    ground (arith, ==_iff c d, ==_iff d e, ==_iff c e, text_leb_trans s t u)

-- a name does not come again among sorted names after another
no_return :
    (x y : String) (ys : List String)
    → text_leb (codes x) (codes y) ≡ true
    → (y == x) ≡ false
    → are_sorted (y ∷ ys) ≡ true
    → contains x (y ∷ ys) ≡ false
unfolding are_sorted contains
no_return x y [] below other sorted = ground arith
no_return x y (z ∷ zs) below other sorted =
    let next : text_leb (codes y) (codes z) ≡ true = ground arith in
    let apart : (z == x) ≡ false = elim (Bool-cases (z == x)) [
      | inr differ ↦ differ
      | inl same ↦
          let e = (==_iff z x).0 same in
          let back =
            text_leb_antisym (codes x) (codes y) below
              (subst (λ w. text_leb (codes y) (codes w) ≡ true) e next) in
          absurd (ground (arith, (==_iff y x).1 (sym (codes_path x y back))))
    ] in
    ground (arith, no_return x z zs (text_leb_trans (codes x) (codes y) (codes z) below next) apart)

names-AllDistinct :
    (x : String) (xs : List String)
    → are_sorted (x ∷ xs) ≡ true
    → unique_after x xs ≡ true
    → AllDistinct (x ∷ xs)
unfolding are_sorted unique_after AllDistinct
names-AllDistinct x [] sorted unique = (unfold contains in refl, tt)
names-AllDistinct x (y ∷ ys) sorted unique = (
  no_return x y ys (ground arith) (ground arith) (ground arith),
  names-AllDistinct y ys (ground arith) (ground arith),
)

all_names-AllDistinct :
    (names : List String)
    → (not (are_sorted names) || not (unique_non_empty names)) ≡ false
    → AllDistinct names
unfolding unique_non_empty AllDistinct
all_names-AllDistinct [] h = tt
all_names-AllDistinct (x ∷ xs) h = names-AllDistinct x xs (ground arith) (ground arith)

-- In an environment snapshot that `Validate` accepts no environment name is there twice.
pub snapshot_names-AllDistinct :
    (nfc : Text → Text) (s : EnvironmentSnapshot)
    → snapshot_error nfc s ≡ none
    → AllDistinct s.environment_names
unfolding snapshot_error
snapshot_names-AllDistinct nfc s h =
    let checks = (first_error-none (snapshot_checks nfc s) h).1.1.1.1.1 in
    all_names-AllDistinct s.environment_names (refuse-none _ _ checks.0)
