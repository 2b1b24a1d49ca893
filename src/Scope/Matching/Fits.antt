-- ===== src/Scope/Matching/Fits.antt =====
-- When a path fits a scope pattern: one segment for each plain one, and any number of segments for
-- each "**".
use xgoal.Prelude.{
  ◌≡◌, refl, sym, subst, ◌≢◌, ◌↔◌, inl, inr, Bool, true, List, [], ◌∷◌, ◌==◌, ==_iff, arith,
  Bool-cases,
}
use xgoal.Policy.Paths.{Text, text_eq}
use xgoal.Scope.Matching.{no_tables, stars, match_segments, matches}
use xgoal.Scope.Matching.Correct.{match_segments-matches}

pub data Fits (segment_matches : Text → Text → Bool) : List Text → List Text → Type 0 where
  fits_end : Fits segment_matches [] []
  fits_segment :
      {p s : Text} {ps ss : List Text}
      → p ≢ stars
      → segment_matches p s ≡ true
      → Fits segment_matches ps ss
      → Fits segment_matches (p ∷ ps) (s ∷ ss)
  fits_none :
      {ps ss : List Text} → Fits segment_matches ps ss → Fits segment_matches (stars ∷ ps) ss
  fits_more :
      {s : Text} {ps ss : List Text}
      → Fits segment_matches (stars ∷ ps) ss
      → Fits segment_matches (stars ∷ ps) (s ∷ ss)

module _ (segment_matches : Text → Text → Bool) where
  from_back :
      {p : Text} {ps ss : List Text}
      → p ≡ stars
      → Fits segment_matches (p ∷ ps) ss
      → Fits segment_matches (stars ∷ ps) ss
  from_back {ps = ps} {ss = ss} e f = subst (λ q. Fits segment_matches (q ∷ ps) ss) e f

  matches_complete :
      {ps ss : List Text} → Fits segment_matches ps ss → matches segment_matches ps ss ≡ true
  unfolding matches
  matches_complete fits_end = refl
  matches_complete (fits_segment {p = p} other one f) = elim (Bool-cases (p == stars)) [
    | inl same ↦ absurd (other ((==_iff p stars).0 same))
    | inr differ ↦ rw (differ, one, matches) (matches_complete f)
  ]
  matches_complete (fits_none {ss = []} f) = matches_complete f
  matches_complete (fits_none {ss = s ∷ ss} f) = rw (matches_complete f) refl
  matches_complete (fits_more {s = s} {ps = ps} {ss = ss} f) =
      elim (Bool-cases (matches segment_matches ps (s ∷ ss))) [
        | inl done ↦ rw done refl
        | inr not_yet ↦ rw not_yet (matches_complete f)
      ]

  from_stars :
      {p : Text} {ps ss : List Text}
      → (p == stars) ≡ true
      → Fits segment_matches (stars ∷ ps) ss
      → Fits segment_matches (p ∷ ps) ss
  from_stars {p = p} {ps = ps} {ss = ss} same f =
      subst (λ q. Fits segment_matches (q ∷ ps) ss) (sym ((==_iff p stars).0 same)) f

  matches_sound :
      (ps ss : List Text) → matches segment_matches ps ss ≡ true → Fits segment_matches ps ss
  unfolding matches
  matches_sound [] [] h = fits_end
  matches_sound [] (s ∷ ss) h = absurd (ground arith)
  matches_sound (p ∷ ps) [] h = elim (Bool-cases (p == stars)) [
    | inl same ↦ from_stars same (fits_none (matches_sound ps [] (ground arith)))
    | inr differ ↦ absurd (ground arith)
  ]
  matches_sound (p ∷ ps) (s ∷ ss) h = elim (Bool-cases (p == stars)) [
    | inl same ↦ elim (Bool-cases (matches segment_matches ps (s ∷ ss))) [
      | inl now ↦ from_stars same (fits_none (matches_sound ps (s ∷ ss) now))
      | inr later ↦ from_stars same (
          fits_more
            (from_back ((==_iff p stars).0 same) (matches_sound (p ∷ ps) ss (ground arith))))
    ]
    | inr differ ↦ elim (Bool-cases (segment_matches p s)) [
      | inl one ↦
          fits_segment (λ e. absurd (ground (arith, (==_iff p stars).1 e))) one
            (matches_sound ps ss (ground arith))
      | inr other ↦ absurd (ground arith)
    ]
  ]

-- The memoised search over a whole pattern and a whole path says yes exactly when the path fits
-- the pattern, whatever the match of single segments is.
pub match_segments_iff :
    (segment_matches : Text → Text → Bool) (pattern path : List Text)
    → ((match_segments segment_matches pattern path 0 0 no_tables).0 ≡ true)
      ↔ Fits segment_matches pattern path
match_segments_iff segment_matches pattern path =
    rw (match_segments-matches segment_matches pattern path)
      (λ h. matches_sound segment_matches pattern path h, λ f. matches_complete segment_matches f)
