-- ===== src/Protocol/Review/Distinct.antt =====
-- The ids of a valid review result of internal/protocol/review.go.
use xgoal.Prelude.{
  ◌≡◌, refl, ◌≢◌, String, string_eq, Bool, true, false, not, ◌&&◌, Option, none, some, List, [],
  ◌∷◌, ◌==◌, ==_iff, nat_eq, contains, map, arith, All, is_empty, if◌then◌else◌,
}
use xgoal.Prelude.Checks.{first_error-none, refuse-none}
use xgoal.Protocol.Review.{
  ReviewResult, ReviewFinding, ReviewError, ReviewStatus, ReviewCode, review_result_checks,
  review_result_error, findings_error, labels_error, is_changes_requested, is_invalid_finding,
}

-- no text of the list is there twice
unfoldable pub AllDistinct : List String → Type 0
AllDistinct [] = Unit
AllDistinct (x ∷ xs) = (contains x xs ≡ false) × AllDistinct xs

-- none of the list is in the other, and none is there twice
record IsFresh (seen xs : List String) : Type 0 where
  apart : All (λ x. contains x seen ≡ false) xs
  distinct : AllDistinct xs

not_listed :
    (x : String) (seen xs : List String)
    → All (λ y. contains y (x ∷ seen) ≡ false) xs
    → contains x xs ≡ false
unfolding contains
not_listed x seen [] h = refl
not_listed x seen (y ∷ ys) h = ground (arith, not_listed x seen ys h.1, h.0, ==_iff x y, ==_iff y x)

weaker :
    (x : String) (seen xs : List String)
    → All (λ y. contains y (x ∷ seen) ≡ false) xs
    → All (λ y. contains y seen ≡ false) xs
unfolding contains
weaker x seen [] h = tt
weaker x seen (y ∷ ys) h = (ground (arith, h.0), weaker x seen ys h.1)

IsFresh-cons :
    (x : String) (seen xs : List String)
    → contains x seen ≡ false
    → IsFresh (x ∷ seen) xs
    → IsFresh seen (x ∷ xs)
unfolding AllDistinct
IsFresh-cons x seen xs new f = record {
  apart = (new, weaker x seen xs f.apart);
  distinct = (not_listed x seen xs f.apart, f.distinct);
}

labels-IsFresh :
    (invalid : ReviewError) (repeated : String → ReviewError) (seen vs : List String)
    → labels_error invalid repeated seen vs ≡ none
    → IsFresh seen vs
unfolding labels_error AllDistinct
labels-IsFresh invalid repeated seen [] h = record { apart = tt; distinct = tt }
labels-IsFresh invalid repeated seen (v ∷ vs) h =
    IsFresh-cons v seen vs (ground arith)
      (labels-IsFresh invalid repeated (v ∷ seen) vs (ground arith))

abbrev pub ids_of_findings : List ReviewFinding → List String
ids_of_findings fs = map (λ (f : ReviewFinding). f.id) fs

-- the three guards of a finding
three_guards :
    (a b c : Bool) (x y z : ReviewError) (rest : Option ReviewError)
    → (if a then some x else if b then some y else if c then some z else rest) ≡ none
    → (c ≡ false) × (rest ≡ none)
three_guards false false false x y z rest h = (refl, h)
three_guards true b c x y z rest h = absurd (ground arith)
three_guards false true c x y z rest h = absurd (ground arith)
three_guards false false true x y z rest h = absurd (ground arith)

findings-IsFresh :
    (code : ReviewCode) (seen : List String) (fs : List ReviewFinding)
    → findings_error code seen fs ≡ none
    → IsFresh seen (ids_of_findings fs)
unfolding findings_error AllDistinct
findings-IsFresh code seen [] h = record { apart = tt; distinct = tt }
findings-IsFresh code seen (f ∷ fs) h =
    let passed =
      three_guards (is_invalid_finding code f) (f.path == "" && not (f.line == 0))
        (contains f.id seen) _ _ _ (findings_error code (f.id ∷ seen) fs) h in
    IsFresh-cons f.id seen (ids_of_findings fs) passed.0
      (findings-IsFresh code (f.id ∷ seen) fs passed.1)

pub record IsClear (r : ReviewResult) : Type 0 where
  pub findings_distinct : AllDistinct (ids_of_findings r.findings)
  pub suggestions_distinct : AllDistinct r.suggested_validators
  pub changes_found : r.review_status ≡ ReviewStatus.changes_requested → r.findings ≢ []

some_findings :
    (s : ReviewStatus) (fs : List ReviewFinding)
    → (is_changes_requested s && is_empty fs) ≡ false
    → s ≡ ReviewStatus.changes_requested
    → fs ≢ []
some_findings s fs h asked nothing = absurd (ground arith)

-- In a review result that `Validate` accepts no two findings have the same id and no validator is
-- suggested twice, and a request for changes has a finding.
pub review_result-IsClear :
    (code : ReviewCode) (r : ReviewResult) → review_result_error code r ≡ none → IsClear r
unfolding review_result_error
review_result-IsClear code r h =
    let checks = (first_error-none (review_result_checks code r) h).1 in
    record {
      findings_distinct = (findings-IsFresh code [] r.findings checks.1.0).distinct;
      suggestions_distinct = (labels-IsFresh _ _ [] r.suggested_validators checks.1.1.0).distinct;
      changes_found = some_findings r.review_status r.findings (refuse-none _ _ checks.0);
    }
