-- ===== src/Compile/Overlap/Disjoint.antt =====
-- scopesMayOverlap of internal/goalcompile/compile.go beside the patterns of
-- internal/scope/scope.go: paths that fit two write scopes.
use xgoal.Prelude.{
  ◌≡◌, refl, sym, ap, subst, ◌∙◌, ◌⊎◌, inl, inr, Bool, true, false, List, [], ◌∷◌, ◌++◌, nat_eq,
  ==_iff, arith, Bool-cases, All,
}
use mathlib.Core.List.{append_assoc, append-nil}
use xgoal.Policy.Paths.{Text, text_eq, split}
use xgoal.Scope.Names.{join}
use xgoal.Scope.Matching.Fits.{Fits, fits_end, fits_segment, fits_none, fits_more}
use xgoal.Scope.Rules.{trim_slash}
use xgoal.Compile.Overlap.{
  has_star, literal_segments, literal_prefix, has_prefix, prefixes_meet, meets_some,
  scopes_may_overlap,
}

-- the list goes on from the first one
record Extends (xs ys : List Text) : Type 0 where
  rest : List Text
  equal : ys ≡ xs ++ rest

Extends-nil : (ys : List Text) → Extends [] ys
Extends-nil ys = record { rest = ys; equal = refl }

Extends-cons : (x : Text) {xs ys : List Text} → Extends xs ys → Extends (x ∷ xs) (x ∷ ys)
Extends-cons x e = record { rest = e.rest; equal = ap (λ ys. x ∷ ys) e.equal }

-- of two first parts of one list, one goes on from the other
compare_parts :
    (xs ys zs : List Text) → Extends xs zs → Extends ys zs → Extends xs ys ⊎ Extends ys xs
compare_parts [] ys zs p q = inl (Extends-nil ys)
compare_parts (x ∷ xs) [] zs p q = inr (Extends-nil (x ∷ xs))
compare_parts (x ∷ xs) (y ∷ ys) [] p q = absurd (let e = p.equal in ground arith)
compare_parts (x ∷ xs) (y ∷ ys) (z ∷ zs) p q =
    let same : x ≡ y = (let e = p.equal in let f = q.equal in cc) in
    let p' : Extends xs zs = record { rest = p.rest; equal = (let e = p.equal in cc) } in
    let q' : Extends ys zs = record { rest = q.rest; equal = (let f = q.equal in cc) } in
    elim (compare_parts xs ys zs p' q') [
      | inl e ↦ inl (subst (λ w. Extends (x ∷ xs) (w ∷ ys)) same (Extends-cons x e))
      | inr e ↦ inr (subst (λ w. Extends (y ∷ ys) (w ∷ xs)) (sym same) (Extends-cons y e))
    ]

module _ (segment_matches : Text → Text → Bool) where
  -- a segment without a star that matches another is that other
  abbrev pub IsLiteral : Text → Type 0
  IsLiteral p = has_star p ≡ false → (s : Text) → segment_matches p s ≡ true → s ≡ p

  literal_part :
      {ps ss : List Text}
      → Fits segment_matches ps ss
      → All IsLiteral ps
      → Extends (literal_segments ps) ss
  unfolding literal_segments
  literal_part fits_end l = Extends-nil []
  literal_part (fits_segment {p = p} {s = s} {ps = ps} {ss = ss} other one f) l =
      elim (Bool-cases (has_star p)) [
        | inl star ↦ rw star (Extends-nil (s ∷ ss))
        | inr plain ↦ rw plain (
            subst (λ w. Extends (p ∷ literal_segments ps) (w ∷ ss)) (sym (l.0 plain s one))
              (Extends-cons p (literal_part f l.1)))
      ]
  literal_part (fits_none {ss = ss} f) l = unfold has_star in Extends-nil ss
  literal_part (fits_more {s = s} {ss = ss} f) l = unfold has_star in Extends-nil (s ∷ ss)

has_prefix-append : (s t : Text) → has_prefix (s ++ t) s ≡ true
unfolding has_prefix
has_prefix-append [] [] = refl
has_prefix-append [] (c ∷ t) = refl
has_prefix-append (c ∷ s) t = ground (arith, ==_iff c c, has_prefix-append s t)

-- the join of a longer list has the join of its first part and a slash before the rest
join-append :
    (x : Text) (xs : List Text) (y : Text) (ys : List Text)
    → join ((x ∷ xs) ++ (y ∷ ys)) ≡ join (x ∷ xs) ++ (b'/' ∷ join (y ∷ ys))
unfolding join
join-append x [] y ys = refl
join-append x (z ∷ zs) y ys =
    ap (λ t. x ++ (b'/' ∷ t)) (join-append z zs y ys)
    ∙ sym (append_assoc x (b'/' ∷ join (z ∷ zs)) (b'/' ∷ join (y ∷ ys)))

-- one list that goes on from another has a join that begins like the other's
begins :
    (xs ys : List Text)
    → Extends xs ys
    → (join xs ≡ [])
      ⊎ ((join xs ≡ join ys) ⊎ (has_prefix (join ys) (join xs ++ (b'/' ∷ [])) ≡ true))
begins [] ys e = inl (unfold join in refl)
begins (x ∷ xs) ys e = inr (go e.rest e.equal)
  where
    go :
        (rest : List Text)
        → ys ≡ (x ∷ xs) ++ rest
        → (join (x ∷ xs) ≡ join ys) ⊎ (has_prefix (join ys) (join (x ∷ xs) ++ (b'/' ∷ [])) ≡ true)
    go [] q = inl (sym (ap join (q ∙ append-nil (x ∷ xs))))
    go (y ∷ more) q = inr (
        subst (λ t. has_prefix t (join (x ∷ xs) ++ (b'/' ∷ [])) ≡ true)
          (append_assoc (join (x ∷ xs)) (b'/' ∷ []) (join (y ∷ more))
            ∙ (sym (join-append x xs y more) ∙ sym (ap join q)))
          (has_prefix-append (join (x ∷ xs) ++ (b'/' ∷ [])) (join (y ∷ more))))

meet_of_begins : (xs ys : List Text) → Extends xs ys → prefixes_meet (join xs) (join ys) ≡ true
unfolding prefixes_meet
meet_of_begins xs ys e = elim (begins xs ys e) [
  | inl none_there ↦ rw none_there refl
  | inr (inl same) ↦ ground (arith, (==_iff (join xs) (join ys)).1 same)
  | inr (inr longer) ↦ ground arith
]

prefixes_meet_comm : (a b : Text) → prefixes_meet a b ≡ prefixes_meet b a
unfolding prefixes_meet
prefixes_meet_comm a b = ground (arith, ==_iff a b, ==_iff b a)

module _ (segment_matches : Text → Text → Bool) where
  abbrev pub FitsScope : Text → List Text → Type 0
  FitsScope scope path = Fits segment_matches (split (trim_slash scope)) path

  abbrev pub IsPlain : Text → Type 0
  IsPlain scope = All (IsLiteral segment_matches) (split (trim_slash scope))

  common_path_meets :
      (a b : Text) (path : List Text)
      → IsPlain a
      → IsPlain b
      → FitsScope a path
      → FitsScope b path
      → prefixes_meet (literal_prefix a) (literal_prefix b) ≡ true
  unfolding literal_prefix
  common_path_meets a b path pa pb fa fb =
      let as' = literal_segments (split (trim_slash a)) in
      let bs = literal_segments (split (trim_slash b)) in
      elim (compare_parts as' bs path (literal_part segment_matches fa pa)
        (literal_part segment_matches fb pb)) [
          | inl e ↦ meet_of_begins as' bs e
          | inr e ↦ prefixes_meet_comm (join as') (join bs) ∙ meet_of_begins bs as' e
        ]

  -- no path fits both scopes
  abbrev pub Apart : Text → Text → Type 0
  Apart a b = (path : List Text) → FitsScope a path → FitsScope b path → ⊥

  meets_none :
      (a : Text) (right : List Text)
      → IsPlain a
      → All IsPlain right
      → meets_some a right ≡ false
      → All (Apart a) right
  unfolding meets_some
  meets_none a [] pa plain h = tt
  meets_none a (b ∷ right) pa plain h = (
    λ path fa fb. ground (arith, common_path_meets a b path pa plain.0 fa fb),
    meets_none a right pa plain.1 (ground arith),
  )

  -- Where `scopesMayOverlap` says no, no path fits both a scope of the first list and one of the
  -- second, if in these scopes a segment without a star matches nothing but itself.
  pub no_overlap-Apart :
      (left right : List Text)
      → All IsPlain left
      → All IsPlain right
      → scopes_may_overlap left right ≡ false
      → All (λ a. All (Apart a) right) left
  unfolding scopes_may_overlap
  no_overlap-Apart [] right pl pr h = tt
  no_overlap-Apart (a ∷ left) right pl pr h = (
    meets_none a right pl.0 pr (ground arith),
    no_overlap-Apart left right pl.1 pr (ground arith),
  )
