-- ===== src/Scope/Matching/Correct.antt =====
-- matchSegments of internal/scope/scope.go: its memoised search beside the plain recursion.
use xgoal.Prelude.{
  ℕ, zero, suc, ◌+◌, ◌<◌, ◌≡◌, refl, sym, ap, ◌∙◌, inl, inr, Bool, true, false, List, [], ◌∷◌, ◌==◌,
  arith,
}
use xgoal.Prelude.Dict.{get}
use xgoal.Policy.Paths.{Text, text_eq}
use xgoal.Scope.Matching.{
  Key, key_eq, Tables, no_tables, Search, remember, or_search, answer, stars, match_segments,
  matches,
}
use xgoal.Scope.Matching.Remember.{
  Good, Finds, Opened, remember-Finds, or-Finds, branch-Finds, answer-Finds,
}

drop : ℕ → List Text → List Text
drop zero xs = xs
drop (suc n) [] = []
drop (suc n) (x ∷ xs) = drop n xs

drop_tail :
    (n : ℕ) (xs : List Text) {y : Text} {ys : List Text} → drop n xs ≡ y ∷ ys → drop (suc n) xs ≡ ys
unfolding drop
drop_tail zero [] e = cc
drop_tail zero (x ∷ xs) e = cc
drop_tail (suc n) [] e = cc
drop_tail (suc n) (x ∷ xs) e = drop_tail n xs e

module _ (segment_matches : Text → Text → Bool) (pattern path : List Text) where
  abbrev value : Key → Bool
  value q = matches segment_matches (drop q.0 pattern) (drop q.1 path)

  -- every open key is of an earlier pair of indices
  abbrev Below : (Key → Type 0) → ℕ → Type 0
  Below is_open n = (q : Key) → is_open q → q.0 + q.1 < n

  Below-Opened :
      (is_open : Key → Type 0) (i j n : ℕ)
      → i + j < n
      → Below is_open (i + j)
      → Below (Opened value is_open (i, j)) n
  Below-Opened is_open i j n h below q (inl e) =
      let e0 = ap (λ (x : Key). x.0) e in let e1 = ap (λ (x : Key). x.1) e in omega arith
  Below-Opened is_open i j n h below q (inr o) = let b = below q o in omega arith

  not_open : (is_open : Key → Type 0) (i j : ℕ) → Below is_open (i + j) → is_open (i, j) → ⊥
  not_open is_open i j below o = let b = below (i, j) o in omega arith

  -- the value of the indices of two rests
  value_at_rests :
      (ps ss : List Text) (i j : ℕ)
      → drop i pattern ≡ ps
      → drop j path ≡ ss
      → value (i, j) ≡ matches segment_matches ps ss
  value_at_rests ps ss i j ep es = rw (ep, es) refl

  Finds-value :
      {is_open : Key → Type 0} {v w : Bool} {r : Bool × Tables}
      → v ≡ w
      → Finds value is_open v r
      → Finds value is_open w r
  Finds-value e f = record { found = f.found ∙ e; good = f.good }

  -- one call of the search, by what its body finds
  call-Finds :
      (ps ss : List Text) (i j : ℕ) (is_open : Key → Type 0) (t : Tables) (body : Search)
      → drop i pattern ≡ ps
      → drop j path ≡ ss
      → Below is_open (i + j)
      → Good value is_open t
      → ((u : Tables)
          → Good value (Opened value is_open (i, j)) u
          → Finds value (Opened value is_open (i, j)) (matches segment_matches ps ss) (body u))
      → Finds value is_open (matches segment_matches ps ss) (remember (i, j) body t)
  call-Finds ps ss i j is_open t body ep es below g run =
      let e = value_at_rests ps ss i j ep es in
      Finds-value e (
        remember-Finds value is_open (i, j) body t (not_open is_open i j below) g
          λ u h. Finds-value (sym e) (run u h))

  search-Finds :
      (ps ss : List Text) (i j : ℕ) (is_open : Key → Type 0) (t : Tables)
      → drop i pattern ≡ ps
      → drop j path ≡ ss
      → Below is_open (i + j)
      → Good value is_open t
      → Finds value is_open
          (matches segment_matches ps ss)
          (match_segments segment_matches ps ss i j t)
  unfolding match_segments matches
  search-Finds [] [] i j is_open t ep es below g =
      call-Finds [] [] i j is_open t (answer true) ep es below g (answer-Finds true)
  search-Finds [] (s ∷ ss) i j is_open t ep es below g =
      call-Finds [] (s ∷ ss) i j is_open t (answer false) ep es below g (answer-Finds false)
  search-Finds (p ∷ ps) [] i j is_open t ep es below g =
      call-Finds (p ∷ ps) [] i j is_open t
        (λ u. elim (p == stars) as (λ _. Bool × Tables) [
          | true ↦ match_segments segment_matches ps [] (suc i) j u
          | false ↦ (false, u)
        ])
        ep es below g
        λ u h.
          branch-Finds (p == stars)
            (search-Finds ps [] (suc i) j (Opened value is_open (i, j)) u (drop_tail i pattern ep)
              es (Below-Opened is_open i j (suc i + j) (omega arith) below) h)
            (answer-Finds false u h)
  search-Finds (p ∷ ps) (s ∷ ss) i j is_open t ep es below g =
      call-Finds (p ∷ ps) (s ∷ ss) i j is_open t
        (λ u. elim (p == stars) as (λ _. Bool × Tables) [
          | true ↦
              or_search (λ v. match_segments segment_matches ps (s ∷ ss) (suc i) j v)
                (λ v. match_segments segment_matches (p ∷ ps) ss i (suc j) v) u
          | false ↦ elim (segment_matches p s) as (λ _. Bool × Tables) [
            | true ↦ match_segments segment_matches ps ss (suc i) (suc j) u
            | false ↦ (false, u)
          ]
        ])
        ep es below g
        λ u h.
          branch-Finds (p == stars)
            (or-Finds (matches segment_matches ps (s ∷ ss)) (matches segment_matches (p ∷ ps) ss)
              (λ v. match_segments segment_matches ps (s ∷ ss) (suc i) j v)
              (λ v. match_segments segment_matches (p ∷ ps) ss i (suc j) v) u
              (search-Finds ps (s ∷ ss) (suc i) j (Opened value is_open (i, j)) u
                (drop_tail i pattern ep) es
                (Below-Opened is_open i j (suc i + j) (omega arith) below) h)
              λ v k.
                search-Finds (p ∷ ps) ss i (suc j) (Opened value is_open (i, j)) v ep
                  (drop_tail j path es) (Below-Opened is_open i j (i + suc j) (omega arith) below)
                  k)
            (branch-Finds (segment_matches p s)
              (search-Finds ps ss (suc i) (suc j) (Opened value is_open (i, j)) u
                (drop_tail i pattern ep) (drop_tail j path es)
                (Below-Opened is_open i j (suc i + suc j) (omega arith) below) h)
              (answer-Finds false u h))

-- The memoised search from the two first indices, with no visited keys, answers as the plain
-- recursion over the segments does, whatever the match of single segments is.
pub match_segments-matches :
    (segment_matches : Text → Text → Bool) (pattern path : List Text)
    → (match_segments segment_matches pattern path 0 0 no_tables).0
      ≡ matches segment_matches pattern path
unfolding drop
match_segments-matches segment_matches pattern path =
    (search-Finds segment_matches pattern path pattern path 0 0 (λ _. ⊥) no_tables refl refl
      (λ q o. absurd o) (record { right = λ q h. absurd (unfold get in ground arith) })).found
