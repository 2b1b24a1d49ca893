-- ===== src/Compile/Graph/Reachable.antt =====
-- `reachable` of internal/goalcompile/compile.go: what the search for a path finds, and its fuel.
use xgoal.Prelude.{
  ℕ, zero, suc, ◌<◌, ◌≤◌, ◌≡◌, ◌⊎◌, refl, sym, subst, ◌∙◌, String, string_eq, Bool, true, false,
  Option, none, some, List, [], ◌∷◌, ◌==◌, ==_iff, contains, length, arith, Bool-cases, inl, inr,
}
use xgoal.Compile.Graph.{Search, first_true, reach, reachable}
use xgoal.Compile.Graph.Paths.{
  In, contains-head, contains-tail, contains-cons, outside, outside-le-length, outside_less, Leads,
  edge, more,
}

module _ (next : String → List String) (nodes : List String)
    (closed : (a b : String) → In a nodes → In b (next a) → In b nodes) (target : String) where
  -- the target itself, or a key that leads to it
  abbrev pub Reaches : String → Type 0
  Reaches n = (n ≡ target) ⊎ Leads next n target

  -- The seen keys are not the target, and their dependencies are seen unless they are still open.
  record Swept (is_open : String → Type 0) (seen : List String) : Type 0 where
    missed : (k : String) → In k seen → (k ≡ target) → ⊥
    onward : (k j : String) → In k seen → In j (next k) → is_open k ⊎ In j seen

  record Passed (is_open : String → Type 0) (seen seen' done : List String) : Type 0 where
    swept : Swept is_open seen'
    kept : (k : String) → In k seen → In k seen'
    fewer : outside seen' nodes ≤ outside seen nodes
    added : (k : String) → In k done → In k seen'

  data Outcome (is_open : String → Type 0) (seen done : List String)
      : Option (Bool × List String) → Type 0 where
    found :
        {seen' : List String} (k : String)
        → In k done
        → Reaches k
        → Outcome is_open seen done (some (true, seen'))
    passed :
        {seen' : List String}
        → Passed is_open seen seen' done
        → Outcome is_open seen done (some (false, seen'))

  found_later :
      {is_open : String → Type 0} {seen seen' ns : List String} {n : String}
      {r : Option (Bool × List String)}
      → Passed is_open seen seen' (n ∷ [])
      → Outcome is_open seen' ns r
      → Outcome is_open seen (n ∷ ns) r
  found_later {ns = ns} {n = n} p (found k h c) = found k (contains-tail k n ns h) c
  found_later {ns = ns} {n = n} p (passed q) = passed (record {
    swept = q.swept;
    kept = λ k h. q.kept k (p.kept k h);
    fewer = omega (arith, p.fewer, q.fewer);
    added = λ k h. elim (contains-cons k n ns h) [
      | inl e ↦ q.kept k (p.added k (subst (λ x. In x (n ∷ [])) (sym e) (contains-head n [])))
      | inr there ↦ q.added k there
    ];
  })

  step-Outcome :
      {is_open : String → Type 0} {seen ns : List String} {n : String}
      {r : Option (Bool × List String)} (rest : Search (List String))
      → Outcome is_open seen (n ∷ []) r
      → ((seen' : List String)
          → outside seen' nodes ≤ outside seen nodes
          → Swept is_open seen'
          → Outcome is_open seen' ns (rest seen'))
      → Outcome is_open seen (n ∷ ns) (elim r as (λ _. Option (Bool × List String)) [
        | none ↦ none
        | some (true, m') ↦ some (true, m')
        | some (false, m') ↦ rest m'
      ])
  step-Outcome {ns = ns} {n = n} rest (found k h c) later =
      found k
        (elim (contains-cons k n [] h) [
          | inl e ↦ subst (λ x. In x (n ∷ ns)) (sym e) (contains-head n ns)
          | inr nowhere ↦ absurd (unfold contains in ground arith)
        ])
        c
  step-Outcome rest (passed {seen' = seen'} p) later = found_later p (later seen' p.fewer p.swept)

  first_true-Outcome :
      (go : String → Search (List String)) (ns : List String) (bound : ℕ)
      (is_open : String → Type 0)
      → ((n : String)
          → In n ns
          → (seen : List String) → outside seen nodes < bound
          → Swept is_open seen
          → Outcome is_open seen (n ∷ []) (go n seen))
      → (seen : List String) → outside seen nodes < bound
      → Swept is_open seen
      → Outcome is_open seen ns (first_true go ns seen)
  unfolding first_true
  first_true-Outcome go [] bound is_open each seen less s = passed (record {
    swept = s;
    kept = λ k h. h;
    fewer = omega arith;
    added = λ k h. unfold contains in cc;
  })
  first_true-Outcome go (n ∷ ns) bound is_open each seen less s =
      step-Outcome (first_true go ns) (each n (contains-head n ns) seen less s) λ seen' fewer s'.
        first_true-Outcome go ns bound is_open (λ b h. each b (contains-tail b n ns h)) seen'
          (omega arith) s'

  abbrev Opened : (String → Type 0) → String → String → Type 0
  Opened is_open n k = (k ≡ n) ⊎ is_open k

  -- the search of the dependencies of a key, and the key itself
  close_key :
      {is_open : String → Type 0} {seen : List String} (n : String)
      {r : Option (Bool × List String)}
      → outside (n ∷ seen) nodes ≤ outside seen nodes
      → Outcome (Opened is_open n) (n ∷ seen) (next n) r
      → Outcome is_open seen (n ∷ []) r
  close_key n less (found k h (inl e)) =
      found n (contains-head n []) (inr (edge (subst (λ x. In x (next n)) e h)))
  close_key n less (found k h (inr p)) = found n (contains-head n []) (inr (more h p))
  close_key {seen = seen} n less (passed p) = passed (record {
    swept = record {
      missed = p.swept.missed;
      onward = λ k j there h. elim (p.swept.onward k j there h) [
        | inl (inl e) ↦ inr (p.added j (subst (λ x. In j (next x)) e h))
        | inl (inr o) ↦ inl o
        | inr seen_too ↦ inr seen_too
      ];
    };
    kept = λ k h. p.kept k (contains-tail k n seen h);
    fewer = omega (arith, p.fewer);
    added = λ k h. elim (contains-cons k n [] h) [
      | inl e ↦ p.kept k (subst (λ x. In x (n ∷ seen)) (sym e) (contains-head n seen))
      | inr nowhere ↦ absurd (unfold contains in ground arith)
    ];
  })

  reach-Outcome :
      (fuel : ℕ) (n : String) (is_open : String → Type 0) (seen : List String)
      → In n nodes
      → outside seen nodes < fuel
      → Swept is_open seen
      → Outcome is_open seen (n ∷ []) (reach next target fuel n seen)
  unfolding reach
  reach-Outcome zero n is_open seen there enough s = absurd (omega arith)
  reach-Outcome (suc fuel) n is_open seen there enough s = elim (Bool-cases (n == target)) [
    | inl here ↦ rw (here, reach) (found n (contains-head n []) (inl ((==_iff n target).0 here)))
    | inr other ↦ elim (Bool-cases (contains n seen)) [
      | inl old ↦
          rw (other, old, reach)
            (passed (record {
              swept = s;
              kept = λ k h. h;
              fewer = omega arith;
              added = λ k h. elim (contains-cons k n [] h) [
                | inl q ↦ subst (λ x. In x seen) (sym q) old
                | inr nowhere ↦ absurd (unfold contains in ground arith)
              ];
            }))
      | inr new ↦
          let less = outside_less n seen nodes there new in
          rw (other, new, reach)
            (close_key n (omega (arith, less)) (
              first_true-Outcome (reach next target fuel) (next n) fuel (Opened is_open n)
                (λ b h seen' l s'.
                  reach-Outcome fuel b (Opened is_open n) seen' (closed n b there h) l s')
                (n ∷ seen) (omega (arith, less))
                (record {
                  missed = λ k h e. elim (contains-cons k n seen h) [
                    | inl q ↦ ground (arith, (==_iff n target).1 (sym q ∙ e))
                    | inr before ↦ s.missed k before e
                  ];
                  onward = λ k j h g. elim (contains-cons k n seen h) [
                    | inl q ↦ inl (inl q)
                    | inr before ↦ elim (s.onward k j before g) [
                      | inl o ↦ inl (inr o)
                      | inr after ↦ inr (contains-tail j n seen after)
                    ]
                  ];
                })))
    ]
  ]

  -- nothing leads out of the swept keys, once no key is open
  no_way : (seen : List String) {n : String} → Swept (λ _. ⊥) seen → In n seen → Reaches n → ⊥
  no_way seen s there (inl e) = s.missed _ there e
  no_way seen s there (inr (edge h)) = elim (s.onward _ _ there h) [
    | inl o ↦ o
    | inr after ↦ s.missed _ after refl
  ]
  no_way seen s there (inr (more h p)) = elim (s.onward _ _ there h) [
    | inl o ↦ o
    | inr after ↦ no_way seen s after (inr p)
  ]

  pub data PathAnswer (n : String) : Option Bool → Type 0 where
    reached : Reaches n → PathAnswer n (some true)
    out_of_reach : (Reaches n → ⊥) → PathAnswer n (some false)

  PathAnswer-Outcome :
      (n : String) {r : Option (Bool × List String)}
      → Outcome (λ _. ⊥) [] (n ∷ []) r
      → PathAnswer n (elim r as (λ _. Option Bool) [ none ↦ none | some (answer, _) ↦ some answer ])
  PathAnswer-Outcome n (found k h c) = elim (contains-cons k n [] h) [
    | inl e ↦ reached (subst (λ x. Reaches x) e c)
    | inr nowhere ↦ absurd (unfold contains in ground arith)
  ]
  PathAnswer-Outcome n (passed {seen' = seen'} p) =
      out_of_reach (no_way seen' p.swept (p.added n (contains-head n [])))

-- On keys whose dependencies are among them the search for a path ends within its fuel: it answers
-- true where the key is the target or leads to it, and false where it does not.
pub reachable_decides :
    (next : String → List String) (nodes : List String)
    (closed : (a b : String) → In a nodes → In b (next a) → In b nodes) (target n : String)
    → In n nodes
    → PathAnswer next nodes closed target n (reachable next nodes n target)
unfolding reachable
reachable_decides next nodes closed target n there = PathAnswer-Outcome next nodes closed target n (
    reach-Outcome next nodes closed target (suc (length nodes)) n (λ _. ⊥) [] there
      (omega (arith, outside-le-length [] nodes))
      (record {
        missed = λ k h e. unfold contains in ground arith;
        onward = λ k j h g. absurd (unfold contains in ground arith);
      }))
