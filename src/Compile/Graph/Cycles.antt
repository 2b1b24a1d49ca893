-- ===== src/Compile/Graph/Cycles.antt =====
-- `cyclic` of internal/goalcompile/compile.go: what the search for a cycle finds, and its fuel.
use xgoal.Prelude.{
  ℕ, zero, suc, ◌<◌, ◌≡◌, refl, sym, ap, subst, ◌∙◌, String, string_eq, Bool, true, false, Option,
  none, some, List, [], ◌∷◌, contains, length, arith, Bool-cases, inl, inr,
}
use xgoal.Compile.Graph.{Marks, no_marks, Search, first_true, visit, cyclic, delete}
use xgoal.Compile.Graph.Paths.{
  In, contains-head, contains-tail, contains-cons, delete-head, outside, outside-le-length,
  outside_less, Leads, edge, more, Leads-trans,
}

module _ (next : String → List String) (nodes : List String)
    (closed : (a b : String) → In a nodes → In b (next a) → In b nodes) where
  -- what is known of the marks between two visits
  record Tidy (m : Marks) : Type 0 where
    apart : (k : String) → In k m.visiting → In k m.visited → ⊥
    onward : (k j : String) → In k m.visited → In j (next k) → In j m.visited
    no_cycle : (k : String) → In k m.visited → Leads next k k → ⊥

  -- the marks after a search that has found nothing
  record Passed (m m' : Marks) (done : List String) : Type 0 where
    tidy : Tidy m'
    same : m'.visiting ≡ m.visiting
    kept : (k : String) → In k m.visited → In k m'.visited
    added : (k : String) → In k done → In k m'.visited

  data Outcome (m : Marks) (done : List String) : Option (Bool × Marks) → Type 0 where
    found : {m' : Marks} (k : String) → Leads next k k → Outcome m done (some (true, m'))
    passed : {m' : Marks} → Passed m m' done → Outcome m done (some (false, m'))

  leads_on : (m : Marks) {k j : String} → Tidy m → In k m.visited → Leads next k j → In j m.visited
  leads_on m t there (edge h) = t.onward _ _ there h
  leads_on m t there (more h p) = leads_on m t (t.onward _ _ there h) p

  -- the keys under way lead to the key that is visited
  abbrev Above : Marks → String → Type 0
  Above m n = (k : String) → In k m.visiting → Leads next k n

  -- `go` does its work on the marks of `m`
  abbrev Visits : Search Marks → List String → String → Type 0
  Visits go stack n = (m : Marks) → m.visiting ≡ stack → Tidy m → Outcome m (n ∷ []) (go m)

  Passed-then :
      {m m' m'' : Marks} {n : String} {ns : List String}
      → Passed m m' (n ∷ [])
      → Passed m' m'' ns
      → Passed m m'' (n ∷ ns)
  Passed-then {n = n} {ns = ns} p q = record {
    tidy = q.tidy;
    same = q.same ∙ p.same;
    kept = λ k h. q.kept k (p.kept k h);
    added = λ k h. elim (contains-cons k n ns h) [
      | inl e ↦ q.kept k (p.added k (subst (λ x. In x (n ∷ [])) (sym e) (contains-head n [])))
      | inr there ↦ q.added k there
    ];
  }

  Outcome-then :
      {m m' : Marks} {n : String} {ns : List String} {r : Option (Bool × Marks)}
      → Passed m m' (n ∷ [])
      → Outcome m' ns r
      → Outcome m (n ∷ ns) r
  Outcome-then p (found k c) = found k c
  Outcome-then p (passed q) = passed (Passed-then p q)

  -- one key of the loop, and the keys after it
  first_true-step :
      {m : Marks} {n : String} {ns : List String} {r : Option (Bool × Marks)} (rest : Search Marks)
      → Outcome m (n ∷ []) r
      → ((m' : Marks) → m'.visiting ≡ m.visiting → Tidy m' → Outcome m' ns (rest m'))
      → Outcome m (n ∷ ns) (elim r as (λ _. Option (Bool × Marks)) [
        | none ↦ none
        | some (true, m') ↦ some (true, m')
        | some (false, m') ↦ rest m'
      ])
  first_true-step rest (found k c) later = found k c
  first_true-step rest (passed {m' = m'} p) later = Outcome-then p (later m' p.same p.tidy)

  first_true-Outcome :
      (go : String → Search Marks) (ns : List String) (stack : List String)
      → ((n : String) → In n ns → Visits (go n) stack n)
      → (m : Marks) → m.visiting ≡ stack
      → Tidy m
      → Outcome m ns (first_true go ns m)
  unfolding first_true
  first_true-Outcome go [] stack visits m e t =
      passed
        (record { tidy = t; same = refl; kept = λ k h. h; added = λ k h. unfold contains in cc })
  first_true-Outcome go (n ∷ ns) stack visits m e t =
      first_true-step (first_true go ns) (visits n (contains-head n ns) m e t) λ m' same t'.
        first_true-Outcome go ns stack (λ b h. visits b (contains-tail b n ns h)) m' (same ∙ e) t'

  -- the key is under way from now on
  Tidy-mark :
      (m : Marks) (n : String)
      → contains n m.visited ≡ false
      → Tidy m
      → Tidy (record m { visiting = n ∷ m.visiting })
  Tidy-mark m n new t = record {
    apart = λ k under over. elim (contains-cons k n m.visiting under) [
      | inl e ↦ absurd (ground (arith, subst (λ x. In x m.visited) e over))
      | inr old ↦ t.apart k old over
    ];
    onward = t.onward;
    no_cycle = t.no_cycle;
  }

  -- a key that leads to itself by way of passed keys is one of them
  back_to_self :
      (m : Marks) (n : String)
      → Tidy m
      → ((j : String) → In j (next n) → In j m.visited)
      → {k : String} → Leads next n k
      → In k m.visited
  back_to_self m n t all (edge h) = all _ h
  back_to_self m n t all (more h p) = leads_on m t (all _ h) p

  abbrev unmark : String → Marks → Marks
  unmark n m = record { visiting = delete n m.visiting; visited = n ∷ m.visited }

  module _ (m m' : Marks) (n : String) (idle : contains n m.visiting ≡ false)
      (p : Passed (record m { visiting = n ∷ m.visiting }) m' (next n)) where
    under_way : In n m'.visiting
    under_way = subst (λ v. In n v) (sym p.same) (contains-head n m.visiting)

    unmarked : (unmark n m').visiting ≡ m.visiting
    unmarked = ap (delete n) p.same ∙ delete-head n m.visiting idle

    Tidy-unmark : Tidy (unmark n m')
    Tidy-unmark = record {
      apart = λ k under over. elim (contains-cons k n m'.visited over) [
        | inl e ↦
            absurd (
              ground (arith, subst (λ v. In k v) unmarked under, ap (λ x. contains x m.visiting) e))
        | inr old ↦
            p.tidy.apart k
              (subst (λ v. In k v) (sym p.same)
                (contains-tail k n m.visiting (subst (λ v. In k v) unmarked under)))
              old
      ];
      onward = λ k j there h. elim (contains-cons k n m'.visited there) [
        | inl e ↦ contains-tail j n m'.visited (p.added j (subst (λ x. In j (next x)) e h))
        | inr old ↦ contains-tail j n m'.visited (p.tidy.onward k j old h)
      ];
      no_cycle = λ k there c. elim (contains-cons k n m'.visited there) [
        | inl e ↦
            p.tidy.apart n under_way
              (back_to_self m' n p.tidy p.added (subst (λ x. Leads next x x) e c))
        | inr old ↦ p.tidy.no_cycle k old c
      ];
    }

    Passed-unmark : Passed m (unmark n m') (n ∷ [])
    Passed-unmark = record {
      tidy = Tidy-unmark;
      same = unmarked;
      kept = λ k h. contains-tail k n m'.visited (p.kept k h);
      added = λ k h. elim (contains-cons k n [] h) [
        | inl e ↦ subst (λ x. In x (n ∷ m'.visited)) (sym e) (contains-head n m'.visited)
        | inr nowhere ↦ absurd (unfold contains in ground arith)
      ];
    }

  finish :
      (m : Marks) (n : String) {r : Option (Bool × Marks)}
      → contains n m.visiting ≡ false
      → Outcome (record m { visiting = n ∷ m.visiting }) (next n) r
      → Outcome m (n ∷ []) (elim r as (λ _. Option (Bool × Marks)) [
        | none ↦ none
        | some (true, m') ↦ some (true, m')
        | some (false, m') ↦ some (false, unmark n m')
      ])
  finish m n idle (found k c) = found k c
  finish m n idle (passed {m' = m'} p) = passed (Passed-unmark m m' n idle p)

  visit-Outcome :
      (fuel : ℕ) (n : String) (stack : List String)
      → In n nodes
      → outside stack nodes < fuel
      → ((k : String) → In k stack → Leads next k n)
      → Visits (visit next fuel n) stack n
  unfolding visit
  visit-Outcome zero n stack there enough above m e t = absurd (omega arith)
  visit-Outcome (suc fuel) n stack there enough above m e t =
      elim (Bool-cases (contains n m.visiting)) [
        | inl again ↦ rw (again, visit) (found n (above n (subst (λ v. In n v) e again)))
        | inr idle ↦ elim (Bool-cases (contains n m.visited)) [
          | inl old ↦
              rw (idle, old, visit)
                (passed (record {
                  tidy = t;
                  same = refl;
                  kept = λ k h. h;
                  added = λ k h. elim (contains-cons k n [] h) [
                    | inl q ↦ subst (λ x. In x m.visited) (sym q) old
                    | inr nowhere ↦ absurd (unfold contains in ground arith)
                  ];
                }))
          | inr new ↦
              rw (idle, new, visit)
                (finish m n idle (
                  first_true-Outcome (visit next fuel) (next n) (n ∷ stack)
                    (λ b h.
                      visit-Outcome fuel b (n ∷ stack) (closed n b there h)
                        (omega (
                          arith,
                          outside_less n stack nodes there
                              (subst (λ v. contains n v ≡ false) e idle),
                        ))
                        (λ k under. elim (contains-cons k n stack under) [
                          | inl q ↦ subst (λ x. Leads next x b) (sym q) (edge h)
                          | inr older ↦ Leads-trans next (above k older) (edge h)
                        ]))
                    (record m { visiting = n ∷ m.visiting }) (ap (λ v. n ∷ v) e)
                    (Tidy-mark m n new t)))
        ]
      ]

  all_visited : Outcome no_marks nodes (first_true (visit next (suc (length nodes))) nodes no_marks)
  all_visited =
      first_true-Outcome (visit next (suc (length nodes))) nodes []
        (λ n there.
          visit-Outcome (suc (length nodes)) n [] there (omega (arith, outside-le-length [] nodes))
            (λ k h. absurd (unfold contains in ground arith)))
        no_marks refl
        (record {
          apart = λ k h g. unfold contains in ground arith;
          onward = λ k j h g. absurd (unfold contains in ground arith);
          no_cycle = λ k h c. unfold contains in ground arith;
        })

  -- what the search answers, by its outcome
  pub data CycleAnswer : Option Bool → Type 0 where
    cycle : (k : String) → Leads next k k → CycleAnswer (some true)
    acyclic : ((k : String) → In k nodes → Leads next k k → ⊥) → CycleAnswer (some false)

  CycleAnswer-Outcome :
      {r : Option (Bool × Marks)}
      → Outcome no_marks nodes r
      → CycleAnswer (elim r as (λ _. Option Bool) [ none ↦ none | some (answer, _) ↦ some answer ])
  CycleAnswer-Outcome (found k c) = cycle k c
  CycleAnswer-Outcome (passed p) = acyclic (λ k h c. p.tidy.no_cycle k (p.added k h) c)

-- On keys whose dependencies are among them the search for a cycle ends within its fuel: it answers
-- true where some key depends on itself through one or more edges, and false where no key does.
pub cyclic_decides :
    (next : String → List String) (nodes : List String)
    (closed : (a b : String) → In a nodes → In b (next a) → In b nodes)
    → CycleAnswer next nodes closed (cyclic next nodes)
unfolding cyclic
cyclic_decides next nodes closed =
    CycleAnswer-Outcome next nodes closed (all_visited next nodes closed)
