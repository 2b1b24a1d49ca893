-- ===== src/Compile/WorkGraph/Sound.antt =====
-- The work graph of a plan that compilePlan of internal/goalcompile/compile.go takes.
use xgoal.Prelude.{
  ◌≡◌, sym, subst, ◌≢◌, ◌⊎◌, inl, inr, String, string_eq, Bool, true, false, not, Option, none,
  List, [], ◌∷◌, contains, map, arith, Bool-cases, All,
}
use xgoal.Prelude.Checks.{first_error-none, refuse-none}
use xgoal.Policy.Paths.{Text, codes}
use xgoal.Compile.Graph.{reachable}
use xgoal.Compile.Graph.Paths.{In, contains-head, contains-tail, Leads}
use xgoal.Compile.Graph.Cycles
use xgoal.Compile.Graph.Cycles.{cyclic_decides}
use xgoal.Compile.Graph.Reachable
use xgoal.Compile.Graph.Reachable.{reachable_decides}
use xgoal.Compile.Overlap.Disjoint.{IsPlain, Apart, no_overlap-Apart}
use xgoal.Compile.Proposal.{Contract, Plan, PlanWork, CompileError}
use xgoal.Compile.WorkGraph.{
  keys_of, criterion_ids, dependents, first_outside, item_checks, items_error, covered_by,
  is_some_true, is_some_false, are_ordered, conflict_with, conflict_among, plan_checks, plan_error,
}

-- the dependents of a key are keys of the plan
dependents_closed :
    (items : List PlanWork) (a b : String) → In b (dependents items a) → In b (keys_of items)
unfolding dependents contains
dependents_closed [] a b h = h
dependents_closed (w ∷ ws) a b h = elim (Bool-cases (contains a w.depends_on)) [
  | inl there ↦ ground (arith, dependents_closed ws a b)
  | inr other ↦ ground (arith, dependents_closed ws a b)
]

pub closed_graph :
    (items : List PlanWork) (a b : String)
    → In a (keys_of items)
    → In b (dependents items a)
    → In b (keys_of items)
closed_graph items a b there h = dependents_closed items a b h

pub first_outside-none :
    (e : String → CompileError) (set vs : List String)
    → first_outside e set vs ≡ none
    → All (λ v. In v set) vs
unfolding first_outside
first_outside-none e set [] h = tt
first_outside-none e set (v ∷ vs) h = (ground arith, first_outside-none e set vs (ground arith))

-- the items after one have other keys
keys_fresh :
    (trusted criteria seen : List String) (k : String) (ws : List PlanWork)
    → items_error trusted criteria seen ws ≡ none
    → In k seen
    → All (λ (w : PlanWork). w.client_key ≢ k) ws
unfolding items_error
keys_fresh trusted criteria seen k [] h there = tt
keys_fresh trusted criteria seen k (w ∷ ws) h there =
    let later = items_error trusted criteria (w.client_key ∷ seen) ws in
    let checks = (first_error-none (item_checks trusted criteria seen w later) h).1 in
    let new = refuse-none _ _ checks.0 in
    (
      λ same. absurd (ground (arith, subst (λ x. In x seen) (sym same) there)),
      keys_fresh trusted criteria (w.client_key ∷ seen) k ws checks.1.1.1.1.0
          (contains-tail k w.client_key seen there),
    )

-- no key of the plan leads to itself
pub IsAcyclic : List PlanWork → Type 0
IsAcyclic items = (k : String) → In k (keys_of items) → Leads (dependents items) k k → ⊥

IsAcyclic-verdict :
    (items : List PlanWork) {r : Option Bool}
    → Cycles.CycleAnswer (dependents items) (keys_of items) (closed_graph items) r
    → is_some_false r ≡ true
    → IsAcyclic items
unfolding IsAcyclic
IsAcyclic-verdict items (Cycles.cycle k c) h = absurd (ground arith)
IsAcyclic-verdict items (Cycles.acyclic free) h = free

-- what the checks say of a plan's items
pub record IsWorkGraph (c : Contract) (items : List PlanWork) : Type 0 where
  pub no_cycle : IsAcyclic items
  pub covered : All (λ k. In k (covered_by items)) (criterion_ids c)

not-false : {b : Bool} → not b ≡ false → b ≡ true
not-false h = ground arith

-- A plan that compilePlan takes has no key that leads to itself through the dependencies, and each
-- criterion of the contract is named by a required item.
pub plan-IsWorkGraph :
    (trusted : List String) (c : Contract) (p : Plan)
    → plan_error trusted c p ≡ none
    → IsWorkGraph c p.work_items
unfolding plan_error
plan-IsWorkGraph trusted c p h =
    let checks = (first_error-none (plan_checks trusted c p) h).1.1 in
    record {
      no_cycle =
          IsAcyclic-verdict p.work_items
            (cyclic_decides (dependents p.work_items) (keys_of p.work_items)
              (closed_graph p.work_items))
            (not-false (refuse-none _ _ checks.1.1.0));
      covered = first_outside-none _ _ _ checks.0;
    }

-- The items name only validators that are allowed.
items-InAllowed :
    (allowed criteria seen : List String) (ws : List PlanWork)
    → items_error allowed criteria seen ws ≡ none
    → All (λ (w : PlanWork). All (λ v. In v allowed) w.validators) ws
unfolding items_error
items-InAllowed allowed criteria seen [] h = tt
items-InAllowed allowed criteria seen (w ∷ ws) h =
    let later = items_error allowed criteria (w.client_key ∷ seen) ws in
    let checks = first_error-none (item_checks allowed criteria seen w later) h in
    (
      first_outside-none _ _ _ checks.1.1.1.0,
      items-InAllowed allowed criteria (w.client_key ∷ seen) ws checks.1.1.1.1.1.0,
    )

pub plan-InAllowed :
    (allowed : List String) (c : Contract) (p : Plan)
    → plan_error allowed c p ≡ none
    → All (λ (w : PlanWork). All (λ v. In v allowed) w.validators) p.work_items
unfolding plan_error
plan-InAllowed allowed c p h =
    items-InAllowed allowed (criterion_ids c) [] p.work_items
      (first_error-none (plan_checks allowed c p) h).1.0

-- one of the two keys leads to the other
abbrev pub Ordered : List PlanWork → PlanWork → PlanWork → Type 0
Ordered items left right =
    Leads (dependents items) left.client_key right.client_key
    ⊎ Leads (dependents items) right.client_key left.client_key

Leads-verdict :
    (items : List PlanWork) (target n : String) {r : Option Bool}
    → n ≢ target
    → Reachable.PathAnswer (dependents items) (keys_of items) (closed_graph items) target n r
    → is_some_true r ≡ true
    → Leads (dependents items) n target
Leads-verdict items target n other (Reachable.reached (inl e)) h = absurd (other e)
Leads-verdict items target n other (Reachable.reached (inr p)) h = p
Leads-verdict items target n other (Reachable.out_of_reach never) h = absurd (ground arith)

are_ordered-Ordered :
    (items : List PlanWork) (left right : PlanWork)
    → In left.client_key (keys_of items)
    → In right.client_key (keys_of items)
    → right.client_key ≢ left.client_key
    → are_ordered items left right ≡ true
    → Ordered items left right
unfolding are_ordered
are_ordered-Ordered items left right l r other h =
    let next = dependents items in
    let nodes = keys_of items in
    elim (Bool-cases (is_some_true (reachable next nodes left.client_key right.client_key))) [
      | inl on ↦ inl (
          Leads-verdict items right.client_key left.client_key (λ e. other (sym e))
            (reachable_decides next nodes (closed_graph items) right.client_key left.client_key l)
            on)
      | inr off ↦ inr (
          Leads-verdict items left.client_key right.client_key other
            (reachable_decides next nodes (closed_graph items) left.client_key right.client_key r)
            (ground arith))
    ]

module _ (segment_matches : Text → Text → Bool) where
  -- the write scopes of an item are plain
  abbrev pub WritesPlain : PlanWork → Type 0
  WritesPlain w = All (IsPlain segment_matches) (map codes w.write_scope)

  -- no path fits write scopes of both items
  abbrev pub WritesApart : PlanWork → PlanWork → Type 0
  WritesApart left right =
      All (λ a. All (Apart segment_matches a) (map codes right.write_scope))
        (map codes left.write_scope)

  pub Separate : List PlanWork → PlanWork → PlanWork → Type 0
  Separate items left right = Ordered items left right ⊎ WritesApart left right

  -- each item and every later one are separate
  pub AllSeparate : List PlanWork → List PlanWork → Type 0
  AllSeparate items [] = Unit
  AllSeparate items (w ∷ ws) = All (Separate items w) ws × AllSeparate items ws

  conflict_with-Separate :
      (items : List PlanWork) (left : PlanWork) (rights : List PlanWork)
      → In left.client_key (keys_of items)
      → All (λ (w : PlanWork). In w.client_key (keys_of items)) rights
      → All (λ (w : PlanWork). w.client_key ≢ left.client_key) rights
      → WritesPlain left
      → All WritesPlain rights
      → conflict_with items left rights ≡ none
      → All (Separate items left) rights
  unfolding conflict_with Separate
  conflict_with-Separate items left [] l there new pl pr h = tt
  conflict_with-Separate items left (right ∷ rights) l there new pl pr h =
      let later = conflict_with-Separate items left rights l there.1 new.1 pl pr.1 in
      elim (Bool-cases (are_ordered items left right)) [
        | inl on ↦
            (inl (are_ordered-Ordered items left right l there.0 new.0 on), later (ground arith))
        | inr off ↦ (
          inr (no_overlap-Apart segment_matches _ _ pl pr.0 (ground arith)),
          later (ground arith),
        )
      ]

  conflict_among-Separate :
      (trusted criteria seen : List String) (items ws : List PlanWork)
      → items_error trusted criteria seen ws ≡ none
      → All (λ (w : PlanWork). In w.client_key (keys_of items)) ws
      → All WritesPlain ws
      → conflict_among items ws ≡ none
      → AllSeparate items ws
  unfolding conflict_among AllSeparate items_error
  conflict_among-Separate trusted criteria seen items [] e there plain h = tt
  conflict_among-Separate trusted criteria seen items (w ∷ ws) e there plain h =
      let later = items_error trusted criteria (w.client_key ∷ seen) ws in
      let from_items =
        (first_error-none (item_checks trusted criteria seen w later) e).1.1.1.1.1.0 in
      let from_pairs =
        first_error-none (conflict_with items w ws ∷ conflict_among items ws ∷ []) h in
      (
        conflict_with-Separate items w ws there.0 there.1
            (keys_fresh trusted criteria (w.client_key ∷ seen) w.client_key ws from_items
              (contains-head w.client_key seen))
            plain.0 plain.1 from_pairs.0,
        conflict_among-Separate trusted criteria (w.client_key ∷ seen) items ws from_items there.1
            plain.1 from_pairs.1.0,
      )

keys_there :
    (items ws : List PlanWork)
    → ((k : String) → In k (keys_of ws) → In k (keys_of items))
    → All (λ (w : PlanWork). In w.client_key (keys_of items)) ws
keys_there items [] sub = tt
keys_there items (w ∷ ws) sub = (
  sub w.client_key (contains-head w.client_key (keys_of ws)),
  keys_there items ws (λ k h. sub k (contains-tail k w.client_key (keys_of ws) h)),
)

-- Of two items of a plan that compilePlan takes, one depends on the other through one or more
-- dependencies or no path fits a write scope of each, if in the write scopes a segment without a
-- star matches nothing but itself.
pub plan-AllSeparate :
    (segment_matches : Text → Text → Bool) (trusted : List String) (c : Contract) (p : Plan)
    → All (WritesPlain segment_matches) p.work_items
    → plan_error trusted c p ≡ none
    → AllSeparate segment_matches p.work_items p.work_items
unfolding plan_error
plan-AllSeparate segment_matches trusted c p plain h =
    let checks = (first_error-none (plan_checks trusted c p) h).1 in
    conflict_among-Separate segment_matches trusted (criterion_ids c) [] p.work_items p.work_items
      checks.0 (keys_there p.work_items p.work_items (λ k there. there)) plain checks.1.1.1.1.0
