-- ===== src/Compile/WorkGraph.antt =====
-- compilePlan of internal/goalcompile/compile.go: the checks of a proposed plan, and its work items
-- and dependencies.
pub mod Sound
use xgoal.Prelude.{
  ℕ, String, string_eq, Bool, true, false, not, ◌&&◌, ◌||◌, Option, none, some, List, [], ◌∷◌, ◌++◌,
  ◌==◌, nat_eq, ltb, contains, length, map, is_empty, if◌then◌else◌,
}
use xgoal.Prelude.Checks.{first_error, refuse}
use xgoal.Prelude.Exec.{Result, ok, err}
use xgoal.Domain.Role
use xgoal.Domain.Work.{WorkState}
use xgoal.Domain.Model.{WorkItem}
use xgoal.Policy.Paths.{codes}
use xgoal.Protocol.Text.{is_blank}
use xgoal.Protocol.Harness.{byte_length}
use xgoal.Compile.Texts.{safe_id, valid_work_scope, sorted, sort_by}
use xgoal.Compile.Graph.{cyclic, reachable}
use xgoal.Compile.Overlap.{scopes_may_overlap}
use xgoal.Compile.Proposal.{
  Contract, AcceptanceCriterion, Plan, PlanWork, CompileError, CompileCode, no_work_graph,
  cyclic_graph, incomplete_work, duplicate_key, invalid_scope, untrusted_validator,
  unknown_criterion, uncovered_criterion, invalid_dependency, conflicting_scopes,
}

-- domain.WorkDependency; its type is always HARD
pub record WorkDependency : Type 0 where
  pub from_id : String
  pub to_id : String

abbrev pub keys_of : List PlanWork → List String
keys_of items = map (λ (w : PlanWork). w.client_key) items

abbrev pub criterion_ids : Contract → List String
criterion_ids c = map (λ (x : AcceptanceCriterion). x.id) c.acceptance_criteria

-- adjacency[key]: the items that depend on the key
unfoldable pub dependents : List PlanWork → String → List String
unfolding contains
dependents [] key = []
dependents (w ∷ ws) key =
    let rest = dependents ws key in if contains key w.depends_on then w.client_key ∷ rest else rest

unfoldable pub first_bad_scope : List String → Option CompileError
unfolding valid_work_scope
first_bad_scope [] = none
first_bad_scope (s ∷ ss) =
    let rest = first_bad_scope ss in
    if not (valid_work_scope (codes s)) then some (invalid_scope s) else rest

-- the first value that is not in the set
unfoldable pub first_outside :
    (String → CompileError) → List String → List String → Option CompileError
unfolding contains
first_outside e set [] = none
first_outside e set (v ∷ vs) =
    let rest = first_outside e set vs in if contains v set then rest else some (e v)

abbrev pub is_incomplete : PlanWork → Bool
is_incomplete w =
    not (safe_id w.client_key)
    || is_blank w.title
    || is_blank w.objective
    || ltb 200 (byte_length (codes w.title))
    || ltb 4000 (byte_length (codes w.objective))
    || is_empty w.read_scope
    || is_empty w.write_scope
    || is_empty w.acceptance_criteria
    || is_empty w.validators
    || not (Role.valid w.recommended_role)

-- the checks of one work item, before those of the items after it
abbrev pub item_checks :
    List String
    → List String
    → List String
    → PlanWork
    → Option CompileError
    → List (Option CompileError)
item_checks trusted criteria seen w later =
    refuse (is_incomplete w) (incomplete_work w.client_key)
    ∷ refuse (contains w.client_key seen) (duplicate_key w.client_key)
    ∷ first_bad_scope (w.read_scope ++ w.write_scope)
    ∷ first_outside untrusted_validator trusted w.validators
    ∷ first_outside unknown_criterion criteria w.acceptance_criteria
    ∷ later
    ∷ []

-- the first loop over the work items, on the trusted validators and the ids of the criteria
unfoldable pub items_error :
    List String → List String → List String → List PlanWork → Option CompileError
unfolding safe_id is_blank byte_length Role.valid contains first_bad_scope first_outside first_error
items_error trusted criteria seen [] = none
items_error trusted criteria seen (w ∷ ws) =
    first_error
      (item_checks trusted criteria seen w (items_error trusted criteria (w.client_key ∷ seen) ws))

-- the criteria that a required item names
unfoldable pub covered_by : List PlanWork → List String
covered_by [] = []
covered_by (w ∷ ws) =
    let rest = covered_by ws in if w.required then w.acceptance_criteria ++ rest else rest

-- the loop over the dependencies of an item
unfoldable pub first_bad_dependency : List String → String → List String → Option CompileError
unfolding contains
first_bad_dependency keys key [] = none
first_bad_dependency keys key (p ∷ ps) =
    let rest = first_bad_dependency keys key ps in
    if not (contains p keys) || p == key then some (invalid_dependency p) else rest

unfoldable pub dependencies_error : List String → List PlanWork → Option CompileError
unfolding first_bad_dependency first_error
dependencies_error keys [] = none
dependencies_error keys (w ∷ ws) =
    first_error
      (first_bad_dependency keys w.client_key w.depends_on ∷ dependencies_error keys ws ∷ [])

abbrev pub is_some_true : Option Bool → Bool
is_some_true none = false
is_some_true (some b) = b

abbrev pub is_some_false : Option Bool → Bool
is_some_false none = false
is_some_false (some b) = not b

-- the two calls of reachable for a pair of items
unfoldable pub are_ordered : List PlanWork → PlanWork → PlanWork → Bool
unfolding reachable dependents
are_ordered items left right =
    is_some_true (reachable (dependents items) (keys_of items) left.client_key right.client_key)
    || is_some_true (reachable (dependents items) (keys_of items) right.client_key left.client_key)

-- the loop over the items after one
unfoldable pub conflict_with : List PlanWork → PlanWork → List PlanWork → Option CompileError
unfolding are_ordered scopes_may_overlap
conflict_with items left [] = none
conflict_with items left (right ∷ rights) =
    let rest = conflict_with items left rights in
    if are_ordered items left right
    then rest
    else if scopes_may_overlap (map codes left.write_scope) (map codes right.write_scope)
    then some (conflicting_scopes left.client_key)
    else rest

unfoldable pub conflict_among : List PlanWork → List PlanWork → Option CompileError
unfolding conflict_with first_error
conflict_among items [] = none
conflict_among items (left ∷ rights) =
    first_error (conflict_with items left rights ∷ conflict_among items rights ∷ [])

-- the checks of compilePlan; a search that ran out of fuel would count as a cycle
abbrev pub plan_checks : List String → Contract → Plan → List (Option CompileError)
plan_checks trusted c p =
    refuse (is_blank p.summary || is_empty p.work_items || ltb 64 (length p.work_items))
      no_work_graph
    ∷ items_error trusted (criterion_ids c) [] p.work_items
    ∷ first_outside uncovered_criterion (covered_by p.work_items) (criterion_ids c)
    ∷ dependencies_error (keys_of p.work_items) p.work_items
    ∷ refuse (not (is_some_false (cyclic (dependents p.work_items) (keys_of p.work_items))))
        cyclic_graph
    ∷ conflict_among p.work_items p.work_items
    ∷ []

unfoldable pub plan_error : List String → Contract → Plan → Option CompileError
unfolding first_error items_error first_outside covered_by dependencies_error dependents cyclic
    conflict_among
plan_error trusted c p = first_error (plan_checks trusted c p)

module _ (code : CompileCode) (revision_id plan_id : String) where
  -- opaqueID("work", revisionID + "\x00" + key)
  unfoldable pub work_id : String → String
  work_id key = code.opaque_id (codes revision_id ++ (0 ∷ codes key))

  unfoldable pub compile_work : PlanWork → WorkItem
  unfolding sorted work_id
  compile_work w = record {
    id = work_id w.client_key;
    plan_revision_id = plan_id;
    state = WorkState.pending;
    title = w.title;
    objective = w.objective;
    read_scope = sorted w.read_scope;
    write_scope = sorted w.write_scope;
    acceptance_criteria = sorted w.acceptance_criteria;
    validator_ids = sorted w.validators;
    recommended_role = w.recommended_role;
    required = w.required;
    version = 1;
  }

  unfoldable pub compile_dependencies : List PlanWork → List WorkDependency
  unfolding work_id
  compile_dependencies [] = []
  compile_dependencies (w ∷ ws) =
      map (λ p. record { from_id = work_id p; to_id = work_id w.client_key }) w.depends_on
      ++ compile_dependencies ws

  unfoldable pub compile_plan :
      List String → Contract → Plan → Result CompileError (List WorkItem × List WorkDependency)
  unfolding plan_error compile_work compile_dependencies sort_by
  compile_plan trusted c p = elim (plan_error trusted c p) [
    | some e ↦ err e
    | none ↦ ok (
      sort_by (λ (w : WorkItem). codes w.id) (map compile_work p.work_items),
      sort_by (λ (d : WorkDependency). codes d.from_id ++ codes d.to_id)
          (compile_dependencies p.work_items),
    )
  ]
