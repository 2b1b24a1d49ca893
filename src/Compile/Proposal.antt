-- ===== src/Compile/Proposal.antt =====
-- The contract and the plan that a planner proposes, of internal/goalcompile/compile.go and
-- internal/validationplan, with Contract.Validate and normalizeContract.
use xgoal.Prelude.{
  ℕ, String, string_eq, Bool, true, false, not, ◌&&◌, ◌||◌, Option, none, some, List, [], ◌∷◌, ◌==◌,
  nat_eq, ltb, leb, contains, length, map, is_empty, if◌then◌else◌,
}
use xgoal.Prelude.Checks.{first_error, refuse}
use xgoal.Domain.Role.{Role}
use xgoal.Policy.Paths.{Text, codes, trim_space, text_eq}
use xgoal.Protocol.Text.{is_blank}
use xgoal.Protocol.Harness.{byte_length, was_seen}
use xgoal.Compile.Texts.{safe_id, unique_non_blank, sorted, sort_by}

-- validationplan.Generated
pub record Generated : Type 0 where
  pub id : String
  pub description : String
  pub runtime : String
  pub script : String
  pub timeout_seconds : ℕ

-- validationplan.Input
pub record AcceptanceInput : Type 0 where
  pub path : String
  pub mode : String
  pub sha256 : String
  pub content : String

pub record AcceptanceCriterion : Type 0 where
  pub scenario_ids : List String
  pub id : String
  pub statement : String
  pub validators : List String
  pub human_acceptance : Bool

pub record CompletionPolicy : Type 0 where
  pub require_all_required_items : Bool
  pub require_no_blocking_findings : Bool
  pub require_final_validation : Bool

pub record Contract : Type 0 where
  pub generated_validators : List Generated
  pub acceptance_inputs : List AcceptanceInput
  pub summary : String
  pub rationale : String
  pub in_scope : List String
  pub out_of_scope : List String
  pub constraints : List String
  pub acceptance_criteria : List AcceptanceCriterion
  pub quality_attributes : List String
  pub human_gates : List String
  pub completion_policy : CompletionPolicy

pub record PlanWork : Type 0 where
  pub client_key : String
  pub title : String
  pub objective : String
  pub depends_on : List String
  pub read_scope : List String
  pub write_scope : List String
  pub acceptance_criteria : List String
  pub validators : List String
  pub recommended_role : Role
  pub required : Bool

pub record Plan : Type 0 where
  pub summary : String
  pub work_items : List PlanWork

pub data CompileError : Type 0 where
  invalid_identities semantic_gaps weak_policy repeated_entries : CompileError
  generated_refused inputs_refused : CompileError
  scope_contradiction invalid_criterion duplicate_criterion : String → CompileError
  untrusted_validator not_final unknown_scenario missing_business_validator : String → CompileError
  unmapped_scenario not_change : String → CompileError
  no_work_graph cyclic_graph : CompileError
  incomplete_work duplicate_key invalid_scope unknown_criterion : String → CompileError
  uncovered_criterion invalid_dependency conflicting_scopes : String → CompileError
  replaces_validator namespace_collision covers_nothing : String → CompileError
  hash_failed several_capabilities : CompileError

-- a character of the ids of generated validators
unfoldable pub is_id_character : ℕ → Bool
is_id_character c =
    (leb b'a' c && leb c b'z')
    || (leb b'A' c && leb c b'Z')
    || (leb b'0' c && leb c b'9')
    || c == b'_'
    || c == b'-'

unfoldable pub all_id_characters : Text → Bool
unfolding is_id_character
all_id_characters [] = true
all_id_characters (c ∷ s) = is_id_character c && all_id_characters s

unfoldable pub has_nul : Text → Bool
has_nul [] = false
has_nul (c ∷ s) = c == 0 || has_nul s

-- the loop of validationplan.ValidateGenerated
unfoldable pub generated_valid_from : List String → List Generated → Bool
unfolding all_id_characters has_nul is_blank byte_length contains
generated_valid_from seen [] = true
generated_valid_from seen (g ∷ gs) =
    let rest = generated_valid_from (g.id ∷ seen) gs in
    if g.id == ""
      || ltb 160 (byte_length (codes g.id))
      || not (all_id_characters (codes g.id))
      || contains g.id seen
      || not (g.runtime == "sh" || g.runtime == "node" || g.runtime == "python3")
      || is_blank g.description
      || ltb 8000 (byte_length (codes g.description))
      || has_nul (codes g.description)
      || is_blank g.script
      || ltb 65536 (byte_length (codes g.script))
      || has_nul (codes g.script)
      || ltb g.timeout_seconds 1
      || ltb 120 g.timeout_seconds
    then false
    else rest

unfoldable pub generated_valid : List Generated → Bool
unfolding generated_valid_from
generated_valid gs = if ltb 16 (length gs) then false else generated_valid_from [] gs

-- What the checks take from other code: strings.ToLower, validationplan.ValidateInputs, the
-- identifiers and the two canonical hashes.
pub record CompileCode : Type 0 where
  pub to_lower : Text → Text
  pub inputs_valid : List AcceptanceInput → Bool
  pub opaque_id : Text → String
  pub contract_hash : Contract → Option String
  pub plan_hash : Plan → Option String

module _ (code : CompileCode) where
  unfoldable pub folded : String → Text
  unfolding trim_space
  folded value = code.to_lower (trim_space (codes value))

  -- the loop over InScope
  unfoldable pub contradiction : List Text → List String → Option CompileError
  unfolding folded was_seen
  contradiction out [] = none
  contradiction out (value ∷ values) =
      let rest = contradiction out values in
      if was_seen (folded value) out then some (scope_contradiction value) else rest

  -- the loop over AcceptanceCriteria
  unfoldable pub criteria_error : List String → List AcceptanceCriterion → Option CompileError
  unfolding safe_id is_blank unique_non_blank contains
  criteria_error seen [] = none
  criteria_error seen (c ∷ cs) =
      let rest = criteria_error (c.id ∷ seen) cs in
      if not (safe_id c.id)
        || is_blank c.statement
        || (is_empty c.validators && not c.human_acceptance)
        || not (unique_non_blank c.validators)
        || not (unique_non_blank c.scenario_ids)
      then some (invalid_criterion c.id)
      else if contains c.id seen
      then some (duplicate_criterion c.id)
      else rest

  -- the checks of Contract.Validate
  abbrev pub contract_checks : Contract → List (Option CompileError)
  contract_checks c =
      refuse (not (generated_valid c.generated_validators)) generated_refused
      ∷ refuse (not (code.inputs_valid c.acceptance_inputs)) inputs_refused
      ∷ refuse
          (is_blank c.summary
            || is_blank c.rationale
            || is_empty c.in_scope
            || is_empty c.out_of_scope
            || is_empty c.constraints
            || is_empty c.acceptance_criteria
            || is_empty c.quality_attributes
            || is_empty c.human_gates)
          semantic_gaps
      ∷ refuse
          (not (
            c.completion_policy.require_all_required_items
            && c.completion_policy.require_no_blocking_findings
            && c.completion_policy.require_final_validation))
          weak_policy
      ∷ refuse
          (not (
            unique_non_blank c.in_scope
            && unique_non_blank c.out_of_scope
            && unique_non_blank c.constraints
            && unique_non_blank c.quality_attributes
            && unique_non_blank c.human_gates))
          repeated_entries
      ∷ contradiction (map folded c.out_of_scope) c.in_scope
      ∷ criteria_error [] c.acceptance_criteria
      ∷ []

  -- Contract.Validate
  unfoldable pub contract_error : Contract → Option CompileError
  unfolding first_error contradiction criteria_error generated_valid
  contract_error c = first_error (contract_checks c)

abbrev pub normalize_criterion : AcceptanceCriterion → AcceptanceCriterion
normalize_criterion c = record c {
  validators = sorted c.validators;
  scenario_ids = sorted c.scenario_ids;
}

-- normalizeContract
unfoldable pub normalize_contract : Contract → Contract
unfolding sorted sort_by
normalize_contract c = record c {
  in_scope = sorted c.in_scope;
  out_of_scope = sorted c.out_of_scope;
  constraints = sorted c.constraints;
  quality_attributes = sorted c.quality_attributes;
  human_gates = sorted c.human_gates;
  acceptance_criteria =
      sort_by (λ (x : AcceptanceCriterion). codes x.id)
        (map normalize_criterion c.acceptance_criteria);
}

abbrev pub normalize_work : PlanWork → PlanWork
normalize_work w = record w {
  depends_on = sorted w.depends_on;
  read_scope = sorted w.read_scope;
  write_scope = sorted w.write_scope;
  acceptance_criteria = sorted w.acceptance_criteria;
  validators = sorted w.validators;
}

-- normalizePlan
unfoldable pub normalize_plan : Plan → Plan
unfolding sorted sort_by
normalize_plan p = record p {
  work_items = sort_by (λ (w : PlanWork). codes w.client_key) (map normalize_work p.work_items);
}
