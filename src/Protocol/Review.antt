-- ===== src/Protocol/Review.antt =====
-- The review packet and the review result of internal/protocol/review.go. The decoding of a result
-- from JSON is left out; canonical hashes are parameters.
pub mod Distinct
use native.Mathlib.Decide.{ℕ_discrete}
use xgoal.Prelude.{
  ℕ, ◌^◌, String, string_eq, Bool, true, false, not, ◌&&◌, ◌||◌, Option, none, some, List, [], ◌∷◌,
  ◌==◌, nat_eq, leb, decide, contains, is_empty, if◌then◌else◌,
}
use xgoal.Prelude.Word.{Int64}
use xgoal.Prelude.Exec.{Result, ok, err}
use xgoal.Prelude.Checks.{first_error, refuse}
use xgoal.Policy.Paths.{Text, codes}
use xgoal.Protocol.Harness.{HarnessInput, harness_error}
use xgoal.Protocol.Labels.{
  valid_label, valid_sha256, valid_git_object_id, valid_bundle_path, clean_absolute,
}

pub record ReviewReceiptRef : Type 0 where
  pub id : String
  pub path : String
  pub hash : String

-- GoalContract is the text of the embedded JSON, empty if there is none
pub record ReviewPacket : Type 0 where
  pub raw_goal : String
  pub goal_contract : String
  pub harness : Option HarnessInput
  pub protocol_version : String
  pub id : String
  pub goal_revision_hash : String
  pub plan_revision_hash : String
  pub work_item_id : String
  pub implementation_attempt_id : String
  pub implementation_profile_id : String
  pub implementation_session_id : String
  pub base_tree : String
  pub candidate_tree : String
  pub config_hash : String
  pub workspace : String
  pub patch_bundle_path : String
  pub patch_bundle_hash : String
  pub validator_receipts : List ReviewReceiptRef
  pub required_checks : List String
  pub reviewer_profile_id : String

pub data ReviewStatus : Type 0 where
  approved changes_requested blocked : ReviewStatus
  unknown : String → ReviewStatus

pub data FindingSeverity : Type 0 where
  blocker high medium low note : FindingSeverity
  unknown : String → FindingSeverity

pub data FindingCategory : Type 0 where
  correctness regression test_gap scope security maintainability : FindingCategory
  unknown : String → FindingCategory

pub record ReviewFinding : Type 0 where
  pub id : String
  pub severity : FindingSeverity
  pub category : FindingCategory
  pub path : String
  pub line : Int64
  pub claim : String
  pub basis : String
  pub recommended_fix : String

pub record ReviewResult : Type 0 where
  pub protocol_version : String
  pub review_status : ReviewStatus
  pub findings : List ReviewFinding
  pub suggested_validators : List String

pub data ReviewError : Type 0 where
  contract_refused harness_refused missing_identity missing_checks : ReviewError
  invalid_receipt invalid_check invalid_status no_findings : ReviewError
  invalid_suggestion not_hashed : ReviewError
  repeated_receipt repeated_check repeated_finding repeated_suggestion : String → ReviewError
  invalid_finding line_without_path : String → ReviewError

-- validReviewStatus, validFindingSeverity and validFindingCategory
abbrev pub valid_review_status : ReviewStatus → Bool
valid_review_status (ReviewStatus.unknown _) = false
valid_review_status _ = true

abbrev pub valid_finding_severity : FindingSeverity → Bool
valid_finding_severity (FindingSeverity.unknown _) = false
valid_finding_severity _ = true

abbrev pub valid_finding_category : FindingCategory → Bool
valid_finding_category (FindingCategory.unknown _) = false
valid_finding_category _ = true

-- What the checks take from other code: whether an embedded contract is JSON with the expected hash,
-- the normal form NFC, and the canonical hashes.
pub record ReviewCode : Type 0 where
  pub contract_fits : String → String → Bool
  pub nfc : Text → Text
  pub packet_hash_of : ReviewPacket → Option String
  pub result_hash_of : ReviewResult → Option String

-- the loop over ValidatorReceipts
unfoldable pub receipts_error : List String → List ReviewReceiptRef → Option ReviewError
unfolding valid_label clean_absolute valid_sha256 contains
receipts_error seen [] = none
receipts_error seen (r ∷ rs) =
    let rest = receipts_error (r.id ∷ seen) rs in
    if not (valid_label r.id) || not (clean_absolute (codes r.path)) || not (valid_sha256 r.hash)
    then some invalid_receipt
    else if contains r.id seen
    then some (repeated_receipt r.id)
    else rest

-- the loops over RequiredChecks and SuggestedValidators
unfoldable pub labels_error :
    ReviewError → (String → ReviewError) → List String → List String → Option ReviewError
unfolding valid_label contains
labels_error invalid repeated seen [] = none
labels_error invalid repeated seen (v ∷ vs) =
    let rest = labels_error invalid repeated (v ∷ seen) vs in
    if not (valid_label v)
    then some invalid
    else if contains v seen
    then some (repeated v)
    else rest

abbrev pub is_changes_requested : ReviewStatus → Bool
is_changes_requested ReviewStatus.changes_requested = true
is_changes_requested _ = false

module _ (code : ReviewCode) where
  -- validateEmbeddedGoalContract and the optional harness input
  abbrev pub embedded_error : ReviewPacket → Option ReviewError
  embedded_error p =
      refuse
        (not (p.goal_contract == "")
          && not (code.contract_fits p.goal_contract p.goal_revision_hash))
        contract_refused

  abbrev pub harness_refusal : Option HarnessInput → Option ReviewError
  harness_refusal none = none
  harness_refusal (some h) = elim (harness_error code.nfc h) [
    | none ↦ none
    | some e ↦ some harness_refused
  ]

  abbrev pub review_packet_checks : ReviewPacket → List (Option ReviewError)
  review_packet_checks p =
      embedded_error p
      ∷ harness_refusal p.harness
      ∷ refuse
          (not (p.protocol_version == "xgoal.review-packet/v1alpha1")
            || not (valid_label p.id)
            || not (valid_sha256 p.goal_revision_hash)
            || not (valid_sha256 p.plan_revision_hash)
            || not (valid_label p.work_item_id)
            || not (valid_label p.implementation_attempt_id)
            || not (valid_label p.implementation_profile_id)
            || not (valid_label p.implementation_session_id)
            || not (valid_git_object_id p.base_tree)
            || not (valid_git_object_id p.candidate_tree)
            || p.base_tree == p.candidate_tree
            || not (valid_sha256 p.config_hash)
            || not (clean_absolute (codes p.workspace))
            || not (clean_absolute (codes p.patch_bundle_path))
            || not (valid_sha256 p.patch_bundle_hash)
            || not (valid_label p.reviewer_profile_id))
          missing_identity
      ∷ refuse (is_empty p.validator_receipts || is_empty p.required_checks) missing_checks
      ∷ receipts_error [] p.validator_receipts
      ∷ labels_error invalid_check repeated_check [] p.required_checks
      ∷ []

  -- ReviewPacket.Validate
  unfoldable pub review_packet_error : ReviewPacket → Option ReviewError
  unfolding first_error receipts_error labels_error harness_error valid_label valid_sha256
      valid_git_object_id clean_absolute
  review_packet_error p = first_error (review_packet_checks p)

  -- the fields of a finding are refused
  unfoldable pub is_invalid_finding : ReviewFinding → Bool
  unfolding valid_label valid_bundle_path
  is_invalid_finding f =
      not (valid_label f.id)
      || not (valid_finding_severity f.severity)
      || not (valid_finding_category f.category)
      || (not (f.path == "") && not (valid_bundle_path code.nfc (codes f.path)))
      || leb (2 ^ 63) f.line
      || not (valid_label f.claim)
      || not (valid_label f.basis)
      || not (valid_label f.recommended_fix)

  -- the loop over Findings
  unfoldable pub findings_error : List String → List ReviewFinding → Option ReviewError
  unfolding is_invalid_finding contains
  findings_error seen [] = none
  findings_error seen (f ∷ fs) =
      let rest = findings_error (f.id ∷ seen) fs in
      if is_invalid_finding f
      then some (invalid_finding f.id)
      else if f.path == "" && not (f.line == 0)
      then some (line_without_path f.id)
      else if contains f.id seen
      then some (repeated_finding f.id)
      else rest

  abbrev pub review_result_checks : ReviewResult → List (Option ReviewError)
  review_result_checks r =
      refuse
        (not (r.protocol_version == "xgoal.review-result/v1alpha1")
          || not (valid_review_status r.review_status))
        invalid_status
      ∷ refuse (is_changes_requested r.review_status && is_empty r.findings) no_findings
      ∷ findings_error [] r.findings
      ∷ labels_error invalid_suggestion repeated_suggestion [] r.suggested_validators
      ∷ []

  -- ReviewResult.Validate
  unfoldable pub review_result_error : ReviewResult → Option ReviewError
  unfolding first_error findings_error labels_error
  review_result_error r = first_error (review_result_checks r)

  -- ReviewPacket.Hash and ReviewResult.Hash
  unfoldable pub review_packet_hash : ReviewPacket → Result ReviewError String
  unfolding review_packet_error
  review_packet_hash p = elim (review_packet_error p) [
    | some e ↦ err e
    | none ↦ elim (code.packet_hash_of p) [ none ↦ err not_hashed | some h ↦ ok h ]
  ]

  unfoldable pub review_result_hash : ReviewResult → Result ReviewError String
  unfolding review_result_error
  review_result_hash r = elim (review_result_error r) [
    | some e ↦ err e
    | none ↦ elim (code.result_hash_of r) [ none ↦ err not_hashed | some h ↦ ok h ]
  ]
