-- ===== src/Protocol/Receipt.antt =====
-- The command receipt and the environment snapshot of internal/protocol/m2.go. Maps of a snapshot are
-- association lists; a hash is taken after the validation, over the canonical hash of the value.
pub mod Names
use native.Mathlib.Decide.{ℕ_discrete}
use xgoal.Prelude.{
  ℕ, String, string_eq, Bool, true, false, not, ◌&&◌, ◌||◌, Option, none, some, List, [], ◌∷◌, ◌==◌,
  nat_eq, ltb, leb, decide, all_of, is_empty, if◌then◌else◌,
}
use xgoal.Prelude.Word.{Int64}
use xgoal.Prelude.Exec.{Result, ok, err}
use xgoal.Prelude.Dict.{Dict}
use xgoal.Prelude.Checks.{first_error, refuse}
use xgoal.Policy.Paths.{Text, codes, Text-discrete, text_eq}
use xgoal.Compile.Texts.{text_leb}
use xgoal.Compile.Proposal.{has_nul}
use xgoal.Protocol.Labels.{
  valid_label, valid_sha256, valid_git_object_id, valid_relative_path, valid_bundle_path,
  unique_non_empty, Stamp, is_utc,
}

pub data CommandResult : Type 0 where
  passed failed timed_out unavailable : CommandResult
  unknown : String → CommandResult

pub record CommandReceipt : Type 0 where
  pub protocol_version : String
  pub id : String
  pub validator_id : String
  pub definition_hash : String
  pub goal_revision_hash : String
  pub config_hash : String
  pub tree_hash : String
  pub argv : List String
  pub cwd : String
  pub environment_hash : String
  pub started_at : Stamp
  pub finished_at : Stamp
  pub exit_code : Int64
  pub stdout_ref : String
  pub stderr_ref : String
  pub output_hash : String
  pub result : CommandResult

pub data ReceiptError : Type 0 where
  wrong_version missing_identity invalid_hash invalid_tree invalid_argument : ReceiptError
  unsafe_ref invalid_times invalid_result wrong_isolation unsorted_names : ReceiptError
  invalid_tool invalid_lockfile not_hashed : ReceiptError

abbrev pub is_known_result : CommandResult → Bool
is_known_result (CommandResult.unknown _) = false
is_known_result _ = true

abbrev is_valid_argument : String → Bool
is_valid_argument a = not (a == "" || has_nul (codes a))

abbrev pub receipt_checks : CommandReceipt → List (Option ReceiptError)
receipt_checks r =
    refuse (not (r.protocol_version == "xgoal.command-receipt/v1alpha1")) wrong_version
    ∷ refuse (not (valid_label r.id) || not (valid_label r.validator_id) || is_empty r.argv)
        missing_identity
    ∷ refuse
        (not (
          all_of valid_sha256 (
            r.definition_hash ∷ r.goal_revision_hash ∷ r.config_hash ∷ r.environment_hash
            ∷ r.output_hash ∷ [])))
        invalid_hash
    ∷ refuse (not (valid_git_object_id r.tree_hash)) invalid_tree
    ∷ refuse (not (all_of is_valid_argument r.argv)) invalid_argument
    ∷ refuse
        (not (valid_relative_path (codes r.cwd) true)
          || not (valid_relative_path (codes r.stdout_ref) false)
          || not (valid_relative_path (codes r.stderr_ref) false))
        unsafe_ref
    ∷ refuse
        (r.started_at.at == 0
          || ltb r.finished_at.at r.started_at.at
          || not (is_utc r.started_at)
          || not (is_utc r.finished_at))
        invalid_times
    ∷ refuse (not (is_known_result r.result)) invalid_result
    ∷ []

-- CommandReceipt.Validate
unfoldable pub receipt_error : CommandReceipt → Option ReceiptError
unfolding first_error valid_label valid_sha256 valid_git_object_id has_nul valid_relative_path
receipt_error r = first_error (receipt_checks r)

pub record EnvironmentSnapshot : Type 0 where
  pub protocol_version : String
  pub id : String
  pub os : String
  pub kernel : String
  pub arch : String
  pub isolation_level : String
  pub git_version : String
  pub base_commit : String
  pub base_tree : String
  pub tool_versions : Dict String String
  pub lockfile_hashes : Dict String String
  pub config_hash : String
  pub goal_revision_hash : String
  pub environment_names : List String
  pub bootstrap_hash : String
  pub captured_at : Stamp

-- sort.StringsAreSorted
unfoldable pub are_sorted : List String → Bool
unfolding text_leb
are_sorted [] = true
are_sorted (v ∷ []) = true
are_sorted (v ∷ w ∷ vs) = text_leb (codes v) (codes w) && are_sorted (w ∷ vs)

abbrev pub snapshot_checks : (Text → Text) → EnvironmentSnapshot → List (Option ReceiptError)
snapshot_checks nfc s =
    refuse (not (s.protocol_version == "xgoal.environment-snapshot/v1alpha1")) wrong_version
    ∷ refuse
        (not (
          all_of valid_label
            (s.id ∷ s.os ∷ s.kernel ∷ s.arch ∷ s.git_version ∷ s.base_commit ∷ s.base_tree ∷ [])))
        missing_identity
    ∷ refuse (not (s.isolation_level == "L0")) wrong_isolation
    ∷ refuse
        (not (valid_sha256 s.config_hash)
          || not (valid_sha256 s.goal_revision_hash)
          || (not (s.bootstrap_hash == "") && not (valid_sha256 s.bootstrap_hash)))
        invalid_hash
    ∷ refuse (not (is_utc s.captured_at)) invalid_times
    ∷ refuse (not (are_sorted s.environment_names) || not (unique_non_empty s.environment_names))
        unsorted_names
    ∷ refuse
        (not (all_of (λ (e : String × String). valid_label e.0 && valid_label e.1) s.tool_versions))
        invalid_tool
    ∷ refuse
        (not (
          all_of (λ (e : String × String). valid_bundle_path nfc (codes e.0) && valid_sha256 e.1)
            s.lockfile_hashes))
        invalid_lockfile
    ∷ []

-- EnvironmentSnapshot.Validate
unfoldable pub snapshot_error : (Text → Text) → EnvironmentSnapshot → Option ReceiptError
unfolding first_error valid_label valid_sha256 are_sorted unique_non_empty valid_bundle_path
snapshot_error nfc s = first_error (snapshot_checks nfc s)

-- CommandReceipt.Hash
unfoldable pub receipt_hash :
    (CommandReceipt → Option String) → CommandReceipt → Result ReceiptError String
unfolding receipt_error
receipt_hash hash r = elim (receipt_error r) [
  | some e ↦ err e
  | none ↦ elim (hash r) [ none ↦ err not_hashed | some h ↦ ok h ]
]

-- EnvironmentSnapshot.Hash
unfoldable pub snapshot_hash :
    (Text → Text)
    → (EnvironmentSnapshot → Option String)
    → EnvironmentSnapshot
    → Result ReceiptError String
unfolding snapshot_error
snapshot_hash nfc hash s = elim (snapshot_error nfc s) [
  | some e ↦ err e
  | none ↦ elim (hash s) [ none ↦ err not_hashed | some h ↦ ok h ]
]
