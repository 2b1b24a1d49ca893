-- ===== src/Protocol/Packet.antt =====
-- The work packet of internal/protocol/protocol.go, with WorkPacket.Validate and WorkPacket.Hash. A
-- text of the model is always valid UTF-8. The embedded contract is raw JSON: the check of its hash
-- in goal_contract.go, the normal form NFC and the canonical hash are parameters.
pub mod Accepted
use xgoal.Prelude.{
  ℕ, String, string_eq, Bool, true, false, not, ◌&&◌, ◌||◌, Option, none, some, List, [], ◌∷◌, ◌==◌,
  nat_eq, if◌then◌else◌, decide, is_empty,
}
use native.Mathlib.Decide.{ℕ_discrete}
use xgoal.Prelude.Checks.{first_error, refuse}
use xgoal.Prelude.Word.{Int64, is_positive}
use xgoal.Domain.Role
use xgoal.Domain.Role.{Role}
use xgoal.Policy.Paths.{Text, codes, split, is_rooted, dot, dot_dot, Text-discrete, text_eq}
use xgoal.Protocol.{agent_result_version}
use xgoal.Scope.Names.{has_stars}
use xgoal.Protocol.Text.{is_blank}
use xgoal.Protocol.Harness.{HarnessInput, HarnessError, harness_error}

abbrev pub work_packet_version : String
work_packet_version = "xgoal.work-packet/v1alpha1"

pub record PacketProject : Type 0 where
  pub name : String
  pub base_tree : String
  pub workspace : String

pub record PacketGoal : Type 0 where
  pub raw_goal : String
  pub contract : String
  pub id : String
  pub revision : Int64
  pub summary : String
  pub contract_hash : String

pub record PacketWorkItem : Type 0 where
  pub id : String
  pub title : String
  pub objective : String
  pub dependencies : List String
  pub read_scope : List String
  pub write_scope : List String
  pub acceptance_criteria : List String
  pub validator_ids : List String

pub record PacketConstraints : Type 0 where
  pub project_network : String
  pub project_secrets : String
  pub git_push : Bool
  pub production : Bool

pub record PacketEnvironment : Type 0 where
  pub os : String
  pub arch : String
  pub git_commit : String
  pub tool_versions : List (String × String)
  pub lockfile_hashes : List (String × String)

pub record PacketDecision : Type 0 where
  pub gate_id : String
  pub gate_version : Int64
  pub answer : String

pub record PacketPriorAttempt : Type 0 where
  pub failure_class : String
  pub failure_fingerprint : String
  pub failure_error : String
  pub evidence_refs : List String
  pub decisions : List PacketDecision

pub record WorkPacket : Type 0 where
  pub harness : Option HarnessInput
  pub protocol_version : String
  pub project : PacketProject
  pub goal : PacketGoal
  pub work_item : PacketWorkItem
  pub role : Role
  pub constraints : PacketConstraints
  pub environment : PacketEnvironment
  pub prior_attempt : Option PacketPriorAttempt
  pub required_output_schema : String

pub data PacketError : Type 0 where
  contract_refused wrong_version project_required goal_required work_item_required : PacketError
  harness_refused : HarnessError → PacketError
  scopes_required criteria_required invalid_role invalid_network invalid_secrets : PacketError
  invalid_read_scope invalid_write_scope : String → PacketError
  forbidden_constraint prior_required decision_incomplete wrong_output_schema : PacketError

unfoldable pub has_backslash_or_nul : Text → Bool
has_backslash_or_nul [] = false
has_backslash_or_nul (c ∷ s) = c == 92 || c == 0 || has_backslash_or_nul s

abbrev stars : Text
stars = b'*' ∷ b'*' ∷ []

abbrev git : Text
git = b'.' ∷ b'g' ∷ b'i' ∷ b't' ∷ []

unfoldable pub is_scope_segment : Text → Bool
unfolding has_stars Text-discrete ℕ_discrete decide
is_scope_segment s =
    not (s == [] || s == dot || s == dot_dot || s == git) && not (has_stars s && not (s == stars))

unfoldable pub all_scope_segments : List Text → Bool
unfolding is_scope_segment
all_scope_segments [] = true
all_scope_segments (s ∷ ss) = is_scope_segment s && all_scope_segments ss

-- validScope; a "//" after the first character makes an empty segment
unfoldable pub valid_scope : Text → Bool
unfolding has_backslash_or_nul all_scope_segments split
valid_scope [] = false
valid_scope (c ∷ s) =
    c == b'/' && not (is_empty s) && not (has_backslash_or_nul s) && all_scope_segments (split s)

-- the loops over ReadScope and WriteScope
unfoldable pub scopes_error : (String → PacketError) → List String → Option PacketError
unfolding valid_scope
scopes_error e [] = none
scopes_error e (scope ∷ scopes) =
    let rest = scopes_error e scopes in
    if not (valid_scope (codes scope)) then some (e scope) else rest

-- the loop over the decisions of the prior attempt
unfoldable pub decisions_error : List PacketDecision → Option PacketError
unfolding is_blank
decisions_error [] = none
decisions_error (d ∷ ds) =
    let rest = decisions_error ds in
    if d.gate_id == "" || not (is_positive d.gate_version) || is_blank d.answer
    then some decision_incomplete
    else rest

unfoldable pub prior_error : Option PacketPriorAttempt → Option PacketError
unfolding is_blank decisions_error
prior_error none = none
prior_error (some p) =
    if is_blank p.failure_class || is_blank p.failure_fingerprint
    then some prior_required
    else decisions_error p.decisions

-- What the packet's checks take from other code: whether an embedded contract is JSON with the
-- expected hash, the normal form NFC of a text, and the canonical hash of a packet.
pub record PacketCode : Type 0 where
  pub contract_fits : String → String → Bool
  pub nfc : Text → Text
  pub canonical_hash : WorkPacket → Option String

module _ (code : PacketCode) where
  -- validateEmbeddedGoalContract
  abbrev pub contract_error : PacketGoal → Option PacketError
  contract_error g =
      refuse (not (g.contract == "") && not (code.contract_fits g.contract g.contract_hash))
        contract_refused

  abbrev pub optional_harness_error : Option HarnessInput → Option PacketError
  optional_harness_error none = none
  optional_harness_error (some h) = elim (harness_error code.nfc h) [
    | none ↦ none
    | some e ↦ some (harness_refused e)
  ]

  -- the checks of WorkPacket.Validate
  abbrev pub packet_checks : WorkPacket → List (Option PacketError)
  packet_checks p =
      contract_error p.goal
      ∷ optional_harness_error p.harness
      ∷ refuse (not (p.protocol_version == work_packet_version)) wrong_version
      ∷ refuse
          (p.project.name == ""
            || p.project.base_tree == ""
            || not (is_rooted (codes p.project.workspace)))
          project_required
      ∷ refuse
          (p.goal.id == ""
            || not (is_positive p.goal.revision)
            || p.goal.summary == ""
            || p.goal.contract_hash == "")
          goal_required
      ∷ refuse (p.work_item.id == "" || p.work_item.title == "" || p.work_item.objective == "")
          work_item_required
      ∷ refuse (is_empty p.work_item.read_scope || is_empty p.work_item.write_scope) scopes_required
      ∷ scopes_error invalid_read_scope p.work_item.read_scope
      ∷ scopes_error invalid_write_scope p.work_item.write_scope
      ∷ refuse (is_empty p.work_item.acceptance_criteria || is_empty p.work_item.validator_ids)
          criteria_required
      ∷ refuse (not (Role.valid p.role)) invalid_role
      ∷ refuse
          (not (
            p.constraints.project_network == "deny"
            || p.constraints.project_network == "require-gate"
            || p.constraints.project_network == "allow"))
          invalid_network
      ∷ refuse
          (not (
            p.constraints.project_secrets == "deny"
            || p.constraints.project_secrets == "require-gate"))
          invalid_secrets
      ∷ refuse (p.constraints.git_push || p.constraints.production) forbidden_constraint
      ∷ prior_error p.prior_attempt
      ∷ refuse (not (p.required_output_schema == agent_result_version)) wrong_output_schema
      ∷ []

  -- WorkPacket.Validate
  unfoldable pub packet_error : WorkPacket → Option PacketError
  unfolding first_error scopes_error prior_error Role.valid harness_error
  packet_error p = first_error (packet_checks p)

  -- WorkPacket.Hash
  unfoldable pub packet_hash : WorkPacket → Option String
  unfolding packet_error
  packet_hash p = elim (packet_error p) [ none ↦ code.canonical_hash p | some _ ↦ none ]
