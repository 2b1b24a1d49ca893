-- ===== src/Protocol/Packet/Accepted.antt =====
-- What a packet that WorkPacket.Validate accepts has.
use xgoal.Prelude.{
  String, string_eq, ◌≡◌, ◌≢◌, true, false, none, List, [], ◌∷◌, All, arith, is_empty, ==_iff,
}
use xgoal.Prelude.Checks.{first_error-none, refuse-none}
use xgoal.Domain.Role
use xgoal.Policy.Paths.{Text, codes, split, dot, dot_dot, text_eq}
use xgoal.Protocol.Packet.{
  WorkPacket, PacketError, PacketCode, packet_error, packet_checks, scopes_error, valid_scope,
  is_scope_segment, all_scope_segments,
}

-- a scope that is anchored at the root and has plain segments only
pub record IsAnchored (scope : Text) : Type 0 where
  pub rest : Text
  pub at_root : scope ≡ b'/' ∷ rest
  pub plain : All (λ s. (s ≢ []) × (s ≢ dot) × (s ≢ dot_dot)) (split rest)

pub record IsAccepted (p : WorkPacket) : Type 0 where
  pub readable : All (λ s. IsAnchored (codes s)) p.work_item.read_scope
  pub writable : All (λ s. IsAnchored (codes s)) p.work_item.write_scope
  pub write_scope_there : p.work_item.write_scope ≢ []
  pub criteria_there : p.work_item.acceptance_criteria ≢ []
  pub validators_there : p.work_item.validator_ids ≢ []
  pub role_valid : Role.valid p.role ≡ true
  pub no_push : p.constraints.git_push ≡ false
  pub no_production : p.constraints.production ≡ false

segment_plain : (s : Text) → is_scope_segment s ≡ true → (s ≢ []) × (s ≢ dot) × (s ≢ dot_dot)
unfolding is_scope_segment
segment_plain s h = (
  λ e. absurd (ground (arith, (==_iff s []).1 e)),
  λ e. absurd (ground (arith, (==_iff s dot).1 e)),
  λ e. absurd (ground (arith, (==_iff s dot_dot).1 e)),
)

segments_plain :
    (ss : List Text)
    → all_scope_segments ss ≡ true
    → All (λ s. (s ≢ []) × (s ≢ dot) × (s ≢ dot_dot)) ss
unfolding all_scope_segments
segments_plain [] h = tt
segments_plain (s ∷ ss) h = (segment_plain s (ground arith), segments_plain ss (ground arith))

scope-IsAnchored : (s : Text) → valid_scope s ≡ true → IsAnchored s
unfolding valid_scope
scope-IsAnchored [] h = absurd (ground arith)
scope-IsAnchored (c ∷ s) h = record {
  rest = s;
  at_root = ground arith;
  plain = segments_plain (split s) (ground arith);
}

scopes_all :
    (e : String → PacketError) (scopes : List String)
    → scopes_error e scopes ≡ none
    → All (λ s. IsAnchored (codes s)) scopes
unfolding scopes_error
scopes_all e [] h = tt
scopes_all e (s ∷ ss) h =
    (scope-IsAnchored (codes s) (ground arith), scopes_all e ss (ground arith))

is_empty_not : {A : Type 0} (xs : List A) → is_empty xs ≡ false → xs ≢ []
is_empty_not [] h e = absurd (ground arith)
is_empty_not (x ∷ xs) h e = cc

-- A packet that `Validate` accepts has read and write scopes that start at the root and go on by
-- segments that are not empty, "." or ".."; it has a write scope, an acceptance criterion and a
-- validator, and a valid role, and it allows neither a push nor a production access.
pub packet-IsAccepted :
    (code : PacketCode) (p : WorkPacket) → packet_error code p ≡ none → IsAccepted p
unfolding packet_error
packet-IsAccepted code p h =
    let from_scopes = (first_error-none (packet_checks code p) h).1.1.1.1.1.1 in
    let from_lists = from_scopes.1.1.1 in
    let some_scopes = refuse-none _ _ from_scopes.0 in
    let some_lists = refuse-none _ _ from_lists.0 in
    let denied = refuse-none _ _ from_lists.1.1.1.1.0 in
    record {
      readable = scopes_all _ _ from_scopes.1.0;
      writable = scopes_all _ _ from_scopes.1.1.0;
      write_scope_there = is_empty_not _ (ground arith);
      criteria_there = is_empty_not _ (ground arith);
      validators_there = is_empty_not _ (ground arith);
      role_valid = ground (arith, refuse-none _ _ from_lists.1.0);
      no_push = ground arith;
      no_production = ground arith;
    }
