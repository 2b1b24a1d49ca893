-- ===== src/Examples/Protocol.antt =====
-- Tests and examples of the patch bundle, the snapshot and the review messages.
use xgoal.Prelude.{
  ◌≡◌, refl, subst, String, string_eq, true, Option, none, some, List, [], ◌∷◌, arith,
}
use xgoal.Prelude.Exec.{ok, err}
use xgoal.Protocol.Labels.{valid_sha256}
use xgoal.Protocol.Patch.{
  PatchBundle, PatchEntry, PatchKind, PatchCode, patch_bundle_version, seal, validate_bundle,
  unsafe_paths,
}
use xgoal.Protocol.Patch.Sealed.{HashesAreSha256, seal_round_trip}
use xgoal.Protocol.Receipt.{EnvironmentSnapshot, snapshot_error}
use xgoal.Protocol.Receipt.Names.{snapshot_names-AllDistinct}
use xgoal.Protocol.Review.{
  ReviewResult, ReviewFinding, ReviewStatus, FindingSeverity, FindingCategory, ReviewCode,
  review_result_error, repeated_finding,
}
use xgoal.Protocol.Review.Distinct.{AllDistinct, IsClear, review_result-IsClear}

abbrev digest : String
digest = "0123456789abcdef0123456789abcdef0123456789abcdef0123456789abcdef"

abbrev patch_code : PatchCode
patch_code = record {
  nfc = λ t. t;
  manifest_hash_of = λ _. some digest;
  bundle_hash_of = λ _. some digest;
}

abbrev entry : String → PatchEntry
entry path = record {
  path = path;
  path_before = "";
  kind = PatchKind.added;
  mode_before = "";
  mode_after = "100644";
  content_hash_before = "";
  content_hash_after = digest;
  object_ref = "objects/sha256/0123456789abcdef0123456789abcdef0123456789abcdef0123456789abcdef";
}

abbrev bundle : String → PatchBundle
bundle path = record {
  protocol_version = patch_bundle_version;
  attempt_id = "try";
  base_commit = "commit";
  base_tree = "tree";
  entries = entry path ∷ [];
  objects =
      record {
        ref = "objects/sha256/0123456789abcdef0123456789abcdef0123456789abcdef0123456789abcdef";
        hash = digest;
        length = 3;
      }
      ∷ [];
  manifest_hash = "";
  bundle_hash = "";
}

abbrev sealed_bundle : PatchBundle
sealed_bundle = record (bundle "src/a.go") { manifest_hash = digest; bundle_hash = digest }

seals : seal patch_code (bundle "src/a.go") ≡ ok sealed_bundle
unfolding seal
seals = refl

no_way_up : seal patch_code (bundle "../a.go") ≡ err unsafe_paths
unfolding seal
no_way_up = refl

digest_is_sha256 : valid_sha256 digest ≡ true
unfolding valid_sha256
digest_is_sha256 = refl

digests : HashesAreSha256 patch_code
digests = record {
  of_manifest =
      λ m h e. subst (λ x. valid_sha256 x ≡ true) (some_equal digest h e) digest_is_sha256;
  of_bundle = λ i h e. subst (λ x. valid_sha256 x ≡ true) (some_equal digest h e) digest_is_sha256;
}
  where
    some_equal : (a b : String) → ◌≡◌ {A = Option String} (some a) (some b) → a ≡ b
    some_equal a b e = ground arith

seal_round_trip_example :
    (seal patch_code (bundle "src/a.go") ≡ ok sealed_bundle
      → validate_bundle patch_code sealed_bundle ≡ none)
    × (validate_bundle patch_code (bundle "src/a.go") ≡ none
        → seal patch_code (bundle "src/a.go") ≡ ok (bundle "src/a.go"))
seal_round_trip_example = seal_round_trip patch_code (bundle "src/a.go") sealed_bundle digests

abbrev snapshot : EnvironmentSnapshot
snapshot = record {
  protocol_version = "xgoal.environment-snapshot/v1alpha1";
  id = "snapshot";
  os = "linux";
  kernel = "6.1";
  arch = "amd64";
  isolation_level = "L0";
  git_version = "2.40";
  base_commit = "commit";
  base_tree = "tree";
  tool_versions = ("go", "1.22") ∷ [];
  lockfile_hashes = ("go.sum", digest) ∷ [];
  config_hash = digest;
  goal_revision_hash = digest;
  environment_names = "HOME" ∷ "PATH" ∷ [];
  bootstrap_hash = "";
  captured_at = record { at = 5; offset = 0 };
}

snapshot_names-AllDistinct_example : AllDistinct ("HOME" ∷ "PATH" ∷ [])
snapshot_names-AllDistinct_example =
    snapshot_names-AllDistinct (λ t. t) snapshot (unfold snapshot_error in refl)

abbrev review_code : ReviewCode
review_code = record {
  contract_fits = λ _ _. true;
  nfc = λ t. t;
  packet_hash_of = λ _. some digest;
  result_hash_of = λ _. some digest;
}

abbrev finding : String → ReviewFinding
finding id = record {
  id = id;
  severity = FindingSeverity.high;
  category = FindingCategory.correctness;
  path = "src/a.go";
  line = 7;
  claim = "the loop skips the last item";
  basis = "read";
  recommended_fix = "include it";
}

abbrev review : List ReviewFinding → ReviewResult
review findings = record {
  protocol_version = "xgoal.review-result/v1alpha1";
  review_status = ReviewStatus.changes_requested;
  findings = findings;
  suggested_validators = "unit" ∷ [];
}

review_result-IsClear_example : IsClear (review (finding "f1" ∷ finding "f2" ∷ []))
review_result-IsClear_example =
    review_result-IsClear review_code (review (finding "f1" ∷ finding "f2" ∷ []))
      (unfold review_result_error in refl)

same_id_twice :
    review_result_error review_code (review (finding "f1" ∷ finding "f1" ∷ []))
    ≡ some (repeated_finding "f1")
unfolding review_result_error
same_id_twice = refl
