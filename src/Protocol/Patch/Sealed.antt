-- ===== src/Protocol/Patch/Sealed.antt =====
-- Seal and Validate of the patch bundle of internal/protocol/m2.go, one after the other, and what the
-- entries of a valid bundle have.
use xgoal.Prelude.{
  ◌≡◌, refl, ap, subst, ◌∙◌, inl, inr, String, string_eq, true, not, ◌||◌, none, some, ◌==◌, ==_iff,
  ==_self, arith, Bool-cases, Option-cases,
}
use xgoal.Prelude.Exec.{ok}
use xgoal.Policy.Paths.{text_eq}
use xgoal.Protocol.Labels.{valid_sha256}
use xgoal.Protocol.Patch.{
  PatchBundle, PatchManifest, PatchBundleIdentity, PatchCode, structure_error,
  compute_manifest_hash, compute_bundle_hash, seal, validate_bundle,
}

module _ (code : PatchCode) where
  -- the canonical hashes are lowercase SHA-256
  pub record HashesAreSha256 : Type 0 where
    pub of_manifest :
        (m : PatchManifest) (h : String) → code.manifest_hash_of m ≡ some h → valid_sha256 h ≡ true
    pub of_bundle :
        (i : PatchBundleIdentity) (h : String)
        → code.bundle_hash_of i ≡ some h
        → valid_sha256 h ≡ true

  abbrev sealed_with : PatchBundle → String → String → PatchBundle
  sealed_with b m h = record b { manifest_hash = m; bundle_hash = h }

  structure-sealed_with :
      (b : PatchBundle) (m h m' h' : String)
      → structure_error code (sealed_with b m h) ≡ structure_error code (sealed_with b m' h')
  unfolding structure_error
  structure-sealed_with b m h m' h' = refl

  validate-sealed_with :
      (b : PatchBundle) (m h : String)
      → structure_error code (sealed_with b m h) ≡ none
      → compute_manifest_hash code b ≡ some m
      → compute_bundle_hash code (sealed_with b m h) ≡ some h
      → valid_sha256 m ≡ true
      → valid_sha256 h ≡ true
      → validate_bundle code (sealed_with b m h) ≡ none
  unfolding validate_bundle compute_manifest_hash
  validate-sealed_with b m h fine made_m made_h good_m good_h =
      rw (fine, good_m, good_h, made_m, ==_self m, made_h, ==_self h, validate_bundle) refl

  seal-validates :
      (b b' : PatchBundle) → HashesAreSha256 → seal code b ≡ ok b' → validate_bundle code b' ≡ none
  unfolding seal
  seal-validates b b' hex h = elim (Option-cases (structure_error code (sealed_with b "" ""))) [
    | inr (e, bad) ↦ absurd (ground arith)
    | inl fine ↦ elim (Option-cases (compute_manifest_hash code b)) [
      | inl failed ↦ absurd (ground arith)
      | inr (m, made_m) ↦
          elim (Option-cases (compute_bundle_hash code (record b { manifest_hash = m }))) [
            | inl failed ↦ absurd (ground arith)
            | inr (k, made_k) ↦
                let same : sealed_with b m k ≡ b' = ground arith in
                let good_m = hex.of_manifest _ m (unfold compute_manifest_hash in made_m) in
                let good_k = hex.of_bundle _ k (unfold compute_bundle_hash in made_k) in
                subst (λ x. validate_bundle code x ≡ none) same
                  (validate-sealed_with b m k (structure-sealed_with b m k "" "" ∙ fine) made_m
                    (unfold compute_bundle_hash in made_k) good_m good_k)
          ]
    ]
  ]

  reseal :
      (b : PatchBundle)
      → structure_error code (sealed_with b "" "") ≡ none
      → compute_manifest_hash code b ≡ some b.manifest_hash
      → compute_bundle_hash code b ≡ some b.bundle_hash
      → seal code b ≡ ok b
  unfolding seal
  reseal b fine made_m made_k = rw (fine, made_m, made_k, seal) refl

  valid-seals : (b : PatchBundle) → validate_bundle code b ≡ none → seal code b ≡ ok b
  unfolding validate_bundle
  valid-seals b h = elim (Option-cases (structure_error code b)) [
    | inr (e, bad) ↦ absurd (ground arith)
    | inl fine ↦
        elim (Bool-cases (not (valid_sha256 b.manifest_hash) || not (valid_sha256 b.bundle_hash))) [
          | inl bad ↦ absurd (ground arith)
          | inr hex ↦ elim (Option-cases (compute_manifest_hash code b)) [
            | inl failed ↦ absurd (ground arith)
            | inr (m, made_m) ↦ elim (Bool-cases (m == b.manifest_hash)) [
              | inr other ↦ absurd (ground arith)
              | inl same_m ↦ elim (Option-cases (compute_bundle_hash code b)) [
                | inl failed ↦ absurd (ground arith)
                | inr (k, made_k) ↦
                    let e = (==_iff m b.manifest_hash).0 same_m in
                    let f = (==_iff k b.bundle_hash).0 (ground arith) in
                    reseal b (structure-sealed_with b "" "" b.manifest_hash b.bundle_hash ∙ fine)
                      (made_m ∙ ap some e) (made_k ∙ ap some f)
              ]
            ]
          ]
        ]
  ]

  -- If the canonical hashes are lowercase SHA-256, a bundle that `Seal` returns passes `Validate`, and
  -- `Seal` gives a bundle that passes `Validate` back as it is.
  pub seal_round_trip :
      (b b' : PatchBundle)
      → HashesAreSha256
      → (seal code b ≡ ok b' → validate_bundle code b' ≡ none)
        × (validate_bundle code b ≡ none → seal code b ≡ ok b)
  seal_round_trip b b' hex = (seal-validates b b' hex, valid-seals b)
