-- ===== src/Protocol/Patch.antt =====
-- The patch bundle of internal/protocol/m2.go: its checks, Seal and Validate. The two canonical
-- hashes are parameters.
pub mod Sealed
use native.Mathlib.Decide.{ℕ_discrete}
use xgoal.Prelude.{
  ℕ, String, string_eq, Bool, true, false, not, ◌&&◌, ◌||◌, Option, none, some, List, [], ◌∷◌, ◌++◌,
  ◌==◌, nat_eq, leb, ◌^◌, decide, contains, length, is_empty, if◌then◌else◌,
}
use xgoal.Prelude.Word.{Int64}
use xgoal.Prelude.Exec.{Result, ok, err}
use xgoal.Prelude.Checks.{first_error, refuse}
use xgoal.Policy.Paths.{Text, codes, Text-discrete, text_eq}
use xgoal.Compile.Texts.{text_leb}
use xgoal.Protocol.Labels.{valid_label, valid_sha256, valid_mode, valid_bundle_path}

pub data PatchKind : Type 0 where
  added modified deleted renamed : PatchKind
  unknown : String → PatchKind

pub record PatchEntry : Type 0 where
  pub path : String
  pub path_before : String
  pub kind : PatchKind
  pub mode_before : String
  pub mode_after : String
  pub content_hash_before : String
  pub content_hash_after : String
  pub object_ref : String

pub record PatchObject : Type 0 where
  pub ref : String
  pub hash : String
  pub length : Int64

pub record PatchBundle : Type 0 where
  pub protocol_version : String
  pub attempt_id : String
  pub base_commit : String
  pub base_tree : String
  pub entries : List PatchEntry
  pub objects : List PatchObject
  pub manifest_hash : String
  pub bundle_hash : String

-- patchManifest
pub record PatchManifest : Type 0 where
  pub protocol_version : String
  pub attempt_id : String
  pub base_commit : String
  pub base_tree : String
  pub entries : List PatchEntry

-- patchBundleIdentity
pub record PatchBundleIdentity : Type 0 where
  pub protocol_version : String
  pub manifest_hash : String
  pub objects : List PatchObject

pub data PatchError : Type 0 where
  wrong_version missing_fields unsorted_objects unsafe_paths : PatchError
  invalid_object invalid_entry missing_object : String → PatchError
  unreferenced_objects invalid_hashes : PatchError
  manifest_mismatch bundle_mismatch hash_failed : PatchError

pub record PatchCode : Type 0 where
  pub nfc : Text → Text
  pub manifest_hash_of : PatchManifest → Option String
  pub bundle_hash_of : PatchBundleIdentity → Option String

abbrev pub patch_bundle_version : String
patch_bundle_version = "xgoal.patch-bundle/v1alpha1"

-- length < 0, of an int64
abbrev is_negative : Int64 → Bool
is_negative n = leb (2 ^ 63) n

-- "objects/sha256/" + hash
abbrev pub object_path : String → Text
object_path hash = codes "objects/sha256/" ++ codes hash

-- the loop over Objects, after the ref before
unfoldable pub objects_error : Text → List PatchObject → Option PatchError
unfolding valid_sha256 text_leb Text-discrete ℕ_discrete decide
objects_error previous [] = none
objects_error previous (o ∷ os) =
    let rest = objects_error (codes o.ref) os in
    if not (valid_sha256 o.hash) || not (codes o.ref == object_path o.hash) || is_negative o.length
    then some (invalid_object o.ref)
    else if not (is_empty previous) && text_leb (codes o.ref) previous
    then some unsorted_objects
    else rest

-- objectByRef[ref], where the last object of a ref stays
unfoldable pub object_by_ref : String → List PatchObject → Option PatchObject
object_by_ref ref [] = none
object_by_ref ref (o ∷ os) = elim (object_by_ref ref os) [
  | some last ↦ some last
  | none ↦ if o.ref == ref then some o else none
]

-- the fields of each kind
unfoldable pub kind_fits : PatchEntry → PatchKind → Bool
unfolding valid_sha256
kind_fits e PatchKind.added = not (
    not (e.path_before == "")
    || not (e.mode_before == "")
    || not (e.content_hash_before == "")
    || not (valid_mode e.mode_after)
    || not (valid_sha256 e.content_hash_after)
    || e.object_ref == "")
kind_fits e PatchKind.modified = not (
    not (e.path_before == "")
    || not (valid_mode e.mode_before)
    || not (valid_mode e.mode_after)
    || not (valid_sha256 e.content_hash_before)
    || not (valid_sha256 e.content_hash_after)
    || e.object_ref == "")
kind_fits e PatchKind.deleted = not (
    not (e.path_before == "")
    || not (valid_mode e.mode_before)
    || not (valid_sha256 e.content_hash_before)
    || not (e.mode_after == "")
    || not (e.content_hash_after == "")
    || not (e.object_ref == ""))
kind_fits e PatchKind.renamed = not (
    e.path_before == ""
    || e.path_before == e.path
    || not (valid_mode e.mode_before)
    || not (valid_mode e.mode_after)
    || not (valid_sha256 e.content_hash_before)
    || not (valid_sha256 e.content_hash_after)
    || e.object_ref == "")
kind_fits e (PatchKind.unknown _) = false

module _ (code : PatchCode) where
  -- validatePatchEntry returns no error
  unfoldable pub valid_patch_entry : PatchEntry → Bool
  unfolding valid_bundle_path kind_fits Text-discrete ℕ_discrete decide
  valid_patch_entry e =
      not (not (e.path_before == "") && not (valid_bundle_path code.nfc (codes e.path_before)))
      && kind_fits e e.kind
      && not
          (not (e.object_ref == "") && not (codes e.object_ref == object_path e.content_hash_after))

  -- the object of an entry is there, with the entry's hash
  unfoldable pub object_matches : PatchEntry → List PatchObject → Bool
  unfolding object_by_ref
  object_matches e objects = elim (object_by_ref e.object_ref objects) [
    | none ↦ false
    | some o ↦ o.hash == e.content_hash_after
  ]

  -- the loop over Entries, after the path before
  unfoldable pub entries_error : List PatchObject → Text → List PatchEntry → Option PatchError
  unfolding valid_bundle_path text_leb valid_patch_entry object_matches
  entries_error objects previous [] = none
  entries_error objects previous (e ∷ es) =
      let rest = entries_error objects (codes e.path) es in
      if not (valid_bundle_path code.nfc (codes e.path))
        || (not (is_empty previous) && text_leb (codes e.path) previous)
      then some unsafe_paths
      else if not (valid_patch_entry e)
      then some (invalid_entry e.path)
      else if not (e.object_ref == "") && not (object_matches e objects)
      then some (missing_object e.path)
      else rest

  -- the keys of usedObjects after the loop
  unfoldable pub used_objects : List PatchEntry → List String
  unfolding contains
  used_objects [] = []
  used_objects (e ∷ es) =
      let rest = used_objects es in
      if e.object_ref == "" || contains e.object_ref rest then rest else e.object_ref ∷ rest

  abbrev pub structure_checks : PatchBundle → List (Option PatchError)
  structure_checks b =
      refuse (not (b.protocol_version == patch_bundle_version)) wrong_version
      ∷ refuse
          (not (valid_label b.attempt_id)
            || not (valid_label b.base_commit)
            || not (valid_label b.base_tree)
            || is_empty b.entries)
          missing_fields
      ∷ objects_error [] b.objects
      ∷ entries_error b.objects [] b.entries
      ∷ refuse (not (length (used_objects b.entries) == length b.objects)) unreferenced_objects
      ∷ []

  -- validateStructure
  unfoldable pub structure_error : PatchBundle → Option PatchError
  unfolding first_error valid_label objects_error entries_error used_objects
  structure_error b = first_error (structure_checks b)

  -- computeManifestHash
  unfoldable pub compute_manifest_hash : PatchBundle → Option String
  compute_manifest_hash b = code.manifest_hash_of (record {
    protocol_version = b.protocol_version;
    attempt_id = b.attempt_id;
    base_commit = b.base_commit;
    base_tree = b.base_tree;
    entries = b.entries;
  })

  -- computeBundleHash
  unfoldable pub compute_bundle_hash : PatchBundle → Option String
  compute_bundle_hash b = code.bundle_hash_of (record {
    protocol_version = b.protocol_version;
    manifest_hash = b.manifest_hash;
    objects = b.objects;
  })

  unfoldable pub seal : PatchBundle → Result PatchError PatchBundle
  unfolding structure_error compute_manifest_hash compute_bundle_hash
  seal b = elim (structure_error (record b { manifest_hash = ""; bundle_hash = "" })) [
    | some e ↦ err e
    | none ↦ elim (compute_manifest_hash b) [
      | none ↦ err hash_failed
      | some m ↦ elim (compute_bundle_hash (record b { manifest_hash = m })) [
        | none ↦ err hash_failed
        | some h ↦ ok (record b { manifest_hash = m; bundle_hash = h })
      ]
    ]
  ]

  -- PatchBundle.Validate
  unfoldable pub validate_bundle : PatchBundle → Option PatchError
  unfolding structure_error valid_sha256 compute_manifest_hash compute_bundle_hash
  validate_bundle b = elim (structure_error b) [
    | some e ↦ some e
    | none ↦ elim (not (valid_sha256 b.manifest_hash) || not (valid_sha256 b.bundle_hash)) [
      | true ↦ some invalid_hashes
      | false ↦ elim (compute_manifest_hash b) [
        | none ↦ some hash_failed
        | some m ↦ elim (m == b.manifest_hash) [
          | false ↦ some manifest_mismatch
          | true ↦ elim (compute_bundle_hash b) [
            | none ↦ some hash_failed
            | some h ↦ if h == b.bundle_hash then none else some bundle_mismatch
          ]
        ]
      ]
    ]
  ]
