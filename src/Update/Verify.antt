-- ===== src/Update/Verify.antt =====
-- The checks of src/update.rs on a signed release: `verify_manifest_inner`, `verify_manifest`,
-- `verify_artifact`, `verify_files` and `verify_files_for_recovery`.
use lariska.Prelude.{
  texts_equal, ℕ, ◌+◌, String, Bool, true, false, not, ◌&&◌, ◌||◌, Option, none, some, List, [],
  ◌∷◌, ◌++◌, leb, ltb, ◌==◌, str_eq, length, all, find, codes, is_lower_hex,
}
use lariska.Exec.{pure, lift, expect, guard, ◌>>=◌, ◌>>◌}
use lariska.Update.Types.{
  json_number, json_text, kind_name, PackageKind, same_kind, matches_os, TrustedKey, UpdateConfig,
  ReleaseManifest, SignedManifest, unsupported_schema, foreign_platform, wrong_package_kind,
  bad_sequence, bad_size, bad_sha256, manifest_expired, unknown_key, bad_public_key,
  invalid_signature, below_floor, transaction_pending, artifact_too_large, artifact_not_signed_size,
  artifact_overflow, artifact_grew, artifact_mismatch,
}
use lariska.Update.Host.{Env, Release, Action, Done, os, unix_now, read_json, checked_add, is_none}
use lariska.Update.Policy.{hard_max_download_bytes, validate, parse_version, decode_hex, encode_hex}
use lariska.Update.Ledger.{max_manifest_bytes, read_ledger}

abbrev pub kind_is : PackageKind → Option PackageKind → Bool
kind_is kind none = false
kind_is kind (some k) = same_kind k kind

abbrev pub text_is : String → Option String → Bool
text_is s none = false
text_is s (some t) = str_eq t s

abbrev pub size_allowed : UpdateConfig → ℕ → Bool
size_allowed config size = leb size config.max_download_bytes && leb size hard_max_download_bytes

-- The first key of that id that is not revoked.
abbrev pub signing_key : UpdateConfig → String → Option TrustedKey
signing_key config id = find (λ k. str_eq k.id id && not k.revoked) config.trusted_keys

abbrev pub is_sha256_text : String → Bool
is_sha256_text s = (length (codes s) == 64) && all is_lower_hex (codes s)

-- The length of a file, read in chunks.
abbrev pub total : List (List ℕ) → ℕ
total [] = 0
total (chunk ∷ rest) = length chunk + total rest

-- The read loop of `verify_artifact`: an empty read ends the file. `bytes` is what the hasher was fed.
unfoldable pub read_chunks : ℕ → List ℕ → ℕ → List (List ℕ) → Action (List ℕ × ℕ)
read_chunks limit bytes count [] = do os; pure (bytes, count)
read_chunks limit bytes count ([] ∷ rest) = do os; pure (bytes, count)
read_chunks limit bytes count ((b ∷ bs) ∷ rest) =
    let chunk : List ℕ = b ∷ bs in
    let next = count + length chunk in
    let continued = read_chunks limit (bytes ++ chunk) next rest in
    do
      os
      sum ← expect (checked_add count (length chunk)) artifact_overflow
      guard (leb sum limit) artifact_grew
      continued

module _ (env : Env) (config : UpdateConfig) where
  open env use {is_key, to_vec, verify_strict, sha256, version_le, target_os, target_triple}

  unfoldable pub verify_not_expired : Bool → ℕ → Action Done
  verify_not_expired true expires_at = pure tt
  verify_not_expired false expires_at = do
    now ← unix_now
    guard (ltb now expires_at) manifest_expired

  -- The fields of the manifest in the order of their names.
  abbrev pub canonical_manifest : ReleaseManifest → List ℕ
  canonical_manifest manifest = to_vec (
      ("expires_at", json_number manifest.expires_at)
      ∷ ("key_id", json_text manifest.key_id)
      ∷ ("package_kind", json_text (kind_name manifest.package_kind))
      ∷ ("platform", json_text manifest.platform)
      ∷ ("schema", json_number manifest.schema)
      ∷ ("sequence", json_number manifest.sequence)
      ∷ ("sha256", json_text manifest.sha256)
      ∷ ("size_bytes", json_number manifest.size_bytes)
      ∷ ("version", json_text manifest.version)
      ∷ [])

  unfoldable pub verify_signature : SignedManifest → TrustedKey → Action Done
  verify_signature signed key = do
    bytes ← lift (decode_hex 32 key.public_key)
    guard (is_key bytes) bad_public_key
    signature ← lift (decode_hex 64 signed.signature)
    guard (verify_strict bytes (canonical_manifest signed.manifest) signature) invalid_signature

  unfoldable pub verify_manifest_inner : SignedManifest → Bool → Action Done
  verify_manifest_inner signed recovery = do
    lift (validate env config)
    let manifest = signed.manifest
    guard (manifest.schema == 1) unsupported_schema
    version ← lift (parse_version env manifest.version)
    guard (str_eq manifest.platform target_triple) foreign_platform
    guard
        (matches_os manifest.package_kind target_os
          && kind_is manifest.package_kind config.package_kind)
        wrong_package_kind
    guard (not (manifest.sequence == 0)) bad_sequence
    guard (not (manifest.size_bytes == 0) && size_allowed config manifest.size_bytes) bad_size
    guard (is_sha256_text manifest.sha256) bad_sha256
    verify_not_expired recovery manifest.expires_at
    key ← expect (signing_key config manifest.key_id) unknown_key
    verify_signature signed key

  unfoldable pub verify_manifest : SignedManifest → Action Done
  verify_manifest signed = do
    verify_manifest_inner signed false
    let manifest = signed.manifest
    ledger ← read_ledger env
    floor ← lift (parse_version env ledger.floor_version)
    candidate ← lift (parse_version env manifest.version)
    guard
        (text_is manifest.version config.emergency_version
          || (version_le floor candidate && leb ledger.floor_sequence manifest.sequence))
        below_floor
    guard (is_none ledger.pending) transaction_pending

  unfoldable pub verify_artifact : SignedManifest → Release → Action Done
  verify_artifact signed release = do
    let manifest = signed.manifest
    guard (size_allowed config manifest.size_bytes) artifact_too_large
    os
    guard (release.artifact_regular && (total release.artifact == manifest.size_bytes))
        artifact_not_signed_size
    os
    (bytes, count) ← read_chunks manifest.size_bytes [] 0 release.artifact
    guard
        ((count == manifest.size_bytes)
          && texts_equal (encode_hex (sha256 bytes)) (codes manifest.sha256))
        artifact_mismatch

  unfoldable pub verify_files : Release → Action ReleaseManifest
  verify_files release = do
    signed ← read_json (λ _. release.manifest) max_manifest_bytes
    verify_manifest signed
    verify_artifact signed release
    pure signed.manifest

  -- The ledger is not consulted, and an expired manifest is accepted.
  unfoldable pub verify_files_for_recovery : Release → Action ReleaseManifest
  verify_files_for_recovery release = do
    signed ← read_json (λ _. release.manifest) max_manifest_bytes
    verify_manifest_inner signed true
    verify_artifact signed release
    pure signed.manifest
