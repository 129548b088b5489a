-- ===== src/Inventory/Examples.antt =====
-- Runs of the inventory model, and the theorems at these runs.
use Prim.Native.Nat.{compare}
use Prim.Native.Nat.Ordering.{gt}
use lariska.Prelude.{
  ◌↔◌, ℕ, ◌≤◌, ◌≡◌, ◌⊎◌, inl, inr, refl, sym, ap, some, List, [], ◌∷◌, map, codes, length, arith,
}
use lariska.Exec.{ok}
use lariska.Inventory.Lexicographic.{compare_lists}
use lariska.Inventory.Sort.{insert_by, sort_by}
use lariska.Inventory.Text.{
  Text, trim_start, trim_end, trim, words_from, join, normalize_required_string,
  normalize_optional_string,
}
use lariska.Inventory.Version.{
  decimal, parse_u128, trim_zeros, span, chunk_of, skip_separators, take_chunk, next_chunk,
  compare_versions, version_chunks,
}
use lariska.Inventory.Version.Chunks.{Yields, version_chunks-Yields}
use lariska.Inventory.Version.Dotted.{IsNumber, dotted, compare_versions-dotted}
use lariska.Inventory.Hash.{utf8, framed, hash_identity}
use lariska.Inventory.Framing.{Collision, hash_identity-injective}
use lariska.Inventory.Entry.{
  SoftwareEntry, option_map, as_str, normalize_architecture, normalize_entry, comparison_key,
  identity_key, identified, ensure_installation_identity,
}
use lariska.Inventory.Snapshot.{
  InventorySnapshot, EndpointIdentifier, mac_hash, dedup, normalize_identifiers, software_order,
  same_key, deduplicate_from, deduplicate_software, identify_given, prepare_entry, prepared,
  normalize, new_v2,
}
use lariska.Inventory.Unique.{KeysAscend, normalize-KeysAscend}
use lariska.Inventory.Newest.{AllCovered, AllIn, normalize_newest}
use lariska.Inventory.Idempotent.{normalize_idem}
use lariska.Inventory.Validate.{validate_snapshot}
use lariska.Inventory.Valid.{IsSource}
use lariska.Inventory.Meaning.{IsSendable, validate_snapshot-IsSendable}
use lariska.Inventory.Accepted.{IsCollected, validate_snapshot-new_v2}
use lariska.Inventory.Delta.{diff}
use lariska.Inventory.Delta.Maps.{latest}
use lariska.Inventory.Delta.Applied.{apply_changes, merged, diff-merged}
use lariska.Inventory.Fixtures.{
  ascii, ascii-IsUnicode, test_sha256, test_sha256_hexadecimal, row, windows_source,
  packages_source, snapshot_of, editors,
}

executed : Unit {0}
unfolding compare_versions parse_u128 trim_zeros decimal span chunk_of skip_separators take_chunk
    next_chunk trim_start trim_end words_from join normalize_required_string
    normalize_optional_string utf8 framed hash_identity as_str normalize_architecture
    normalize_entry comparison_key identity_key identified ensure_installation_identity insert_by
    sort_by dedup normalize_identifiers software_order same_key deduplicate_from
    deduplicate_software identify_given prepare_entry prepared normalize
executed = tt

longer_number_wins : compare_versions ascii (some (codes "1.10.0")) (some (codes "1.9.0")) ≡ gt
unfolding executed
longer_number_wins = refl

release_beats_beta : compare_versions ascii (some (codes "1.0")) (some (codes "1.beta")) ≡ gt
unfolding executed
release_beats_beta = refl

editors_normal :
    map
      (λ (e : SoftwareEntry). e.version)
      (normalize ascii test_sha256 (snapshot_of 1 editors)).software
    ≡ some (codes "3") ∷ some (codes "1.10.0") ∷ []
unfolding executed
editors_normal = refl

version_chunks-Yields_example :
    Yields ascii (trim ascii (codes "4.10-rc1")) (version_chunks ascii (codes "4.10-rc1"))
version_chunks-Yields_example = version_chunks-Yields ascii ascii-IsUnicode (codes "4.10-rc1")

ten_IsNumber : IsNumber (codes "010")
unfolding decimal
ten_IsNumber = record { some_digit = ground arith; all_digits = refl; fits = omega arith }

nine_IsNumber : IsNumber (codes "9")
unfolding decimal
nine_IsNumber = record { some_digit = ground arith; all_digits = refl; fits = omega arith }

compare_versions-dotted_example :
    compare_versions ascii
      (some (dotted (codes "9" ∷ codes "010" ∷ [])))
      (some (dotted (codes "9" ∷ codes "9" ∷ [])))
    ≡ compare_lists compare
        (map (decimal 0) (codes "9" ∷ codes "010" ∷ []))
        (map (decimal 0) (codes "9" ∷ codes "9" ∷ []))
compare_versions-dotted_example =
    compare_versions-dotted ascii ascii-IsUnicode (codes "9" ∷ codes "010" ∷ [])
      (codes "9" ∷ codes "9" ∷ []) (nine_IsNumber, (ten_IsNumber, tt))
      (nine_IsNumber, (nine_IsNumber, tt))

-- The digest of bytes is the bytes.
abbrev bytes_themselves : List ℕ → Text
bytes_themselves bytes = bytes

hash_identity-injective_example :
    ((codes "ab" ∷ codes "c" ∷ []) ≡ (codes "ab" ∷ codes "c" ∷ [])) ⊎ Collision bytes_themselves
unfolding executed
hash_identity-injective_example =
    hash_identity-injective bytes_themselves (codes "ab" ∷ codes "c" ∷ [])
      (codes "ab" ∷ codes "c" ∷ []) (omega arith) (omega arith) refl

normalize-KeysAscend_example :
    KeysAscend ascii 1 (normalize ascii test_sha256 (snapshot_of 1 editors)).software
normalize-KeysAscend_example = normalize-KeysAscend ascii test_sha256 (snapshot_of 1 editors)

normalize_idem_example :
    normalize ascii test_sha256 (normalize ascii test_sha256 (snapshot_of 2 editors))
    ≡ normalize ascii test_sha256 (snapshot_of 2 editors)
normalize_idem_example = normalize_idem ascii ascii-IsUnicode test_sha256 (snapshot_of 2 editors)

normalize_newest_example :
    AllCovered ascii 1
      (normalize ascii test_sha256 (snapshot_of 1 editors)).software
      (prepared ascii test_sha256 (snapshot_of 1 editors))
    × AllIn
        (prepared ascii test_sha256 (snapshot_of 1 editors))
        (normalize ascii test_sha256 (snapshot_of 1 editors)).software
normalize_newest_example = normalize_newest ascii test_sha256 (snapshot_of 1 editors)

abbrev collected : InventorySnapshot
collected = snapshot_of 1 (row (codes "Editor") (codes "1.9.0") ∷ [])

windows_IsSource : IsSource ascii windows_source
unfolding executed
windows_IsSource = record { has_version = refl; has_time = refl; good_code = refl; has_last = refl }

packages_IsSource : IsSource ascii packages_source
unfolding executed
packages_IsSource = record {
  has_version = refl;
  has_time = refl;
  good_code = refl;
  has_last = refl;
}

abbrev hashed : EndpointIdentifier
hashed = record { identifier_type = mac_hash; value_hash = codes "0011223344" }

long_hash :
    (identifier : EndpointIdentifier)
    → identifier ≡ hashed
    → 8 ≤ length (utf8 (trim ascii identifier.value_hash))
unfolding executed
long_hash identifier e = rw e (omega arith)

collected-IsCollected : IsCollected ascii collected
unfolding executed
collected-IsCollected = record {
  has_snapshot_id = refl;
  has_agent_id = refl;
  has_collected_at = refl;
  has_hostname = refl;
  has_agent_version = refl;
  own_sources = (refl, windows_IsSource, (refl, packages_IsSource, tt));
  from_source = λ entry m. elim m [
    | inl e ↦ (
      windows_source,
      inl refl,
      ap (λ (x : SoftwareEntry). x.source) (sym e),
      ap (λ (x : SoftwareEntry). x.installation_identity) e,
    )
    | inr gone ↦ absurd gone
  ];
  long_identifiers = λ identifier m. elim m [
    | inl e ↦ long_hash identifier e
    | inr rest ↦ elim rest [ inl e ↦ long_hash identifier e | inr gone ↦ absurd gone ]
  ];
}

validate_snapshot-new_v2_example :
    validate_snapshot ascii (new_v2 ascii test_sha256 collected) ≡ ok tt
validate_snapshot-new_v2_example =
    validate_snapshot-new_v2 ascii test_sha256 test_sha256_hexadecimal collected
      collected-IsCollected

diff-merged_example :
    apply_changes ascii 1
      (diff ascii (snapshot_of 1 editors) collected).software_changes
      (codes "editor||amd64|winreg")
      (option_map
        (λ (e : SoftwareEntry). e.version)
        (latest ascii 1 (codes "editor||amd64|winreg") collected.software))
    ≡ merged
        (snapshot_of 1 editors)
        (latest ascii 1 (codes "editor||amd64|winreg") editors)
        (latest ascii 1 (codes "editor||amd64|winreg") collected.software)
diff-merged_example =
    diff-merged ascii (snapshot_of 1 editors) collected (codes "editor||amd64|winreg")

validate_snapshot-IsSendable_example :
    (validate_snapshot ascii (snapshot_of 2 editors) ≡ ok tt)
    ↔ IsSendable ascii (snapshot_of 2 editors)
validate_snapshot-IsSendable_example = validate_snapshot-IsSendable ascii (snapshot_of 2 editors)
