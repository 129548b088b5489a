-- ===== src/Inventory/Snapshot.antt =====
-- src/model.rs: a snapshot of the inventory and the normal form it is brought to.
use Prim.Native.Nat.{Ordering, compare}
use lariska.Prelude.{
  ℕ, Bool, true, false, not, ◌&&◌, Option, none, some, List, [], ◌∷◌, ◌++◌, map, codes, ◌==◌,
  if◌then◌else◌, texts_equal, retain, last, is_empty,
}
use lariska.Inventory.Order.{on, descending, both}
use lariska.Inventory.Lexicographic.{compare_texts}
use lariska.Inventory.Sort.{sort_by}
use lariska.Inventory.Text.{Text, Unicode, trim}
use lariska.Inventory.Version.{compare_versions}
use lariska.Inventory.Hash.{hash_identity}
use lariska.Inventory.Entry.{
  SoftwareSource, pacman, mac_bundle, other, SoftwareEntry, source_rank, or_empty,
  inventory_schema_version, legacy_inventory_schema_version, normalize_entry, comparison_key,
  identity_key, ensure_installation_identity,
}

pub data IdentifierType : Type 0 where
  mac_hash serial_hash bios_uuid_hash tpm_ek_hash : IdentifierType

abbrev pub type_rank : IdentifierType → ℕ
type_rank mac_hash = 0
type_rank serial_hash = 1
type_rank bios_uuid_hash = 2
type_rank tpm_ek_hash = 3

pub record EndpointIdentifier : Type 0 where
  pub identifier_type : IdentifierType
  pub value_hash : Text

pub data CollectionStatus : Type 0 where
  complete partial failed not_applicable : CollectionStatus

pub record CollectionSource : Type 0 where
  pub source : SoftwareSource
  pub status : CollectionStatus
  pub collected_at : Text
  pub last_complete_at : Option Text
  pub collector_version : Text
  pub diagnostic_code : Option Text

pub record InventorySnapshot : Type 0 where
  pub schema_version : ℕ
  pub snapshot_id : Text
  pub agent_id : Text
  pub collected_at : Text
  pub hostname : Text
  pub os_family : Option Text
  pub os_name : Option Text
  pub os_version : Option Text
  pub os_arch : Option Text
  pub agent_version : Text
  pub labels : List (Text × Text)
  pub identifiers : List EndpointIdentifier
  pub software : List SoftwareEntry
  pub collector_warnings : List Text
  pub sources : List CollectionSource

abbrev pub compare_identifiers : EndpointIdentifier → EndpointIdentifier → Ordering
compare_identifiers =
    both (on (λ (i : EndpointIdentifier). type_rank i.identifier_type) compare)
      (on (λ (i : EndpointIdentifier). i.value_hash) compare_texts)

abbrev pub same_identifier : EndpointIdentifier → EndpointIdentifier → Bool
same_identifier left right =
    (type_rank left.identifier_type == type_rank right.identifier_type)
    && texts_equal left.value_hash right.value_hash

-- `dedup` after `previous`: an element equal to the one kept before it goes.
unfoldable pub dedup_after : EndpointIdentifier → List EndpointIdentifier → List EndpointIdentifier
dedup_after previous [] = []
dedup_after previous (x ∷ xs) =
    let skipped = dedup_after previous xs in
    let kept = x ∷ dedup_after x xs in if same_identifier previous x then skipped else kept

unfoldable pub dedup : List EndpointIdentifier → List EndpointIdentifier
unfolding dedup_after
dedup [] = []
dedup (x ∷ xs) = x ∷ dedup_after x xs

abbrev pub same_version : Option Text → Option Text → Bool
same_version none none = true
same_version none (some right) = false
same_version (some left) none = false
same_version (some left) (some right) = texts_equal left right

abbrev pub named : SoftwareEntry → Bool
named entry = not (is_empty entry.name)

abbrev pub version_or : Text → Option Text → Text
version_or default' none = default'
version_or default' (some version) = version

module _ (unicode : Unicode) where
  abbrev pub has_hash : EndpointIdentifier → Bool
  has_hash identifier = not (is_empty (trim unicode identifier.value_hash))

  unfoldable pub normalize_identifiers : List EndpointIdentifier → List EndpointIdentifier
  unfolding dedup
  normalize_identifiers identifiers =
      dedup (sort_by compare_identifiers (retain has_hash identifiers))

  unfoldable pub software_order : ℕ → SoftwareEntry → SoftwareEntry → Ordering
  software_order schema_version =
      both (on (identity_key unicode schema_version) compare_texts)
        (descending (on (λ (e : SoftwareEntry). e.version) (compare_versions unicode)))

  unfoldable pub same_key : ℕ → SoftwareEntry → SoftwareEntry → Bool
  same_key schema_version left right =
      texts_equal (identity_key unicode schema_version left)
        (identity_key unicode schema_version right)

  abbrev conflict_warning : SoftwareEntry → Text
  conflict_warning entry =
      codes "conflicting versions for installation "
      ++ version_or (codes "unknown") entry.installation_identity

  abbrev pub dropped_warning : SoftwareEntry → SoftwareEntry → Text
  dropped_warning kept entry =
      entry.name
      ++ codes " is installed more than once ("
      ++ comparison_key unicode entry
      ++ codes "); the server's inventory key does not carry a version, so only "
      ++ version_or (codes "no version") kept.version
      ++ codes " was sent and "
      ++ version_or (codes "no version") entry.version
      ++ codes " was dropped"

  -- What is said of a row that is dropped for the one kept.
  unfoldable pub warnings_of : ℕ → SoftwareEntry → SoftwareEntry → List Text
  warnings_of schema_version kept entry =
      if schema_version == inventory_schema_version
      then if same_version kept.version entry.version then [] else conflict_warning entry ∷ []
      else dropped_warning kept entry ∷ []

  -- The loop, with the rows kept and the warnings so far.
  unfoldable pub deduplicate_from :
      ℕ → List SoftwareEntry → List Text → List SoftwareEntry → List SoftwareEntry × List Text
  unfolding warnings_of
  deduplicate_from schema_version deduped warnings [] = (deduped, warnings)
  deduplicate_from schema_version deduped warnings (entry ∷ rest) = elim (last deduped) [
    | none ↦ deduplicate_from schema_version (deduped ++ entry ∷ []) warnings rest
    | some kept ↦ elim (same_key schema_version kept entry) [
      | true ↦
          deduplicate_from schema_version deduped
            (warnings ++ warnings_of schema_version kept entry) rest
      | false ↦ deduplicate_from schema_version (deduped ++ entry ∷ []) warnings rest
    ]
  ]

  unfoldable pub deduplicate_software : InventorySnapshot → InventorySnapshot
  unfolding deduplicate_from
  deduplicate_software snapshot =
      let (deduped, warnings) = deduplicate_from snapshot.schema_version [] [] snapshot.software in
      record snapshot {
        software = deduped;
        collector_warnings = snapshot.collector_warnings ++ warnings;
      }

  module _ (sha256 : List ℕ → Text) where
    -- A row that has no identity yet gets one, with an instance that names the endpoint.
    unfoldable pub identify_given : Text → SoftwareEntry → Option Text → SoftwareEntry
    identify_given agent_id entry (some identity) =
        ensure_installation_identity unicode sha256 entry
    identify_given agent_id entry none =
        let first = ensure_installation_identity unicode sha256 entry in
        ensure_installation_identity unicode sha256 (record first {
          install_instance_id = some (
              hash_identity sha256 (
                codes "lariska-endpoint-instance-v2"
                ∷ agent_id
                ∷ or_empty first.install_instance_id
                ∷ []));
        })

    abbrev pub identify : Text → SoftwareEntry → SoftwareEntry
    identify agent_id entry = identify_given agent_id entry entry.installation_identity

    -- A row before it is sorted.
    unfoldable pub prepare_entry : ℕ → Text → SoftwareEntry → SoftwareEntry
    prepare_entry schema_version agent_id entry =
        let normal = normalize_entry unicode entry in
        if schema_version == inventory_schema_version then identify agent_id normal else normal

    unfoldable pub prepared : InventorySnapshot → List SoftwareEntry
    prepared snapshot =
        retain named
          (map (prepare_entry snapshot.schema_version snapshot.agent_id) snapshot.software)

    unfoldable pub normalize : InventorySnapshot → InventorySnapshot
    normalize snapshot = deduplicate_software (record snapshot {
      identifiers = normalize_identifiers snapshot.identifiers;
      sources =
          if snapshot.schema_version == inventory_schema_version
          then sort_by (on (λ (s : CollectionSource). source_rank s.source) compare)
              snapshot.sources
          else snapshot.sources;
      software = sort_by (software_order snapshot.schema_version) (prepared snapshot);
    })

    -- The constructors normalize what they are given.
    unfoldable pub new : InventorySnapshot → InventorySnapshot
    new snapshot =
        normalize
          (record snapshot { schema_version = legacy_inventory_schema_version; sources = [] })

    unfoldable pub new_v2 : InventorySnapshot → InventorySnapshot
    new_v2 snapshot = normalize (record snapshot { schema_version = inventory_schema_version })

    abbrev legacy_source : SoftwareSource → SoftwareSource
    legacy_source pacman = other
    legacy_source mac_bundle = other
    legacy_source source = source

    abbrev pub legacy_entry : SoftwareEntry → SoftwareEntry
    legacy_entry entry = record entry {
      source = legacy_source entry.source;
      product_identity = none;
      installation_identity = none;
      package_id = none;
      scope = none;
      install_instance_id = none;
    }

    unfoldable pub into_v1 : InventorySnapshot → InventorySnapshot
    into_v1 snapshot = normalize (record snapshot {
      schema_version = legacy_inventory_schema_version;
      sources = [];
      software = map legacy_entry snapshot.software;
    })
