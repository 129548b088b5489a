-- ===== src/Inventory/Accepted.antt =====
-- Proofs about `validate` of src/model.rs on what is built in the current schema.
use Prim.Native.Nat.{compare}
use lariska.Prelude.{
  ℕ, ◌≤◌, ◌≡◌, refl, sym, ap, ◌∙◌, inl, inr, true, false, none, some, List, [], ◌∷◌, map, retain,
  length, is_empty, arith,
}
use lariska.Exec.{ok}
use lariska.Inventory.Order.{on}
use lariska.Inventory.Sort.{sort_by, In, In-sort_by, sort_by-In}
use lariska.Inventory.Text.{Text, Unicode, trim, normalize_required_string}
use lariska.Inventory.Hash.{utf8, hash_identity}
use lariska.Inventory.Entry.{
  SoftwareEntry, SoftwareSource, source_rank, comparison_key, normalize_entry, identified,
  ensure_installation_identity, inventory_schema_version,
}
use lariska.Inventory.Snapshot.{
  InventorySnapshot, CollectionSource, EndpointIdentifier, compare_identifiers, has_hash,
  normalize_identifiers, identify_given, prepare_entry, named, prepared, software_order, normalize,
  new_v2,
}
use lariska.Inventory.Words.{normal_blank}
use lariska.Inventory.Rows.{unique}
use lariska.Inventory.Newest.{In-unique}
use lariska.Inventory.Identifiers.{In-retain, In-dedup}
use lariska.Inventory.Idempotent.{In-map, normalize_lem}
use lariska.Inventory.Validate.{contains, is_identity, blank, validate_snapshot}
use lariska.Inventory.Valid.{
  Filled, IsEntry, AreEntries, AreNamed, AreIdentifiers, AreSources, IsValid, seen_after,
  validate_snapshot_iff,
}
use lariska.Inventory.Sources.{sort_by-AreSources, seen_after-In}

module _ (unicode : Unicode) (sha256 : List ℕ → Text) where
  ensured_name :
      (row : SoftwareEntry)
      → (ensure_installation_identity unicode sha256 row).name
        ≡ normalize_required_string unicode row.name
  unfolding ensure_installation_identity identified normalize_entry
  ensured_name row = refl

  ensured_source :
      (row : SoftwareEntry) → (ensure_installation_identity unicode sha256 row).source ≡ row.source
  unfolding ensure_installation_identity identified normalize_entry
  ensured_source row = refl

  module _ (hexadecimal : (bytes : List ℕ) → is_identity (some (sha256 bytes)) ≡ true)
      (sources : List SoftwareSource) where
    ensured-IsEntry :
        (row : SoftwareEntry) (bytes : List ℕ)
        → row.install_instance_id ≡ some (sha256 bytes)
        → contains sources row.source ≡ true
        → IsEntry unicode sources (ensure_installation_identity unicode sha256 row)
    unfolding ensure_installation_identity identified normalize_entry comparison_key hash_identity
    ensured-IsEntry row bytes h k = record {
      known_source = k;
      has_identity = hexadecimal _;
      has_instance = rw h (hexadecimal bytes);
      own_product = refl;
      has_scope = refl;
      no_location = refl;
    }

    identified-IsEntry :
        (agent_id : Text) (row : SoftwareEntry)
        → contains sources row.source ≡ true
        → IsEntry unicode sources (identify_given unicode sha256 agent_id row none)
    unfolding identify_given hash_identity
    identified-IsEntry agent_id row h = ensured-IsEntry _ _ refl (rw (ensured_source row) h)

  identified_name :
      (agent_id : Text) (row : SoftwareEntry)
      → blank unicode (identify_given unicode sha256 agent_id row none).name
        ≡ is_empty (identify_given unicode sha256 agent_id row none).name
  unfolding identify_given
  identified_name agent_id row =
      rw ensured_name (normal_blank unicode (ensure_installation_identity unicode sha256 row).name)

named_filled :
    (row whole : SoftwareEntry) → row ≡ whole → named row ≡ true → is_empty whole.name ≡ false
named_filled row whole same h = let moved = ap named (sym same) ∙ h in ground arith

-- What a collector hands to `new_v2`: what is required is there, the sources are each once, each row
-- comes from one of them and has no identity yet, and the identifiers are long enough.
pub record IsCollected (unicode : Unicode) (snapshot : InventorySnapshot) : Type 0 where
  pub has_snapshot_id : Filled unicode snapshot.snapshot_id
  pub has_agent_id : Filled unicode snapshot.agent_id
  pub has_collected_at : Filled unicode snapshot.collected_at
  pub has_hostname : Filled unicode snapshot.hostname
  pub has_agent_version : Filled unicode snapshot.agent_version
  pub own_sources : AreSources unicode [] snapshot.sources
  pub from_source :
      (entry : SoftwareEntry)
      → In entry snapshot.software
      → (source : CollectionSource) × In source snapshot.sources
        × (source.source ≡ entry.source)
        × (entry.installation_identity ≡ none)
  pub long_identifiers :
      (identifier : EndpointIdentifier)
      → In identifier snapshot.identifiers
      → 8 ≤ length (utf8 (trim unicode identifier.value_hash))

module _ (unicode : Unicode) (sha256 : List ℕ → Text)
    (hexadecimal : (bytes : List ℕ) → is_identity (some (sha256 bytes)) ≡ true)
    (snapshot : InventorySnapshot) (collected : IsCollected unicode snapshot) where
  abbrev current : InventorySnapshot
  current = record snapshot { schema_version = inventory_schema_version }

  abbrev sorted_sources : List CollectionSource
  sorted_sources =
      sort_by (on (λ (s : CollectionSource). source_rank s.source) compare) snapshot.sources

  prepare_fresh :
      (entry : SoftwareEntry)
      → entry.installation_identity ≡ none
      → prepare_entry unicode sha256 inventory_schema_version snapshot.agent_id entry
        ≡ identify_given unicode sha256 snapshot.agent_id (normalize_entry unicode entry) none
  unfolding prepare_entry normalize_entry
  prepare_fresh entry fresh =
      ap (identify_given unicode sha256 snapshot.agent_id (normalize_entry unicode entry)) fresh

  source_kept : (entry : SoftwareEntry) → (normalize_entry unicode entry).source ≡ entry.source
  unfolding normalize_entry
  source_kept entry = refl

  row_IsEntry :
      (row : SoftwareEntry)
      → In row (prepared unicode sha256 current)
      → IsEntry unicode (seen_after unicode [] sorted_sources) row × Filled unicode row.name
  unfolding prepared
  row_IsEntry row m =
      let prepare = prepare_entry unicode sha256 inventory_schema_version snapshot.agent_id in
      let (there, has_name) = In-retain named row (map prepare snapshot.software) m in
      let (entry, given, same) = In-map prepare row snapshot.software there in
      let (source, listed, of_source, fresh) = collected.from_source entry given in
      let order = on (λ (s : CollectionSource). source_rank s.source) compare in
      let known =
        seen_after-In unicode [] sorted_sources source
          (sort_by-In order source snapshot.sources listed) in
      let whole = same ∙ prepare_fresh entry fresh in
      rw whole (
        identified-IsEntry unicode sha256 hexadecimal _ snapshot.agent_id
            (normalize_entry unicode entry) (rw (source_kept entry, ← of_source) known),
        identified_name unicode sha256 snapshot.agent_id (normalize_entry unicode entry)
            ∙ named_filled row _ whole has_name,
      )

  AreEntries-of_each :
      (sources : List SoftwareSource) (rows : List SoftwareEntry)
      → ((row : SoftwareEntry)
          → In row rows
          → IsEntry unicode sources row × Filled unicode row.name)
      → AreEntries unicode sources rows × AreNamed unicode rows
  AreEntries-of_each sources [] h = (tt, tt)
  AreEntries-of_each sources (row ∷ rest) h =
      let first = h row (inl refl) in
      let later = AreEntries-of_each sources rest (λ r m. h r (inr m)) in
      ((first.0, later.0), (first.1, later.1))

  AreIdentifiers-of_each :
      (identifiers : List EndpointIdentifier)
      → ((identifier : EndpointIdentifier)
          → In identifier identifiers
          → 8 ≤ length (utf8 (trim unicode identifier.value_hash)))
      → AreIdentifiers unicode identifiers
  AreIdentifiers-of_each [] h = tt
  AreIdentifiers-of_each (identifier ∷ rest) h =
      (h identifier (inl refl), AreIdentifiers-of_each rest (λ i m. h i (inr m)))

  kept_identifier :
      (identifier : EndpointIdentifier)
      → In identifier (normalize_identifiers unicode snapshot.identifiers)
      → In identifier snapshot.identifiers
  unfolding normalize_identifiers
  kept_identifier identifier m =
      let kept = retain (has_hash unicode) snapshot.identifiers in
      (In-retain (has_hash unicode) identifier snapshot.identifiers (
        In-sort_by compare_identifiers identifier kept
          (In-dedup identifier (sort_by compare_identifiers kept) m))).0

  normal_IsValid : IsValid unicode (normalize unicode sha256 current)
  normal_IsValid =
      let order = software_order unicode inventory_schema_version in
      let sorted = sort_by order (prepared unicode sha256 current) in
      let rows =
        AreEntries-of_each (seen_after unicode [] sorted_sources)
          (unique unicode inventory_schema_version sorted)
          (λ row m. row_IsEntry row (
            In-sort_by order row (prepared unicode sha256 current)
              (In-unique unicode inventory_schema_version row sorted m))) in
      rw (normalize_lem unicode sha256 current) (record {
        known_schema = inr refl;
        has_snapshot_id = collected.has_snapshot_id;
        has_agent_id = collected.has_agent_id;
        has_collected_at = collected.has_collected_at;
        has_hostname = collected.has_hostname;
        has_agent_version = collected.has_agent_version;
        named_rows = rows.1;
        current_rows =
            inr (sort_by-AreSources unicode _ snapshot.sources collected.own_sources, rows.0);
        long_identifiers =
            AreIdentifiers-of_each (normalize_identifiers unicode snapshot.identifiers)
              (λ identifier m.
                collected.long_identifiers identifier (kept_identifier identifier m));
      })

  -- What `new_v2` makes of what a collector hands to it is accepted by `validate`, if the hash
  -- function answers 64 hexadecimal digits.
  pub validate_snapshot-new_v2 : validate_snapshot unicode (new_v2 unicode sha256 snapshot) ≡ ok tt
  unfolding new_v2
  validate_snapshot-new_v2 = (validate_snapshot_iff unicode _).1 normal_IsValid
