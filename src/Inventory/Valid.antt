-- ===== src/Inventory/Valid.antt =====
-- What a valid snapshot is, apart from the order in which `validate` of src/model.rs checks it, test by
-- test.
use lariska.Prelude.{
  ◌≤◌, ◌≡◌, ◌≢◌, ◌↔◌, refl, ap, ◌⊎◌, true, false, not, ◌&&◌, Option, none, some, List, [], ◌∷◌, any,
  length, arith,
}
use lariska.Exec.{Result, ok, err}
use lariska.Exec.Fallible.{◌>>=◌}
use lariska.Inventory.Text.{Text, Unicode, trim}
use lariska.Inventory.Hash.{utf8}
use lariska.Inventory.Entry.{
  SoftwareEntry, SoftwareSource, comparison_key, inventory_schema_version,
  legacy_inventory_schema_version,
}
use lariska.Inventory.Snapshot.{InventorySnapshot, CollectionSource, EndpointIdentifier}
use lariska.Inventory.Rows.{texts_equal_same, texts_equal_refl}
use lariska.Inventory.Validate.{
  Checked, ModelError, is_some, is_complete, contains, bad_code, is_identity, same_text, blank,
  validate_required, validate_source, validate_sources, validate_entry, validate_entries,
  validate_identifiers, validate_current, validate_snapshot,
}

-- What a bind that succeeds has done.
>>=-ok :
    {A : Type 0} (m : Result ModelError A) (f : A → Checked)
    → (m >>= f) ≡ ok tt
    → (a : A) × (m ≡ ok a) × (f a ≡ ok tt)
>>=-ok (ok a) f h = (a, refl, h)
>>=-ok (err e) f h = cc

module _ (unicode : Unicode) where
  abbrev pub Filled : Text → Type 0
  Filled value = blank unicode value ≡ false

  pub record IsSource (source : CollectionSource) : Type 0 where
    pub has_version : Filled source.collector_version
    pub has_time : Filled source.collected_at
    pub good_code : bad_code source.diagnostic_code ≡ false
    pub has_last : (is_complete source.status && not (is_some source.last_complete_at)) ≡ false

  -- Each is a source of its own, and none stands in `seen`.
  abbrev pub AreSources : List SoftwareSource → List CollectionSource → Type 0
  AreSources seen [] = Unit
  AreSources seen (source ∷ rest) =
      (contains seen source.source ≡ false)
      × IsSource source
      × AreSources (source.source ∷ seen) rest

  pub record IsEntry (sources : List SoftwareSource) (entry : SoftwareEntry) : Type 0 where
    pub known_source : contains sources entry.source ≡ true
    pub has_identity : is_identity entry.installation_identity ≡ true
    pub has_instance : is_identity entry.install_instance_id ≡ true
    pub own_product : entry.product_identity ≡ some (comparison_key unicode entry)
    pub has_scope : is_some entry.scope ≡ true
    pub no_location : entry.install_location ≡ none

  abbrev pub AreEntries : List SoftwareSource → List SoftwareEntry → Type 0
  AreEntries sources [] = Unit
  AreEntries sources (entry ∷ rest) = IsEntry sources entry × AreEntries sources rest

  abbrev pub AreNamed : List SoftwareEntry → Type 0
  AreNamed [] = Unit
  AreNamed (entry ∷ rest) = Filled entry.name × AreNamed rest

  abbrev pub AreIdentifiers : List EndpointIdentifier → Type 0
  AreIdentifiers [] = Unit
  AreIdentifiers (identifier ∷ rest) =
      (8 ≤ length (utf8 (trim unicode identifier.value_hash))) × AreIdentifiers rest

  -- The sources of a list, after those seen.
  abbrev pub seen_after : List SoftwareSource → List CollectionSource → List SoftwareSource
  seen_after seen [] = seen
  seen_after seen (source ∷ rest) = seen_after (source.source ∷ seen) rest

  pub record IsValid (snapshot : InventorySnapshot) : Type 0 where
    pub known_schema :
        (snapshot.schema_version ≡ legacy_inventory_schema_version)
        ⊎ (snapshot.schema_version ≡ inventory_schema_version)
    pub has_snapshot_id : Filled snapshot.snapshot_id
    pub has_agent_id : Filled snapshot.agent_id
    pub has_collected_at : Filled snapshot.collected_at
    pub has_hostname : Filled snapshot.hostname
    pub has_agent_version : Filled snapshot.agent_version
    pub named_rows : AreNamed snapshot.software
    -- Only the current schema has sources and identities.
    pub current_rows :
        (snapshot.schema_version ≢ inventory_schema_version)
        ⊎ (AreSources [] snapshot.sources
            × AreEntries (seen_after [] snapshot.sources) snapshot.software)
    pub long_identifiers : AreIdentifiers snapshot.identifiers

  IsSource-parts :
      (seen : List SoftwareSource) (source : CollectionSource)
      → validate_source unicode seen source ≡ ok tt
      → (contains seen source.source ≡ false) × IsSource source
  unfolding validate_source validate_required
  IsSource-parts seen source h = ground arith

  source_whole :
      (seen : List SoftwareSource) (source : CollectionSource)
      → contains seen source.source ≡ false
      → IsSource source
      → validate_source unicode seen source ≡ ok tt
  unfolding validate_source validate_required
  source_whole seen source h s = ground arith

  none_of : {A : Type 0} (o : Option A) → is_some o ≡ false → o ≡ none
  none_of none h = refl
  none_of (some a) h = cc

  same_text_iff : (o : Option Text) (t : Text) → same_text o t ≡ true → o ≡ some t
  same_text_iff none t h = cc
  same_text_iff (some s) t h = ap some (texts_equal_same s t h)

  same_text_own : (o : Option Text) (t : Text) → o ≡ some t → same_text o t ≡ true
  same_text_own none t h = cc
  same_text_own (some s) t h = let same : s ≡ t = cc in rw same (texts_equal_refl t)

  IsEntry-parts :
      (sources : List SoftwareSource) (entry : SoftwareEntry)
      → validate_entry unicode sources entry ≡ ok tt
      → IsEntry sources entry
  unfolding validate_entry
  IsEntry-parts sources entry h = ground (
    arith,
    same_text_iff entry.product_identity (comparison_key unicode entry),
    none_of entry.install_location,
  )

  entry_whole :
      (sources : List SoftwareSource) (entry : SoftwareEntry)
      → IsEntry sources entry
      → validate_entry unicode sources entry ≡ ok tt
  unfolding validate_entry
  entry_whole sources entry e = ground (
    arith,
    same_text_own entry.product_identity (comparison_key unicode entry),
    texts_equal_refl (comparison_key unicode entry),
  )

  sources_parts :
      (seen found : List SoftwareSource) (sources : List CollectionSource)
      → validate_sources unicode seen sources ≡ ok found
      → AreSources seen sources × (found ≡ seen_after seen sources)
  unfolding validate_sources
  sources_parts seen found [] h = (tt, ground arith)
  sources_parts seen found (source ∷ rest) h =
      ground (arith, IsSource-parts seen source, sources_parts (source.source ∷ seen) found rest)

  sources_whole :
      (seen : List SoftwareSource) (sources : List CollectionSource)
      → AreSources seen sources
      → validate_sources unicode seen sources ≡ ok (seen_after seen sources)
  unfolding validate_sources
  sources_whole seen [] h = refl
  sources_whole seen (source ∷ rest) h =
      rw (source_whole seen source h.0 h.1) (sources_whole (source.source ∷ seen) rest h.2)

  entries_parts :
      (sources : List SoftwareSource) (entries : List SoftwareEntry)
      → validate_entries unicode sources entries ≡ ok tt
      → AreEntries sources entries
  unfolding validate_entries
  entries_parts sources [] h = tt
  entries_parts sources (entry ∷ rest) h =
      ground (arith, IsEntry-parts sources entry, entries_parts sources rest)

  entries_whole :
      (sources : List SoftwareSource) (entries : List SoftwareEntry)
      → AreEntries sources entries
      → validate_entries unicode sources entries ≡ ok tt
  unfolding validate_entries
  entries_whole sources [] h = refl
  entries_whole sources (entry ∷ rest) h =
      rw (entry_whole sources entry h.0) (entries_whole sources rest h.1)

  identifiers_parts :
      (identifiers : List EndpointIdentifier)
      → validate_identifiers unicode identifiers ≡ ok tt
      → AreIdentifiers identifiers
  unfolding validate_identifiers
  identifiers_parts [] h = tt
  identifiers_parts (identifier ∷ rest) h = ground (arith, identifiers_parts rest)

  identifiers_whole :
      (identifiers : List EndpointIdentifier)
      → AreIdentifiers identifiers
      → validate_identifiers unicode identifiers ≡ ok tt
  unfolding validate_identifiers
  identifiers_whole [] h = refl
  identifiers_whole (identifier ∷ rest) h = ground (arith, identifiers_whole rest)

  names_parts :
      (entries : List SoftwareEntry)
      → any (λ (e : SoftwareEntry). blank unicode e.name) entries ≡ false
      → AreNamed entries
  names_parts [] h = tt
  names_parts (entry ∷ rest) h = ground (arith, names_parts rest)

  names_whole :
      (entries : List SoftwareEntry)
      → AreNamed entries
      → any (λ (e : SoftwareEntry). blank unicode e.name) entries ≡ false
  names_whole [] h = refl
  names_whole (entry ∷ rest) h = ground (arith, names_whole rest)

  current_parts :
      (snapshot : InventorySnapshot)
      → validate_current unicode snapshot ≡ ok tt
      → AreSources [] snapshot.sources
        × AreEntries (seen_after [] snapshot.sources) snapshot.software
  unfolding validate_current
  current_parts snapshot h =
      let (found, checked, rest) =
        >>=-ok (validate_sources unicode [] snapshot.sources)
          (λ sources. validate_entries unicode sources snapshot.software) h in
      let (sources, same) = sources_parts [] found snapshot.sources checked in
      (sources, entries_parts _ snapshot.software (rw same at rest))

  current_whole :
      (snapshot : InventorySnapshot)
      → AreSources [] snapshot.sources
      → AreEntries (seen_after [] snapshot.sources) snapshot.software
      → validate_current unicode snapshot ≡ ok tt
  unfolding validate_current
  current_whole snapshot h k =
      rw (sources_whole [] snapshot.sources h)
        (entries_whole (seen_after [] snapshot.sources) snapshot.software k)

  snapshot_parts :
      (snapshot : InventorySnapshot) → validate_snapshot unicode snapshot ≡ ok tt → IsValid snapshot
  unfolding validate_snapshot validate_required
  snapshot_parts snapshot h = ground (
    arith,
    names_parts snapshot.software,
    identifiers_parts snapshot.identifiers,
    current_parts snapshot,
  )

  snapshot_whole :
      (snapshot : InventorySnapshot) → IsValid snapshot → validate_snapshot unicode snapshot ≡ ok tt
  unfolding validate_snapshot validate_required
  snapshot_whole snapshot v = ground (
    arith,
    names_whole snapshot.software,
    identifiers_whole snapshot.identifiers,
    current_whole snapshot,
  )

  pub validate_snapshot_iff :
      (snapshot : InventorySnapshot)
      → (validate_snapshot unicode snapshot ≡ ok tt) ↔ IsValid snapshot
  validate_snapshot_iff snapshot = (snapshot_parts snapshot, snapshot_whole snapshot)
