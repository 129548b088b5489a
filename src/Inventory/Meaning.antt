-- ===== src/Inventory/Meaning.antt =====
-- Proofs about what `validate` of src/model.rs accepts, against a description by numbers and
-- characters.
use lariska.Prelude.{
  ◌≤◌, ◌≡◌, ◌≢◌, ◌↔◌, refl, ◌⊎◌, inl, inr, true, false, not, ◌&&◌, Option, none, some, List, [],
  ◌∷◌, length, map, Bool-cases, arith,
}
use lariska.Exec.{ok}
use lariska.Inventory.Sort.{In}
use lariska.Inventory.Text.{Text, Unicode, trim}
use lariska.Inventory.Hash.{utf8}
use lariska.Inventory.Entry.{SoftwareEntry, SoftwareSource, comparison_key}
use lariska.Inventory.Snapshot.{
  InventorySnapshot, CollectionSource, CollectionStatus, complete, partial, failed, not_applicable,
  EndpointIdentifier,
}
use lariska.Inventory.Validate.{is_some, is_complete, contains, validate_snapshot}
use lariska.Inventory.Valid.{
  IsSource, AreSources, IsEntry, AreEntries, AreNamed, AreIdentifiers, seen_after, IsValid,
  validate_snapshot_iff,
}
use lariska.Inventory.Described.{
  Every, IsCode, IsDigest, HasVisible, IsCode-iff, IsDigest-iff, contains_iff, blank_iff,
}

abbrev pub sources_of : List CollectionSource → List SoftwareSource
sources_of = map (λ source. source.source)

-- A collection that is complete says when.
abbrev pub IsTimed : CollectionStatus → Option Text → Type 0
IsTimed status none = status ≢ complete
IsTimed status (some time) = Unit

abbrev pub Given : {A : Type 0} → Option A → Type 0
Given none = ⊥
Given (some a) = Unit

IsTimed-iff :
    (status : CollectionStatus) (time : Option Text)
    → ((is_complete status && not (is_some time)) ≡ false) ↔ IsTimed status time
IsTimed-iff complete none = (λ h e. cc h, λ h. absurd (h refl))
IsTimed-iff partial none = (λ h e. cc e, λ h. refl)
IsTimed-iff failed none = (λ h e. cc e, λ h. refl)
IsTimed-iff not_applicable none = (λ h e. cc e, λ h. refl)
IsTimed-iff status (some time) = (λ h. tt, λ h. ground arith)

Given-iff : {A : Type 0} (o : Option A) → (is_some o ≡ true) ↔ Given o
Given-iff none = (λ h. cc, λ h. absurd h)
Given-iff (some a) = (λ h. tt, λ h. refl)

module _ (unicode : Unicode) where
  pub record IsCollection (source : CollectionSource) : Type 0 where
    pub has_version : HasVisible unicode source.collector_version
    pub has_time : HasVisible unicode source.collected_at
    pub good_code : IsCode source.diagnostic_code
    pub has_last : IsTimed source.status source.last_complete_at

  -- Each is a collection, and no two are of the same source.
  abbrev pub AreCollections : List SoftwareSource → List CollectionSource → Type 0
  AreCollections seen [] = Unit
  AreCollections seen (source ∷ rest) =
      (¬ (In source.source seen)) × IsCollection source × AreCollections (source.source ∷ seen) rest

  pub record IsRow (sources : List SoftwareSource) (entry : SoftwareEntry) : Type 0 where
    pub known_source : In entry.source sources
    pub has_identity : IsDigest entry.installation_identity
    pub has_instance : IsDigest entry.install_instance_id
    pub own_product : entry.product_identity ≡ some (comparison_key unicode entry)
    pub has_scope : Given entry.scope
    pub no_location : entry.install_location ≡ none

  IsSource-iff : (source : CollectionSource) → IsSource unicode source ↔ IsCollection source
  IsSource-iff source = (
    λ s. record {
      has_version = (blank_iff unicode source.collector_version).0 s.has_version;
      has_time = (blank_iff unicode source.collected_at).0 s.has_time;
      good_code = (IsCode-iff source.diagnostic_code).0 s.good_code;
      has_last = (IsTimed-iff source.status source.last_complete_at).0 s.has_last;
    },
    λ s. record {
      has_version = (blank_iff unicode source.collector_version).1 s.has_version;
      has_time = (blank_iff unicode source.collected_at).1 s.has_time;
      good_code = (IsCode-iff source.diagnostic_code).1 s.good_code;
      has_last = (IsTimed-iff source.status source.last_complete_at).1 s.has_last;
    },
  )

  fresh_iff :
      (seen : List SoftwareSource) (s : SoftwareSource)
      → (contains seen s ≡ false) ↔ (¬ (In s seen))
  fresh_iff seen s = (
    λ h m. let k = (contains_iff seen s).1 m in cc (h, k),
    λ new. elim (Bool-cases (contains seen s)) [
      | inl old ↦ absurd (new ((contains_iff seen s).0 old))
      | inr h ↦ h
    ],
  )

  sources_iff :
      (seen : List SoftwareSource) (sources : List CollectionSource)
      → AreSources unicode seen sources ↔ AreCollections seen sources
  sources_iff seen [] = (λ h. tt, λ h. tt)
  sources_iff seen (source ∷ rest) =
      let later = sources_iff (source.source ∷ seen) rest in
      (
        λ h. ((fresh_iff seen source.source).0 h.0, (IsSource-iff source).0 h.1, later.0 h.2),
        λ h. ((fresh_iff seen source.source).1 h.0, (IsSource-iff source).1 h.1, later.1 h.2),
      )

  seen_after_iff :
      (x : SoftwareSource) (seen : List SoftwareSource) (sources : List CollectionSource)
      → In x (seen_after unicode seen sources) ↔ (In x (sources_of sources) ⊎ In x seen)
  seen_after_iff x seen [] = (λ h. inr h, λ h. elim h [ inl m ↦ absurd m | inr m ↦ m ])
  seen_after_iff x seen (source ∷ rest) =
      let later = seen_after_iff x (source.source ∷ seen) rest in
      (
        λ h. elim (later.0 h) [
          | inl m ↦ inl (inr m)
          | inr m ↦ elim m [ inl e ↦ inl (inl e) | inr k ↦ inr k ]
        ],
        λ h. later.1 (elim h [
          | inl m ↦ elim m [ inl e ↦ inr (inl e) | inr k ↦ inl k ]
          | inr k ↦ inr (inr k)
        ]),
      )

  IsRow-iff :
      (known : List SoftwareSource) (sources : List CollectionSource) (entry : SoftwareEntry)
      → known ≡ seen_after unicode [] sources
      → IsEntry unicode known entry ↔ IsRow (sources_of sources) entry
  IsRow-iff known sources entry e =
      let listed = contains_iff known entry.source in
      let after = seen_after_iff entry.source [] sources in
      (
        λ s. record {
          known_source = elim (after.0 (rw e at (listed.0 s.known_source))) [
            | inl m ↦ m
            | inr m ↦ absurd m
          ];
          has_identity = (IsDigest-iff entry.installation_identity).0 s.has_identity;
          has_instance = (IsDigest-iff entry.install_instance_id).0 s.has_instance;
          own_product = s.own_product;
          has_scope = (Given-iff entry.scope).0 s.has_scope;
          no_location = s.no_location;
        },
        λ s. record {
          known_source = listed.1 (rw e (after.1 (inl s.known_source)));
          has_identity = (IsDigest-iff entry.installation_identity).1 s.has_identity;
          has_instance = (IsDigest-iff entry.install_instance_id).1 s.has_instance;
          own_product = s.own_product;
          has_scope = (Given-iff entry.scope).1 s.has_scope;
          no_location = s.no_location;
        },
      )

  rows_iff :
      (known : List SoftwareSource) (sources : List CollectionSource) (entries : List SoftwareEntry)
      → known ≡ seen_after unicode [] sources
      → AreEntries unicode known entries ↔ Every (IsRow (sources_of sources)) entries
  rows_iff known sources [] e = (λ h. tt, λ h. tt)
  rows_iff known sources (entry ∷ rest) e =
      let row = IsRow-iff known sources entry e in
      let later = rows_iff known sources rest e in
      (λ h. (row.0 h.0, later.0 h.1), λ h. (row.1 h.0, later.1 h.1))

  names_iff :
      (entries : List SoftwareEntry)
      → AreNamed unicode entries
        ↔ Every (λ (entry : SoftwareEntry). HasVisible unicode entry.name) entries
  names_iff [] = (λ h. tt, λ h. tt)
  names_iff (entry ∷ rest) =
      let name = blank_iff unicode entry.name in
      let later = names_iff rest in (λ h. (name.0 h.0, later.0 h.1), λ h. (name.1 h.0, later.1 h.1))

  abbrev pub IsLong : EndpointIdentifier → Type 0
  IsLong identifier = 8 ≤ length (utf8 (trim unicode identifier.value_hash))

  identifiers_iff :
      (identifiers : List EndpointIdentifier)
      → AreIdentifiers unicode identifiers ↔ Every IsLong identifiers
  identifiers_iff [] = (λ h. tt, λ h. tt)
  identifiers_iff (identifier ∷ rest) =
      let later = identifiers_iff rest in (λ h. (h.0, later.0 h.1), λ h. (h.0, later.1 h.1))

  -- A snapshot that can be sent.
  pub record IsSendable (snapshot : InventorySnapshot) : Type 0 where
    pub known_schema : (snapshot.schema_version ≡ 1) ⊎ (snapshot.schema_version ≡ 2)
    pub has_snapshot_id : HasVisible unicode snapshot.snapshot_id
    pub has_agent_id : HasVisible unicode snapshot.agent_id
    pub has_collected_at : HasVisible unicode snapshot.collected_at
    pub has_hostname : HasVisible unicode snapshot.hostname
    pub has_agent_version : HasVisible unicode snapshot.agent_version
    pub named_rows :
        Every (λ (entry : SoftwareEntry). HasVisible unicode entry.name) snapshot.software
    pub current_rows :
        (snapshot.schema_version ≢ 2)
        ⊎ (AreCollections [] snapshot.sources
            × Every (IsRow (sources_of snapshot.sources)) snapshot.software)
    pub long_identifiers : Every IsLong snapshot.identifiers

  current_iff :
      (snapshot : InventorySnapshot)
      → (AreSources unicode [] snapshot.sources
          × AreEntries unicode (seen_after unicode [] snapshot.sources) snapshot.software)
        ↔ (AreCollections [] snapshot.sources
            × Every (IsRow (sources_of snapshot.sources)) snapshot.software)
  current_iff snapshot =
      let sources = sources_iff [] snapshot.sources in
      let rows = rows_iff _ snapshot.sources snapshot.software refl in
      (λ h. (sources.0 h.0, rows.0 h.1), λ h. (sources.1 h.0, rows.1 h.1))

  IsValid-IsSendable :
      (snapshot : InventorySnapshot) → IsValid unicode snapshot → IsSendable snapshot
  IsValid-IsSendable snapshot v = record {
    known_schema = v.known_schema;
    has_snapshot_id = (blank_iff unicode snapshot.snapshot_id).0 v.has_snapshot_id;
    has_agent_id = (blank_iff unicode snapshot.agent_id).0 v.has_agent_id;
    has_collected_at = (blank_iff unicode snapshot.collected_at).0 v.has_collected_at;
    has_hostname = (blank_iff unicode snapshot.hostname).0 v.has_hostname;
    has_agent_version = (blank_iff unicode snapshot.agent_version).0 v.has_agent_version;
    named_rows = (names_iff snapshot.software).0 v.named_rows;
    current_rows = elim v.current_rows [
      | inl old ↦ inl old
      | inr rows ↦ inr ((current_iff snapshot).0 rows)
    ];
    long_identifiers = (identifiers_iff snapshot.identifiers).0 v.long_identifiers;
  }

  IsSendable-IsValid :
      (snapshot : InventorySnapshot) → IsSendable snapshot → IsValid unicode snapshot
  IsSendable-IsValid snapshot v = record {
    known_schema = v.known_schema;
    has_snapshot_id = (blank_iff unicode snapshot.snapshot_id).1 v.has_snapshot_id;
    has_agent_id = (blank_iff unicode snapshot.agent_id).1 v.has_agent_id;
    has_collected_at = (blank_iff unicode snapshot.collected_at).1 v.has_collected_at;
    has_hostname = (blank_iff unicode snapshot.hostname).1 v.has_hostname;
    has_agent_version = (blank_iff unicode snapshot.agent_version).1 v.has_agent_version;
    named_rows = (names_iff snapshot.software).1 v.named_rows;
    current_rows = elim v.current_rows [
      | inl old ↦ inl old
      | inr rows ↦ inr ((current_iff snapshot).1 rows)
    ];
    long_identifiers = (identifiers_iff snapshot.identifiers).1 v.long_identifiers;
  }

  -- `validate` accepts a snapshot exactly if its schema is 1 or 2; its identifiers, times, names
  -- and versions, and the name of each row, have a character that is not whitespace; each
  -- identifier's hash has 8 bytes after trimming; and in schema 2 no two sources are the same, each
  -- has a version and a time, a diagnostic code of at most 64 bytes, of lower case letters, digits
  -- and underscores, if it has one, and the time of its completion if it is complete; and each row
  -- is of one of these sources, has two identities of 64 hexadecimal digits, its own comparison key
  -- as its product, a scope, and no location.
  pub validate_snapshot-IsSendable :
      (snapshot : InventorySnapshot)
      → (validate_snapshot unicode snapshot ≡ ok tt) ↔ IsSendable snapshot
  validate_snapshot-IsSendable snapshot =
      let valid = validate_snapshot_iff unicode snapshot in
      (λ h. IsValid-IsSendable snapshot (valid.0 h), λ s. valid.1 (IsSendable-IsValid snapshot s))
