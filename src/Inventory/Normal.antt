-- ===== src/Inventory/Normal.antt =====
-- Proofs about the normal form and the identities of a row.
use lariska.Prelude.{
  ℕ, ◌≡◌, refl, sym, ap, ◌∙◌, Option, none, some, List, ◌==◌, Bool-cases, inl, inr,
}
use lariska.Inventory.Text.{
  Text, Unicode, IsUnicode, normalize_required_string, normalize_optional_string,
}
use lariska.Inventory.Words.{normalize_required_string_idem, normalize_optional_string_idem}
use lariska.Inventory.Architecture.{architecture_idem}
use lariska.Inventory.Entry.{
  SoftwareEntry, normalize_architecture, option_map, normal_row, assign_identity, normalize_entry,
  comparison_key, identified, ensure_installation_identity, inventory_schema_version,
}
use lariska.Inventory.Snapshot.{identify_given, identify, prepare_entry}

module _ (unicode : Unicode) (laws : IsUnicode unicode) where
  -- The fields of a row that have a normal form have it.
  record IsNormal (entry : SoftwareEntry) : Type 0 where
    name : normalize_required_string unicode entry.name ≡ entry.name
    version : normalize_optional_string unicode entry.version ≡ entry.version
    publisher : normalize_optional_string unicode entry.publisher ≡ entry.publisher
    architecture :
        option_map normalize_architecture (normalize_optional_string unicode entry.architecture)
        ≡ entry.architecture
    install_location :
        normalize_optional_string unicode entry.install_location ≡ entry.install_location

  IsNormal-normalize_entry : (entry : SoftwareEntry) → IsNormal (normalize_entry unicode entry)
  unfolding normalize_entry
  IsNormal-normalize_entry entry = record {
    name = normalize_required_string_idem unicode laws entry.name;
    version = normalize_optional_string_idem unicode laws entry.version;
    publisher = normalize_optional_string_idem unicode laws entry.publisher;
    architecture = architecture_idem unicode laws entry.architecture;
    install_location = normalize_optional_string_idem unicode laws entry.install_location;
  }

  normalize_entry_normal :
      (entry : SoftwareEntry) → IsNormal entry → normalize_entry unicode entry ≡ entry
  unfolding normalize_entry
  normalize_entry_normal entry n = λ i. record entry {
    name = n.name i;
    version = n.version i;
    publisher = n.publisher i;
    architecture = n.architecture i;
    install_location = n.install_location i;
  }

  pub normalize_entry_idem :
      (entry : SoftwareEntry)
      → normalize_entry unicode (normalize_entry unicode entry) ≡ normalize_entry unicode entry
  normalize_entry_idem entry = normalize_entry_normal _ (IsNormal-normalize_entry entry)

  normalize_none : normalize_optional_string unicode none ≡ none
  unfolding normalize_optional_string
  normalize_none = refl

  module _ (sha256 : List ℕ → Text) where
    IsNormal-ensure :
        (entry : SoftwareEntry) → IsNormal (ensure_installation_identity unicode sha256 entry)
    unfolding ensure_installation_identity identified normalize_entry
    IsNormal-ensure entry =
        let n = IsNormal-normalize_entry entry in
        record {
          name = n.name;
          version = n.version;
          publisher = n.publisher;
          architecture = n.architecture;
          install_location = normalize_none;
        }

    package-ensure :
        (entry : SoftwareEntry)
        → normalize_optional_string unicode
            (ensure_installation_identity unicode sha256 entry).package_id
          ≡ (ensure_installation_identity unicode sha256 entry).package_id
    unfolding ensure_installation_identity identified normalize_entry
    package-ensure entry = normalize_optional_string_idem unicode laws entry.package_id

    normal_row-ensure :
        (entry : SoftwareEntry)
        → normal_row unicode (ensure_installation_identity unicode sha256 entry)
          ≡ ensure_installation_identity unicode sha256 entry
    normal_row-ensure entry =
        let whole = ensure_installation_identity unicode sha256 entry in
        rw (normalize_entry_normal whole (IsNormal-ensure entry))
          (λ i. record whole { package_id = package-ensure entry i })

    assign_identity_idem :
        (entry : SoftwareEntry)
        → assign_identity unicode sha256 (assign_identity unicode sha256 entry)
          ≡ assign_identity unicode sha256 entry
    unfolding identified comparison_key
    assign_identity_idem entry = refl

    pub ensure_idem :
        (entry : SoftwareEntry)
        → ensure_installation_identity unicode sha256
            (ensure_installation_identity unicode sha256 entry)
          ≡ ensure_installation_identity unicode sha256 entry
    ensure_idem entry =
        ensure_lem (ensure_installation_identity unicode sha256 entry)
        ∙ ap (assign_identity unicode sha256) (normal_row-ensure entry)
        ∙ ap (assign_identity unicode sha256) (ensure_lem entry)
        ∙ assign_identity_idem (normal_row unicode entry)
        ∙ sym (ensure_lem entry)
      where
        ensure_lem :
            (row : SoftwareEntry)
            → ensure_installation_identity unicode sha256 row
              ≡ assign_identity unicode sha256 (normal_row unicode row)
        ensure_lem row = unfold ensure_installation_identity in refl

    ensure_identity :
        (entry : SoftwareEntry)
        → (identity : Text) × ((ensure_installation_identity unicode sha256
              entry).installation_identity
            ≡ some identity)
    unfolding ensure_installation_identity identified
    ensure_identity entry = (_, refl)

    -- What `identify` gives is what `ensure_installation_identity` gave a row.
    identify_ensured :
        (agent_id : Text) (entry : SoftwareEntry) (identity : Option Text)
        → (row : SoftwareEntry) × (identify_given unicode sha256 agent_id entry identity
            ≡ ensure_installation_identity unicode sha256 row)
    unfolding identify_given
    identify_ensured agent_id entry (some identity) = (entry, refl)
    identify_ensured agent_id entry none = (_, refl)

    identify_known :
        (agent_id : Text) (entry : SoftwareEntry) (identity : Text)
        → identify_given unicode sha256 agent_id entry (some identity)
          ≡ ensure_installation_identity unicode sha256 entry
    unfolding identify_given
    identify_known agent_id entry identity = refl

    identify_ensure :
        (agent_id : Text) (row : SoftwareEntry)
        → identify unicode sha256 agent_id (ensure_installation_identity unicode sha256 row)
          ≡ ensure_installation_identity unicode sha256 row
    identify_ensure agent_id row =
        let entry = ensure_installation_identity unicode sha256 row in
        ap (identify_given unicode sha256 agent_id entry) (ensure_identity row).1
        ∙ identify_known agent_id entry (ensure_identity row).0
        ∙ ensure_idem row

    -- A row that is prepared is prepared to be itself.
    pub prepare_entry_idem :
        (schema_version : ℕ) (agent_id : Text) (entry : SoftwareEntry)
        → prepare_entry unicode sha256 schema_version agent_id
            (prepare_entry unicode sha256 schema_version agent_id entry)
          ≡ prepare_entry unicode sha256 schema_version agent_id entry
    unfolding prepare_entry
    prepare_entry_idem schema_version agent_id entry =
        elim (Bool-cases (schema_version == inventory_schema_version)) [
          | inl current ↦
              let (row, e) =
                identify_ensured agent_id (normalize_entry unicode entry)
                  (normalize_entry unicode entry).installation_identity in
              rw
                (
                  current,
                  e,
                  normalize_entry_normal (ensure_installation_identity unicode sha256 row)
                      (IsNormal-ensure row),
                )
                (identify_ensure agent_id row)
          | inr legacy ↦ rw legacy (normalize_entry_idem entry)
        ]
