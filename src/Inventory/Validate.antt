-- ===== src/Inventory/Validate.antt =====
-- src/model.rs: `validate`, check by check in the order of the source.
use lariska.Prelude.{
  ℕ, zero, suc, ◌+◌, ◌/◌, ◌%◌, Bool, true, false, not, ◌&&◌, ◌||◌, Option, none, some, List, [],
  ◌∷◌, ◌++◌, codes, ltb, ◌==◌, if◌then◌else◌, any, all, length, is_empty, in_range, is_ascii_digit,
  is_ascii_hexdigit, texts_equal,
}
use lariska.Exec.{Result, ok}
use lariska.Exec.Fallible.{◌>>=◌, ◌>>◌, require}
use lariska.Inventory.Text.{Text, Unicode, trim}
use lariska.Inventory.Hash.{utf8}
use lariska.Inventory.Entry.{
  SoftwareEntry, SoftwareSource, source_rank, comparison_key, inventory_schema_version,
  legacy_inventory_schema_version,
}
use lariska.Inventory.Snapshot.{
  InventorySnapshot, CollectionSource, CollectionStatus, complete, EndpointIdentifier,
}

pub data ModelError : Type 0 where
  invalid : Text → ModelError

abbrev pub Checked : Type 0
Checked = Result ModelError (Unit {0})

-- A `u16` in decimal.
abbrev decimal_text : ℕ → ℕ → Text
decimal_text zero n = []
decimal_text (suc fuel) n =
    let higher = decimal_text fuel (n / 10) in
    (if ltb n 10 then [] else higher) ++ (b'0' + n % 10) ∷ []

abbrev pub is_some : {A : Type 0} → Option A → Bool
is_some none = false
is_some (some a) = true

abbrev pub is_complete : CollectionStatus → Bool
is_complete complete = true
is_complete _ = false

abbrev pub same_source : SoftwareSource → SoftwareSource → Bool
same_source left right = source_rank left == source_rank right

-- The set of the sources seen.
abbrev pub contains : List SoftwareSource → SoftwareSource → Bool
contains seen source = any (same_source source) seen

abbrev pub code_character : ℕ → Bool
code_character c = in_range b'a' b'z' c || is_ascii_digit c || c == b'_'

abbrev pub bad_code : Option Text → Bool
bad_code none = false
bad_code (some code') = ltb 64 (length (utf8 code')) || not (all code_character code')

abbrev pub is_identity : Option Text → Bool
is_identity none = false
is_identity (some value) = (length (utf8 value) == 64) && all is_ascii_hexdigit value

abbrev pub same_text : Option Text → Text → Bool
same_text none value = false
same_text (some given) value = texts_equal given value

module _ (unicode : Unicode) where
  abbrev pub blank : Text → Bool
  blank value = is_empty (trim unicode value)

  unfoldable pub validate_required : Text → Text → Checked
  validate_required name value =
      require (not (blank value)) (invalid (name ++ codes " is required"))

  -- One source of the loop, with the sources before it.
  unfoldable pub validate_source : List SoftwareSource → CollectionSource → Checked
  validate_source seen source = do
    require (not (contains seen source.source)) (invalid (codes "duplicate collection source"))
    validate_required (codes "collector_version") source.collector_version
    validate_required (codes "source collected_at") source.collected_at
    require (not (bad_code source.diagnostic_code)) (invalid (codes "invalid diagnostic code"))
    require (not (is_complete source.status && not (is_some source.last_complete_at)))
        (invalid (codes "complete sources require last_complete_at"))

  unfoldable pub validate_sources :
      List SoftwareSource → List CollectionSource → Result ModelError (List SoftwareSource)
  validate_sources seen [] = ok seen
  validate_sources seen (source ∷ rest) =
      validate_source seen source >>= λ _. validate_sources (source.source ∷ seen) rest

  unfoldable pub validate_entry : List SoftwareSource → SoftwareEntry → Checked
  validate_entry sources entry = do
    require (contains sources entry.source)
        (invalid (codes "software source has no completeness state"))
    require (is_identity entry.installation_identity)
        (invalid (codes "invalid installation identity"))
    require (is_identity entry.install_instance_id)
        (invalid (codes "invalid installation identity"))
    require
        (not (
          not (same_text entry.product_identity (comparison_key unicode entry))
          || not (is_some entry.scope)
          || is_some entry.install_location))
        (invalid (codes "invalid v2 product identity or raw install location"))

  unfoldable pub validate_entries : List SoftwareSource → List SoftwareEntry → Checked
  validate_entries sources [] = ok tt
  validate_entries sources (entry ∷ rest) =
      validate_entry sources entry >> validate_entries sources rest

  unfoldable pub validate_identifiers : List EndpointIdentifier → Checked
  validate_identifiers [] = ok tt
  validate_identifiers (identifier ∷ rest) =
      require (not (ltb (length (utf8 (trim unicode identifier.value_hash))) 8))
        (invalid (codes "identifier value_hash must be at least 8 characters"))
      >> validate_identifiers rest

  unfoldable pub validate_current : InventorySnapshot → Checked
  validate_current snapshot = do
    sources ← validate_sources [] snapshot.sources
    validate_entries sources snapshot.software

  unfoldable pub validate_snapshot : InventorySnapshot → Checked
  validate_snapshot snapshot = do
    require
        (snapshot.schema_version == legacy_inventory_schema_version
          || snapshot.schema_version == inventory_schema_version)
        (invalid
          (codes "unsupported inventory schema version " ++ decimal_text 5 snapshot.schema_version))
    validate_required (codes "snapshot_id") snapshot.snapshot_id
    validate_required (codes "agent_id") snapshot.agent_id
    validate_required (codes "collected_at") snapshot.collected_at
    validate_required (codes "hostname") snapshot.hostname
    validate_required (codes "agent_version") snapshot.agent_version
    require (not (any (λ (e : SoftwareEntry). blank e.name) snapshot.software))
        (invalid (codes "software entries must not have empty names"))
    (if snapshot.schema_version == inventory_schema_version
        then validate_current snapshot
        else ok tt)
    validate_identifiers snapshot.identifiers
