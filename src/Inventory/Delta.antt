-- ===== src/Inventory/Delta.antt =====
-- src/model.rs: `diff`, the changes of the software between two snapshots.
pub mod Maps
pub mod Sorted
pub mod Applied
use Prim.Native.Nat.{Ordering, compare}
use Prim.Native.Nat.Ordering.{lt, eq, gt}
use lariska.Prelude.{
  ℕ, Bool, true, false, not, ◌&&◌, ◌||◌, Option, none, some, List, [], ◌∷◌, ◌++◌, ◌==◌,
  if◌then◌else◌, any,
}
use lariska.Inventory.Order.{on}
use lariska.Inventory.Lexicographic.{compare_texts}
use lariska.Inventory.Sort.{sort_by}
use lariska.Inventory.Text.{Text, Unicode}
use lariska.Inventory.Entry.{
  SoftwareEntry, SoftwareSource, comparison_key, identity_key, inventory_schema_version,
  legacy_inventory_schema_version,
}
use lariska.Inventory.Snapshot.{InventorySnapshot, CollectionSource, same_version}
use lariska.Inventory.Validate.{is_complete, is_some, same_source}

pub data DeltaAction : Type 0 where
  added removed modified : DeltaAction

pub record SoftwareDeltaItem : Type 0 where
  pub action : DeltaAction
  pub entry : SoftwareEntry
  pub previous_version : Option Text

pub record InventoryDelta : Type 0 where
  pub schema_version : ℕ
  pub snapshot_id : Text
  pub base_snapshot_id : Text
  pub agent_id : Text
  pub collected_at : Text
  pub software_changes : List SoftwareDeltaItem
  pub collector_warnings : List Text

-- A `BTreeMap` by text: the pairs in ascending order of the keys.
abbrev pub Map : Type 0 → Type 0
Map V = List (Text × V)

module _ {V : Type 0} where
  -- A value under a key that is there takes the place of the old one.
  unfoldable pub insert : Text → V → Map V → Map V
  insert key value [] = (key, value) ∷ []
  insert key value ((k, v) ∷ rest) =
      let later = (k, v) ∷ insert key value rest in
      elim (compare_texts key k) [
        | lt ↦ (key, value) ∷ (k, v) ∷ rest
        | eq ↦ (key, value) ∷ rest
        | gt ↦ later
      ]

  unfoldable pub get : Text → Map V → Option V
  get key [] = none
  get key ((k, v) ∷ rest) = elim (compare_texts key k) [
    | eq ↦ some v
    | lt ↦ get key rest
    | gt ↦ get key rest
  ]

-- Whether the source of a row has been collected whole.
abbrev pub collected_whole : List CollectionSource → SoftwareEntry → Bool
collected_whole sources entry =
    any (λ (s : CollectionSource). same_source s.source entry.source && is_complete s.status)
      sources

module _ (unicode : Unicode) where
  -- `collect()`: of two rows with one key the later one stays.
  unfoldable pub rows_by_key : ℕ → Map SoftwareEntry → List SoftwareEntry → Map SoftwareEntry
  rows_by_key schema_version map [] = map
  rows_by_key schema_version map (entry ∷ rest) =
      rows_by_key schema_version (insert (identity_key unicode schema_version entry) entry map) rest

  module _ (current : InventorySnapshot) where
    -- What one row of the current snapshot adds.
    unfoldable pub change_of : Map SoftwareEntry → Text → SoftwareEntry → List SoftwareDeltaItem
    change_of previous key entry =
        if (current.schema_version == inventory_schema_version)
          && not (collected_whole current.sources entry)
        then []
        else elim (get key previous) [
          | some before ↦
              if same_version entry.version before.version
              then []
              else record { action = modified; entry = entry; previous_version = before.version }
                ∷ []
          | none ↦ record { action = added; entry = entry; previous_version = none } ∷ []
        ]

    unfoldable pub changes_of : Map SoftwareEntry → Map SoftwareEntry → List SoftwareDeltaItem
    changes_of previous [] = []
    changes_of previous ((key, entry) ∷ rest) =
        change_of previous key entry ++ changes_of previous rest

    -- What one row of the previous snapshot adds.
    unfoldable pub removal_of : Map SoftwareEntry → Text → SoftwareEntry → List SoftwareDeltaItem
    removal_of now key entry =
        if not (is_some (get key now))
          && ((current.schema_version == legacy_inventory_schema_version)
              || collected_whole current.sources entry)
        then record { action = removed; entry = entry; previous_version = entry.version } ∷ []
        else []

    unfoldable pub removals_of : Map SoftwareEntry → Map SoftwareEntry → List SoftwareDeltaItem
    removals_of now [] = []
    removals_of now ((key, entry) ∷ rest) = removal_of now key entry ++ removals_of now rest

    unfoldable pub diff : InventorySnapshot → InventoryDelta
    diff previous =
        let before = rows_by_key current.schema_version [] previous.software in
        let now = rows_by_key current.schema_version [] current.software in
        record {
          schema_version = current.schema_version;
          snapshot_id = current.snapshot_id;
          base_snapshot_id = previous.snapshot_id;
          agent_id = current.agent_id;
          collected_at = current.collected_at;
          software_changes =
              sort_by
                (on (λ (item : SoftwareDeltaItem). comparison_key unicode item.entry) compare_texts)
                (changes_of before now ++ removals_of now before);
          collector_warnings = current.collector_warnings;
        }
