-- ===== src/Inventory/Delta/Applied.antt =====
-- What the changes of a delta do to the versions that a receiver has of the previous snapshot.
use mathlib.Core.List.{append-nil}
use Prim.Native.Nat.{Ordering}
use lariska.Prelude.{
  ℕ, ◌≤◌, length, ◌≡◌, refl, sym, ap, ◌∙◌, Bool, true, not, ◌&&◌, ◌||◌, Option, none, some, List,
  [], ◌∷◌, ◌++◌, ◌==◌, if◌then◌else◌, retain, Bool-cases, inl, inr, arith,
}
use lariska.Inventory.Order.{on}
use lariska.Inventory.Lexicographic.{compare_texts}
use lariska.Inventory.Identifiers.{In-retain}
use lariska.Inventory.Sort.{sort_by}
use lariska.Inventory.Text.{Text, Unicode}
use lariska.Inventory.Entry.{
  SoftwareEntry, identity_key, comparison_key, option_map, inventory_schema_version,
  legacy_inventory_schema_version,
}
use lariska.Inventory.Snapshot.{InventorySnapshot, same_version}
use lariska.Inventory.Rows.{texts_equal_same}
use lariska.Inventory.Delta.{
  SoftwareDeltaItem, added, removed, modified, Map, get, collected_whole, rows_by_key, change_of,
  changes_of, removal_of, removals_of, diff,
}
use lariska.Inventory.Delta.Sorted.{retain-append, retain-sort_by_none, retain-sort_by_one}
use lariska.Inventory.Delta.Maps.{
  same, same_key_eq, get_here, get_past, latest, get-rows, IsKeyed, rows-IsKeyed, get_above,
}

-- The version that a receiver has under a key: none, or a row with or without a version.
abbrev pub Known : Type 0
Known = Option (Option Text)

abbrev pub after_item : SoftwareDeltaItem → Known
after_item item = elim item.action [
  | added ↦ some item.entry.version
  | modified ↦ some item.entry.version
  | removed ↦ none
]

module _ (unicode : Unicode) (schema_version : ℕ) where
  abbrev pub about : Text → SoftwareDeltaItem → Bool
  about key item = same key (identity_key unicode schema_version item.entry)

  -- The receiver takes the changes one after the other.
  unfoldable pub apply_changes : List SoftwareDeltaItem → Text → Known → Known
  apply_changes [] key known = known
  apply_changes (item ∷ rest) key known =
      apply_changes rest key (if about key item then after_item item else known)

  apply_changes-about :
      (items : List SoftwareDeltaItem) (key : Text) (known : Known)
      → apply_changes items key known ≡ apply_changes (retain (about key) items) key known
  unfolding apply_changes
  apply_changes-about [] key known = refl
  apply_changes-about (item ∷ rest) key known =
      ground
        (arith, apply_changes-about rest key (after_item item), apply_changes-about rest key known)

-- What a receiver should have under a key, from the row of the current snapshot and the row of the
-- previous one: a row of the current schema whose source has not been collected whole stays as it
-- was, and so does a row that is only missing from such a source.
unfoldable pub merged : InventorySnapshot → Option SoftwareEntry → Option SoftwareEntry → Known
merged current none none = none
merged current none (some before) =
    if (current.schema_version == legacy_inventory_schema_version)
      || collected_whole current.sources before
    then none
    else some before.version
merged current (some now) before =
    if (current.schema_version == inventory_schema_version)
      && not (collected_whole current.sources now)
    then option_map (λ (e : SoftwareEntry). e.version) before
    else some now.version

module _ (unicode : Unicode) (current : InventorySnapshot) (key : Text) where
  abbrev version : ℕ
  version = current.schema_version

  abbrev mine : SoftwareDeltaItem → Bool
  mine = about unicode version key

  change_about :
      (previous : Map SoftwareEntry) (k : Text) (entry : SoftwareEntry)
      → identity_key unicode version entry ≡ k
      → retain mine (change_of unicode current previous k entry)
        ≡ (if same key k then change_of unicode current previous k entry else [])
  unfolding change_of
  change_about previous k entry h = ground arith

  removal_about :
      (now : Map SoftwareEntry) (k : Text) (entry : SoftwareEntry)
      → identity_key unicode version entry ≡ k
      → retain mine (removal_of unicode current now k entry)
        ≡ (if same key k then removal_of unicode current now k entry else [])
  unfolding removal_of
  removal_about now k entry h = ground arith

  abbrev change_at : Map SoftwareEntry → Option SoftwareEntry → List SoftwareDeltaItem
  change_at previous none = []
  change_at previous (some entry) = change_of unicode current previous key entry

  abbrev removal_at : Map SoftwareEntry → Option SoftwareEntry → List SoftwareDeltaItem
  removal_at now none = []
  removal_at now (some entry) = removal_of unicode current now key entry

  changes_about :
      (previous now : Map SoftwareEntry)
      → IsKeyed unicode version now
      → retain mine (changes_of unicode current previous now) ≡ change_at previous (get key now)
  unfolding changes_of get
  changes_about previous [] h = refl
  changes_about previous ((k, entry) ∷ rest) h =
      retain-append mine (change_of unicode current previous k entry)
        (changes_of unicode current previous rest)
      ∙ rw (change_about previous k entry h.0, changes_about previous rest h.2)
          (elim (Bool-cases (same key k)) [
            | inl here ↦
                let key_k = same_key_eq key k here in
                let gone = ap (λ j. get j rest) key_k ∙ get_above unicode version k rest h.1 in
                rw (here, get_here key k entry rest here, gone)
                  (append-nil _ ∙ ap (λ j. change_of unicode current previous j entry) (sym key_k))
            | inr past ↦ rw (past, get_past key k entry rest past)
          ])

  removals_about :
      (now previous : Map SoftwareEntry)
      → IsKeyed unicode version previous
      → retain mine (removals_of unicode current now previous) ≡ removal_at now (get key previous)
  unfolding removals_of get
  removals_about now [] h = refl
  removals_about now ((k, entry) ∷ rest) h =
      retain-append mine (removal_of unicode current now k entry)
        (removals_of unicode current now rest)
      ∙ rw (removal_about now k entry h.0, removals_about now rest h.2)
          (elim (Bool-cases (same key k)) [
            | inl here ↦
                let key_k = same_key_eq key k here in
                let gone = ap (λ j. get j rest) key_k ∙ get_above unicode version k rest h.1 in
                rw (here, get_here key k entry rest here, gone)
                  (append-nil _ ∙ ap (λ j. removal_of unicode current now j entry) (sym key_k))
            | inr past ↦ rw (past, get_past key k entry rest past)
          ])

  same_version_eq : (left right : Option Text) → same_version left right ≡ true → left ≡ right
  same_version_eq none none h = refl
  same_version_eq none (some right) h = cc
  same_version_eq (some left) none h = cc
  same_version_eq (some left) (some right) h = ap some (texts_equal_same left right h)

  abbrev effect : List SoftwareDeltaItem → Known → Known
  effect [] known = known
  effect (item ∷ rest) known = after_item item

  one_applied :
      (item : SoftwareDeltaItem) (known : Known)
      → mine item ≡ true
      → apply_changes unicode version (item ∷ []) key known ≡ after_item item
  unfolding apply_changes
  one_applied item known h = rw h

  -- The changes under one key are one at most, so sorting leaves what they do.
  applied_at :
      (order : SoftwareDeltaItem → SoftwareDeltaItem → Ordering)
      (items expected : List SoftwareDeltaItem) (known : Known)
      → retain mine items ≡ expected
      → length expected ≤ 1
      → apply_changes unicode version (sort_by order items) key known ≡ effect expected known
  applied_at order items [] known h one =
      apply_changes-about unicode version (sort_by order items) key known
      ∙ rw (retain-sort_by_none mine order items h) (unfold apply_changes in refl)
  applied_at order items (item ∷ []) known h one =
      apply_changes-about unicode version (sort_by order items) key known
      ∙ rw (retain-sort_by_one mine order item items h)
          (one_applied item known (In-retain mine item items (rw h (inl refl))).1)
  applied_at order items (item ∷ next ∷ rest) known h one = absurd (omega arith)

  abbrev version_of : SoftwareEntry → Option Text
  version_of entry = entry.version

  expected_changes :
      (now before : Map SoftwareEntry) (n p : Option SoftwareEntry)
      → get key now ≡ n
      → get key before ≡ p
      → (length (change_at before n ++ removal_at now p) ≤ 1)
        × (effect (change_at before n ++ removal_at now p) (option_map version_of p)
            ≡ merged current n p)
  unfolding change_of removal_of merged
  expected_changes now before none none e f = (omega arith, refl)
  expected_changes now before none (some p) e f = (ground arith, ground arith)
  expected_changes now before (some n) none e f = (ground arith, ground arith)
  expected_changes now before (some n) (some p) e f =
      (ground arith, ground (arith, same_version_eq n.version p.version))

-- A receiver that has the versions of the previous snapshot and takes the changes has, under every
-- key, the version of the current snapshot, except that a row stays as it was where its source has
-- not been collected whole.
pub diff-merged :
    (unicode : Unicode) (current previous : InventorySnapshot) (key : Text)
    → apply_changes unicode current.schema_version
        (diff unicode current previous).software_changes
        key
        (option_map
          (λ (e : SoftwareEntry). e.version)
          (latest unicode current.schema_version key previous.software))
      ≡ merged current
          (latest unicode current.schema_version key current.software)
          (latest unicode current.schema_version key previous.software)
unfolding diff
diff-merged unicode current previous key =
    let version = current.schema_version in
    let before = rows_by_key unicode version [] previous.software in
    let now = rows_by_key unicode version [] current.software in
    let items = changes_of unicode current before now ++ removals_of unicode current now before in
    let found =
      expected_changes unicode current key now before (latest unicode version key current.software)
        (latest unicode version key previous.software)
        (get-rows unicode version key current.software)
        (get-rows unicode version key previous.software) in
    let here : retain (about unicode version key) items
        ≡ change_at unicode current key before (latest unicode version key current.software)
          ++ removal_at unicode current key now (latest unicode version key previous.software) =
      retain-append (about unicode version key) (changes_of unicode current before now)
        (removals_of unicode current now before)
      ∙ rw (
        changes_about unicode current key before now
            (rows-IsKeyed unicode version current.software),
        removals_about unicode current key now before
            (rows-IsKeyed unicode version previous.software),
        get-rows unicode version key current.software,
        get-rows unicode version key previous.software,
      ) in
    applied_at unicode current key
      (on (λ (item : SoftwareDeltaItem). comparison_key unicode item.entry) compare_texts) items _ _
      here found.0
    ∙ found.1
