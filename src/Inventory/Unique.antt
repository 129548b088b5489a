-- ===== src/Inventory/Unique.antt =====
-- Proofs about the keys of what `normalize` of src/model.rs leaves.
use Prim.Native.Nat.Ordering.{lt, gt}
use lariska.Prelude.{ℕ, ◌≡◌, ◌≢◌, false, List, [], ◌∷◌, Bool-cases, inl, inr, arith}
use lariska.Inventory.Lexicographic.{compare_texts, compare_texts-IsPreorder, compare_texts_same}
use lariska.Inventory.Sort.{sort_by, sort_by-Ascending, Below, Ascending}
use lariska.Inventory.Text.{Text, Unicode}
use lariska.Inventory.Entry.{SoftwareEntry, identity_key}
use lariska.Inventory.Snapshot.{
  InventorySnapshot, software_order, same_key, deduplicate_software, prepared, normalize,
}
use lariska.Inventory.Rows.{
  texts_equal_refl, software_order-IsPreorder, survivors, survivors_same, survivors_fresh, unique,
  deduplicate_lem,
}

module _ (unicode : Unicode) (schema_version : ℕ) where
  -- The key of a row is below those of all rows after it.
  abbrev pub KeyBelow : SoftwareEntry → List SoftwareEntry → Type 0
  KeyBelow row [] = Unit
  KeyBelow row (other ∷ rest) =
      (compare_texts (identity_key unicode schema_version row)
          (identity_key unicode schema_version other)
        ≡ lt)
      × KeyBelow row rest

  abbrev pub KeysAscend : List SoftwareEntry → Type 0
  KeysAscend [] = Unit
  KeysAscend (row ∷ rest) = KeyBelow row rest × KeysAscend rest

  KeyBelow-trans :
      (a b : SoftwareEntry) (rest : List SoftwareEntry)
      → compare_texts
          (identity_key unicode schema_version a)
          (identity_key unicode schema_version b)
        ≡ lt
      → KeyBelow b rest
      → KeyBelow a rest
  KeyBelow-trans a b [] h k = tt
  KeyBelow-trans a b (c ∷ rest) h k = (
    compare_texts-IsPreorder.lt_chain (identity_key unicode schema_version a)
        (identity_key unicode schema_version b) (identity_key unicode schema_version c) h k.0,
    KeyBelow-trans a b rest h k.1,
  )

  fresh_above :
      (a b : SoftwareEntry)
      → same_key unicode schema_version a b ≡ false
      → software_order unicode schema_version a b ≢ gt
      → compare_texts
          (identity_key unicode schema_version a)
          (identity_key unicode schema_version b)
        ≡ lt
  unfolding software_order same_key
  fresh_above a b fresh h = ground (
    arith,
    compare_texts_same (identity_key unicode schema_version a)
        (identity_key unicode schema_version b),
    texts_equal_refl (identity_key unicode schema_version a),
  )

  survivors-KeysAscend :
      (kept : SoftwareEntry) (rows : List SoftwareEntry)
      → Below (software_order unicode schema_version) kept rows
      → Ascending (software_order unicode schema_version) rows
      → KeyBelow kept (survivors unicode schema_version kept rows)
        × KeysAscend (survivors unicode schema_version kept rows)
  unfolding survivors
  survivors-KeysAscend kept [] h k = (tt, tt)
  survivors-KeysAscend kept (row ∷ rest) h k =
      elim (Bool-cases (same_key unicode schema_version kept row)) [
        | inl same ↦
            rw (survivors_same unicode schema_version kept row rest same)
              (survivors-KeysAscend kept rest h.1 k.1)
        | inr fresh ↦
            let above = fresh_above kept row fresh h.0 in
            let later = survivors-KeysAscend row rest k.0 k.1 in
            rw (survivors_fresh unicode schema_version kept row rest fresh)
              ((above, KeyBelow-trans kept row _ above later.0), later)
      ]

  pub unique-KeysAscend :
      (rows : List SoftwareEntry)
      → Ascending (software_order unicode schema_version) rows
      → KeysAscend (unique unicode schema_version rows)
  unfolding unique
  unique-KeysAscend [] h = tt
  unique-KeysAscend (row ∷ rest) h = survivors-KeysAscend row rest h.0 h.1

module _ (unicode : Unicode) (sha256 : List ℕ → Text) (snapshot : InventorySnapshot) where
  pub normalize_software :
      (normalize unicode sha256 snapshot).software
      ≡ unique unicode snapshot.schema_version (
          sort_by
            (software_order unicode snapshot.schema_version)
            (prepared unicode sha256 snapshot))
  unfolding normalize deduplicate_software
  normalize_software = rw deduplicate_lem

  -- The rows of a snapshot in normal form ascend by their identity keys, so no two have the same.
  pub normalize-KeysAscend :
      KeysAscend unicode snapshot.schema_version (normalize unicode sha256 snapshot).software
  normalize-KeysAscend = rw normalize_software (
      unique-KeysAscend unicode snapshot.schema_version _ (
        sort_by-Ascending _ (software_order-IsPreorder unicode snapshot.schema_version)
          (prepared unicode sha256 snapshot)))
