-- ===== src/Inventory/Newest.antt =====
-- Proofs about the rows of one identity that `normalize` of src/model.rs keeps.
use Prim.Native.Nat.Ordering.{gt}
use lariska.Prelude.{ℕ, ◌≡◌, ◌≢◌, refl, true, List, [], ◌∷◌, Bool-cases, inl, inr, arith}
use lariska.Inventory.Order.{self_eq}
use lariska.Inventory.Lexicographic.{compare_texts-IsPreorder}
use lariska.Inventory.Sort.{
  sort_by, sort_by-Ascending, Below, Ascending, In, In-sort_by, sort_by-In,
}
use lariska.Inventory.Text.{Text, Unicode}
use lariska.Inventory.Version.{compare_versions}
use lariska.Inventory.Version.Laws.{compare_versions-IsPreorder}
use lariska.Inventory.Entry.{SoftwareEntry, identity_key}
use lariska.Inventory.Snapshot.{InventorySnapshot, software_order, same_key, prepared, normalize}
use lariska.Inventory.Rows.{
  texts_equal_same, software_order-IsPreorder, survivors, survivors_same, survivors_fresh, unique,
}
use lariska.Inventory.Unique.{normalize_software}

-- Each of the second rows is one of the first.
abbrev pub AllIn : List SoftwareEntry → List SoftwareEntry → Type 0
AllIn rows [] = Unit
AllIn rows (a ∷ rest) = In a rows × AllIn rows rest

all_in :
    (rows software : List SoftwareEntry)
    → ((a : SoftwareEntry) → In a software → In a rows)
    → AllIn rows software
all_in rows [] f = tt
all_in rows (a ∷ rest) f = (f a (inl refl), all_in rows rest (λ b m. f b (inr m)))

module _ (unicode : Unicode) (schema_version : ℕ) where
  -- `kept` has the identity of `row`, and a version that is not older.
  pub record Covers (kept row : SoftwareEntry) : Type 0 where
    pub same_identity :
        identity_key unicode schema_version kept ≡ identity_key unicode schema_version row
    pub not_older : compare_versions unicode row.version kept.version ≢ gt

  Covers-refl : (row : SoftwareEntry) → Covers row row
  Covers-refl row = record {
    same_identity = refl;
    not_older = ground (arith, self_eq (compare_versions-IsPreorder unicode) row.version);
  }

  pub Covers-below :
      (kept row : SoftwareEntry)
      → same_key unicode schema_version kept row ≡ true
      → software_order unicode schema_version kept row ≢ gt
      → Covers kept row
  unfolding same_key software_order
  Covers-below kept row same h =
      let keys : identity_key unicode schema_version kept
          ≡ identity_key unicode schema_version row =
        texts_equal_same _ _ same in
      record {
        same_identity = keys;
        not_older = ground (
          arith,
          keys,
          self_eq compare_texts-IsPreorder (identity_key unicode schema_version kept),
        );
      }

  -- The rows kept after `kept`, and `kept` itself, cover every row.
  survivors_cover :
      (kept a : SoftwareEntry) (rows : List SoftwareEntry)
      → Below (software_order unicode schema_version) kept rows
      → Ascending (software_order unicode schema_version) rows
      → In a (kept ∷ rows)
      → (b : SoftwareEntry) × In b (kept ∷ survivors unicode schema_version kept rows) × Covers b a
  survivors_cover kept a rows h k (inl e) = (kept, inl refl, rw e (Covers-refl kept))
  survivors_cover kept a [] h k (inr m) = absurd m
  survivors_cover kept a (row ∷ rest) h k (inr m) =
      elim (Bool-cases (same_key unicode schema_version kept row)) [
        | inl same ↦ rw (survivors_same unicode schema_version kept row rest same) (elim m [
          | inl e ↦ (kept, inl refl, rw e (Covers-below kept row same h.0))
          | inr later ↦ survivors_cover kept a rest h.1 k.1 (inr later)
        ])
        | inr fresh ↦
            let (b, kept', covers) = survivors_cover row a rest k.0 k.1 m in
            rw (survivors_fresh unicode schema_version kept row rest fresh) (b, inr kept', covers)
      ]

  unique_cover :
      (a : SoftwareEntry) (rows : List SoftwareEntry)
      → Ascending (software_order unicode schema_version) rows
      → In a rows
      → (b : SoftwareEntry) × In b (unique unicode schema_version rows) × Covers b a
  unfolding unique
  unique_cover a [] h m = absurd m
  unique_cover a (row ∷ rest) h m = survivors_cover row a rest h.0 h.1 m

  In-survivors :
      (a kept : SoftwareEntry) (rows : List SoftwareEntry)
      → In a (survivors unicode schema_version kept rows)
      → In a rows
  unfolding survivors
  In-survivors a kept [] m = m
  In-survivors a kept (row ∷ rest) m =
      elim (Bool-cases (same_key unicode schema_version kept row)) [
        | inl same ↦ inr (
            In-survivors a kept rest
              (rw (survivors_same unicode schema_version kept row rest same) at m))
        | inr fresh ↦ elim (rw (survivors_fresh unicode schema_version kept row rest fresh) at m) [
          | inl e ↦ inl e
          | inr later ↦ inr (In-survivors a row rest later)
        ]
      ]

  pub In-unique :
      (a : SoftwareEntry) (rows : List SoftwareEntry)
      → In a (unique unicode schema_version rows)
      → In a rows
  unfolding unique
  In-unique a [] m = m
  In-unique a (row ∷ rest) (inl e) = inl e
  In-unique a (row ∷ rest) (inr m) = inr (In-survivors a row rest m)

  -- Each of `rows` is covered by one of `software`.
  abbrev pub AllCovered : List SoftwareEntry → List SoftwareEntry → Type 0
  AllCovered software [] = Unit
  AllCovered software (row ∷ rest) =
      ((kept : SoftwareEntry) × In kept software × Covers kept row) × AllCovered software rest

  all_covered :
      (software rows : List SoftwareEntry)
      → ((row : SoftwareEntry)
          → In row rows
          → (kept : SoftwareEntry) × In kept software × Covers kept row)
      → AllCovered software rows
  all_covered software [] f = tt
  all_covered software (row ∷ rest) f =
      (f row (inl refl), all_covered software rest (λ a m. f a (inr m)))

module _ (unicode : Unicode) (sha256 : List ℕ → Text) (snapshot : InventorySnapshot) where
  -- Every row that came in, in the form it is sent in and with a name, is covered: a row is kept
  -- that has its identity key and a version that is not older. Every row that is kept came in.
  pub normalize_newest :
      AllCovered unicode snapshot.schema_version
        (normalize unicode sha256 snapshot).software
        (prepared unicode sha256 snapshot)
      × AllIn (prepared unicode sha256 snapshot) (normalize unicode sha256 snapshot).software
  normalize_newest =
      let order = software_order unicode snapshot.schema_version in
      let rows = prepared unicode sha256 snapshot in
      rw (normalize_software unicode sha256 snapshot) (
        all_covered unicode snapshot.schema_version _ rows (λ row m.
            unique_cover unicode snapshot.schema_version row (sort_by order rows)
              (sort_by-Ascending order (software_order-IsPreorder unicode snapshot.schema_version)
                rows)
              (sort_by-In order row rows m)),
        all_in rows _ (λ row m.
            In-sort_by order row rows
              (In-unique unicode snapshot.schema_version row (sort_by order rows) m)),
      )
