-- ===== src/Inventory/Idempotent.antt =====
-- Proofs about `normalize` of src/model.rs on its own results.
use mathlib.Core.List.{append-nil}
use Prim.Native.Nat.{compare}
use Prim.Native.Nat.Ordering.{lt, gt}
use lariska.Prelude.{
  ℕ, ◌≡◌, ◌≢◌, refl, sym, ap, ◌∙◌, true, false, List, [], ◌∷◌, ◌++◌, map, ◌==◌, inl, inr, retain,
  if◌then◌else◌, arith,
}
use lariska.Inventory.Order.{on, on-IsPreorder, compare-IsPreorder, self_eq}
use lariska.Inventory.Lexicographic.{compare_texts, compare_texts-IsPreorder}
use lariska.Inventory.Sort.{
  sort_by, Below, Ascending, sort_by-Ascending, sort_by-eq_of_Ascending, In, In-sort_by,
}
use lariska.Inventory.Text.{Text, Unicode, IsUnicode}
use lariska.Inventory.Entry.{SoftwareEntry, source_rank, identity_key, inventory_schema_version}
use lariska.Inventory.Snapshot.{
  InventorySnapshot, CollectionSource, software_order, same_key, prepare_entry, named, prepared,
  normalize_identifiers, deduplicate_software, normalize,
}
use lariska.Inventory.Rows.{
  texts_equal_same, software_order-IsPreorder, survivors, survivors_fresh, reported, reported_fresh,
  unique, reports, deduplicate_lem,
}
use lariska.Inventory.Unique.{KeyBelow, KeysAscend, unique-KeysAscend}
use lariska.Inventory.Newest.{In-unique}
use lariska.Inventory.Normal.{prepare_entry_idem}
use lariska.Inventory.Identifiers.{In-retain, retain_all, normalize_identifiers_idem}

pub In-map :
    {A B : Type 0} (f : A → B) (b : B) (xs : List A)
    → In b (map f xs)
    → (a : A) × In a xs × (b ≡ f a)
In-map f b [] m = absurd m
In-map f b (x ∷ xs) (inl e) = (x, inl refl, e)
In-map f b (x ∷ xs) (inr m) = let (a, there, e) = In-map f b xs m in (a, inr there, e)

map_fixed : {A : Type 0} (f : A → A) (xs : List A) → ((a : A) → In a xs → f a ≡ a) → map f xs ≡ xs
map_fixed f [] h = refl
map_fixed f (x ∷ xs) h = rw (h x (inl refl), map_fixed f xs (λ a m. h a (inr m)))

module _ (unicode : Unicode) (schema_version : ℕ) where
  above_fresh :
      (a b : SoftwareEntry)
      → compare_texts
          (identity_key unicode schema_version a)
          (identity_key unicode schema_version b)
        ≡ lt
      → (same_key unicode schema_version a b ≡ false)
        × (software_order unicode schema_version a b ≢ gt)
  unfolding same_key software_order
  above_fresh a b h = (
    ground (
      arith,
      texts_equal_same (identity_key unicode schema_version a)
          (identity_key unicode schema_version b),
      self_eq compare_texts-IsPreorder (identity_key unicode schema_version a),
    ),
    rw h (ground arith),
  )

  KeyBelow-Below :
      (a : SoftwareEntry) (rows : List SoftwareEntry)
      → KeyBelow unicode schema_version a rows
      → Below (software_order unicode schema_version) a rows
  KeyBelow-Below a [] h = tt
  KeyBelow-Below a (row ∷ rest) h = ((above_fresh a row h.0).1, KeyBelow-Below a rest h.1)

  KeysAscend-Ascending :
      (rows : List SoftwareEntry)
      → KeysAscend unicode schema_version rows
      → Ascending (software_order unicode schema_version) rows
  KeysAscend-Ascending [] h = tt
  KeysAscend-Ascending (row ∷ rest) h = (KeyBelow-Below row rest h.0, KeysAscend-Ascending rest h.1)

  survivors-eq_of_KeysAscend :
      (kept : SoftwareEntry) (rows : List SoftwareEntry)
      → KeyBelow unicode schema_version kept rows
      → KeysAscend unicode schema_version rows
      → (survivors unicode schema_version kept rows ≡ rows)
        × (reported unicode schema_version kept rows ≡ [])
  unfolding survivors reported
  survivors-eq_of_KeysAscend kept [] h k = (refl, refl)
  survivors-eq_of_KeysAscend kept (row ∷ rest) h k =
      let fresh = (above_fresh kept row h.0).0 in
      let later = survivors-eq_of_KeysAscend row rest k.0 k.1 in
      (
        survivors_fresh unicode schema_version kept row rest fresh ∙ ap (◌∷◌ row) later.0,
        reported_fresh unicode schema_version kept row rest fresh ∙ later.1,
      )

  unique-eq_of_KeysAscend :
      (rows : List SoftwareEntry)
      → KeysAscend unicode schema_version rows
      → (unique unicode schema_version rows ≡ rows) × (reports unicode schema_version rows ≡ [])
  unfolding unique reports
  unique-eq_of_KeysAscend [] h = (refl, refl)
  unique-eq_of_KeysAscend (row ∷ rest) h =
      let later = survivors-eq_of_KeysAscend row rest h.0 h.1 in (ap (◌∷◌ row) later.0, later.1)

abbrev sorted_sources : ℕ → List CollectionSource → List CollectionSource
sorted_sources schema_version sources =
    if schema_version == inventory_schema_version
    then sort_by (on (λ (s : CollectionSource). source_rank s.source) compare) sources
    else sources

sorted_sources_idem :
    (schema_version : ℕ) (sources : List CollectionSource)
    → sorted_sources schema_version (sorted_sources schema_version sources)
      ≡ sorted_sources schema_version sources
sorted_sources_idem schema_version sources =
    let order = on (λ (s : CollectionSource). source_rank s.source) compare in
    ground (
      arith,
      sort_by-eq_of_Ascending order (sort_by order sources) (
          sort_by-Ascending order
            (on-IsPreorder (λ (s : CollectionSource). source_rank s.source) compare-IsPreorder)
            sources),
    )

module _ (unicode : Unicode) (sha256 : List ℕ → Text) (snapshot : InventorySnapshot) where
  abbrev version : ℕ
  version = snapshot.schema_version

  abbrev sorted_rows : List SoftwareEntry
  sorted_rows = sort_by (software_order unicode version) (prepared unicode sha256 snapshot)

  pub normalize_lem : normalize unicode sha256 snapshot ≡ record snapshot {
    identifiers = normalize_identifiers unicode snapshot.identifiers;
    sources = sorted_sources version snapshot.sources;
    software = unique unicode version sorted_rows;
    collector_warnings = snapshot.collector_warnings ++ reports unicode version sorted_rows;
  }
  unfolding normalize deduplicate_software
  normalize_lem = rw (deduplicate_lem unicode version sorted_rows)

module _ (unicode : Unicode) (laws : IsUnicode unicode) (sha256 : List ℕ → Text)
    (snapshot : InventorySnapshot) where
  prepared_row :
      (row : SoftwareEntry)
      → In row (prepared unicode sha256 snapshot)
      → (prepare_entry unicode sha256 snapshot.schema_version snapshot.agent_id row ≡ row)
        × (named row ≡ true)
  unfolding prepared
  prepared_row row m =
      let prepare = prepare_entry unicode sha256 snapshot.schema_version snapshot.agent_id in
      let (there, has_name) = In-retain named row (map prepare snapshot.software) m in
      let (given, in_given, e) = In-map prepare row snapshot.software there in
      (
        ap prepare e
            ∙ prepare_entry_idem unicode laws sha256 snapshot.schema_version snapshot.agent_id given
            ∙ sym e,
        has_name,
      )

  prepared_again :
      (rows : List SoftwareEntry)
      → ((row : SoftwareEntry) → In row rows → In row (prepared unicode sha256 snapshot))
      → retain named
          (map (prepare_entry unicode sha256 snapshot.schema_version snapshot.agent_id) rows)
        ≡ rows
  prepared_again rows h =
      rw
        (map_fixed (prepare_entry unicode sha256 snapshot.schema_version snapshot.agent_id) rows
          (λ row m. (prepared_row row (h row m)).0))
        (retain_all named rows (λ row m. (prepared_row row (h row m)).1))

  -- `normalize` leaves a snapshot in normal form as it is, warnings and all.
  pub normalize_idem :
      normalize unicode sha256 (normalize unicode sha256 snapshot)
      ≡ normalize unicode sha256 snapshot
  unfolding prepared
  normalize_idem =
      let version = snapshot.schema_version in
      let order = software_order unicode version in
      let sorted = sort_by order (prepared unicode sha256 snapshot) in
      let rows = unique unicode version sorted in
      let ascends = unique-KeysAscend unicode version sorted (
        sort_by-Ascending order (software_order-IsPreorder unicode version)
          (prepared unicode sha256 snapshot)) in
      let came_in = λ (row : SoftwareEntry) (m : In row rows).
        In-sort_by order row (prepared unicode sha256 snapshot)
          (In-unique unicode version row sorted m) in
      let sorted_again =
        ap (sort_by order) (prepared_again rows came_in)
        ∙ sort_by-eq_of_Ascending order rows (KeysAscend-Ascending unicode version rows ascends) in
      let same = unique-eq_of_KeysAscend unicode version rows ascends in
      rw (normalize_lem unicode sha256 snapshot) (
        normalize_lem unicode sha256 _ ∙ (λ i. record snapshot {
          identifiers = normalize_identifiers_idem unicode snapshot.identifiers i;
          sources = sorted_sources_idem version snapshot.sources i;
          software = (ap (unique unicode version) sorted_again ∙ same.0) i;
          collector_warnings =
              (ap (λ said. (snapshot.collector_warnings ++ reports unicode version sorted) ++ said)
                    (ap (reports unicode version) sorted_again ∙ same.1)
                  ∙ append-nil _)
                i;
        }))
