-- ===== src/Inventory/Dropped.antt =====
-- Proofs about the rows that `normalize` of src/model.rs drops in the legacy schema, and its warnings.
use lariska.Prelude.{
  ℕ, ◌+◌, ◌≡◌, true, false, Option, none, some, List, [], ◌∷◌, ◌++◌, codes, length,
}
use lariska.Inventory.Sort.{In}
use lariska.Inventory.Text.{Text, Unicode}
use lariska.Inventory.Entry.{SoftwareEntry}
use lariska.Inventory.Snapshot.{same_key}
use lariska.Inventory.Newest.{Covers}

abbrev pub version_text : Option Text → Text
version_text none = codes "no version"
version_text (some version) = version

-- The warning begins with the name of the row that is dropped, and ends with the version that was sent
-- and the one that was not.
pub record Tells (warning : Text) (kept row : SoftwareEntry) : Type 0 where
  pub rest : Text
  pub names : warning ≡ row.name ++ rest
  pub front : Text
  pub versions :
      warning
      ≡ front
        ++ version_text kept.version
        ++ codes " was sent and "
        ++ version_text row.version
        ++ codes " was dropped"

-- One warning for each pair.
abbrev pub AllTold : List Text → List (SoftwareEntry × SoftwareEntry) → Type 0
AllTold [] [] = Unit
AllTold (warning ∷ warnings) ((kept, row) ∷ rest) = Tells warning kept row × AllTold warnings rest
AllTold _ _ = ⊥

module _ (unicode : Unicode) (schema_version : ℕ) where
  -- The rows that are not kept, each after the row that is kept for it.
  unfoldable pub dropped : SoftwareEntry → List SoftwareEntry → List (SoftwareEntry × SoftwareEntry)
  dropped kept [] = []
  dropped kept (row ∷ rest) = elim (same_key unicode schema_version kept row) [
    | true ↦ (kept, row) ∷ dropped kept rest
    | false ↦ dropped row rest
  ]

  -- Each pair is of a row of `software` and of a row of `rows` that it covers.
  abbrev pub Accounted :
      List SoftwareEntry → List SoftwareEntry → List (SoftwareEntry × SoftwareEntry) → Type 0
  Accounted software rows [] = Unit
  Accounted software rows ((kept, row) ∷ rest) =
      In kept software
      × In row rows
      × Covers unicode schema_version kept row
      × Accounted software rows rest

  pub Accounted-more :
      (software software' rows rows' : List SoftwareEntry)
      (pairs : List (SoftwareEntry × SoftwareEntry))
      → ((a : SoftwareEntry) → In a software → In a software')
      → ((a : SoftwareEntry) → In a rows → In a rows')
      → Accounted software rows pairs
      → Accounted software' rows' pairs
  Accounted-more software software' rows rows' [] f g h = tt
  Accounted-more software software' rows rows' ((kept, row) ∷ rest) f g h =
      (f kept h.0, g row h.1, h.2, Accounted-more software software' rows rows' rest f g h.3)

  -- What is said of sorted rows.
  pub record Warned (incoming : List SoftwareEntry) (software : List SoftwareEntry)
      (said : List Text) : Type 0 where
    pub pairs : List (SoftwareEntry × SoftwareEntry)
    pub told : AllTold said pairs
    pub accounted : Accounted software incoming pairs
    pub whole : length software + length pairs ≡ length incoming
