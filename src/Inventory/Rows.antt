-- ===== src/Inventory/Rows.antt =====
-- The loop of `deduplicate_software`, as a recursion on the sorted rows.
use mathlib.Core.List.{append_assoc, append-nil}
use lariska.Prelude.{
  ℕ, ◌≡◌, refl, ◌∙◌, true, false, some, List, [], ◌∷◌, ◌++◌, Bool-cases, inl, inr, ==_iff,
  texts_equal, last, last-snoc, arith,
}
use lariska.Inventory.Order.{IsPreorder, on-IsPreorder, both-IsPreorder, descending-IsPreorder}
use lariska.Inventory.Lexicographic.{compare_texts-IsPreorder}
use lariska.Inventory.Text.{Text, Unicode}
use lariska.Inventory.Version.Laws.{compare_versions-IsPreorder}
use lariska.Inventory.Entry.{SoftwareEntry, identity_key}
use lariska.Inventory.Snapshot.{software_order, same_key, warnings_of, deduplicate_from}

pub texts_equal_same : (s t : Text) → texts_equal s t ≡ true → s ≡ t
texts_equal_same [] [] h = refl
texts_equal_same [] (b ∷ t) h = cc
texts_equal_same (a ∷ s) [] h = cc
texts_equal_same (a ∷ s) (b ∷ t) h = ground (arith, ==_iff a b, texts_equal_same s t)

pub texts_equal_refl : (s : Text) → texts_equal s s ≡ true
texts_equal_refl [] = refl
texts_equal_refl (a ∷ s) = ground (arith, ==_iff a a, texts_equal_refl s)

module _ (unicode : Unicode) (schema_version : ℕ) where
  pub software_order-IsPreorder : IsPreorder (software_order unicode schema_version)
  unfolding software_order
  software_order-IsPreorder =
      both-IsPreorder (on-IsPreorder (identity_key unicode schema_version) compare_texts-IsPreorder)
        (descending-IsPreorder
          (on-IsPreorder (λ (e : SoftwareEntry). e.version) (compare_versions-IsPreorder unicode)))

  -- The rows kept after `kept`.
  unfoldable pub survivors : SoftwareEntry → List SoftwareEntry → List SoftwareEntry
  survivors kept [] = []
  survivors kept (entry ∷ rest) = elim (same_key unicode schema_version kept entry) [
    | true ↦ survivors kept rest
    | false ↦ entry ∷ survivors entry rest
  ]

  -- What is said of the rows that are not kept.
  unfoldable pub reported : SoftwareEntry → List SoftwareEntry → List Text
  reported kept [] = []
  reported kept (entry ∷ rest) = elim (same_key unicode schema_version kept entry) [
    | true ↦ warnings_of unicode schema_version kept entry ++ reported kept rest
    | false ↦ reported entry rest
  ]

  unfoldable pub unique : List SoftwareEntry → List SoftwareEntry
  unfolding survivors
  unique [] = []
  unique (entry ∷ rest) = entry ∷ survivors entry rest

  unfoldable pub reports : List SoftwareEntry → List Text
  unfolding reported
  reports [] = []
  reports (entry ∷ rest) = reported entry rest

  pub survivors_same :
      (kept entry : SoftwareEntry) (rest : List SoftwareEntry)
      → same_key unicode schema_version kept entry ≡ true
      → survivors kept (entry ∷ rest) ≡ survivors kept rest
  unfolding survivors
  survivors_same kept entry rest h = rw (h, survivors)

  pub survivors_fresh :
      (kept entry : SoftwareEntry) (rest : List SoftwareEntry)
      → same_key unicode schema_version kept entry ≡ false
      → survivors kept (entry ∷ rest) ≡ entry ∷ survivors entry rest
  unfolding survivors
  survivors_fresh kept entry rest h = rw (h, survivors)

  pub reported_same :
      (kept entry : SoftwareEntry) (rest : List SoftwareEntry)
      → same_key unicode schema_version kept entry ≡ true
      → reported kept (entry ∷ rest)
        ≡ warnings_of unicode schema_version kept entry ++ reported kept rest
  unfolding reported
  reported_same kept entry rest h = rw (h, reported)

  pub reported_fresh :
      (kept entry : SoftwareEntry) (rest : List SoftwareEntry)
      → same_key unicode schema_version kept entry ≡ false
      → reported kept (entry ∷ rest) ≡ reported entry rest
  unfolding reported
  reported_fresh kept entry rest h = rw (h, reported)

  deduplicate_same :
      (done : List SoftwareEntry) (kept entry : SoftwareEntry) (warnings : List Text)
      (rest : List SoftwareEntry)
      → last done ≡ some kept
      → same_key unicode schema_version kept entry ≡ true
      → deduplicate_from unicode schema_version done warnings (entry ∷ rest)
        ≡ deduplicate_from unicode schema_version done
            (warnings ++ warnings_of unicode schema_version kept entry)
            rest
  unfolding deduplicate_from
  deduplicate_same done kept entry warnings rest h k = ground arith

  deduplicate_fresh :
      (done : List SoftwareEntry) (kept entry : SoftwareEntry) (warnings : List Text)
      (rest : List SoftwareEntry)
      → last done ≡ some kept
      → same_key unicode schema_version kept entry ≡ false
      → deduplicate_from unicode schema_version done warnings (entry ∷ rest)
        ≡ deduplicate_from unicode schema_version (done ++ entry ∷ []) warnings rest
  unfolding deduplicate_from
  deduplicate_fresh done kept entry warnings rest h k = ground arith

  deduplicate_step :
      (done : List SoftwareEntry) (kept : SoftwareEntry) (warnings : List Text)
      (rest : List SoftwareEntry)
      → deduplicate_from unicode schema_version (done ++ kept ∷ []) warnings rest
        ≡ (done ++ kept ∷ survivors kept rest, warnings ++ reported kept rest)
  unfolding deduplicate_from survivors reported
  deduplicate_step done kept warnings [] = rw append-nil
  deduplicate_step done kept warnings (entry ∷ rest) =
      elim (Bool-cases (same_key unicode schema_version kept entry)) [
        | inl same ↦
            let said = warnings_of unicode schema_version kept entry in
            deduplicate_same (done ++ kept ∷ []) kept entry warnings rest (last-snoc done kept) same
            ∙ deduplicate_step done kept (warnings ++ said) rest
            ∙ rw (
              survivors_same kept entry rest same,
              reported_same kept entry rest same,
              append_assoc,
            )
        | inr fresh ↦
            deduplicate_fresh (done ++ kept ∷ []) kept entry warnings rest (last-snoc done kept)
              fresh
            ∙ deduplicate_step (done ++ kept ∷ []) entry warnings rest
            ∙ rw (
              survivors_fresh kept entry rest fresh,
              reported_fresh kept entry rest fresh,
              append_assoc,
            )
      ]

  pub deduplicate_lem :
      (rows : List SoftwareEntry)
      → deduplicate_from unicode schema_version [] [] rows ≡ (unique rows, reports rows)
  unfolding unique reports deduplicate_from
  deduplicate_lem [] = refl
  deduplicate_lem (entry ∷ rest) = deduplicate_step [] entry [] rest
