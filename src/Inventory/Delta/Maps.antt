-- ===== src/Inventory/Delta/Maps.antt =====
-- The maps by identity key that `diff` compares.
use Prim.Native.Nat.{Ordering}
use Prim.Native.Nat.Ordering.{lt, eq, gt}
use lariska.Prelude.{
  ℕ, ◌≡◌, refl, sym, ap, ◌∙◌, Bool, true, false, Option, none, some, List, [], ◌∷◌, arith,
}
use lariska.Inventory.Lexicographic.{compare_texts, compare_texts-IsPreorder, compare_texts_same}
use lariska.Inventory.Text.{Text, Unicode}
use lariska.Inventory.Entry.{SoftwareEntry, identity_key, or_else}
use lariska.Inventory.Delta.{Map, insert, get, rows_by_key}

abbrev pub is_eq : Ordering → Bool
is_eq eq = true
is_eq lt = false
is_eq gt = false

-- Equality of keys, by their comparison.
unfoldable pub same : Text → Text → Bool
same j k = is_eq (compare_texts j k)

-- The row of the last place in a list that has the key.
abbrev pub row_if : Bool → SoftwareEntry → Option SoftwareEntry
row_if true entry = some entry
row_if false entry = none

unfoldable pub latest : Unicode → ℕ → Text → List SoftwareEntry → Option SoftwareEntry
latest unicode schema_version key [] = none
latest unicode schema_version key (entry ∷ rest) =
    or_else (latest unicode schema_version key rest)
      (row_if (same key (identity_key unicode schema_version entry)) entry)

module _ {V : Type 0} where
  abbrev choose : Bool → V → Option V → Option V
  choose true value other = some value
  choose false value other = other

  get-insert :
      (j k : Text) (value : V) (map : Map V)
      → get j (insert k value map) ≡ choose (same j k) value (get j map)
  unfolding insert get same
  get-insert j k value [] = ground arith
  get-insert j k value ((i, v) ∷ rest) = ground (
    arith,
    compare_texts_same k i,
    compare_texts-IsPreorder.eq_left j k i,
    get-insert j k value rest,
  )

pub same_key_eq : (j k : Text) → same j k ≡ true → j ≡ k
unfolding same
same_key_eq j k h = ground (arith, compare_texts_same j k)

module _ {V : Type 0} where
  pub get_here :
      (j k : Text) (value : V) (rest : Map V)
      → same j k ≡ true
      → get j ((k, value) ∷ rest) ≡ some value
  unfolding get same
  get_here j k value rest h = ground arith

  pub get_past :
      (j k : Text) (value : V) (rest : Map V)
      → same j k ≡ false
      → get j ((k, value) ∷ rest) ≡ get j rest
  unfolding get same
  get_past j k value rest h = ground arith

or_else_assoc : (a b c : Option SoftwareEntry) → or_else (or_else a b) c ≡ or_else a (or_else b c)
or_else_assoc none b c = refl
or_else_assoc (some a) b c = refl

choose-or_else :
    (b : Bool) (entry : SoftwareEntry) (c : Option SoftwareEntry)
    → choose b entry c ≡ or_else (row_if b entry) c
choose-or_else true entry c = refl
choose-or_else false entry c = refl

module _ (unicode : Unicode) (schema_version : ℕ) where
  get-rows_by_key :
      (key : Text) (map : Map SoftwareEntry) (rows : List SoftwareEntry)
      → get key (rows_by_key unicode schema_version map rows)
        ≡ or_else (latest unicode schema_version key rows) (get key map)
  unfolding rows_by_key latest
  get-rows_by_key key map [] = refl
  get-rows_by_key key map (entry ∷ rest) =
      let k = identity_key unicode schema_version entry in
      get-rows_by_key key (insert k entry map) rest
      ∙ ap (or_else (latest unicode schema_version key rest))
          (get-insert key k entry map ∙ choose-or_else (same key k) entry (get key map))
      ∙ sym (
          or_else_assoc (latest unicode schema_version key rest) (row_if (same key k) entry)
            (get key map))

  or_else-none : (a : Option SoftwareEntry) → or_else a none ≡ a
  or_else-none none = refl
  or_else-none (some a) = refl

  -- The map has under a key the last row of the list with that key.
  pub get-rows :
      (key : Text) (rows : List SoftwareEntry)
      → get key (rows_by_key unicode schema_version [] rows)
        ≡ latest unicode schema_version key rows
  get-rows key rows =
      get-rows_by_key key [] rows
      ∙ (unfold get in or_else-none (latest unicode schema_version key rows))

  abbrev KeysAbove : Text → Map SoftwareEntry → Type 0
  KeysAbove key [] = Unit
  KeysAbove key ((k, v) ∷ rest) = (compare_texts key k ≡ lt) × KeysAbove key rest

  -- Each row stands under its own key, and the keys ascend.
  abbrev pub IsKeyed : Map SoftwareEntry → Type 0
  IsKeyed [] = Unit
  IsKeyed ((k, v) ∷ rest) =
      (identity_key unicode schema_version v ≡ k) × KeysAbove k rest × IsKeyed rest

  KeysAbove-trans :
      (j k : Text) (map : Map SoftwareEntry)
      → compare_texts j k ≡ lt
      → KeysAbove k map
      → KeysAbove j map
  KeysAbove-trans j k [] h a = tt
  KeysAbove-trans j k ((i, v) ∷ rest) h a =
      (compare_texts-IsPreorder.lt_chain j k i h a.0, KeysAbove-trans j k rest h a.1)

  KeysAbove-insert :
      (j k : Text) (value : SoftwareEntry) (map : Map SoftwareEntry)
      → compare_texts j k ≡ lt
      → KeysAbove j map
      → KeysAbove j (insert k value map)
  unfolding insert
  KeysAbove-insert j k value [] h a = (h, tt)
  KeysAbove-insert j k value ((i, v) ∷ rest) h a = ground (arith, KeysAbove-insert j k value rest)

  insert-IsKeyed :
      (value : SoftwareEntry) (map : Map SoftwareEntry)
      → IsKeyed map
      → IsKeyed (insert (identity_key unicode schema_version value) value map)
  unfolding insert
  insert-IsKeyed value [] h = (refl, tt, tt)
  insert-IsKeyed value ((i, v) ∷ rest) h =
      let key = identity_key unicode schema_version value in
      ground (
        arith,
        insert-IsKeyed value rest,
        KeysAbove-trans key i rest,
        KeysAbove-insert i key value rest,
        compare_texts-IsPreorder.flipped key i,
        compare_texts_same key i,
      )

  rows_by_key-IsKeyed :
      (map : Map SoftwareEntry) (rows : List SoftwareEntry)
      → IsKeyed map
      → IsKeyed (rows_by_key unicode schema_version map rows)
  unfolding rows_by_key
  rows_by_key-IsKeyed map [] h = h
  rows_by_key-IsKeyed map (entry ∷ rest) h =
      rows_by_key-IsKeyed (insert (identity_key unicode schema_version entry) entry map) rest
        (insert-IsKeyed entry map h)

  pub rows-IsKeyed :
      (rows : List SoftwareEntry) → IsKeyed (rows_by_key unicode schema_version [] rows)
  rows-IsKeyed rows = rows_by_key-IsKeyed [] rows tt

  pub get_above : (key : Text) (map : Map SoftwareEntry) → KeysAbove key map → get key map ≡ none
  unfolding get
  get_above key [] h = refl
  get_above key ((k, v) ∷ rest) h = rw (h.0, get) (get_above key rest h.1)
