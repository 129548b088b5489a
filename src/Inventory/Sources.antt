-- ===== src/Inventory/Sources.antt =====
-- Proofs about the sources of a snapshot and their sort.
use Prim.Native.Nat.{Ordering}
use lariska.Prelude.{◌≡◌, refl, true, false, List, [], ◌∷◌, inl, inr, arith}
use lariska.Inventory.Sort.{insert_by, sort_by, In, In-sort_by}
use lariska.Inventory.Text.{Unicode}
use lariska.Inventory.Entry.{SoftwareSource}
use lariska.Inventory.Snapshot.{CollectionSource}
use lariska.Inventory.Validate.{same_source, contains}
use lariska.Inventory.Valid.{IsSource, AreSources, seen_after}

-- Of another source than all of the list.
abbrev Apart : CollectionSource → List CollectionSource → Type 0
Apart x [] = Unit
Apart x (y ∷ ys) = (same_source x.source y.source ≡ false) × Apart x ys

abbrev AllApart : List CollectionSource → Type 0
AllApart [] = Unit
AllApart (x ∷ xs) = Apart x xs × AllApart xs

module _ (order : CollectionSource → CollectionSource → Ordering) where
  Apart-insert_by :
      (x y : CollectionSource) (ys : List CollectionSource)
      → same_source x.source y.source ≡ false
      → Apart x ys
      → Apart x (insert_by order y ys)
  unfolding insert_by
  Apart-insert_by x y [] h k = (h, tt)
  Apart-insert_by x y (z ∷ zs) h k = ground (arith, Apart-insert_by x y zs)

  AllApart-insert_by :
      (x : CollectionSource) (ys : List CollectionSource)
      → Apart x ys
      → AllApart ys
      → AllApart (insert_by order x ys)
  unfolding insert_by
  AllApart-insert_by x [] h k = (tt, tt)
  AllApart-insert_by x (y ∷ ys) h k =
      ground (arith, AllApart-insert_by x ys, Apart-insert_by y x ys)

  Apart-sort_by :
      (x : CollectionSource) (ys : List CollectionSource) → Apart x ys → Apart x (sort_by order ys)
  unfolding sort_by
  Apart-sort_by x [] h = tt
  Apart-sort_by x (y ∷ ys) h = Apart-insert_by x y (sort_by order ys) h.0 (Apart-sort_by x ys h.1)

  AllApart-sort_by : (xs : List CollectionSource) → AllApart xs → AllApart (sort_by order xs)
  unfolding sort_by
  AllApart-sort_by [] h = tt
  AllApart-sort_by (x ∷ xs) h =
      AllApart-insert_by x (sort_by order xs) (Apart-sort_by x xs h.0) (AllApart-sort_by xs h.1)

contains_same :
    (seen : List SoftwareSource) (s t : SoftwareSource)
    → same_source s t ≡ true
    → contains seen s ≡ contains seen t
contains_same [] s t h = refl
contains_same (u ∷ seen) s t h = ground (arith, contains_same seen s t)

contains_cons_false :
    (seen : List SoftwareSource) (s t : SoftwareSource)
    → contains seen t ≡ false
    → same_source s t ≡ false
    → contains (s ∷ seen) t ≡ false
contains_cons_false seen s t h k = ground arith

module _ (unicode : Unicode) where
  AreSources-each :
      (seen : List SoftwareSource) (xs : List CollectionSource)
      → AreSources unicode seen xs
      → (x : CollectionSource) → In x xs
      → (contains seen x.source ≡ false) × IsSource unicode x
  AreSources-each seen [] h x m = absurd m
  AreSources-each seen (y ∷ ys) h x (inl e) = rw e (h.0, h.1)
  AreSources-each seen (y ∷ ys) h x (inr m) =
      let later = AreSources-each (y.source ∷ seen) ys h.2 x m in (ground arith, later.1)

  AreSources-Apart :
      (seen : List SoftwareSource) (y : CollectionSource) (xs : List CollectionSource)
      → AreSources unicode seen xs
      → contains seen y.source ≡ true
      → Apart y xs
  AreSources-Apart seen y [] h k = tt
  AreSources-Apart seen y (x ∷ xs) h k = (
    ground (arith, contains_same seen y.source x.source),
    AreSources-Apart (x.source ∷ seen) y xs h.2 (ground arith),
  )

  AreSources-AllApart :
      (seen : List SoftwareSource) (xs : List CollectionSource)
      → AreSources unicode seen xs
      → AllApart xs
  AreSources-AllApart seen [] h = tt
  AreSources-AllApart seen (x ∷ xs) h = (
    AreSources-Apart (x.source ∷ seen) x xs h.2 (ground arith),
    AreSources-AllApart (x.source ∷ seen) xs h.2,
  )

  AreSources-of_parts :
      (seen : List SoftwareSource) (xs : List CollectionSource)
      → AllApart xs
      → ((x : CollectionSource) → In x xs → (contains seen x.source ≡ false) × IsSource unicode x)
      → AreSources unicode seen xs
  AreSources-of_parts seen [] h k = tt
  AreSources-of_parts seen (x ∷ xs) h k = (
    (k x (inl refl)).0,
    (k x (inl refl)).1,
    AreSources-of_parts (x.source ∷ seen) xs h.1 λ y m. (
      contains_cons_false seen x.source y.source (k y (inr m)).0 (Apart-In x xs h.0 y m),
      (k y (inr m)).1,
    ),
  )
    where
      Apart-In :
          (x : CollectionSource) (ys : List CollectionSource)
          → Apart x ys
          → (y : CollectionSource) → In y ys
          → same_source x.source y.source ≡ false
      Apart-In x [] a y m = absurd m
      Apart-In x (z ∷ zs) a y (inl e) = rw e a.0
      Apart-In x (z ∷ zs) a y (inr m) = Apart-In x zs a.1 y m

  pub sort_by-AreSources :
      (order : CollectionSource → CollectionSource → Ordering) (xs : List CollectionSource)
      → AreSources unicode [] xs
      → AreSources unicode [] (sort_by order xs)
  sort_by-AreSources order xs h =
      AreSources-of_parts [] (sort_by order xs)
        (AllApart-sort_by order xs (AreSources-AllApart [] xs h))
        (λ x m. AreSources-each [] xs h x (In-sort_by order x xs m))

  contains-seen_after :
      (seen : List SoftwareSource) (xs : List CollectionSource) (s : SoftwareSource)
      → contains seen s ≡ true
      → contains (seen_after unicode seen xs) s ≡ true
  contains-seen_after seen [] s h = h
  contains-seen_after seen (x ∷ xs) s h = contains-seen_after (x.source ∷ seen) xs s (ground arith)

  -- The source of a row is found when the snapshot has it.
  pub seen_after-In :
      (seen : List SoftwareSource) (xs : List CollectionSource) (x : CollectionSource)
      → In x xs
      → contains (seen_after unicode seen xs) x.source ≡ true
  seen_after-In seen [] x m = absurd m
  seen_after-In seen (y ∷ ys) x (inl e) =
      rw e (contains-seen_after (y.source ∷ seen) ys y.source (ground arith))
  seen_after-In seen (y ∷ ys) x (inr m) = seen_after-In (y.source ∷ seen) ys x m
