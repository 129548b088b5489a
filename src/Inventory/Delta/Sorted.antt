-- ===== src/Inventory/Delta/Sorted.antt =====
-- Proofs about a stable sort and the elements of one kind.
use Prim.Native.Nat.{Ordering}
use lariska.Prelude.{◌≡◌, refl, Bool, true, false, List, [], ◌∷◌, ◌++◌, retain, arith}
use lariska.Inventory.Sort.{insert_by, sort_by}

module _ {A : Type 0} (p : A → Bool) (cmp : A → A → Ordering) where
  retain-insert_by_out :
      (x : A) (ys : List A) → p x ≡ false → retain p (insert_by cmp x ys) ≡ retain p ys
  unfolding insert_by
  retain-insert_by_out x [] h = rw h
  retain-insert_by_out x (y ∷ ys) h = ground (arith, retain-insert_by_out x ys)

  retain-insert_by_in :
      (x : A) (ys : List A) → p x ≡ true → retain p ys ≡ [] → retain p (insert_by cmp x ys) ≡ x ∷ []
  unfolding insert_by
  retain-insert_by_in x [] h k = rw h
  retain-insert_by_in x (y ∷ ys) h k = ground (arith, retain-insert_by_in x ys)

  -- What is the only one of its kind is so in the sorted list too.
  pub retain-sort_by_none : (xs : List A) → retain p xs ≡ [] → retain p (sort_by cmp xs) ≡ []
  unfolding sort_by
  retain-sort_by_none [] h = refl
  retain-sort_by_none (x ∷ xs) h =
      ground (arith, retain-insert_by_out x (sort_by cmp xs), retain-sort_by_none xs)

  pub retain-sort_by_one :
      (a : A) (xs : List A) → retain p xs ≡ a ∷ [] → retain p (sort_by cmp xs) ≡ a ∷ []
  unfolding sort_by
  retain-sort_by_one a [] h = cc
  retain-sort_by_one a (x ∷ xs) h = ground (
    arith,
    retain-insert_by_out x (sort_by cmp xs),
    retain-insert_by_in x (sort_by cmp xs),
    retain-sort_by_none xs,
    retain-sort_by_one a xs,
  )

pub retain-append :
    {A : Type 0} (p : A → Bool) (xs ys : List A) → retain p (xs ++ ys) ≡ retain p xs ++ retain p ys
retain-append p [] ys = refl
retain-append p (x ∷ xs) ys = ground (arith, retain-append p xs ys)
