-- ===== src/Inventory/Sort.antt =====
-- `sort_by` is a stable sort: rows that compare as equal stay in their order. Any stable sort gives
-- the same list, and this one is by insertion.
use Prim.Native.Nat.{Ordering}
use Prim.Native.Nat.Ordering.{lt, eq, gt}
use lariska.Prelude.{◌≡◌, ◌≢◌, refl, ap, suc, ◌∙◌, ◌⊎◌, inl, inr, List, [], ◌∷◌, length, arith}
use lariska.Inventory.Order.{IsPreorder, not_gt_trans, flipped_gt}

module _ {ℓ} {A : Type ℓ} (cmp : A → A → Ordering) where
  unfoldable pub insert_by : A → List A → List A
  insert_by x [] = x ∷ []
  insert_by x (y ∷ ys) =
      let later = y ∷ insert_by x ys in
      elim (cmp x y) [ gt ↦ later | eq ↦ x ∷ y ∷ ys | lt ↦ x ∷ y ∷ ys ]

  unfoldable pub sort_by : List A → List A
  unfolding insert_by
  sort_by [] = []
  sort_by (x ∷ xs) = insert_by x (sort_by xs)

  -- `x` is not greater than any of the list.
  abbrev pub Below : A → List A → Type 0
  Below x [] = Unit
  Below x (y ∷ ys) = (cmp x y ≢ gt) × Below x ys

  abbrev pub Ascending : List A → Type 0
  Ascending [] = Unit
  Ascending (x ∷ xs) = Below x xs × Ascending xs

abbrev pub In : {A : Type 0} → A → List A → Type 0
In x [] = ⊥
In x (y ∷ ys) = (x ≡ y) ⊎ In x ys

module _ {ℓ} {A : Type ℓ} (cmp : A → A → Ordering) (o : IsPreorder cmp) where
  Below-trans : (x y : A) (ys : List A) → cmp x y ≢ gt → Below cmp y ys → Below cmp x ys
  Below-trans x y [] h b = tt
  Below-trans x y (z ∷ zs) h b = (not_gt_trans o x y z h b.0, Below-trans x y zs h b.1)

  Below-insert_by :
      (x y : A) (ys : List A) → cmp x y ≢ gt → Below cmp x ys → Below cmp x (insert_by cmp y ys)
  unfolding insert_by
  Below-insert_by x y [] h b = (h, tt)
  Below-insert_by x y (z ∷ zs) h b = ground (arith, Below-insert_by x y zs h)

  insert_by-Ascending :
      (x : A) (ys : List A) → Ascending cmp ys → Ascending cmp (insert_by cmp x ys)
  unfolding insert_by
  insert_by-Ascending x [] h = (tt, tt)
  insert_by-Ascending x (y ∷ ys) h = ground (
    arith,
    insert_by-Ascending x ys,
    flipped_gt o x y,
    Below-insert_by y x ys,
    Below-trans x y ys,
  )

  pub sort_by-Ascending : (xs : List A) → Ascending cmp (sort_by cmp xs)
  unfolding sort_by
  sort_by-Ascending [] = tt
  sort_by-Ascending (x ∷ xs) = insert_by-Ascending x (sort_by cmp xs) (sort_by-Ascending xs)

module _ {ℓ} {A : Type ℓ} (cmp : A → A → Ordering) where
  insert_by-eq_of_Below : (x : A) (ys : List A) → Below cmp x ys → insert_by cmp x ys ≡ x ∷ ys
  unfolding insert_by
  insert_by-eq_of_Below x [] h = refl
  insert_by-eq_of_Below x (y ∷ ys) h = ground arith

  -- A list in order stays as it is.
  pub sort_by-eq_of_Ascending : (xs : List A) → Ascending cmp xs → sort_by cmp xs ≡ xs
  unfolding sort_by
  sort_by-eq_of_Ascending [] h = refl
  sort_by-eq_of_Ascending (x ∷ xs) h =
      rw (sort_by-eq_of_Ascending xs h.1) (insert_by-eq_of_Below x xs h.0)

  length-insert_by : (x : A) (ys : List A) → length (insert_by cmp x ys) ≡ suc (length ys)
  unfolding insert_by
  length-insert_by x [] = refl
  length-insert_by x (y ∷ ys) = ground (arith, length-insert_by x ys)

  pub length-sort_by : (xs : List A) → length (sort_by cmp xs) ≡ length xs
  unfolding sort_by
  length-sort_by [] = refl
  length-sort_by (x ∷ xs) = length-insert_by x (sort_by cmp xs) ∙ ap suc (length-sort_by xs)

module _ {A : Type 0} (cmp : A → A → Ordering) where
  insert_by-In_rest : (a x : A) (ys : List A) → In a ys → In a (insert_by cmp x ys)
  unfolding insert_by
  insert_by-In_rest a x [] m = absurd m
  insert_by-In_rest a x (y ∷ ys) m =
      elim (cmp x y)
        as (λ answer.
          In a (elim answer [ gt ↦ y ∷ insert_by cmp x ys | eq ↦ x ∷ y ∷ ys | lt ↦ x ∷ y ∷ ys ])) [
            | gt ↦ elim m [ inl e ↦ inl e | inr later ↦ inr (insert_by-In_rest a x ys later) ]
            | eq ↦ inr m
            | lt ↦ inr m
          ]

  insert_by-In_self : (x : A) (ys : List A) → In x (insert_by cmp x ys)
  unfolding insert_by
  insert_by-In_self x [] = inl refl
  insert_by-In_self x (y ∷ ys) = ground (arith, insert_by-In_self x ys)

  pub sort_by-In : (a : A) (xs : List A) → In a xs → In a (sort_by cmp xs)
  unfolding sort_by
  sort_by-In a [] m = absurd m
  sort_by-In a (x ∷ xs) (inl e) = rw e (insert_by-In_self x (sort_by cmp xs))
  sort_by-In a (x ∷ xs) (inr m) = insert_by-In_rest a x (sort_by cmp xs) (sort_by-In a xs m)

  pub In-insert_by : (a x : A) (ys : List A) → In a (insert_by cmp x ys) → (a ≡ x) ⊎ In a ys
  unfolding insert_by
  In-insert_by a x [] m = m
  In-insert_by a x (y ∷ ys) m = ground (arith, In-insert_by a x ys)

  pub In-sort_by : (a : A) (xs : List A) → In a (sort_by cmp xs) → In a xs
  unfolding sort_by
  In-sort_by a [] m = m
  In-sort_by a (x ∷ xs) m = elim (In-insert_by a x (sort_by cmp xs) m) [
    | inl e ↦ inl e
    | inr later ↦ inr (In-sort_by a xs later)
  ]
