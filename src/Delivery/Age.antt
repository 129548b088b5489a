-- ===== src/Delivery/Age.antt =====
-- Proofs about `sort_by_key` on the times of the spool's files.
use lariska.Prelude.{
  ◌≡◌, refl, inl, inr, Bool, true, List, [], ◌∷◌, ◌++◌, leb, all, Bool-cases, arith,
}
use lariska.Delivery.Host.{SpoolFile}
use lariska.Delivery.Spool.{insert_by_age, sort_by_age}

module _ {A : Type 0} where
  -- No file of `ys` is older than `x`.
  abbrev pub no_older : SpoolFile A → List (SpoolFile A) → Bool
  no_older x = all (λ y. leb x.modified y.modified)

  abbrev pub Sorted : List (SpoolFile A) → Type 0
  Sorted [] = Unit {0}
  Sorted (x ∷ xs) = (no_older x xs ≡ true) × Sorted xs

  no_older-insert_by_age :
      (x file : SpoolFile A) (xs : List (SpoolFile A))
      → leb x.modified file.modified ≡ true
      → no_older x xs ≡ true
      → no_older x (insert_by_age file xs) ≡ true
  no_older-insert_by_age x file [] le h = ground (arith, le, h)
  no_older-insert_by_age x file (y ∷ ys) le h =
      ground (arith, le, h, no_older-insert_by_age x file ys le)

  no_older_trans :
      (x y : SpoolFile A) (xs : List (SpoolFile A))
      → leb x.modified y.modified ≡ true
      → no_older y xs ≡ true
      → no_older x xs ≡ true
  no_older_trans x y [] le h = refl
  no_older_trans x y (z ∷ zs) le h =
      ground (arith, le, h, no_older_trans x y zs le (ground (arith, h)))

  insert_by_age-Sorted :
      (file : SpoolFile A) (xs : List (SpoolFile A)) → Sorted xs → Sorted (insert_by_age file xs)
  insert_by_age-Sorted file [] h = (refl, tt)
  insert_by_age-Sorted file (x ∷ xs) (first, rest) =
      elim (Bool-cases (leb file.modified x.modified)) [
        | inl le ↦ rw le ((ground (arith, le, no_older_trans file x xs le first)), (first, rest))
        | inr gt ↦ rw gt (
          no_older-insert_by_age x file xs (ground (arith, gt)) first,
          insert_by_age-Sorted file xs rest,
        )
      ]

  pub sort_by_age-Sorted : (xs : List (SpoolFile A)) → Sorted (sort_by_age xs)
  sort_by_age-Sorted [] = tt
  sort_by_age-Sorted (x ∷ xs) = insert_by_age-Sorted x _ (sort_by_age-Sorted xs)

  pub no_older-append :
      (x : SpoolFile A) (xs ys : List (SpoolFile A))
      → no_older x (xs ++ ys) ≡ true
      → no_older x ys ≡ true
  no_older-append x [] ys h = h
  no_older-append x (y ∷ xs) ys h = no_older-append x xs ys (ground (arith, h))
