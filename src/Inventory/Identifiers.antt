-- ===== src/Inventory/Identifiers.antt =====
-- Proofs about the identifiers of a snapshot in normal form.
use lariska.Prelude.{
  ◌≡◌, refl, ap, ◌∙◌, Bool, true, List, [], ◌∷◌, Bool-cases, inl, inr, retain, arith,
}
use lariska.Inventory.Order.{IsPreorder, on-IsPreorder, both-IsPreorder, compare-IsPreorder}
use lariska.Inventory.Lexicographic.{compare_texts-IsPreorder}
use lariska.Inventory.Sort.{
  sort_by, Below, Ascending, sort_by-Ascending, sort_by-eq_of_Ascending, In, In-sort_by,
}
use lariska.Inventory.Text.{Unicode}
use lariska.Inventory.Snapshot.{
  EndpointIdentifier, type_rank, compare_identifiers, same_identifier, dedup_after, dedup, has_hash,
  normalize_identifiers,
}

module _ {A : Type 0} (p : A → Bool) where
  pub In-retain : (a : A) (xs : List A) → In a (retain p xs) → In a xs × (p a ≡ true)
  In-retain a [] m = absurd m
  In-retain a (x ∷ xs) m = elim (Bool-cases (p x)) [
    | inl kept ↦ elim (rw kept at m) [
      | inl e ↦ (inl e, ap p e ∙ kept)
      | inr later ↦ let rest = In-retain a xs later in (inr rest.0, rest.1)
    ]
    | inr gone ↦ let rest = In-retain a xs (rw gone at m) in (inr rest.0, rest.1)
  ]

  pub retain_all : (xs : List A) → ((a : A) → In a xs → p a ≡ true) → retain p xs ≡ xs
  retain_all [] h = refl
  retain_all (x ∷ xs) h = rw (h x (inl refl), retain_all xs (λ a m. h a (inr m)))

compare_identifiers-IsPreorder : IsPreorder compare_identifiers
compare_identifiers-IsPreorder =
    both-IsPreorder
      (on-IsPreorder (λ (i : EndpointIdentifier). type_rank i.identifier_type) compare-IsPreorder)
      (on-IsPreorder (λ (i : EndpointIdentifier). i.value_hash) compare_texts-IsPreorder)

In-dedup_after :
    (a previous : EndpointIdentifier) (xs : List EndpointIdentifier)
    → In a (dedup_after previous xs)
    → In a xs
unfolding dedup_after
In-dedup_after a previous [] m = m
In-dedup_after a previous (x ∷ xs) m =
    ground (arith, In-dedup_after a previous xs, In-dedup_after a x xs)

Below-dedup_after :
    (a previous : EndpointIdentifier) (xs : List EndpointIdentifier)
    → Below compare_identifiers a xs
    → Below compare_identifiers a (dedup_after previous xs)
unfolding dedup_after
Below-dedup_after a previous [] h = tt
Below-dedup_after a previous (x ∷ xs) h = elim (Bool-cases (same_identifier previous x)) [
  | inl same ↦ rw same (Below-dedup_after a previous xs h.1)
  | inr fresh ↦ rw fresh (h.0, Below-dedup_after a x xs h.1)
]

Ascending-dedup_after :
    (previous : EndpointIdentifier) (xs : List EndpointIdentifier)
    → Ascending compare_identifiers xs
    → Ascending compare_identifiers (dedup_after previous xs)
unfolding dedup_after
Ascending-dedup_after previous [] h = tt
Ascending-dedup_after previous (x ∷ xs) h = elim (Bool-cases (same_identifier previous x)) [
  | inl same ↦ rw same (Ascending-dedup_after previous xs h.1)
  | inr fresh ↦ rw fresh (Below-dedup_after x x xs h.0, Ascending-dedup_after x xs h.1)
]

dedup_after_idem :
    (previous : EndpointIdentifier) (xs : List EndpointIdentifier)
    → dedup_after previous (dedup_after previous xs) ≡ dedup_after previous xs
unfolding dedup_after
dedup_after_idem previous [] = refl
dedup_after_idem previous (x ∷ xs) = elim (Bool-cases (same_identifier previous x)) [
  | inl same ↦ rw same (dedup_after_idem previous xs)
  | inr fresh ↦ rw (fresh, fresh) (ap (◌∷◌ x) (dedup_after_idem x xs))
]

dedup_idem : (xs : List EndpointIdentifier) → dedup (dedup xs) ≡ dedup xs
unfolding dedup
dedup_idem [] = refl
dedup_idem (x ∷ xs) = ap (◌∷◌ x) (dedup_after_idem x xs)

Ascending-dedup :
    (xs : List EndpointIdentifier)
    → Ascending compare_identifiers xs
    → Ascending compare_identifiers (dedup xs)
unfolding dedup
Ascending-dedup [] h = tt
Ascending-dedup (x ∷ xs) h = (Below-dedup_after x x xs h.0, Ascending-dedup_after x xs h.1)

pub In-dedup : (a : EndpointIdentifier) (xs : List EndpointIdentifier) → In a (dedup xs) → In a xs
unfolding dedup
In-dedup a [] m = m
In-dedup a (x ∷ xs) (inl e) = inl e
In-dedup a (x ∷ xs) (inr m) = inr (In-dedup_after a x xs m)

pub normalize_identifiers_idem :
    (unicode : Unicode) (xs : List EndpointIdentifier)
    → normalize_identifiers unicode (normalize_identifiers unicode xs)
      ≡ normalize_identifiers unicode xs
unfolding normalize_identifiers
normalize_identifiers_idem unicode xs =
    let kept = retain (has_hash unicode) xs in
    let sorted = sort_by compare_identifiers kept in
    let hashed = λ (a : EndpointIdentifier) (m : In a (dedup sorted)).
      (In-retain (has_hash unicode) a xs
        (In-sort_by compare_identifiers a kept (In-dedup a sorted m))).1 in
    rw
      (
        retain_all (has_hash unicode) (dedup sorted) hashed,
        sort_by-eq_of_Ascending compare_identifiers (dedup sorted) (
            Ascending-dedup sorted
              (sort_by-Ascending compare_identifiers compare_identifiers-IsPreorder kept)),
      )
      (dedup_idem sorted)
