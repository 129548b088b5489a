-- ===== src/Inventory/Version/Laws.antt =====
-- Proofs about `compare_versions` of src/model.rs as an order.
use Prim.Native.Nat.Ordering.{lt, eq}
use lariska.Prelude.{◌≡◌, ◌↔◌, refl, ap, Option, none, some, List, [], ◌∷◌, arith}
use lariska.Inventory.Order.{
  reverse, IsPreorder, on-IsPreorder, self_eq, compare-IsPreorder, compare_same,
}
use lariska.Inventory.Lexicographic.{
  compare_lists, compare_options, compare_lists-IsPreorder, compare_options-IsPreorder,
  compare_texts-IsPreorder, compare_texts_same, compare_lists_same,
}
use lariska.Inventory.Text.{Text, Unicode}
use lariska.Inventory.Version.{
  Chunk, number, text, compare_chunk, compare_parts, compare_versions, version_chunks,
}

compare_chunk-IsPreorder : IsPreorder compare_chunk
compare_chunk-IsPreorder = record { flipped = flipped; eq_left = eq_left; lt_chain = lt_chain }
  where
    flipped : (a b : Chunk) → compare_chunk b a ≡ reverse (compare_chunk a b)
    flipped (number x) (number y) = compare-IsPreorder.flipped x y
    flipped (number x) (text y) = refl
    flipped (text x) (number y) = refl
    flipped (text x) (text y) = compare_texts-IsPreorder.flipped x y

    eq_left : (a b c : Chunk) → compare_chunk a b ≡ eq → compare_chunk a c ≡ compare_chunk b c
    eq_left (number x) (number y) (number z) h = compare-IsPreorder.eq_left x y z h
    eq_left (number x) (number y) (text z) h = refl
    eq_left (number x) (text y) c h = cc
    eq_left (text x) (number y) c h = cc
    eq_left (text x) (text y) (number z) h = refl
    eq_left (text x) (text y) (text z) h = compare_texts-IsPreorder.eq_left x y z h

    lt_chain :
        (a b c : Chunk) → compare_chunk a b ≡ lt → compare_chunk b c ≡ lt → compare_chunk a c ≡ lt
    lt_chain (number x) (number y) (number z) h k = compare-IsPreorder.lt_chain x y z h k
    lt_chain (number x) (number y) (text z) h k = k
    lt_chain (number x) (text y) c h k = cc
    lt_chain (text x) (number y) (text z) h k = cc
    lt_chain (text x) b (number z) h k = refl
    lt_chain (text x) (text y) (text z) h k = compare_texts-IsPreorder.lt_chain x y z h k

compare_chunk_same : (a b : Chunk) → compare_chunk a b ≡ eq → a ≡ b
compare_chunk_same (number x) (number y) h = ap number (compare_same x y h)
compare_chunk_same (number x) (text y) h = cc
compare_chunk_same (text x) (number y) h = cc
compare_chunk_same (text x) (text y) h = ap text (compare_texts_same x y h)

pub compare_parts_lem :
    (left right : List Chunk) → compare_parts left right ≡ compare_lists compare_chunk left right
unfolding compare_parts
compare_parts_lem [] [] = refl
compare_parts_lem [] (b ∷ right) = refl
compare_parts_lem (a ∷ left) [] = refl
compare_parts_lem (a ∷ left) (b ∷ right) = ground (arith, compare_parts_lem left right)

module _ (unicode : Unicode) where
  -- The chunks of a version that is there.
  unfoldable chunks_of : Option Text → Option (List Chunk)
  chunks_of none = none
  chunks_of (some value) = some (version_chunks unicode value)

  by_chunks :
      (left right : Option Text)
      → compare_versions unicode left right
        ≡ compare_options (compare_lists compare_chunk) (chunks_of left) (chunks_of right)
  unfolding compare_versions chunks_of
  by_chunks none none = refl
  by_chunks none (some right) = refl
  by_chunks (some left) none = refl
  by_chunks (some left) (some right) =
      compare_parts_lem (version_chunks unicode left) (version_chunks unicode right)

  chunks-IsPreorder : IsPreorder (λ left right.
      compare_options (compare_lists compare_chunk) (chunks_of left) (chunks_of right))
  chunks-IsPreorder =
      on-IsPreorder chunks_of
        (compare_options-IsPreorder (compare_lists-IsPreorder compare_chunk-IsPreorder))

  pub compare_versions-IsPreorder : IsPreorder (compare_versions unicode)
  compare_versions-IsPreorder = record {
    flipped = λ a b. rw (by_chunks a b, by_chunks b a) (chunks-IsPreorder.flipped a b);
    eq_left = λ a b c h.
        rw (by_chunks a c, by_chunks b c)
          (chunks-IsPreorder.eq_left a b c (rw (← by_chunks a b) h));
    lt_chain = λ a b c h k.
        rw (by_chunks a c)
          (chunks-IsPreorder.lt_chain a b c (rw (← by_chunks a b) h) (rw (← by_chunks b c) k));
  }

  options_same :
      (a b : Option (List Chunk)) → compare_options (compare_lists compare_chunk) a b ≡ eq → a ≡ b
  options_same none none h = refl
  options_same none (some b) h = cc
  options_same (some a) none h = cc
  options_same (some a) (some b) h = ap some (compare_lists_same compare_chunk_same a b h)

  -- Two versions compare as equal exactly when both are missing or both have the same chunks.
  compare_versions-eq :
      (a b : Option Text) → (compare_versions unicode a b ≡ eq) ↔ (chunks_of a ≡ chunks_of b)
  compare_versions-eq a b = (
    λ h. options_same (chunks_of a) (chunks_of b) (rw (← by_chunks a b) h),
    λ e.
        rw (by_chunks a b, e)
          (self_eq (compare_options-IsPreorder (compare_lists-IsPreorder compare_chunk-IsPreorder))
            (chunks_of b)),
  )
