-- ===== src/Inventory/Lexicographic.antt =====
-- `cmp` of sequences, of options and of text, which compares the code points.
use Prim.Native.Nat.{compare, Ordering}
use Prim.Native.Nat.Ordering.{lt, eq, gt}
use lariska.Prelude.{ℕ, ◌≡◌, refl, Option, none, some, List, [], ◌∷◌, arith}
use lariska.Inventory.Order.{reverse, then, IsPreorder, compare-IsPreorder, compare_same, eq_right}

module _ {ℓ} {A : Type ℓ} (cmp : A → A → Ordering) where
  -- A sequence that ends first is the smaller one.
  abbrev pub compare_lists : List A → List A → Ordering
  compare_lists [] [] = eq
  compare_lists [] (b ∷ ys) = lt
  compare_lists (a ∷ xs) [] = gt
  compare_lists (a ∷ xs) (b ∷ ys) = then (cmp a b) (compare_lists xs ys)

  -- `None` is the smallest.
  abbrev pub compare_options : Option A → Option A → Ordering
  compare_options none none = eq
  compare_options none (some b) = lt
  compare_options (some a) none = gt
  compare_options (some a) (some b) = cmp a b

module _ {ℓ} {A : Type ℓ} {cmp : A → A → Ordering} (o : IsPreorder cmp) where
  lists_flipped : (xs ys : List A) → compare_lists cmp ys xs ≡ reverse (compare_lists cmp xs ys)
  lists_flipped [] [] = refl
  lists_flipped [] (b ∷ ys) = refl
  lists_flipped (a ∷ xs) [] = refl
  lists_flipped (a ∷ xs) (b ∷ ys) = ground (arith, o.flipped a b, lists_flipped xs ys)

  lists_eq_left :
      (xs ys zs : List A)
      → compare_lists cmp xs ys ≡ eq
      → compare_lists cmp xs zs ≡ compare_lists cmp ys zs
  lists_eq_left [] [] zs h = refl
  lists_eq_left [] (b ∷ ys) zs h = cc
  lists_eq_left (a ∷ xs) [] zs h = cc
  lists_eq_left (a ∷ xs) (b ∷ ys) [] h = refl
  lists_eq_left (a ∷ xs) (b ∷ ys) (c ∷ zs) h =
      ground (arith, o.eq_left a b c, lists_eq_left xs ys zs)

  lists_lt_chain :
      (xs ys zs : List A)
      → compare_lists cmp xs ys ≡ lt
      → compare_lists cmp ys zs ≡ lt
      → compare_lists cmp xs zs ≡ lt
  lists_lt_chain [] ys [] h k = ground (arith, lists_flipped [] ys)
  lists_lt_chain [] ys (c ∷ zs) h k = refl
  lists_lt_chain (a ∷ xs) [] zs h k = cc
  lists_lt_chain (a ∷ xs) (b ∷ ys) [] h k = cc
  lists_lt_chain (a ∷ xs) (b ∷ ys) (c ∷ zs) h k =
      ground (arith, o.eq_left a b c, eq_right o a b c, o.lt_chain a b c, lists_lt_chain xs ys zs)

  pub compare_lists-IsPreorder : IsPreorder (compare_lists cmp)
  compare_lists-IsPreorder = record {
    flipped = lists_flipped;
    eq_left = lists_eq_left;
    lt_chain = lists_lt_chain;
  }

  options_flipped : (a b : Option A) → compare_options cmp b a ≡ reverse (compare_options cmp a b)
  options_flipped none none = refl
  options_flipped none (some b) = refl
  options_flipped (some a) none = refl
  options_flipped (some a) (some b) = o.flipped a b

  options_eq_left :
      (a b c : Option A)
      → compare_options cmp a b ≡ eq
      → compare_options cmp a c ≡ compare_options cmp b c
  options_eq_left none none c h = refl
  options_eq_left none (some b) c h = cc
  options_eq_left (some a) none c h = cc
  options_eq_left (some a) (some b) none h = refl
  options_eq_left (some a) (some b) (some c) h = o.eq_left a b c h

  options_lt_chain :
      (a b c : Option A)
      → compare_options cmp a b ≡ lt
      → compare_options cmp b c ≡ lt
      → compare_options cmp a c ≡ lt
  options_lt_chain none b none h k = ground (arith, options_flipped none b)
  options_lt_chain none b (some c) h k = refl
  options_lt_chain (some a) none c h k = cc
  options_lt_chain (some a) (some b) none h k = cc
  options_lt_chain (some a) (some b) (some c) h k = o.lt_chain a b c h k

  pub compare_options-IsPreorder : IsPreorder (compare_options cmp)
  compare_options-IsPreorder = record {
    flipped = options_flipped;
    eq_left = options_eq_left;
    lt_chain = options_lt_chain;
  }

module _ {ℓ} {A : Type ℓ} {cmp : A → A → Ordering} (same : (a b : A) → cmp a b ≡ eq → a ≡ b) where
  pub compare_lists_same : (xs ys : List A) → compare_lists cmp xs ys ≡ eq → xs ≡ ys
  compare_lists_same [] [] h = refl
  compare_lists_same [] (b ∷ ys) h = cc
  compare_lists_same (a ∷ xs) [] h = cc
  compare_lists_same (a ∷ xs) (b ∷ ys) h = ground (arith, same a b, compare_lists_same xs ys)

-- `str::cmp`
abbrev pub compare_texts : List ℕ → List ℕ → Ordering
compare_texts = compare_lists compare

pub compare_texts-IsPreorder : IsPreorder compare_texts
compare_texts-IsPreorder = compare_lists-IsPreorder compare-IsPreorder

pub compare_texts_same : (s t : List ℕ) → compare_texts s t ≡ eq → s ≡ t
compare_texts_same = compare_lists_same compare_same
