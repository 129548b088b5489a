-- ===== src/Inventory/Order.antt =====
-- Comparisons that answer an `Ordering`, and the laws that sorting by one relies on.
use Prim.Native.Nat.{compare, Ordering}
use Prim.Native.Nat.Ordering.{lt, eq, gt}
use lariska.Prelude.{ℕ, ◌≡◌, ◌≢◌, arith}

-- `Ordering::reverse`
abbrev pub reverse : Ordering → Ordering
reverse lt = gt
reverse eq = eq
reverse gt = lt

-- `Ordering::then_with`
abbrev pub then : Ordering → Ordering → Ordering
then eq second = second
then lt second = lt
then gt second = gt

-- How the answers of a comparison along a chain combine: what `a ? c` is when `a ? b` and `b ? c`
-- agree or one of them is `eq`.
pub record IsPreorder {ℓ} {K : Type ℓ} (cmp : K → K → Ordering) : Type ℓ where
  pub flipped : (a b : K) → cmp b a ≡ reverse (cmp a b)
  pub eq_left : (a b c : K) → cmp a b ≡ eq → cmp a c ≡ cmp b c
  pub lt_chain : (a b c : K) → cmp a b ≡ lt → cmp b c ≡ lt → cmp a c ≡ lt

module _ {ℓ} {K : Type ℓ} {cmp : K → K → Ordering} (o : IsPreorder cmp) where
  pub self_eq : (a : K) → cmp a a ≡ eq
  self_eq a = ground (arith, o.flipped a a)

  pub eq_right : (a b c : K) → cmp b c ≡ eq → cmp a c ≡ cmp a b
  eq_right a b c h = ground (arith, o.flipped b c, o.eq_left c b a, o.flipped c a, o.flipped b a)

  -- `≤` is transitive.
  pub not_gt_trans : (a b c : K) → cmp a b ≢ gt → cmp b c ≢ gt → cmp a c ≢ gt
  not_gt_trans a b c h k = ground (arith, o.eq_left a b c, eq_right a b c, o.lt_chain a b c)

  pub flipped_gt : (a b : K) → cmp a b ≡ gt → cmp b a ≢ gt
  flipped_gt a b h = ground (arith, o.flipped a b)

pub compare-IsPreorder : IsPreorder compare
compare-IsPreorder = ground arith

pub compare_same : (a b : ℕ) → compare a b ≡ eq → a ≡ b
compare_same a b h = ground arith

-- `sort_by_key`, `cmp` of a key
abbrev pub on {ℓ κ} : {A : Type ℓ} {K : Type κ} → (A → K) → (K → K → Ordering) → A → A → Ordering
on key cmp a b = cmp (key a) (key b)

pub on-IsPreorder {ℓ κ} :
    {A : Type ℓ} {K : Type κ} (key : A → K) {cmp : K → K → Ordering}
    → IsPreorder cmp
    → IsPreorder (on key cmp)
on-IsPreorder key o = record {
  flipped = λ a b. o.flipped (key a) (key b);
  eq_left = λ a b c. o.eq_left (key a) (key b) (key c);
  lt_chain = λ a b c. o.lt_chain (key a) (key b) (key c);
}

-- Descending.
abbrev pub descending {ℓ} : {K : Type ℓ} → (K → K → Ordering) → K → K → Ordering
descending cmp a b = cmp b a

abbrev pub both {ℓ} : {K : Type ℓ} → (K → K → Ordering) → (K → K → Ordering) → K → K → Ordering
both first second a b = then (first a b) (second a b)

pub descending-IsPreorder {ℓ} :
    {K : Type ℓ} {cmp : K → K → Ordering} → IsPreorder cmp → IsPreorder (descending cmp)
descending-IsPreorder o = record {
  flipped = λ a b. o.flipped b a;
  eq_left = λ a b c h. eq_right o c b a h;
  lt_chain = λ a b c h k. o.lt_chain c b a k h;
}

pub both-IsPreorder {ℓ} :
    {K : Type ℓ} {first second : K → K → Ordering}
    → IsPreorder first
    → IsPreorder second
    → IsPreorder (both first second)
both-IsPreorder o p = record {
  flipped = λ a b. ground (arith, o.flipped a b, p.flipped a b);
  eq_left = λ a b c h. ground (arith, o.eq_left a b c, p.eq_left a b c);
  lt_chain = λ a b c h k.
      ground (arith, o.lt_chain a b c, o.eq_left a b c, eq_right o a b c, p.lt_chain a b c);
}
