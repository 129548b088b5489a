-- ===== src/Exec/Runs.antt =====
-- What one run of an action answers: `Outcome Q R` says that its value and the state after it satisfy
-- `Q`, or its error and the state after it satisfy `R`. One rule for each way to build an action; the
-- facts that a step establishes become hypotheses of the proof for the rest.
use lariska.Prelude.{◌≡◌, refl, ap, Bool, true, false, Option, none, some, arith, if◌then◌else◌}
use lariska.Exec.Moves.{Moves}
use lariska.Exec.{
  Result, ok, err, Exec, pure, raise, lift, expect, gets, attempt, modify, guard, continue, ◌>>=◌,
}

abbrev OutcomeAt {ℓ} :
    {S E A : Type ℓ} → (A → S → Type ℓ) → (E → S → Type ℓ) → Result E A × S → Type ℓ
OutcomeAt Q R (ok a, s) = Q a s
OutcomeAt Q R (err e, s) = R e s

pub record Outcome {ℓ} {S E A : Type ℓ} (Q : A → S → Type ℓ) (R : E → S → Type ℓ)
    (p : Result E A × S) : Type ℓ where
  at : OutcomeAt Q R p

module _ {ℓ} {S E A : Type ℓ} {Q : A → S → Type ℓ} {R : E → S → Type ℓ} where
  pub Runs-pure : (a : A) (s : S) → Q a s → Outcome Q R (pure a s)
  unfolding pure
  Runs-pure a s h = record { at = h }

  pub Runs-raise : (e : E) (s : S) → R e s → Outcome Q R (raise e s)
  unfolding raise
  Runs-raise e s h = record { at = h }

  pub Runs-lift :
      (r : Result E A) (s : S)
      → ((a : A) → r ≡ ok a → Q a s)
      → ((e : E) → r ≡ err e → R e s)
      → Outcome Q R (lift r s)
  unfolding lift
  Runs-lift (ok a) s good bad = record { at = good a refl }
  Runs-lift (err e) s good bad = record { at = bad e refl }

  pub Runs-expect :
      (o : Option A) (e : E) (s : S)
      → ((a : A) → o ≡ some a → Q a s)
      → (o ≡ none → R e s)
      → Outcome Q R (expect o e s)
  unfolding expect
  Runs-expect none e s good bad = record { at = bad refl }
  Runs-expect (some a) e s good bad = record { at = good a refl }

  pub Runs-gets : (f : S → A) (s : S) → Q (f s) s → Outcome Q R (gets f s)
  unfolding gets
  Runs-gets f s h = record { at = h }

  pub Runs-if :
      (b : Bool) (m n : Exec S E A) (s : S)
      → (b ≡ true → Outcome Q R (m s))
      → (b ≡ false → Outcome Q R (n s))
      → Outcome Q R ((if b then m else n) s)
  Runs-if true m n s yes_case no_case = yes_case refl
  Runs-if false m n s yes_case no_case = no_case refl

  pub Runs-imp :
      (p : Result E A × S) {Q' : A → S → Type ℓ} {R' : E → S → Type ℓ}
      → Outcome Q' R' p
      → ((a : A) (s : S) → Q' a s → Q a s)
      → ((e : E) (s : S) → R' e s → R e s)
      → Outcome Q R p
  Runs-imp (ok a, s) h good bad = record { at = good a s h.at }
  Runs-imp (err e, s) h good bad = record { at = bad e s h.at }

  -- The outcome of a run that is known to return, or to fail.
  pub Outcome-ok : {a : A} {s : S} (p : Result E A × S) → p ≡ (ok a, s) → Outcome Q R p → Q a s
  Outcome-ok p e h = let k = rw e at h in k.at

  pub Outcome-split :
      (p : Result E A × S)
      → Outcome Q R p
      → ((a : A) → p.0 ≡ ok a → Q a p.1) × ((e : E) → p.0 ≡ err e → R e p.1)
  Outcome-split (ok a, s) h = (λ b e. ground (arith, h.at), λ b e. cc)
  Outcome-split (err x, s) h = (λ b e. cc, λ b e. ground (arith, h.at))

module _ {ℓ} {S E A : Type ℓ} {P : S → Type ℓ} where
  -- What holds after success and after failure holds after the run.
  pub Outcome-both :
      (p : Result E A × S) → Outcome {E = E} {A = A} (λ _ t. P t) (λ _ t. P t) p → P p.1
  Outcome-both (ok a, s) h = h.at
  Outcome-both (err e, s) h = h.at

-- A run that can only return `v`.
pub Outcome-returns :
    {S E A : Type 0} {v : A} (p : Result E A × S) → Outcome (λ a _. a ≡ v) (λ _ _. ⊥) p → p.0 ≡ ok v
Outcome-returns (ok a, s) h = ap ok h.at
Outcome-returns (err e, s) h = absurd h.at

-- What every run of an action does, taken to one run.
pub Runs-Moves {ℓ} :
    {S E A : Type ℓ} {Q : A → S → Type ℓ} {R : E → S → Type ℓ} {M : S → S → Type ℓ} {m : Exec S E A}
    → Moves M m
    → (s : S) → ((a : A) (t : S) → M s t → Q a t)
    → ((e : E) (t : S) → M s t → R e t)
    → Outcome Q R (m s)
Runs-Moves {S} {E} {A} {Q} {R} {M} {m} k s good bad = go (m s) (k.at s)
  where
    go : (p : Result E A × S) → M s p.1 → Outcome Q R p
    go (ok a, t) h = record { at = good a t h }
    go (err e, t) h = record { at = bad e t h }

module _ {ℓ} {S E A B : Type ℓ} {Q : B → S → Type ℓ} {R : E → S → Type ℓ} where
  pub Runs-bind :
      (m : Exec S E A) (f : A → Exec S E B) (s : S)
      → Outcome (λ a t. Outcome Q R (f a t)) R (m s)
      → Outcome Q R ((m >>= f) s)
  unfolding ◌>>=◌
  Runs-bind m f s h = go (m s) h
    where
      go :
          (p : Result E A × S)
          → Outcome (λ a t. Outcome Q R (f a t)) R p
          → Outcome Q R (continue f p)
      go (ok a, t) k = k.at
      go (err e, t) k = record { at = k.at }

module _ {S E : Type 0} {Q : Unit {0} → S → Type 0} {R : E → S → Type 0} where
  pub Runs-guard :
      (b : Bool) (e : E) (s : S)
      → (b ≡ true → Q tt s)
      → (b ≡ false → R e s)
      → Outcome Q R (guard b e s)
  unfolding guard
  Runs-guard true e s good bad = record { at = good refl }
  Runs-guard false e s good bad = record { at = bad refl }

  pub Runs-modify : (f : S → S) (s : S) → Q tt (f s) → Outcome Q R (modify f s)
  unfolding modify
  Runs-modify f s h = record { at = h }

module _ {ℓ} {S E A : Type ℓ} {Q : Result E A → S → Type ℓ} {R : E → S → Type ℓ} where
  -- `attempt` never fails.
  pub Runs-attempt :
      (m : Exec S E A) (s : S)
      → Outcome (λ a t. Q (ok a) t) (λ e t. Q (err e) t) (m s)
      → Outcome Q R (attempt m s)
  unfolding attempt
  Runs-attempt m s h = go (m s) h
    where
      go :
          (p : Result E A × S)
          → Outcome (λ a t. Q (ok a) t) (λ e t. Q (err e) t) p
          → Outcome Q R (ok p.0, p.1)
      go (ok a, t) k = record { at = k.at }
      go (err e, t) k = record { at = k.at }

-- A step and the rest of the block, in one rule.
module _ {ℓ} {S E A B : Type ℓ} {Q : B → S → Type ℓ} {R : E → S → Type ℓ} where
  pub Runs-lift_bind :
      (r : Result E A) (f : A → Exec S E B) (s : S)
      → ((a : A) → r ≡ ok a → Outcome Q R (f a s))
      → ((e : E) → r ≡ err e → R e s)
      → Outcome Q R ((lift r >>= f) s)
  Runs-lift_bind r f s good bad = Runs-bind _ f s (Runs-lift r s good bad)

  pub Runs-expect_bind :
      (o : Option A) (e : E) (f : A → Exec S E B) (s : S)
      → ((a : A) → o ≡ some a → Outcome Q R (f a s))
      → (o ≡ none → R e s)
      → Outcome Q R ((expect o e >>= f) s)
  Runs-expect_bind o e f s good bad = Runs-bind _ f s (Runs-expect o e s good bad)

  pub Runs-gets_bind :
      (g : S → A) (f : A → Exec S E B) (s : S)
      → Outcome Q R (f (g s) s)
      → Outcome Q R ((gets g >>= f) s)
  Runs-gets_bind g f s h = Runs-bind _ f s (Runs-gets g s h)

module _ {S E B : Type 0} {Q : B → S → Type 0} {R : E → S → Type 0} where
  pub Runs-guard_bind :
      (b : Bool) (e : E) (f : Unit {0} → Exec S E B) (s : S)
      → (b ≡ true → Outcome Q R (f tt s))
      → (b ≡ false → R e s)
      → Outcome Q R ((guard b e >>= f) s)
  Runs-guard_bind b e f s good bad = Runs-bind _ f s (Runs-guard b e s good bad)

  pub Runs-modify_bind :
      (g : S → S) (f : Unit {0} → Exec S E B) (s : S)
      → Outcome Q R (f tt (g s))
      → Outcome Q R ((modify g >>= f) s)
  Runs-modify_bind g f s h = Runs-bind _ f s (Runs-modify g s h)
