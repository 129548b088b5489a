-- ===== src/Exec/Moves.antt =====
-- What every run of an action does to the state, whether it returns or fails: a relation between the
-- state before and the state after, with one rule for each way to build an action.
use lariska.Prelude.{Bool, true, false, Option, none, some, if◌then◌else◌}
use lariska.Exec.{
  Result, ok, err, Exec, pure, raise, lift, expect, gets, attempt, modify, guard, continue, ◌>>=◌,
}

-- A relation between states that holds of no step and of two steps in a row.
pub record IsPreorder {ℓ} {S : Type ℓ} (R : S → S → Type ℓ) : Type ℓ where
  pub stay : (s : S) → R s s
  pub chain : (s t u : S) → R s t → R t u → R s u

pub record Moves {ℓ} {S E A : Type ℓ} (R : S → S → Type ℓ) (m : Exec S E A) : Type ℓ where
  pub at : (s : S) → R s (m s).1

module _ {ℓ} {S E A : Type ℓ} {R : S → S → Type ℓ} (pre : IsPreorder R) where
  pub Moves-pure : (a : A) → Moves R (pure {E = E} a)
  unfolding pure
  Moves-pure a = record { at = pre.stay }

  pub Moves-raise : (e : E) → Moves R (raise {A = A} e)
  unfolding raise
  Moves-raise e = record { at = pre.stay }

  pub Moves-lift : (r : Result E A) → Moves R (lift r)
  unfolding lift
  Moves-lift r = record { at = pre.stay }

  pub Moves-expect : (o : Option A) (e : E) → Moves R (expect o e)
  unfolding expect
  Moves-expect none e = record { at = pre.stay }
  Moves-expect (some a) e = record { at = pre.stay }

  pub Moves-gets : (f : S → A) → Moves R (gets {E = E} f)
  unfolding gets
  Moves-gets f = record { at = pre.stay }

  pub Moves-attempt : (m : Exec S E A) → Moves R m → Moves R (attempt m)
  unfolding attempt
  Moves-attempt m k = record { at = k.at }

  pub Moves-if :
      (b : Bool) (m n : Exec S E A) → Moves R m → Moves R n → Moves R (if b then m else n)
  Moves-if true m n km kn = km
  Moves-if false m n km kn = kn

module _ {ℓ} {S E A B : Type ℓ} {R : S → S → Type ℓ} (pre : IsPreorder R) where
  Moves-continue :
      (r : Result E A) (f : A → Exec S E B) (s t : S)
      → ((a : A) → Moves R (f a))
      → R s t
      → R s (continue f (r, t)).1
  Moves-continue (ok a) f s t kf h = pre.chain s t _ h ((kf a).at t)
  Moves-continue (err e) f s t kf h = h

  pub Moves-bind :
      (m : Exec S E A) (f : A → Exec S E B)
      → Moves R m
      → ((a : A) → Moves R (f a))
      → Moves R (m >>= f)
  unfolding ◌>>=◌
  Moves-bind m f km kf = record { at = λ s. Moves-continue (m s).0 f s (m s).1 kf (km.at s) }

pub Moves-guard :
    {S E : Type 0} {R : S → S → Type 0} (pre : IsPreorder R) (b : Bool) (e : E)
    → Moves R (guard {S = S} b e)
unfolding guard
Moves-guard pre true e = record { at = pre.stay }
Moves-guard pre false e = record { at = pre.stay }

pub Moves-modify :
    {S E : Type 0} {R : S → S → Type 0} (f : S → S)
    → ((s : S) → R s (f s))
    → Moves R (modify {E = E} f)
unfolding modify
Moves-modify f k = record { at = k }

pub ruleset moves_rules = (
  Moves-pure, Moves-raise, Moves-lift, Moves-expect, Moves-gets, Moves-attempt, Moves-if,
  Moves-bind, Moves-guard, Moves-modify,
)
