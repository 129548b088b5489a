-- ===== src/Exec.antt =====
-- Methods that change the state of a host and may return an error. What was written before an error
-- stays written, so the state comes back beside the error too. `?` of the source is the bind.
pub mod Moves
pub mod Fallible
pub mod Runs
use lariska.Prelude.{ℕ, suc, ◌+◌, ◌≡◌, refl, Bool, true, false, Option, none, some, arith}

pub data Result {ℓ} (E A : Type ℓ) : Type ℓ where
  ok : A → Result E A
  err : E → Result E A

-- `is_ok()`
abbrev pub is_ok {ℓ} : {E A : Type ℓ} → Result E A → Bool
is_ok (ok a) = true
is_ok (err e) = false

abbrev pub Exec {ℓ} : Type ℓ → Type ℓ → Type ℓ → Type ℓ
Exec S E A = S → Result E A × S

module _ {ℓ} {S E A : Type ℓ} where
  unfoldable pub pure : A → Exec S E A
  pure a s = (ok a, s)

  unfoldable pub raise : E → Exec S E A
  raise e s = (err e, s)

  unfoldable pub lift : Result E A → Exec S E A
  lift r s = (r, s)

  -- `ok_or(error)?`
  unfoldable pub expect : Option A → E → Exec S E A
  expect none e s = (err e, s)
  expect (some a) e s = (ok a, s)

  unfoldable pub gets : (S → A) → Exec S E A
  gets f s = (ok (f s), s)

  -- Runs the rest with the error as a value, as `if let Err(error) = m` does.
  unfoldable pub attempt : Exec S E A → Exec S E (Result E A)
  attempt m s = let (r, s') = m s in (ok r, s')

unfoldable pub modify : {S E : Type 0} → (S → S) → Exec S E (Unit {0})
modify f s = (ok tt, f s)

unfoldable pub guard : {S E : Type 0} → Bool → E → Exec S E (Unit {0})
guard true e s = (ok tt, s)
guard false e s = (err e, s)

-- The rest of a block, after a step that has answered.
abbrev pub continue {ℓ} : {S E A B : Type ℓ} → (A → Exec S E B) → Result E A × S → Result E B × S
continue f (ok a, s) = f a s
continue f (err e, s) = (err e, s)

infixl 5 ◌>>=◌ ◌>>◌
unfoldable pub ◌>>=◌ {ℓ} : {S E A B : Type ℓ} → Exec S E A → (A → Exec S E B) → Exec S E B
◌>>=◌ m f s = continue f (m s)

abbrev pub ◌>>◌ : {S E B : Type 0} → Exec S E (Unit {0}) → Exec S E B → Exec S E B
m >> k = m >>= λ _. k

-- What the operating system answers: whether its n-th call fails, and what its clock shows then. A
-- clock before 1970 has no reading.
pub record Machine : Type 0 where
  pub fails : ℕ → Bool
  pub clock : ℕ → Option ℕ
  pub calls : ℕ

abbrev pub called : Machine → Machine
called m = record m { calls = suc m.calls }
