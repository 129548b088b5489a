-- ===== src/Update/Steps.antt =====
-- Rules for the calls of the operating system and the reads of src/update.rs.
use lariska.Prelude.{
  ℕ, ◌≤◌, ◌≡◌, refl, ap, ◌∙◌, true, false, Option, none, some, leb→le, length, arith, some_unique,
}
use lariska.Exec.{ok, Machine}
use lariska.Exec.Runs.{
  Outcome, Runs-pure, Runs-lift, Runs-expect, Runs-gets, Runs-guard, Runs-modify, Runs-bind,
}
use lariska.Update.Types.{UpdateLedger, Error}
use lariska.Update.Host.{
  Env, World, Document, File, Done, os, unix_now, decode, read_json, atomic_json,
}
use lariska.Update.Policy.{parse_version}
use lariska.Update.Ledger.{
  open_shared, default_ledger, check_ledger, read_ledger, read_ledger_file, history_nonces_valid,
}

abbrev pub after_calls : World → Machine → World
after_calls w m = record w { machine = m }

-- Nothing but the machine differs from `w`.
abbrev pub OnlyMachine : World → World → Type 0
OnlyMachine w t = (m : Machine) × (t ≡ after_calls w m)

module _ {Q : Done → World → Type 0} {R : Error → World → Type 0} where
  pub Runs-os :
      (w : World)
      → ((m : Machine) → Q tt (after_calls w m))
      → ((e : Error) (m : Machine) → R e (after_calls w m))
      → Outcome Q R (os w)
  unfolding os
  Runs-os w good bad = Runs-guard _ _ _ (λ _. good _) (λ _. bad _ _)

module _ {Q : Done → World → Type 0} {R : Error → World → Type 0} where
  -- Until the rename the old files stand. A failure after it leaves the new ones.
  pub Runs-atomic_json :
      (publish : World → World) (w : World)
      → ((m n : Machine) → Q tt (after_calls (publish (after_calls w m)) n))
      → ((e : Error) (m : Machine) → R e (after_calls w m))
      → ((e : Error) (m n : Machine) → R e (after_calls (publish (after_calls w m)) n))
      → Outcome Q R (atomic_json publish w)
  unfolding atomic_json
  Runs-atomic_json publish w good bad late = Runs-bind _ _ w (
      Runs-os w
        (λ m. Runs-bind _ _ _ (Runs-modify publish _ (Runs-os _ (good m) (λ e n. late e m n)))) bad)

module _ {Q : ℕ → World → Type 0} {R : Error → World → Type 0} where
  pub Runs-unix_now :
      (w : World)
      → ((t : ℕ) (m : Machine) → Q t (after_calls w m))
      → ((e : Error) (m : Machine) → R e (after_calls w m))
      → Outcome Q R (unix_now w)
  unfolding unix_now
  Runs-unix_now w good bad = Runs-expect _ _ _ (λ t _. good t _) (λ _. bad _ _)

module _ {A : Type 0} {Q : A → World → Type 0} {R : Error → World → Type 0} where
  pub Runs-read_json :
      (slot : World → File A) (limit : ℕ) (w : World)
      → ((a : A) (d : Document A) (m n : Machine)
          → slot (after_calls w m) ≡ some d
          → decode limit d ≡ ok a
          → Q a (after_calls w n))
      → ((e : Error) (m : Machine) → R e (after_calls w m))
      → Outcome Q R (read_json slot limit w)
  unfolding read_json
  Runs-read_json slot limit w good bad = Runs-bind _ _ w (
      Runs-os w
        (λ m. Runs-bind _ _ _ (
          Runs-gets slot _ (
            Runs-bind _ _ _ (
              Runs-expect _ _ _
                (λ d found. Runs-bind _ _ _ (
                  Runs-os _ (λ n. Runs-lift _ _ (λ a p. good a d m n found p) (λ e _. bad e n))
                    bad))
                (λ _. bad _ m)))))
        bad)

pub decode-parsed :
    {A : Type 0} (limit : ℕ) (d : Document A) {a : A} → decode limit d ≡ ok a → d.parsed ≡ some a
decode-parsed limit d h = ground arith

module _ (env : Env) where
  -- The ledger that the JSON of a file is, whatever the kind and the length of the file. A missing
  -- file is a new installation.
  abbrev pub held : File UpdateLedger → Option UpdateLedger
  held none = some (default_ledger env)
  held (some document) = document.parsed

  -- What `read_ledger` has checked of a ledger that it returns.
  pub record IsSound (ledger : UpdateLedger) : Type 0 where
    pub floor_parses : (v : Env.Version env) × (parse_version env ledger.floor_version ≡ ok v)
    pub bounded : length ledger.history ≤ 100
    pub nonces : history_nonces_valid ledger.history ≡ true

  pub default_ledger-IsSound : IsSound (default_ledger env)
  unfolding parse_version
  default_ledger-IsSound = record {
    floor_parses = (env.package_semver, rw env.package_parses (ground (arith, env.package_short)));
    bounded = omega arith;
    nonces = refl;
  }

  module _ {Q : UpdateLedger → World → Type 0} {R : Error → World → Type 0} where
    Runs-check_ledger :
        (ledger : UpdateLedger) (w : World)
        → (IsSound ledger → Q ledger w)
        → ((e : Error) → R e w)
        → Outcome Q R (check_ledger env ledger w)
    unfolding check_ledger
    Runs-check_ledger ledger w good bad = Runs-bind _ _ w (
        Runs-lift _ _
          (λ v parses. Runs-bind _ _ _ (
            Runs-guard _ _ _
              (λ few. Runs-bind _ _ _ (
                Runs-guard _ _ _
                  (λ hex. Runs-pure _ _ (
                    good (record {
                      floor_parses = (v, parses);
                      bounded = leb→le _ _ few;
                      nonces = hex;
                    })))
                  (λ _. bad _)))
              (λ _. bad _)))
          (λ e _. bad e))

    Runs-read_ledger_file :
        (w : World)
        → ((l : UpdateLedger) (m : Machine)
            → held w.ledger ≡ some l
            → IsSound l
            → Q l (after_calls w m))
        → ((e : Error) (m : Machine) → R e (after_calls w m))
        → (f : File UpdateLedger) → w.ledger ≡ f
        → Outcome Q R (read_ledger_file env f w)
    unfolding read_ledger_file
    Runs-read_ledger_file w good bad none same =
        Runs-pure _ _ (good _ w.machine (ap held same) default_ledger-IsSound)
    Runs-read_ledger_file w good bad (some document) same = Runs-bind _ _ w (
        Runs-guard _ _ _
          (λ _. Runs-bind _ _ _ (
            Runs-read_json _ _ _
              (λ l d m n found p.
                Runs-check_ledger l _ (good l n (ap held found ∙ decode-parsed _ d p))
                  (λ e. bad e n))
              bad))
          (λ _. bad _ w.machine))

    -- A read answers the ledger that the file stands for, and only if that ledger is sound.
    pub Runs-read_ledger :
        (w : World)
        → ((l : UpdateLedger) (m : Machine)
            → held w.ledger ≡ some l
            → IsSound l
            → Q l (after_calls w m))
        → ((e : Error) (m : Machine) → R e (after_calls w m))
        → Outcome Q R (read_ledger env w)
    unfolding read_ledger
    Runs-read_ledger w good bad = Runs-bind _ _ w (
        Runs-os w
          (λ m. Runs-bind _ _ _ (
            Runs-gets _ _
              (Runs-read_ledger_file (after_calls w m) (λ l. good l) bad w.ledger refl)))
          bad)

  -- What a read returns is the ledger that the file stands for.
  pub read_ledger-held :
      (w : World) (l : UpdateLedger)
      → held w.ledger ≡ some l
      → Outcome (λ read _. read ≡ l) (λ _ _. Unit) (read_ledger env w)
  read_ledger-held w l h = Runs-read_ledger w (λ read m h' _. some_unique _ h' h) (λ _ _. tt)

module _ {Q : Done → World → Type 0} {R : Error → World → Type 0} where
  -- `SharedUpdateDir::open(…, false)`: nothing is made.
  pub Runs-open_existing :
      (w : World)
      → ((m : Machine) → Q tt (after_calls w m))
      → ((e : Error) (m : Machine) → R e (after_calls w m))
      → Outcome Q R (open_shared false w)
  unfolding open_shared
  Runs-open_existing w good bad = Runs-bind _ _ w (
      Runs-os w
        (λ m. Runs-bind _ _ _ (Runs-gets _ _ (Runs-guard _ _ _ (λ _. good m) (λ _. bad _ m)))) bad)
