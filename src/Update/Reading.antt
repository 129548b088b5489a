-- ===== src/Update/Reading.antt =====
-- What `read_ledger` of src/update.rs makes of a ledger file when no call of the operating system
-- fails.
use lariska.Prelude.{◌≡◌, ap, true, false, none, some, leb, arith}
use lariska.Exec.{ok, pure, lift, expect, gets, guard, ◌>>=◌}
use lariska.Update.Types.{UpdateLedger}
use lariska.Update.Host.{Env, World, File, os, read_json}
use lariska.Update.Ledger.{max_ledger_bytes, check_ledger, read_ledger_file, read_ledger}
use lariska.Update.Steps.{held, IsSound}

-- The same host, where no call fails.
abbrev pub undisturbed : World → World
undisturbed w = record w { machine = record w.machine { fails = λ call. false } }

module _ (env : Env) where
  abbrev pub IsRead : World → UpdateLedger → Type 0
  IsRead w l = (read_ledger env (undisturbed w)).0 ≡ ok l

  check_ledger_passes :
      (l : UpdateLedger) (w : World) → IsSound env l → check_ledger env l w ≡ (ok l, w)
  unfolding check_ledger ◌>>=◌ lift guard pure
  check_ledger_passes l w s = let (v, p) = s.floor_parses in ground (arith, p, s.bounded, s.nonces)

  -- A file of the kind and the length that are read.
  abbrev pub IsAdmitted : File UpdateLedger → Type 0
  IsAdmitted none = Unit
  IsAdmitted (some document) =
      (document.regular ≡ true) × (leb document.size max_ledger_bytes ≡ true)

  pub admitted_reads :
      (f : File UpdateLedger) (l : UpdateLedger) (w : World)
      → w.ledger ≡ f
      → held env f ≡ some l
      → IsAdmitted f
      → IsSound env l
      → IsRead w l
  unfolding read_ledger read_ledger_file read_json os ◌>>=◌ lift guard pure gets expect
  admitted_reads none l w file h admitted sound = rw file (cc h)
  admitted_reads (some d) l w file h (regular, short) sound =
      rw file (rw regular (rw short (rw h (ap (λ p. p.0) (check_ledger_passes l _ sound)))))
