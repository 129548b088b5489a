-- ===== src/Update/Ledger.antt =====
-- The transaction ledger of src/update.rs: `read_ledger`, `commit_pending`, `arm_health` and
-- `finish_update`, with the mailbox calls that they make.

use lariska.Prelude.{
  ℕ, ◌-◌, ◌*◌, String, Bool, true, false, ◌||◌, none, some, List, [], ◌∷◌, ◌++◌, leb, str_eq,
  length, drop, all, take_chars, max, if◌then◌else◌,
}
use lariska.Exec.{ok, err, pure, lift, expect, gets, attempt, modify, guard, ◌>>=◌, ◌>>◌}
use lariska.Update.Types.{
  UpdateConfig, ReleaseManifest, PendingUpdate, HistoryEntry, UpdateLedger, Error, io_error,
  ledger_not_regular, history_unbounded, update_pending, deadline_overflow, no_update_pending,
  nonce_mismatch,
}
use lariska.Update.Host.{
  Env, World, File, Action, Done, written, os, unix_now, read_json, atomic_json, checked_add,
  is_none,
}
use lariska.Update.Policy.{valid_nonce, validate_nonce, parse_version}

abbrev pub max_ledger_bytes : ℕ
max_ledger_bytes = 256 * 1024

abbrev pub max_manifest_bytes : ℕ
max_manifest_bytes = 16 * 1024

-- `SharedUpdateDir::open`: the directory is made only if the caller asks for it.
unfoldable pub open_shared : Bool → Action Done
open_shared create = do
  os
  if create
      then modify (λ w. record w { shared = true })
      else do present ← gets (λ w. w.shared); guard present io_error

-- `remove` of the mailbox: a missing file is no error.
unfoldable pub remove_shared : (World → World) → Action Done
remove_shared unlink = do os; modify unlink; os

abbrev pub no_health : World → World
no_health w = record w { health = none }

abbrev pub no_pending_health : World → World
no_pending_health w = record w { pending_health = none }

-- `Ok(record.nonce.is_empty()) || validate_nonce(record.nonce)`, over the history
abbrev pub history_nonces_valid : List HistoryEntry → Bool
history_nonces_valid = all (λ r. str_eq r.nonce "" || valid_nonce r.nonce)

-- Both removals are tried, and their errors ignored.
unfoldable pub clean_mailbox : Action Done
clean_mailbox = do
  opened ← attempt (open_shared false)
  elim opened [
    | ok _ ↦ do
      first ← attempt (remove_shared no_pending_health)
      second ← attempt (remove_shared no_health)
      pure tt
    | err _ ↦ pure tt
  ]

-- `history.push`, and the oldest records dropped past the limit
abbrev pub remember : ℕ → HistoryEntry → List HistoryEntry → List HistoryEntry
remember limit entry history =
    let longer = history ++ entry ∷ [] in drop (length longer - limit) longer

abbrev pub close_ledger : ℕ → HistoryEntry → UpdateLedger → UpdateLedger
close_ledger limit entry ledger = record ledger {
  pending = none;
  history = remember limit entry ledger.history;
}

module _ (env : Env) where
  open env use {package_version, version_le, ledger_size, pending_size}

  -- `UpdateLedger::default`
  abbrev pub default_ledger : UpdateLedger
  default_ledger = record {
    floor_version = package_version;
    floor_sequence = 0;
    pending = none;
    history = [];
  }

  -- What `read_ledger` asks of a ledger before it is used.
  unfoldable pub check_ledger : UpdateLedger → Action UpdateLedger
  check_ledger ledger = do
    floor ← lift (parse_version env ledger.floor_version)
    guard (leb (length ledger.history) 100) history_unbounded
    guard (history_nonces_valid ledger.history) Error.bad_nonce
    pure ledger

  unfoldable pub read_ledger_file : File UpdateLedger → Action UpdateLedger
  read_ledger_file none = pure default_ledger
  read_ledger_file (some document) = do
    guard document.regular ledger_not_regular
    ledger ← read_json (λ w. w.ledger) max_ledger_bytes
    check_ledger ledger

  unfoldable pub read_ledger : Action UpdateLedger
  read_ledger = do os; file ← gets (λ w. w.ledger); read_ledger_file file

  abbrev pub store_ledger : UpdateLedger → World → World
  store_ledger ledger w = record w { ledger = written (ledger_size ledger) ledger }

  unfoldable pub write_ledger : UpdateLedger → Action Done
  write_ledger ledger = atomic_json (store_ledger ledger)

  abbrev pub store_pending_health : PendingUpdate → World → World
  store_pending_health pending w = record w {
    pending_health = written (pending_size pending) pending;
  }

  unfoldable pub publish_pending_health : PendingUpdate → Action Done
  publish_pending_health pending = do
    open_shared true
    remove_shared no_health
    atomic_json (store_pending_health pending)

  unfoldable pub commit_pending : UpdateConfig → ReleaseManifest → String → Action Done
  commit_pending config manifest nonce = do
    lift (validate_nonce nonce)
    ledger ← read_ledger
    guard (is_none ledger.pending) update_pending
    now ← unix_now
    deadline ← expect (checked_add now config.health_timeout_secs) deadline_overflow
    let pending : PendingUpdate = record {
      nonce = nonce;
      version = manifest.version;
      sequence = manifest.sequence;
      started_at = now;
      deadline = deadline;
    }
    os
    write_ledger (record ledger { pending = some pending })
    publish_pending_health pending

  unfoldable pub arm_health : UpdateConfig → String → Action PendingUpdate
  arm_health config nonce = do
    lift (validate_nonce nonce)
    ledger ← read_ledger
    pending ← expect ledger.pending no_update_pending
    guard (str_eq pending.nonce nonce) nonce_mismatch
    now ← unix_now
    deadline ← expect (checked_add now config.health_timeout_secs) deadline_overflow
    let armed : PendingUpdate = record pending { started_at = now; deadline = deadline }
    write_ledger (record ledger { pending = some armed })
    publish_pending_health armed
    pure armed

  -- The floor after a healthy update: no lower than before, in each of its two parts.
  unfoldable pub raise_floor : PendingUpdate → UpdateLedger → Action UpdateLedger
  raise_floor pending ledger = do
    version ← lift (parse_version env pending.version)
    floor ← lift (parse_version env ledger.floor_version)
    pure (record ledger {
      floor_version = if version_le version floor then ledger.floor_version else pending.version;
      floor_sequence = max ledger.floor_sequence pending.sequence;
    })

  unfoldable pub finish_update : UpdateConfig → String → Bool → String → Action Done
  finish_update config nonce healthy reason = do
    lift (validate_nonce nonce)
    ledger ← read_ledger
    pending ← expect ledger.pending no_update_pending
    guard (str_eq pending.nonce nonce) nonce_mismatch
    now ← unix_now
    let entry : HistoryEntry = record {
      nonce = pending.nonce;
      version = pending.version;
      sequence = pending.sequence;
      at = now;
      outcome = if healthy then "healthy" else "rolled_back";
      reason = take_chars 1024 reason;
    }
    raised ← if healthy then raise_floor pending ledger else pure ledger
    write_ledger (close_ledger config.history_limit entry raised)
    clean_mailbox
