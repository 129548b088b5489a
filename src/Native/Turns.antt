-- ===== src/Native/Turns.antt =====
-- Proofs about a turn of the supervisor of src/native_update.rs: what it does to the ledger file.
use lariska.Prelude.{refl, ℕ, String, Bool, true, false, Option, none, some, if◌then◌else◌}
use lariska.Exec.{ok, err}
use lariska.Exec.Moves.{
  IsPreorder, Moves, Moves-bind, Moves-attempt, Moves-if, Moves-pure, Moves-gets, Moves-guard,
  moves_rules,
}
use lariska.Update.Types.{UpdateConfig, ReleaseManifest, PendingUpdate, HistoryEntry, UpdateLedger}
use lariska.Update.Host.{Env, World, File, Journal, Release, Pending, CachedRelease, os}
use lariska.Update.Ledger.{finish_update}
use lariska.Update.Transitions.{LedgerMove}
use lariska.Native.Journal.{set_pending, set_active, read_journal, read_journal_file, check_journal}
use lariska.Native.Supervisor.{
  now_or_zero, rollback_with, accept_request_with, finish_completed, finish_healthy, roll_back_late,
  decide_pending, close_interrupted, recover_known, recover_or_ack_with, begin_turn, consider,
}
use lariska.Native.Transactions
use lariska.Native.Steps.{elsewhere, health_status_for_pending-R, ack_request-R}
use lariska.Native.Ledger.{read_ledger_lem}

module _ (env : Env) (config : UpdateConfig) (native_signed : ReleaseManifest → Release → Bool)
    {R : World → World → Type 0} (pre : IsPreorder R)
    (step : (w t : World) → LedgerMove env config w t → R w t) where
  calls : Moves R os
  calls = lariska.Native.Transactions.calls env config native_signed pre step

  now_or_zero-R : Moves R now_or_zero
  now_or_zero-R = lariska.Native.Transactions.now_or_zero-R env config native_signed pre step

  saved : Moves R (lariska.Native.Journal.save_journal env)
  saved = lariska.Native.Transactions.saved env config native_signed pre step

  pruned : Moves R lariska.Native.Cache.prune_cache
  pruned = lariska.Native.Transactions.pruned env config native_signed pre step

  put_pending : (pending : Option Pending) (w : World) → R w (set_pending pending w)
  put_pending = lariska.Native.Transactions.put_pending env config native_signed pre step

  put_active :
      (active : Option CachedRelease) (w : World) → R w (lariska.Native.Journal.set_active active w)
  put_active = lariska.Native.Transactions.put_active env config native_signed pre step

  remembered :
      (nonce version : String) (sequence : ℕ)
      → Moves R (lariska.Native.Journal.remember_consumed_nonce env config nonce version sequence)
  remembered = lariska.Native.Transactions.remembered env config native_signed pre step

  finished :
      (nonce : String) (healthy : Bool) (reason : String)
      → Moves R (finish_update env config nonce healthy reason)
  finished = lariska.Native.Transactions.finished env config native_signed pre step

  rollback_with-R : (reason : String) → Moves R (rollback_with env config native_signed reason)
  rollback_with-R = lariska.Native.Transactions.rollback_with-R env config native_signed pre step

  accept_request_with-R :
      (nonce : String) (request : Release)
      → Moves R (accept_request_with env config native_signed nonce request)
  accept_request_with-R =
      lariska.Native.Transactions.accept_request_with-R env config native_signed pre step

  finish_completed-R :
      (pending : Pending) (last : HistoryEntry)
      → Moves R (finish_completed env config native_signed pending last)
  unfolding finish_completed
  finish_completed-R pending last =
      search (moves_rules, pre, remembered, activated, put_pending, saved, pruned) depth 40
    where
      activated :
          (b : Bool) (w : World) → R w ((if b then set_active (some pending.release) else λ w. w) w)
      activated true w = put_active _ w
      activated false w = pre.stay w

  finish_healthy-R : (pending : Pending) → Moves R (finish_healthy env config native_signed pending)
  unfolding finish_healthy
  finish_healthy-R pending =
      search (moves_rules, pre, finished, put_active, put_pending, saved, pruned) depth 40

  roll_back_late-R :
      (authoritative : PendingUpdate)
      → Moves R (roll_back_late env config native_signed authoritative)
  unfolding roll_back_late
  roll_back_late-R authoritative =
      search (moves_rules, pre, now_or_zero-R, rollback_with-R) depth 12

  decide_pending-R :
      (pending : Pending) (authoritative : PendingUpdate)
      → Moves R (decide_pending env config native_signed pending authoritative)
  unfolding decide_pending
  decide_pending-R pending authoritative = Moves-bind pre _ _ (Moves-guard pre _ _) (λ _.
      Moves-bind pre _ _ (remembered _ _ _) (λ _.
        Moves-bind pre _ _
          (Moves-attempt pre _ (health_status_for_pending-R env config pre step authoritative))
          (elim [
            | ok true ↦ finish_healthy-R pending
            | ok false ↦ roll_back_late-R authoritative
            | err _ ↦ roll_back_late-R authoritative
          ])))

  close_interrupted-R :
      (interrupted : Option PendingUpdate)
      → Moves R (close_interrupted env config native_signed interrupted)
  unfolding close_interrupted
  close_interrupted-R none = search (moves_rules, pre)
  close_interrupted-R (some interrupted) = search (moves_rules, pre, remembered, finished) depth 12

  recover_known-R :
      (pending : Pending) (ledger : UpdateLedger) (authoritative : Option PendingUpdate)
      → Moves R (recover_known env config native_signed pending ledger authoritative)
  unfolding recover_known
  recover_known-R pending ledger (some authoritative) = decide_pending-R pending authoritative
  recover_known-R pending ledger none = search (moves_rules, pre, finish_completed-R) depth 12

  pub recover_or_ack_with-R : Moves R (recover_or_ack_with env config native_signed)
  unfolding recover_or_ack_with
  recover_or_ack_with-R =
      Moves-bind pre _ _ (read_ledger_lem env config pre step) (λ ledger.
        Moves-bind pre _ _ (Moves-gets pre _) (λ journal. decided ledger journal.pending))
    where
      decided :
          (ledger : UpdateLedger) (pending : Option Pending)
          → Moves R (elim pending [
            | none ↦ close_interrupted env config native_signed ledger.pending
            | some pending ↦ recover_known env config native_signed pending ledger ledger.pending
          ])
      decided ledger none = close_interrupted-R ledger.pending
      decided ledger (some pending) = recover_known-R pending ledger ledger.pending

  read_journal-R : Moves R (read_journal env)
  unfolding read_journal read_journal_file check_journal
  read_journal-R = search (moves_rules, pre, calls, from_file) depth 20
    where
      from_file : (file : File Journal) → Moves R (read_journal_file env file)
      from_file none = search (moves_rules, pre)
      from_file (some document) = search (moves_rules, pre, calls) depth 20

  pub begin_turn-R : Moves R (begin_turn env config native_signed)
  unfolding begin_turn
  begin_turn-R =
      search (moves_rules, pre, read_journal-R, loaded, recover_or_ack_with-R, pruned) depth 20
    where
      loaded : (journal : Journal) (w : World) → R w (record w { working = journal })
      loaded journal w = elsewhere env config pre step w _ refl

  pub consider-R :
      (nonce : String) (request : Release)
      → Moves R (consider env config native_signed nonce request)
  unfolding consider
  consider-R nonce request = Moves-bind pre _ _ (Moves-gets pre _) (λ journal.
      Moves-if pre _ _ _ (Moves-pure pre _) (
        Moves-bind pre _ _ (Moves-attempt pre _ (accept_request_with-R nonce request)) (elim [
          | ok _ ↦ search (moves_rules, pre)
          | err e ↦
              Moves-bind pre _ _
                (Moves-attempt pre _ (ack_request-R env config pre step nonce "refused"))
                (λ _. Moves-pure pre _)
        ])))
