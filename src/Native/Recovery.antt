-- ===== src/Native/Recovery.antt =====
-- Proofs about `recover_or_ack_with` of src/native_update.rs, where the ledger has a transaction
-- that the journal has not.
use lariska.Prelude.{Bool, false, ◌<◌, ◌≡◌, refl, ap, ◌∙◌, none, some, last, some_unique}
use lariska.Exec.{ok}
use lariska.Exec.Runs.{Outcome, Outcome-split, Runs-bind, Runs-gets_bind, Runs-imp}
use lariska.Update.Types.{UpdateConfig, ReleaseManifest, PendingUpdate, HistoryEntry, UpdateLedger}
use lariska.Update.Host.{Env, World, Release}
use lariska.Update.Ledger.{close_ledger}
use lariska.Update.Steps.{held, Runs-read_ledger}
use lariska.Update.Transitions.Finish.{finish_update-Outcome}
use lariska.Update.History.{last-remember}
use lariska.Native.Supervisor.{recover_or_ack_with, close_interrupted}
use lariska.Native.Remember.{remember_consumed_nonce-Outcome}

module _ (env : Env) (config : UpdateConfig)
    (native_signed : ReleaseManifest → Release → Bool) where
  -- The ledger has nothing pending, and its last record closes the transaction of that nonce.
  pub record Closed (p : PendingUpdate) (t : World) : Type 0 where
    pub ledger : UpdateLedger
    pub entry : HistoryEntry
    pub stored : held env t.ledger ≡ some ledger
    pub free : ledger.pending ≡ none
    pub recorded : last ledger.history ≡ some entry
    pub nonce : entry.nonce ≡ p.nonce
    pub outcome : entry.outcome ≡ "rolled_back"
    pub reason : entry.reason ≡ "interrupted_before_install"

  module _ (p : PendingUpdate) (some_history : 0 < config.history_limit) where
    close_interrupted-Closed :
        (w : World)
        → Outcome
            (λ _ t. Closed p t)
            (λ _ _. Unit {0})
            (close_interrupted env config native_signed (some p) w)
    unfolding close_interrupted
    close_interrupted-Closed w = Runs-bind _ _ w (
        Runs-imp _ (remember_consumed_nonce-Outcome env config p.nonce p.version p.sequence w)
          (λ _ t _.
            Runs-imp _
              (finish_update-Outcome env config p.nonce false "interrupted_before_install" t)
              (λ _ u (_, f). record {
                ledger = close_ledger config.history_limit f.entry f.closed;
                entry = f.entry;
                stored = f.stored;
                free = refl;
                recorded = last-remember config.history_limit f.entry f.closed.history some_history;
                nonce = f.closes.nonce ∙ f.nonce_kept;
                outcome = f.outcome_kept;
                reason = f.reason_kept;
              })
              (λ _ _ _. tt))
          (λ _ _ _. tt))

    -- If the history may hold a record, the journal has no transaction, the JSON of the ledger file
    -- is a ledger with a pending one, and `recover_or_ack_with` returns, the ledger file then holds
    -- a ledger with nothing pending, whose last record says that this transaction was interrupted
    -- and rolled back.
    pub recover_or_ack_with-Closed :
        (w : World) (l : UpdateLedger)
        → w.working.pending ≡ none
        → held env w.ledger ≡ some l
        → l.pending ≡ some p
        → (recover_or_ack_with env config native_signed w).0 ≡ ok tt
        → Closed p (recover_or_ack_with env config native_signed w).1
    unfolding recover_or_ack_with
    recover_or_ack_with-Closed w l idle reads busy done =
        (Outcome-split _ (closing w l idle reads busy)).0 tt done
      where
        closing :
            (w : World) (l : UpdateLedger)
            → w.working.pending ≡ none
            → held env w.ledger ≡ some l
            → l.pending ≡ some p
            → Outcome
                (λ _ t. Closed p t)
                (λ _ _. Unit {0})
                (recover_or_ack_with env config native_signed w)
        closing w l idle reads busy = Runs-bind _ _ w (
            Runs-read_ledger env w
              (λ k m reads' _. Runs-gets_bind _ _ _ (
                rw idle (
                  rw (ap (λ (x : UpdateLedger). x.pending) (some_unique _ reads' reads) ∙ busy)
                    (close_interrupted-Closed _))))
              (λ _ _. tt))
