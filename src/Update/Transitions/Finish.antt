-- ===== src/Update/Transitions/Finish.antt =====
-- Proofs about `finish_update` as a step of the ledger.
use lariska.Prelude.{
  take_chars, ℕ, ◌≡◌, refl, ap, ◌∙◌, String, Bool, true, false, some, if◌then◌else◌,
}
use lariska.Exec.{pure}
use lariska.Exec.Runs.{Outcome, Runs-pure, Runs-lift, Runs-bind, Runs-Moves}
use lariska.Update.Types.{UpdateConfig, PendingUpdate, HistoryEntry, UpdateLedger, Error}
use lariska.Update.Host.{Env, World}
use lariska.Update.Policy.{valid_nonce}
use lariska.Update.Ledger.{raise_floor, close_ledger, finish_update}
use lariska.Update.Steps.{held, Runs-unix_now}
use lariska.Update.Mailbox.{clean_mailbox-OnlyMailbox}
use lariska.Update.Transitions.{
  Closes, Raised, LedgerStep, rolled_back, succeeded, LedgerMove, same, LedgerMove-OnlyMailbox,
  Runs-write_ledger, Runs-opened, Runs-identified,
}

abbrev pub outcome_name : Bool → String
outcome_name healthy = if healthy then "healthy" else "rolled_back"

module _ (env : Env) (config : UpdateConfig) where
  -- The pending transaction became the last record of the history. The floor moved only if it ended
  -- healthy.
  pub record Finished (nonce : String) (healthy : Bool) (reason : String) (w t : World)
      : Type 0 where
    pub before : UpdateLedger
    pub transaction : PendingUpdate
    pub entry : HistoryEntry
    pub closed : UpdateLedger
    pub reads : held env w.ledger ≡ some before
    pub pending : before.pending ≡ some transaction
    pub nonce_kept : transaction.nonce ≡ nonce
    pub closes : Closes transaction entry
    pub outcome_kept : entry.outcome ≡ outcome_name healthy
    pub reason_kept : entry.reason ≡ take_chars 1024 reason
    pub raised : healthy ≡ true → Raised env config transaction before closed
    pub unraised : healthy ≡ false → closed ≡ before
    pub stored : held env t.ledger ≡ some (close_ledger config.history_limit entry closed)

  module _ {Q : UpdateLedger → World → Type 0} {R : Error → World → Type 0} where
    Runs-raise_floor :
        (p : PendingUpdate) (l : UpdateLedger) (w : World)
        → ((r : UpdateLedger) → Raised env config p l r → Q r w)
        → ((e : Error) → R e w)
        → Outcome Q R (raise_floor env p l w)
    unfolding raise_floor
    Runs-raise_floor p l w good bad = Runs-bind _ _ w (
        Runs-lift _ _
          (λ u pu. Runs-bind _ _ _ (
            Runs-lift _ _
              (λ v pv. Runs-pure _ _ (
                good _ (record {
                  candidate = u;
                  floor = v;
                  candidate_parses = pu;
                  floor_parses = pv;
                  raised = refl;
                })))
              (λ e _. bad e)))
          (λ e _. bad e))

    Runs-Raised :
        (healthy : Bool) (p : PendingUpdate) (l : UpdateLedger) (w : World)
        → ((r : UpdateLedger)
            → (healthy ≡ true → Raised env config p l r)
            → (healthy ≡ false → r ≡ l)
            → Q r w)
        → ((e : Error) → R e w)
        → Outcome Q R ((if healthy then raise_floor env p l else pure l) w)
    Runs-Raised true p l w good bad =
        Runs-raise_floor p l w (λ r up. good r (λ _. up) (λ e. cc)) bad
    Runs-Raised false p l w good bad = Runs-pure _ _ (good l (λ e. cc) (λ _. refl))

  finished_step :
      (healthy : Bool) (p : PendingUpdate) (entry : HistoryEntry) (l r : UpdateLedger)
      → l.pending ≡ some p
      → Closes p entry
      → entry.outcome ≡ outcome_name healthy
      → valid_nonce entry.nonce ≡ true
      → (healthy ≡ true → Raised env config p l r)
      → (healthy ≡ false → r ≡ l)
      → LedgerStep env config l (close_ledger config.history_limit entry r)
  finished_step true p entry l r found c o v up keep =
      succeeded p entry r found c o v (up refl) refl
  finished_step false p entry l r found c o v up keep =
      rolled_back p entry found c o v (ap (close_ledger config.history_limit entry) (keep refl))

  pub finish_update-Outcome :
      (nonce : String) (healthy : Bool) (reason : String) (w : World)
      → Outcome
          (λ _ t. LedgerMove env config w t × Finished nonce healthy reason w t)
          (λ _ t. LedgerMove env config w t)
          (finish_update env config nonce healthy reason w)
  unfolding finish_update
  finish_update-Outcome nonce healthy reason w =
      Runs-opened env config nonce _ w
        (λ l m valid reads sound.
          Runs-identified env config l nonce _ _
            (λ p found eq. Runs-bind _ _ _ (
              Runs-unix_now _
                (λ now _.
                  let closes = closes_at now p in
                  Runs-bind _ _ _ (
                    Runs-Raised healthy p l _
                      (λ r up keep. Runs-bind _ _ _ (
                        Runs-write_ledger env config l _ w reads sound
                          (finished_step healthy p (entry_at now p) l r found closes refl
                            (rw eq valid) up keep)
                          (λ u move stored.
                            Runs-Moves clean_mailbox-OnlyMailbox u
                              (λ _ v only. (
                                LedgerMove-OnlyMailbox env config move only,
                                record {
                                  before = l;
                                  transaction = p;
                                  entry = entry_at now p;
                                  closed = r;
                                  reads = reads;
                                  pending = found;
                                  nonce_kept = eq;
                                  closes = closes;
                                  outcome_kept = refl;
                                  reason_kept = refl;
                                  raised = up;
                                  unraised = keep;
                                  stored = ap (held env) only.ledger ∙ stored;
                                },
                              ))
                              (λ _ v only. LedgerMove-OnlyMailbox env config move only))
                          (λ _ u move. move) _))
                      (λ _. same refl)))
                (λ _ _. same refl)))
            (λ _. same refl))
        (λ _ _. same refl)
    where
      entry_at : ℕ → PendingUpdate → HistoryEntry
      entry_at now p = record {
        nonce = p.nonce;
        version = p.version;
        sequence = p.sequence;
        at = now;
        outcome = outcome_name healthy;
        reason = take_chars 1024 reason;
      }

      closes_at : (now : ℕ) (p : PendingUpdate) → Closes p (entry_at now p)
      closes_at now p = record { nonce = refl; version = refl; sequence = refl }
