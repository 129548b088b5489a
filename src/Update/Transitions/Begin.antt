-- ===== src/Update/Transitions/Begin.antt =====
-- Proofs about `commit_pending` and `arm_health` as steps of the ledger.
use lariska.Prelude.{◌≡◌, refl, ap, ◌∙◌, String, true, Option, none, some, arith}
use lariska.Exec.Runs.{Outcome, Runs-pure, Runs-expect, Runs-guard, Runs-bind, Runs-Moves}
use lariska.Update.Types.{UpdateConfig, ReleaseManifest, PendingUpdate, UpdateLedger}
use lariska.Update.Host.{Env, World, is_none}
use lariska.Update.Ledger.{commit_pending, arm_health}
use lariska.Update.Steps.{held, Runs-os, Runs-unix_now}
use lariska.Update.Mailbox.{publish_pending_health-OnlyMailbox}
use lariska.Update.Transitions.{
  Window, begun, armed, LedgerMove, same, LedgerMove-OnlyMailbox, checked_add_sound,
  Runs-write_ledger, Runs-opened, Runs-identified,
}

is_none_sound {ℓ} : {A : Type ℓ} (o : Option A) → is_none o ≡ true → o ≡ none
is_none_sound o h = ground arith

module _ (env : Env) (config : UpdateConfig) where
  -- A transaction of `nonce` for the manifest was added to a ledger that had none.
  pub record Began (manifest : ReleaseManifest) (nonce : String) (w t : World) : Type 0 where
    pub before : UpdateLedger
    pub transaction : PendingUpdate
    pub reads : held env w.ledger ≡ some before
    pub free : before.pending ≡ none
    pub nonce_kept : transaction.nonce ≡ nonce
    pub version_kept : transaction.version ≡ manifest.version
    pub sequence_kept : transaction.sequence ≡ manifest.sequence
    pub stored : held env t.ledger ≡ some (record before { pending = some transaction })

  pub commit_pending-Outcome :
      (manifest : ReleaseManifest) (nonce : String) (w : World)
      → Outcome
          (λ _ t. LedgerMove env config w t × Began manifest nonce w t)
          (λ _ t. LedgerMove env config w t)
          (commit_pending env config manifest nonce w)
  unfolding commit_pending
  commit_pending-Outcome manifest nonce w =
      Runs-opened env config nonce _ w
        (λ l m valid reads sound. Runs-bind _ _ _ (
          Runs-guard _ _ _
            (λ free. Runs-bind _ _ _ (
              Runs-unix_now _
                (λ t _. Runs-bind _ _ _ (
                  Runs-expect _ _ _
                    (λ d sum. Runs-bind _ _ _ (
                      Runs-os _
                        (λ n. Runs-bind _ _ _ (
                          Runs-write_ledger env config l _ w reads sound
                            (begun _ (is_none_sound _ free) valid
                              (record {
                                length_set = (checked_add_sound env config _ _ sum).0;
                                no_overflow = (checked_add_sound env config _ _ sum).1;
                              })
                              refl)
                            (λ u move stored.
                              Runs-Moves (publish_pending_health-OnlyMailbox env _) u
                                (λ _ v only. (
                                  LedgerMove-OnlyMailbox env config move only,
                                  record {
                                    before = l;
                                    transaction = _;
                                    reads = reads;
                                    free = is_none_sound _ free;
                                    nonce_kept = refl;
                                    version_kept = refl;
                                    sequence_kept = refl;
                                    stored = ap (held env) only.ledger ∙ stored;
                                  },
                                ))
                                (λ _ v only. LedgerMove-OnlyMailbox env config move only))
                            (λ _ u move. move) n))
                        (λ _ _. same refl)))
                    (λ _. same refl)))
                (λ _ _. same refl)))
            (λ _. same refl)))
        (λ _ _. same refl)

  -- The pending transaction has a new window, and is otherwise what it was.
  pub record Armed (nonce : String) (w : World) (q : PendingUpdate) (t : World) : Type 0 where
    pub before : UpdateLedger
    pub transaction : PendingUpdate
    pub reads : held env w.ledger ≡ some before
    pub pending : before.pending ≡ some transaction
    pub nonce_kept : q.nonce ≡ nonce
    pub version_kept : q.version ≡ transaction.version
    pub sequence_kept : q.sequence ≡ transaction.sequence
    pub window : Window config q
    pub stored : held env t.ledger ≡ some (record before { pending = some q })

  pub arm_health-Outcome :
      (nonce : String) (w : World)
      → Outcome
          (λ q t. LedgerMove env config w t × Armed nonce w q t)
          (λ _ t. LedgerMove env config w t)
          (arm_health env config nonce w)
  unfolding arm_health
  arm_health-Outcome nonce w =
      Runs-opened env config nonce _ w
        (λ l m valid reads sound.
          Runs-identified env config l nonce _ _
            (λ p found eq. Runs-bind _ _ _ (
              Runs-unix_now _
                (λ t _. Runs-bind _ _ _ (
                  Runs-expect _ _ _
                    (λ d sum.
                      let window : Window config (record p { started_at = t; deadline = d }) =
                        record {
                          length_set = (checked_add_sound env config _ _ sum).0;
                          no_overflow = (checked_add_sound env config _ _ sum).1;
                        } in
                      Runs-bind _ _ _ (
                        Runs-write_ledger env config l _ w reads sound
                          (armed p _ found refl refl refl window refl)
                          (λ u move stored. Runs-bind _ _ _ (
                            Runs-Moves (publish_pending_health-OnlyMailbox env _) u
                              (λ _ v only. Runs-pure _ _ (
                                LedgerMove-OnlyMailbox env config move only,
                                record {
                                  before = l;
                                  transaction = p;
                                  reads = reads;
                                  pending = found;
                                  nonce_kept = eq;
                                  version_kept = refl;
                                  sequence_kept = refl;
                                  window = window;
                                  stored = ap (held env) only.ledger ∙ stored;
                                },
                              ))
                              (λ _ v only. LedgerMove-OnlyMailbox env config move only)))
                          (λ _ u move. move) _))
                    (λ _. same refl)))
                (λ _ _. same refl)))
            (λ _. same refl))
        (λ _ _. same refl)
