-- ===== src/Update/Refusals.antt =====
-- Proofs about what the ledger operations of src/update.rs refuse.
use lariska.Prelude.{◌≡◌, ◌≢◌, ◌∙◌, sym, refl, ap, String, Bool, some, arith, some_unique}
use lariska.Exec.Runs.{Outcome, Runs-bind, Runs-guard}
use lariska.Update.Types.{UpdateConfig, ReleaseManifest, PendingUpdate, UpdateLedger}
use lariska.Update.Host.{Env, World}
use lariska.Update.Ledger.{commit_pending, arm_health, finish_update}
use lariska.Update.Steps.{held}
use lariska.Update.Transitions.{Runs-opened, Runs-identified}

module _ (env : Env) (config : UpdateConfig) (nonce : String) (w : World) (l : UpdateLedger)
    (reads : held env w.ledger ≡ some l) where
  -- While a transaction is pending no other begins: `commit_pending` fails, and the ledger file is
  -- what it was.
  pub commit_pending_while_pending :
      (manifest : ReleaseManifest) (p : PendingUpdate)
      → l.pending ≡ some p
      → Outcome (λ _ _. ⊥) (λ _ t. t.ledger ≡ w.ledger) (commit_pending env config manifest nonce w)
  unfolding commit_pending
  commit_pending_while_pending manifest p busy =
      Runs-opened env config nonce _ w
        (λ k m _ r _.
          let e : k ≡ l = some_unique _ r reads in
          Runs-bind _ _ _ (
            Runs-guard _ _ _
              (λ free. absurd (ground (arith, free, ap (λ (x : UpdateLedger). x.pending) e)))
              (λ _. refl)))
        (λ _ _. refl)

  module _ (p : PendingUpdate) (pending : l.pending ≡ some p) (other : p.nonce ≢ nonce) where
    -- A nonce that is not the pending one finishes nothing: `finish_update` fails, and the ledger file
    -- is what it was.
    pub finish_update_other_nonce :
        (healthy : Bool) (reason : String)
        → Outcome
            (λ _ _. ⊥)
            (λ _ t. t.ledger ≡ w.ledger)
            (finish_update env config nonce healthy reason w)
    unfolding finish_update
    finish_update_other_nonce healthy reason =
        Runs-opened env config nonce _ w
          (λ k m _ r _.
            let e : k.pending ≡ l.pending =
              ap (λ (x : UpdateLedger). x.pending) (some_unique _ r reads) in
            Runs-identified env config k nonce _ _
              (λ q found eq. absurd (
                other (
                  ap (λ (x : PendingUpdate). x.nonce) (some_unique _ pending (sym e ∙ found))
                  ∙ eq)))
              (λ _. refl))
          (λ _ _. refl)

    -- Nor does it arm anything.
    pub arm_health_other_nonce :
        Outcome (λ _ _. ⊥) (λ _ t. t.ledger ≡ w.ledger) (arm_health env config nonce w)
    unfolding arm_health
    arm_health_other_nonce =
        Runs-opened env config nonce _ w
          (λ k m _ r _.
            let e : k.pending ≡ l.pending =
              ap (λ (x : UpdateLedger). x.pending) (some_unique _ r reads) in
            Runs-identified env config k nonce _ _
              (λ q found eq. absurd (
                other (
                  ap (λ (x : PendingUpdate). x.nonce) (some_unique _ pending (sym e ∙ found))
                  ∙ eq)))
              (λ _. refl))
          (λ _ _. refl)
