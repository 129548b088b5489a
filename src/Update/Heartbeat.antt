-- ===== src/Update/Heartbeat.antt =====
-- Proofs about `health_status_for_pending` of src/update.rs, from the answer to the acknowledgement.
use lariska.Prelude.{◌≤◌, ◌≡◌, refl, true, some, eq_iff, arith}
use lariska.Exec.{ok}
use lariska.Exec.Runs.{
  Outcome, Outcome-ok, Runs-pure, Runs-if, Runs-bind, Runs-lift_bind, Runs-attempt,
}
use lariska.Update.Types.{PendingUpdate, HealthAck}
use lariska.Update.Host.{World, Document}
use lariska.Update.Health.{in_window, judge_ack, health_status_for_pending}
use lariska.Update.Steps.{Runs-unix_now, Runs-read_json, Runs-open_existing, decode-parsed}

-- The endpoint of the pending version acknowledged the pending transaction within its window.
pub record Acknowledged (pending : PendingUpdate) (w : World) : Type 0 where
  pub ack : HealthAck
  pub document : Document HealthAck
  pub in_mailbox : w.health ≡ some document
  pub reads : document.parsed ≡ some ack
  pub nonce : ack.nonce ≡ pending.nonce
  pub version : ack.version ≡ pending.version
  pub not_early : pending.started_at ≤ ack.at
  pub not_late : ack.at ≤ pending.deadline

in_window-Acknowledged :
    (pending : PendingUpdate) (ack : HealthAck) (w : World) (d : Document HealthAck)
    → w.health ≡ some d
    → d.parsed ≡ some ack
    → in_window pending ack ≡ true
    → Acknowledged pending w
in_window-Acknowledged pending ack w d at reads h = record {
  ack = ack;
  document = d;
  in_mailbox = at;
  reads = reads;
  nonce = (eq_iff _ _).0 (ground (arith, h));
  version = (eq_iff _ _).0 (ground (arith, h));
  not_early = ground (arith, h);
  not_late = ground (arith, h);
}

health_status_for_pending-Outcome :
    (pending : PendingUpdate) (w : World)
    → Outcome
        (λ yes_no _. yes_no ≡ true → Acknowledged pending w)
        (λ _ _. Unit {0})
        (health_status_for_pending pending w)
unfolding health_status_for_pending judge_ack
health_status_for_pending-Outcome pending w =
    Runs-lift_bind _ _ w
      (λ _ _. Runs-bind _ _ _ (
        Runs-attempt _ _ (
          Runs-open_existing _
            (λ m. Runs-bind _ _ _ (
              Runs-attempt _ _ (
                Runs-read_json _ _ _
                  (λ ack d k n found p.
                    Runs-if _ _ _ _
                      (λ hit. Runs-bind _ _ _ (
                        Runs-unix_now _
                          (λ now o. Runs-pure _ _ (λ _.
                            in_window-Acknowledged pending ack w d found (decode-parsed _ d p) hit))
                          (λ _ _. tt)))
                      (λ _. Runs-pure _ _ (λ e. cc)))
                  (λ _ _. Runs-pure _ _ (λ e. cc)))))
            (λ _ _. Runs-pure _ _ (λ e. cc)))))
      (λ _ _. tt)

-- If `health_status_for_pending` answers true, the mailbox holds an acknowledgement with the nonce
-- and the version of the transaction it was given, made no earlier than the start of that
-- transaction and no later than its deadline.
pub health_status_for_pending_sound :
    (pending : PendingUpdate) (w : World) {t : World}
    → health_status_for_pending pending w ≡ (ok true, t)
    → Acknowledged pending w
health_status_for_pending_sound pending w h =
    Outcome-ok _ h (health_status_for_pending-Outcome pending w) refl
