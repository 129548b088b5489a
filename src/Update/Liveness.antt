-- ===== src/Update/Liveness.antt =====
-- Proofs about `health_status_for_pending` of src/update.rs, from the acknowledgement to the answer.
use lariska.Prelude.{
  ℕ, ◌≤◌, ◌≡◌, refl, ap, ◌∙◌, true, false, some, str_eq, eq_iff, some_unique, arith,
}
use lariska.Exec.{Machine, called, ok, err}
use lariska.Exec.Runs.{
  Outcome, Outcome-returns, Runs-pure, Runs-lift, Runs-expect, Runs-guard, Runs-if, Runs-bind,
  Runs-attempt, Runs-imp, Runs-lift_bind, Runs-gets_bind, Runs-expect_bind,
}
use lariska.Update.Types.{PendingUpdate, HealthAck, Error}
use lariska.Update.Steps.{decode-parsed}
use lariska.Update.Host.{World, Document, Done, written, os, unix_now, read_json, decode}
use lariska.Update.Policy.{valid_nonce, validate_nonce}
use lariska.Update.Ledger.{max_manifest_bytes, open_shared}
use lariska.Update.Health.{in_window, judge_ack, shared_ack, health_status_for_pending}

-- No call fails, and the clock shows `now`.
pub record Calm (now : ℕ) (m : Machine) : Type 0 where
  pub no_failure : (n : ℕ) → m.fails n ≡ false
  pub time : (n : ℕ) → m.clock n ≡ some now

module _ {Q : Done → World → Type 0} {R : Error → World → Type 0} where
  Runs-quiet :
      (now : ℕ) (w : World)
      → Calm now w.machine
      → Q tt (record w { machine = called w.machine })
      → Outcome Q R (os w)
  unfolding os
  Runs-quiet now w calm good =
      Runs-guard _ _ _ (λ _. good)
        (λ fails. absurd (ground (arith, fails, calm.no_failure w.machine.calls)))

module _ (now : ℕ) (pending : PendingUpdate) (ack : HealthAck) where
  -- The acknowledgement is of this transaction, in its window, and not from the future.
  pub record InTime : Type 0 where
    pub nonce : ack.nonce ≡ pending.nonce
    pub version : ack.version ≡ pending.version
    pub not_early : pending.started_at ≤ ack.at
    pub not_late : ack.at ≤ pending.deadline
    pub not_future : ack.at ≤ now

  InTime-in_window : InTime → in_window pending ack ≡ true
  InTime-in_window h =
      let a : str_eq ack.nonce pending.nonce ≡ true = (eq_iff _ _).1 h.nonce in
      let b : str_eq ack.version pending.version ≡ true = (eq_iff _ _).1 h.version in
      ground (arith, a, b, h.not_early, h.not_late)

  judge_ack-true :
      (w : World)
      → Calm now w.machine
      → InTime
      → Outcome (λ answer _. answer ≡ true) (λ _ _. ⊥) (judge_ack pending ack w)
  unfolding judge_ack unix_now
  judge_ack-true w calm h =
      Runs-if (in_window pending ack) _ _ w
        (λ _. Runs-bind _ _ w (
          Runs-expect _ _ _
            (λ t shown. Runs-pure _ _ (
              let same : t ≡ now = some_unique _ shown (calm.time w.machine.calls) in
              ground (arith, same, h.not_future)))
            (λ unset. absurd (ground (arith, unset, calm.time w.machine.calls)))))
        (λ out. absurd (ground (arith, out, InTime-in_window h)))

  open_shared-Calm :
      (w : World)
      → w.shared ≡ true
      → Calm now w.machine
      → Outcome (λ _ t. (t.health ≡ w.health) × Calm now t.machine) (λ _ _. ⊥) (open_shared false w)
  unfolding open_shared
  open_shared-Calm w there calm = Runs-bind _ _ w (
      Runs-quiet now w calm (
        Runs-gets_bind _ _ _ (
          Runs-guard _ _ _ (λ _. (refl, record { no_failure = calm.no_failure; time = calm.time }))
            (λ gone. absurd (ground (arith, gone, there))))))

  shared_ack-Calm :
      (size : ℕ) (w : World)
      → w.health ≡ written size ack
      → size ≤ max_manifest_bytes
      → Calm now w.machine
      → Outcome (λ found t. (found ≡ ack) × Calm now t.machine) (λ _ _. ⊥) (shared_ack w)
  unfolding read_json
  shared_ack-Calm size w holds small calm = Runs-bind _ _ w (
      Runs-quiet now w calm (
        Runs-gets_bind _ _ _ (
          Runs-expect_bind _ _ _ _
            (λ d found.
              let there : d ≡ record { regular = true; size = size; parsed = some ack } =
                some_unique _ found holds in
              Runs-bind _ _ _ (
                Runs-quiet now _ (record { no_failure = calm.no_failure; time = calm.time })
                  (Runs-lift _ _
                    (λ a decoded. (
                      named d a there decoded,
                      record { no_failure = calm.no_failure; time = calm.time },
                    ))
                    (λ e bad. absurd (failed d e there bad)))))
            (λ gone. absurd (ground (arith, gone, holds))))))
    where
      named :
          (d : Document HealthAck) (a : HealthAck)
          → d ≡ record { regular = true; size = size; parsed = some ack }
          → decode max_manifest_bytes d ≡ ok a
          → a ≡ ack
      named d a there decoded =
          some_unique _ (decode-parsed max_manifest_bytes d decoded)
            (ap (λ (x : Document HealthAck). x.parsed) there)

      failed :
          (d : Document HealthAck) (e : Error)
          → d ≡ record { regular = true; size = size; parsed = some ack }
          → decode max_manifest_bytes d ≡ err e
          → ⊥
      failed d e there bad =
          let r = ap (λ (x : Document HealthAck). x.regular) there in
          let s = ap (λ (x : Document HealthAck). x.size) there in
          let p = ap (λ (x : Document HealthAck). x.parsed) there in
          ground (arith, bad, r, s, p, small)

  -- If the mailbox is there and holds a record of at most 16 KiB that acknowledges the transaction in
  -- time, no call fails and the clock shows `now`, `health_status_for_pending` answers true.
  pub health_status_for_pending_complete :
      (size : ℕ) (w : World)
      → valid_nonce pending.nonce ≡ true
      → w.shared ≡ true
      → w.health ≡ written size ack
      → size ≤ max_manifest_bytes
      → Calm now w.machine
      → InTime
      → (health_status_for_pending pending w).0 ≡ ok true
  unfolding health_status_for_pending validate_nonce
  health_status_for_pending_complete size w hex there holds small calm h = Outcome-returns _ (
      Runs-lift_bind _ _ w
        (λ _ _. Runs-bind _ _ w (
          Runs-attempt _ w (
            Runs-imp _ (open_shared-Calm w there calm)
              (λ _ t (same, calm_t). Runs-bind _ _ t (
                Runs-attempt _ t (
                  Runs-imp _ (shared_ack-Calm size t (same ∙ holds) small calm_t)
                    (λ found u (is_ack, calm_u). rw is_ack (judge_ack-true u calm_u h))
                    (λ _ _ never. absurd never))))
              (λ _ _ never. absurd never))))
        (λ e bad. absurd (ground (arith, hex, bad))))
