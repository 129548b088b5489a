-- ===== src/Native/Remember.antt =====
-- Proofs about `remember_consumed_nonce` of src/native_update.rs.
use mathlib.Core.List.{Memᴰ}
use mathlib.Core.List.Memᴰ
use lariska.Prelude.{
  ℕ, ◌≤◌, ◌≡◌, refl, String, true, Option, none, some, List, [], ◌∷◌, ◌++◌, length, length-append,
  ltb, eq_iff, arith,
}
use lariska.Exec.{ok, Machine}
use lariska.Exec.Runs.{
  Outcome, Outcome-both, Outcome-split, Runs-guard, Runs-bind, Runs-gets_bind, Runs-guard_bind,
  Runs-lift_bind, Runs-modify_bind, Runs-imp,
}
use lariska.Update.Types.{UpdateConfig, UpdateLedger}
use lariska.Update.Host.{Env, World, ConsumedRequest}
use lariska.Update.Steps.{held, after_calls}
use lariska.Update.Trust.{find_sound}
use lariska.Native.Journal.{
  max_requests, set_consumed, receipt, add_receipt, remember_unless_known, remember_consumed_nonce,
}
use lariska.Native.Receipts.{KeepsReplayable, Runs-save_journal, Runs-prune_consumed}

module _ (env : Env) (config : UpdateConfig) where
  -- What a run did to the receipts in memory.
  pub record Kept (w t : World) : Type 0 where
    replayable : KeepsReplayable env w t.working.consumed
    bounded : length w.working.consumed ≤ max_requests → length t.working.consumed ≤ max_requests

  pub record Recorded (r : ConsumedRequest) (t : World) : Type 0 where
    found : ConsumedRequest
    member : Memᴰ found t.working.consumed
    nonce : found.nonce ≡ r.nonce
    version : found.version ≡ r.version
    sequence : found.sequence ≡ r.sequence

  Kept-same : (w t : World) → t.working ≡ w.working → Kept w t
  Kept-same w t e = record { replayable = λ _ _ _ _ _ _ _ m _. rw e m; bounded = λ h. rw e h }

  add_receipt-Outcome :
      (r : ConsumedRequest) (w : World) (kept : List ConsumedRequest) (m : Machine)
      → KeepsReplayable env w kept
      → length kept ≤ length w.working.consumed
      → Outcome
          (λ _ t. Kept w t × Recorded r t)
          (λ _ t. Kept w t)
          (add_receipt env r (set_consumed kept (after_calls w m)))
  unfolding add_receipt
  add_receipt-Outcome r w kept m keeps short = Runs-gets_bind _ _ _ (
      Runs-guard_bind _ _ _ _
        (λ few. Runs-modify_bind _ _ _ (
          Runs-save_journal env _
            (λ t e. (
              longer few t e,
              record {
                found = r;
                member = rw e (Memᴰ.append_right kept (Memᴰ.head refl));
                nonce = refl;
                version = refl;
                sequence = refl;
              },
            ))
            (λ _ t e. longer few t e)))
        (λ _. record { replayable = keeps; bounded = λ h. omega (arith, h, short) }))
    where
      longer :
          ltb (length kept) max_requests ≡ true
          → (t : World) → t.working ≡ record w.working { consumed = kept ++ r ∷ [] }
          → Kept w t
      longer few t e = record {
        replayable =
            λ l f u x a b c d h. rw e (Memᴰ.append_left (r ∷ []) (keeps l f u x a b c d h));
        bounded = λ _. rw e (ground (arith, few, length-append kept (r ∷ [])));
      }

  remember_unless_known-Outcome :
      (r : ConsumedRequest) (w : World) (known : Option ConsumedRequest)
      → receipt r.nonce w.working.consumed ≡ known
      → Outcome
          (λ _ t. Kept w t × Recorded r t)
          (λ _ t. Kept w t)
          (remember_unless_known env config r known w)
  unfolding remember_unless_known
  remember_unless_known-Outcome r w (some previous) h =
      let hit = find_sound _ w.working.consumed h in
      Runs-guard _ _ w
        (λ same. (
          Kept-same w w refl,
          record {
            found = previous;
            member = hit.0;
            nonce = (eq_iff _ _).0 hit.1;
            version = (eq_iff _ _).0 (ground (arith, same));
            sequence = ground (arith, same);
          },
        ))
        (λ _. Kept-same w w refl)
  remember_unless_known-Outcome r w none h = Runs-bind _ _ w (
      Runs-prune_consumed env config.emergency_version w
        (λ kept m keeps short. add_receipt-Outcome r w kept m keeps short)
        (λ _ m. Kept-same w _ refl))

  pub remember_consumed_nonce-Outcome :
      (nonce version : String) (sequence : ℕ) (w : World)
      → Outcome
          (λ _ t.
            Kept w t
            × Recorded (record { nonce = nonce; version = version; sequence = sequence }) t)
          (λ _ t. Kept w t)
          (remember_consumed_nonce env config nonce version sequence w)
  unfolding remember_consumed_nonce
  remember_consumed_nonce-Outcome nonce version sequence w =
      Runs-guard_bind _ _ _ w
        (λ _.
          Runs-lift_bind _ _ w
            (λ _ _. Runs-gets_bind _ _ w (remember_unless_known-Outcome _ w _ refl))
            (λ _ _. Kept-same w w refl))
        (λ _. Kept-same w w refl)

  remember_consumed_nonce-Kept :
      (nonce version : String) (sequence : ℕ) (w : World)
      → Kept w (remember_consumed_nonce env config nonce version sequence w).1
  remember_consumed_nonce-Kept nonce version sequence w = Outcome-both _ (
      Runs-imp _ (remember_consumed_nonce-Outcome nonce version sequence w) (λ _ _ h. h.0)
        (λ _ _ h. h))

  -- If `remember_consumed_nonce` returns, the journal in memory has a receipt of that nonce,
  -- version and sequence.
  pub remember_consumed_nonce_records :
      (nonce version : String) (sequence : ℕ) (w : World)
      → (remember_consumed_nonce env config nonce version sequence w).0 ≡ ok tt
      → (r : ConsumedRequest) × Memᴰ r
          (remember_consumed_nonce env config nonce version sequence w).1.working.consumed
        × (r.nonce ≡ nonce)
        × (r.version ≡ version)
        × (r.sequence ≡ sequence)
  remember_consumed_nonce_records nonce version sequence w done =
      let h =
        ((Outcome-split _ (remember_consumed_nonce-Outcome nonce version sequence w)).0 tt
          done).1 in
      (h.found, h.member, h.nonce, h.version, h.sequence)

  -- If the JSON of the ledger file is a ledger, a receipt whose version and sequence are not below
  -- its floor is not forgotten, whether `remember_consumed_nonce` returns or fails.
  pub remember_consumed_nonce_keeps :
      (nonce version : String) (sequence : ℕ) (w : World) (l : UpdateLedger) (f u : Env.Version env)
      (r : ConsumedRequest)
      → held env w.ledger ≡ some l
      → env.parse l.floor_version ≡ some f
      → env.parse r.version ≡ some u
      → env.version_le f u ≡ true
      → l.floor_sequence ≤ r.sequence
      → Memᴰ r w.working.consumed
      → Memᴰ r (remember_consumed_nonce env config nonce version sequence w).1.working.consumed
  remember_consumed_nonce_keeps nonce version sequence w l f u r reads pf pu above later m =
      (remember_consumed_nonce-Kept nonce version sequence w).replayable l f u r reads pf pu m
        (ground (arith, above, later))

  -- There are never more than 200 receipts in memory, if there were not before.
  pub remember_consumed_nonce_bounded :
      (nonce version : String) (sequence : ℕ) (w : World)
      → length w.working.consumed ≤ max_requests
      → length (remember_consumed_nonce env config nonce version sequence w).1.working.consumed
        ≤ max_requests
  remember_consumed_nonce_bounded nonce version sequence w h =
      (remember_consumed_nonce-Kept nonce version sequence w).bounded h
