-- ===== src/Native/Steps.antt =====
-- Proofs about the supervisor's journal and cache of src/native_update.rs: what they do to the
-- ledger file.
use lariska.Prelude.{
  ◌≡◌, refl, String, Bool, true, false, ℕ, none, some, List, [], ◌∷◌, ◌++◌, ◌+◌, length,
}
use lariska.Exec.{ok, err, called, modify}
use lariska.Exec.Moves.{
  IsPreorder, Moves, Moves-bind, Moves-expect, Moves-guard, Moves-modify, moves_rules,
}
use lariska.Update.Types.{
  UpdateConfig, ReleaseManifest, SignedManifest, PendingUpdate, RequestResult, UpdateLedger, Error,
  io_error, clock_before_epoch,
}
use lariska.Update.Host.{Env, World, File, Release, os, unix_now, read_json, atomic_json}
use lariska.Update.Ledger.{
  open_shared, read_ledger, read_ledger_file, check_ledger, commit_pending, arm_health,
  finish_update,
}
use lariska.Update.Verify.{
  read_chunks, verify_not_expired, verify_signature, verify_manifest_inner, verify_manifest,
  verify_artifact, verify_files, verify_files_for_recovery,
}
use lariska.Update.Health.{ack_request, store_result, health_status_for_pending, judge_ack}
use lariska.Update.Transitions.{LedgerMove, same}
use lariska.Update.Commands.{commit, arm, finish, run, run-LedgerMove}

module _ (env : Env) (config : UpdateConfig) {R : World → World → Type 0} (pre : IsPreorder R)
    (step : (w t : World) → LedgerMove env config w t → R w t) where
  -- A change outside the ledger file.
  pub elsewhere : (w t : World) → t.ledger ≡ w.ledger → R w t
  elsewhere w t e = step w t (same e)

  pub os-R : Moves R os
  unfolding os
  os-R = record {
    at = λ w.
        pre.chain w _ _ (elsewhere w (record w { machine = called w.machine }) refl)
          ((Moves-guard pre _ io_error).at _);
  }

  pub modify-R :
      (f : World → World) → ((w : World) → (f w).ledger ≡ w.ledger) → Moves {E = Error} R (modify f)
  modify-R f k = Moves-modify f (λ w. elsewhere w (f w) (k w))

  pub commit_pending-R :
      (manifest : ReleaseManifest) (nonce : String)
      → Moves R (commit_pending env config manifest nonce)
  unfolding run
  commit_pending-R manifest nonce = record {
    at = λ w. step w _ (run-LedgerMove env config (commit manifest nonce) w);
  }

  pub arm_health-R : (nonce : String) → Moves R (arm_health env config nonce)
  unfolding run
  arm_health-R nonce = record { at = λ w. step w _ (run-LedgerMove env config (arm nonce) w) }

  pub finish_update-R :
      (nonce : String) (healthy : Bool) (reason : String)
      → Moves R (finish_update env config nonce healthy reason)
  unfolding run
  finish_update-R nonce healthy reason = record {
    at = λ w. step w _ (run-LedgerMove env config (finish nonce healthy reason) w);
  }

  pub unix_now-R : Moves R unix_now
  unfolding unix_now
  unix_now-R = record {
    at = λ w.
        pre.chain w _ _ (elsewhere w (record w { machine = called w.machine }) refl)
          ((Moves-expect pre (w.machine.clock w.machine.calls) clock_before_epoch).at _);
  }

  pub read_json-R :
      {A : Type 0} (slot : World → File A) (limit : ℕ) → Moves R (read_json slot limit)
  unfolding read_json
  read_json-R slot limit = search (moves_rules, pre, os-R) depth 12

  pub atomic_json-R :
      (f : World → World) → ((w : World) → (f w).ledger ≡ w.ledger) → Moves R (atomic_json f)
  unfolding atomic_json
  atomic_json-R f k = search (moves_rules, pre, os-R, modify-R, k) depth 12

  read_ledger_file-R : (f : File UpdateLedger) → Moves R (read_ledger_file env f)
  unfolding read_ledger_file check_ledger
  read_ledger_file-R none = search (moves_rules, pre)
  read_ledger_file-R (some document) = search (moves_rules, pre, read_json-R) depth 12

  pub read_ledger-R : Moves R (read_ledger env)
  unfolding read_ledger
  read_ledger-R = search (moves_rules, pre, os-R, read_ledger_file-R) depth 12

  open_shared-R : (create : Bool) → Moves R (open_shared create)
  unfolding open_shared
  open_shared-R create = search (moves_rules, pre, os-R, made) depth 12
    where
      made : (w : World) → R w (record w { shared = true })
      made w = elsewhere w _ refl

  -- The checks of a release and of the mailbox read only.
  read_chunks-R :
      (limit : ℕ) (bytes : List ℕ) (count : ℕ) (chunks : List (List ℕ))
      → Moves R (read_chunks limit bytes count chunks)
  unfolding read_chunks
  read_chunks-R limit bytes count [] = search (moves_rules, pre, os-R) depth 12
  read_chunks-R limit bytes count ([] ∷ rest) = search (moves_rules, pre, os-R) depth 12
  read_chunks-R limit bytes count ((b ∷ bs) ∷ rest) = Moves-bind pre _ _ os-R (λ _.
      Moves-bind pre _ _ (Moves-expect pre _ _) (λ _.
        Moves-bind pre _ _ (Moves-guard pre _ _)
          (λ _. read_chunks-R limit (bytes ++ (b ∷ bs)) (count + length (b ∷ bs)) rest)))

  verify_not_expired-R :
      (recovery : Bool) (expires_at : ℕ)
      → Moves R (verify_not_expired env config recovery expires_at)
  unfolding verify_not_expired
  verify_not_expired-R true expires_at = search (moves_rules, pre)
  verify_not_expired-R false expires_at = search (moves_rules, pre, unix_now-R) depth 12

  verify_manifest_inner-R :
      (signed : SignedManifest) (recovery : Bool)
      → Moves R (verify_manifest_inner env config signed recovery)
  unfolding verify_manifest_inner verify_signature
  verify_manifest_inner-R signed recovery = search (moves_rules, pre, verify_not_expired-R) depth 40

  verify_artifact-R :
      (signed : SignedManifest) (release : Release)
      → Moves R (verify_artifact env config signed release)
  unfolding verify_artifact
  verify_artifact-R signed release = search (moves_rules, pre, os-R, read_chunks-R) depth 20

  pub verify_files_for_recovery-R :
      (release : Release) → Moves R (verify_files_for_recovery env config release)
  unfolding verify_files_for_recovery
  verify_files_for_recovery-R release =
      search (moves_rules, pre, read_json-R, verify_manifest_inner-R, verify_artifact-R) depth 20

  pub verify_files-R : (release : Release) → Moves R (verify_files env config release)
  unfolding verify_files verify_manifest
  verify_files-R release =
      search
        (moves_rules, pre, read_json-R, verify_manifest_inner-R, verify_artifact-R, read_ledger-R)
        depth 30

  pub health_status_for_pending-R :
      (pending : PendingUpdate) → Moves R (health_status_for_pending pending)
  unfolding health_status_for_pending judge_ack
  health_status_for_pending-R pending = Moves-bind pre _ _ (search (moves_rules, pre)) (λ _.
      Moves-bind pre _ _ (search (moves_rules, pre, open_shared-R)) (elim [
        | ok _ ↦ Moves-bind pre _ _ (search (moves_rules, pre, read_json-R)) (elim [
          | ok ack ↦ search (moves_rules, pre, unix_now-R) depth 12
          | err e ↦ search (moves_rules, pre)
        ])
        | err e ↦ search (moves_rules, pre)
      ]))

  pub ack_request-R : (nonce outcome : String) → Moves R (ack_request env nonce outcome)
  unfolding ack_request
  ack_request-R nonce outcome =
      search (moves_rules, pre, unix_now-R, open_shared-R, answered) depth 20
    where
      answered : (result : RequestResult) → Moves R (atomic_json (store_result env result))
      answered result = atomic_json-R _ (λ w. refl)
