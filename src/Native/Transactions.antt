-- ===== src/Native/Transactions.antt =====
-- Proofs about the supervisor's transactions of src/native_update.rs: what they do to the ledger file.
use lariska.Prelude.{refl, ℕ, String, Bool, Option, ◌∷◌}
use lariska.Exec.{ok, err}
use lariska.Exec.Moves.{
  IsPreorder, Moves, Moves-bind, Moves-attempt, Moves-if, Moves-pure, Moves-guard, moves_rules,
}
use lariska.Update.Types.{UpdateConfig, ReleaseManifest}
use lariska.Update.Host.{
  Env, World, File, Journal, Release, Pending, CachedRelease, NativeCall, installed, restarted, os,
  unix_now,
}
use lariska.Update.Ledger.{commit_pending, arm_health, finish_update}
use lariska.Update.Verify.{verify_files, verify_files_for_recovery}
use lariska.Update.Transitions.{LedgerMove}
use lariska.Native.Journal.{set_pending, set_active, read_journal, read_journal_file, check_journal}
use lariska.Native.Supervisor.{
  now_or_zero, install, restart, rollback_with, refuse_failed, reserve, install_and_restart,
  install_pending, accept_request_with, set_started_at,
}
use lariska.Native.Steps.{
  elsewhere, unix_now-R, verify_files-R, verify_files_for_recovery-R, ack_request-R,
  commit_pending-R, arm_health-R, finish_update-R,
}
use lariska.Native.Ledger.{
  os_lem, read_ledger_lem, save_journal-R, set_pending-R, set_active-R, remember_consumed_nonce-R,
  cleaned_on_error-R, copy_request-R, prune_cache-R,
}

module _ (env : Env) (config : UpdateConfig) (native_signed : ReleaseManifest → Release → Bool)
    {R : World → World → Type 0} (pre : IsPreorder R)
    (step : (w t : World) → LedgerMove env config w t → R w t) where
  pub calls : Moves R os
  calls = os_lem env config pre step

  pub now_or_zero-R : Moves R now_or_zero
  unfolding now_or_zero
  now_or_zero-R =
      Moves-bind pre _ _ (Moves-attempt pre _ (unix_now-R env config pre step))
        (elim [ ok t ↦ search (moves_rules, pre) | err e ↦ search (moves_rules, pre) ])

  install-R : (manifest : ReleaseManifest) → Moves R (install manifest)
  unfolding install
  install-R manifest = search (moves_rules, pre, calls, told) depth 12
    where
      told : (w : World) → R w (record w { native = installed manifest ∷ w.native })
      told w = elsewhere env config pre step w _ refl

  restart-R : Moves R restart
  unfolding restart
  restart-R = search (moves_rules, pre, calls, told) depth 12
    where
      told : (w : World) → R w (record w { native = restarted ∷ w.native })
      told w = elsewhere env config pre step w _ refl

  pub saved : Moves R (lariska.Native.Journal.save_journal env)
  saved = save_journal-R env config pre step

  pub pruned : Moves R lariska.Native.Cache.prune_cache
  pruned = prune_cache-R env config pre step

  pub put_pending : (pending : Option Pending) (w : World) → R w (set_pending pending w)
  put_pending = set_pending-R env config pre step

  pub put_active :
      (active : Option CachedRelease) (w : World) → R w (lariska.Native.Journal.set_active active w)
  put_active = set_active-R env config pre step

  pub remembered :
      (nonce version : String) (sequence : ℕ)
      → Moves R (lariska.Native.Journal.remember_consumed_nonce env config nonce version sequence)
  remembered = remember_consumed_nonce-R env config pre step

  pub finished :
      (nonce : String) (healthy : Bool) (reason : String)
      → Moves R (finish_update env config nonce healthy reason)
  finished = finish_update-R env config pre step

  recovered : (release : Release) → Moves R (verify_files_for_recovery env config release)
  recovered = verify_files_for_recovery-R env config pre step

  pub rollback_with-R : (reason : String) → Moves R (rollback_with env config native_signed reason)
  unfolding rollback_with
  rollback_with-R reason =
      search
        (moves_rules, pre, recovered, install-R, restart-R, finished, put_pending, saved, pruned)
        depth 40

  refuse_failed-R :
      (manifest : ReleaseManifest) → Moves R (refuse_failed env config native_signed manifest)
  unfolding refuse_failed
  refuse_failed-R manifest =
      Moves-if pre _ _ _ (Moves-pure pre _)
        (Moves-bind pre _ _ (read_ledger_lem env config pre step) (λ _. Moves-guard pre _ _))

  reserve-R :
      (nonce : String) (previous : CachedRelease) (release : Release)
      → Moves R (reserve env config native_signed nonce previous release)
  unfolding reserve
  reserve-R nonce previous release =
      search
        (
          moves_rules, pre, verified, refuse_failed-R, remembered, began, now_or_zero-R,
          put_pending, saved,
        )
        depth 40
    where
      verified : (release : Release) → Moves R (verify_files env config release)
      verified = verify_files-R env config pre step

      began :
          (manifest : ReleaseManifest) (nonce : String)
          → Moves R (commit_pending env config manifest nonce)
      began = commit_pending-R env config pre step

  install_and_restart-R :
      (nonce : String) (manifest : ReleaseManifest)
      → Moves R (install_and_restart env config native_signed nonce manifest)
  unfolding install_and_restart
  install_and_restart-R nonce manifest =
      search (moves_rules, pre, install-R, armed, started, saved, restart-R) depth 20
    where
      armed : (nonce : String) → Moves R (arm_health env config nonce)
      armed = arm_health-R env config pre step

      started :
          (t : ℕ) (w : World)
          → R w (set_pending (set_started_at env config native_signed t w.working.pending) w)
      started t w = put_pending _ w

  install_pending-R :
      (nonce : String) (manifest : ReleaseManifest)
      → Moves R (install_pending env config native_signed nonce manifest)
  unfolding install_pending
  install_pending-R nonce manifest =
      Moves-bind pre _ _ (ack_request-R env config pre step nonce "accepted") (λ _.
        Moves-bind pre _ _ (Moves-attempt pre _ (install_and_restart-R nonce manifest)) (elim [
          | ok _ ↦ search (moves_rules, pre)
          | err e ↦ search (moves_rules, pre, rollback_with-R) depth 12
        ]))

  pub accept_request_with-R :
      (nonce : String) (request : Release)
      → Moves R (accept_request_with env config native_signed nonce request)
  unfolding accept_request_with
  accept_request_with-R nonce request =
      search (moves_rules, pre, recovered, copied, cleaned, reserve-R, install_pending-R) depth 40
    where
      copied :
          (release : Release) (dest : String) (max_bytes : ℕ)
          → Moves R (lariska.Native.Cache.copy_request release dest max_bytes)
      copied = copy_request-R env config pre step

      cleaned :
          {A : Type 0} (name : String) (steps : lariska.Update.Host.Action A)
          → Moves R steps
          → Moves R (lariska.Native.Cache.cleaned_on_error name steps)
      cleaned = cleaned_on_error-R env config pre step
