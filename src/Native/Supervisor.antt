-- ===== src/Native/Supervisor.antt =====
-- The transactions of src/native_update.rs: `accept_request_with`, `recover_or_ack_with` and
-- `rollback_with`.
use lariska.Prelude.{
  ℕ, String, Bool, true, false, not, ◌&&◌, Option, none, some, ◌∷◌, leb, ◌==◌, str_eq,
  if◌then◌else◌, any, last, append_text,
}
use lariska.Exec.{ok, err, pure, raise, gets, attempt, modify, guard, expect, ◌>>=◌, ◌>>◌}
use lariska.Update.Types.{
  UpdateConfig, ReleaseManifest, PendingUpdate, HistoryEntry, UpdateLedger, bad_request_nonce,
  nonce_consumed, not_seeded, same_version, already_rolled_back, bad_native_signature,
  no_pending_to_roll_back, no_previous_package, identities_disagree, completed_nonce_disagrees,
  journal_disagrees, io_error,
}
use lariska.Update.Host.{
  Env, Release, Action, Done, CachedRelease, Pending, installed, restarted, os, unix_now,
}
use lariska.Update.Policy.{valid_nonce}
use lariska.Update.Ledger.{read_ledger, commit_pending, arm_health, finish_update}
use lariska.Update.Verify.{text_is, verify_files, verify_files_for_recovery}
use lariska.Update.Health.{ack_request, health_status_for_pending}
use lariska.Native.Journal.{
  set_pending, set_active, receipt, read_journal, save_journal, remember_consumed_nonce,
  remember_consumed_request,
}
use lariska.Native.Cache.{in_cache, is_present, copy_request, cleaned_on_error, prune_cache}

-- `now` of the supervisor: a clock before 1970 counts as 0.
unfoldable pub now_or_zero : Action ℕ
now_or_zero = do read ← attempt unix_now; elim read [ err _ ↦ pure 0 | ok t ↦ pure t ]

-- The package manager and the service manager. What was told to them stays told if they fail.
unfoldable pub install : ReleaseManifest → Action Done
install manifest = do modify (λ w. record w { native = installed manifest ∷ w.native }); os

unfoldable pub restart : Action Done
restart = do modify (λ w. record w { native = restarted ∷ w.native }); os

-- A release that failed its health window, at that version and sequence.
abbrev pub failed_before : ReleaseManifest → HistoryEntry → Bool
failed_before manifest r =
    str_eq r.outcome "rolled_back"
    && not (str_eq r.reason "interrupted_before_install")
    && str_eq r.version manifest.version
    && (r.sequence == manifest.sequence)

-- `NativeOperations::verify_signature` is a parameter.
module _ (env : Env) (config : UpdateConfig)
    (native_signed : ReleaseManifest → Release → Bool) where
  open env use {show_error}

  unfoldable pub rollback_with : String → Action Done
  rollback_with reason = do
    journal ← gets (λ w. w.working)
    pending ← expect journal.pending no_pending_to_roll_back
    previous ← expect journal.active no_previous_package
    found ← gets (λ w. in_cache previous.directory w.cache)
    release ← expect found io_error
    manifest ← verify_files_for_recovery env config release
    guard (native_signed manifest release) bad_native_signature
    install manifest
    restart
    finish_update env config pending.nonce false reason
    modify (set_pending none)
    save_journal env
    prune_cache

  -- A release that was rolled back is refused, unless the administrator authorised it.
  unfoldable pub refuse_failed : ReleaseManifest → Action Done
  refuse_failed manifest =
      if text_is manifest.version config.emergency_version then pure tt else (do
        ledger ← read_ledger env
        guard (not (any (failed_before manifest) ledger.history)) already_rolled_back)

  -- From the private copy to the journal of the transaction. Nothing is installed yet.
  unfoldable pub reserve : String → CachedRelease → Release → Action ReleaseManifest
  reserve nonce previous release = do
    manifest ← verify_files env config release
    guard (not (str_eq manifest.version previous.manifest.version)) same_version
    refuse_failed manifest
    guard (native_signed manifest release) bad_native_signature
    remember_consumed_request env config nonce manifest
    commit_pending env config manifest nonce
    now ← now_or_zero
    modify (
        set_pending (
          some (record {
            release = record { manifest = manifest; directory = nonce };
            nonce = nonce;
            started_at = now;
          })))
    save_journal env
    pure manifest

  abbrev pub set_started_at : ℕ → Option Pending → Option Pending
  set_started_at t none = none
  set_started_at t (some p) = some (record p { started_at = t })

  unfoldable pub install_and_restart : String → ReleaseManifest → Action Done
  install_and_restart nonce manifest = do
    install manifest
    armed ← arm_health env config nonce
    modify (λ w. set_pending (set_started_at armed.started_at w.working.pending) w)
    save_journal env
    restart

  -- The pending release is installed. If that fails, the previous one is installed again.
  unfoldable pub install_pending : String → ReleaseManifest → Action Done
  install_pending nonce manifest = do
    ack_request env nonce "accepted"
    outcome ← attempt (install_and_restart nonce manifest)
    elim outcome [
      | ok _ ↦ pure tt
      | err e ↦ do rollback_with (append_text "native_install_failed: " (show_error e)); raise e
    ]

  -- `request` is the endpoint's ready directory of that name.
  unfoldable pub accept_request_with : String → Release → Action Done
  accept_request_with nonce request = do
    guard (valid_nonce nonce) bad_request_nonce
    journal ← gets (λ w. w.working)
    guard (not (is_present (receipt nonce journal.consumed))) nonce_consumed
    previous ← expect journal.active not_seeded
    found ← gets (λ w. in_cache previous.directory w.cache)
    seeded ← expect found io_error
    recovered ← verify_files_for_recovery env config seeded
    copy_request request nonce config.max_download_bytes
    manifest ← cleaned_on_error nonce (do
      copied ← gets (λ w. in_cache nonce w.cache)
      release ← expect copied io_error
      reserve nonce previous release)
    install_pending nonce manifest

  -- The journal names a transaction that the ledger no longer has: its record must be the last.
  unfoldable pub finish_completed : Pending → HistoryEntry → Action Done
  finish_completed pending last = do
    let manifest = pending.release.manifest
    guard (str_eq last.version manifest.version && (last.sequence == manifest.sequence))
        journal_disagrees
    guard (str_eq last.nonce pending.nonce) completed_nonce_disagrees
    remember_consumed_request env config pending.nonce manifest
    modify (if str_eq last.outcome "healthy" then set_active (some pending.release) else λ w. w)
    modify (set_pending none)
    save_journal env
    prune_cache

  unfoldable pub finish_healthy : Pending → Action Done
  finish_healthy pending = do
    finish_update env config pending.nonce true "healthy_heartbeat"
    modify (set_active (some pending.release))
    modify (set_pending none)
    save_journal env
    prune_cache

  unfoldable pub roll_back_late : PendingUpdate → Action Done
  roll_back_late authoritative = do
    now ← now_or_zero
    if leb authoritative.deadline now then rollback_with "healthy_heartbeat_timeout" else pure tt

  -- Both files name a transaction. The ledger's is authoritative.
  unfoldable pub decide_pending : Pending → PendingUpdate → Action Done
  decide_pending pending authoritative = do
    let manifest = pending.release.manifest
    guard
        (str_eq authoritative.nonce pending.nonce
          && str_eq authoritative.version manifest.version
          && (authoritative.sequence == manifest.sequence))
        identities_disagree
    remember_consumed_request env config pending.nonce manifest
    answer ← attempt (health_status_for_pending authoritative)
    elim answer [
      | ok true ↦ finish_healthy pending
      | ok false ↦ roll_back_late authoritative
      | err _ ↦ roll_back_late authoritative
    ]

  -- The ledger was written and the journal was not: no package manager has run.
  unfoldable pub close_interrupted : Option PendingUpdate → Action Done
  close_interrupted none = pure tt
  close_interrupted (some interrupted) = do
    remember_consumed_nonce env config interrupted.nonce interrupted.version interrupted.sequence
    finish_update env config interrupted.nonce false "interrupted_before_install"

  unfoldable pub recover_known : Pending → UpdateLedger → Option PendingUpdate → Action Done
  recover_known pending ledger (some authoritative) = decide_pending pending authoritative
  recover_known pending ledger none = do
    entry ← expect (last ledger.history) journal_disagrees
    finish_completed pending entry

  unfoldable pub recover_or_ack_with : Action Done
  recover_or_ack_with = do
    ledger ← read_ledger env
    journal ← gets (λ w. w.working)
    elim journal.pending [
      | none ↦ close_interrupted ledger.pending
      | some pending ↦ recover_known pending ledger ledger.pending
    ]

  -- One turn of the loop of `supervise`, up to the requests.
  unfoldable pub begin_turn : Action Done
  begin_turn = do
    journal ← read_journal env
    modify (λ w. record w { working = journal })
    recover_or_ack_with
    prune_cache

  -- One request of the turn. A refusal is acknowledged, and an error of that is ignored.
  unfoldable pub consider : String → Release → Action Done
  consider nonce request = do
    journal ← gets (λ w. w.working)
    if is_present journal.pending then pure tt else (do
      outcome ← attempt (accept_request_with nonce request)
      elim outcome [
        | ok _ ↦ pure tt
        | err _ ↦ do refused ← attempt (ack_request env nonce "refused"); pure tt
      ])
