-- ===== src/Native/Examples.antt =====
-- A whole update on the fixtures, and the theorems on the supervisor at concrete runs.
use mathlib.Core.List.{Memᴰ}
use lariska.Prelude.{inl, ℕ, ◌≡◌, ◌≤◌, refl, Bool, true, some, List, [], ◌∷◌, length, leb, arith}
use lariska.Exec.{ok, pure, raise, lift, expect, gets, attempt, modify, guard, ◌>>=◌}
use lariska.Exec.Runs.{Outcome}
use lariska.Update.Types.{matches_os, ReleaseManifest, UpdateLedger}
use lariska.Update.Host.{
  World, Release, ConsumedRequest, installed, restarted, written, os, unix_now, read_json,
  atomic_json,
}
use lariska.Update.Policy.{
  valid_nonce, validate_nonce, parse_version, validate, validate_keys, validate_emergency,
  validate_state_dir, validate_thumbprint, validate_team_id, validate_signer_pin, safe_id,
  decode_hex, encode_hex,
}
use lariska.Update.Ledger.{
  open_shared, remove_shared, clean_mailbox, default_ledger, check_ledger, read_ledger_file,
  read_ledger, write_ledger, publish_pending_health, commit_pending, arm_health, raise_floor,
  finish_update,
}
use lariska.Update.Steps.{held, default_ledger-IsSound}
use lariska.Update.Verify.{
  read_chunks, verify_not_expired, verify_signature, verify_manifest_inner, verify_manifest,
  verify_artifact, verify_files, verify_files_for_recovery,
}
use lariska.Update.Health.{ack_request, judge_ack, health_status_for_pending}
use lariska.Update.History.{ReadsSound}
use lariska.Update.Fixtures.{
  test_env, signing_policy, new_host, signed_6, directory_6, nonce_a, nonce_b,
}
use lariska.Native.Journal.{
  default_journal, max_requests, read_journal, read_journal_file, check_journal, check_consumed,
  write_journal, save_journal, replayable, prune_consumed, add_receipt, remember_unless_known,
  remember_consumed_nonce,
}
use lariska.Native.Cache.{
  remove_directory, copy_manifest, copy_artifact, copy_files, cleaned_on_error, copy_request,
  prune_directories, prune_cache,
}
use lariska.Native.Supervisor.{
  now_or_zero, install, restart, rollback_with, refuse_failed, reserve, install_and_restart,
  install_pending, accept_request_with, finish_completed, finish_healthy, roll_back_late,
  decide_pending, close_interrupted, recover_known, recover_or_ack_with, begin_turn, consider,
}
use lariska.Native.Safety.{
  Event, turn, request, happen, happen_all, happen_all-floor, happen_all-ReadsSound,
}
use lariska.Update.Types.{PendingUpdate}
use lariska.Native.Recovery.{Closed, recover_or_ack_with-Closed}
use lariska.Native.Remember.{
  remember_consumed_nonce_records, remember_consumed_nonce_keeps, remember_consumed_nonce_bounded,
}

-- What a test opens.
executed : Unit {0}
unfolding ◌>>=◌ pure raise lift expect gets attempt modify guard os unix_now read_json atomic_json
    valid_nonce validate_nonce parse_version validate validate_keys validate_emergency
    validate_state_dir validate_thumbprint validate_team_id validate_signer_pin safe_id decode_hex
    encode_hex matches_os open_shared remove_shared clean_mailbox check_ledger read_ledger_file
    read_ledger write_ledger publish_pending_health commit_pending arm_health raise_floor
    finish_update read_chunks verify_not_expired verify_signature verify_manifest_inner
    verify_manifest verify_artifact verify_files verify_files_for_recovery ack_request judge_ack
    health_status_for_pending read_journal read_journal_file check_journal check_consumed
    write_journal save_journal replayable prune_consumed add_receipt remember_unless_known
    remember_consumed_nonce remove_directory copy_manifest copy_artifact copy_files cleaned_on_error
    copy_request prune_directories prune_cache now_or_zero install restart rollback_with
    refuse_failed reserve install_and_restart install_pending accept_request_with finish_completed
    finish_healthy roll_back_late decide_pending close_interrupted recover_known recover_or_ack_with
    begin_turn consider happen happen_all
executed = tt

abbrev always : ReleaseManifest → Release → Bool
always manifest release = true

abbrev manifest_5 : ReleaseManifest
manifest_5 = record signed_6.manifest { version = "0.5.0"; sequence = 6 }

-- A host whose installed package is in the rollback cache.
abbrev seeded_host : World
seeded_host = record new_host {
  journal = written 300 (record default_journal {
    active = some (record { manifest = manifest_5; directory = "seed-1" });
  });
  cache =
      (
        "seed-1",
        record directory_6 { manifest = written 900 (record signed_6 { manifest = manifest_5 }) },
      )
      ∷ [];
}

abbrev offered : List Event
offered = turn ∷ request nonce_a directory_6 ∷ turn ∷ []

-- The offered release is installed, and the agent restarted.
offered_native :
    (happen_all test_env signing_policy always offered seeded_host).native
    ≡ restarted ∷ installed signed_6.manifest ∷ []
unfolding executed
offered_native = refl

happen_all-floor_example :
    (l : UpdateLedger) × (v : ℕ) × (held test_env
        (happen_all test_env signing_policy always offered seeded_host).ledger
      ≡ some l)
    × (parse_version test_env l.floor_version ≡ ok v)
    × (leb 5 v ≡ true)
    × (0 ≤ l.floor_sequence)
    × Outcome
        (λ read _. read ≡ l)
        (λ _ _. Unit)
        (read_ledger test_env (happen_all test_env signing_policy always offered seeded_host))
unfolding executed
happen_all-floor_example =
    happen_all-floor test_env signing_policy always offered seeded_host (default_ledger test_env) 5
      refl refl

happen_all-ReadsSound_example :
    ReadsSound test_env (happen_all test_env signing_policy always offered seeded_host)
happen_all-ReadsSound_example =
    happen_all-ReadsSound test_env signing_policy always (omega arith) offered seeded_host
      (_, refl, default_ledger-IsSound test_env, inl tt)

abbrev receipt_a : ConsumedRequest
receipt_a = record { nonce = nonce_a; version = "0.6.0"; sequence = 7 }

abbrev used : World
used = record new_host { working = record default_journal { consumed = receipt_a ∷ [] } }

abbrev remembered : World
remembered = (remember_consumed_nonce test_env signing_policy nonce_b "0.6.0" 8 used).1

remember_consumed_nonce_records_example :
    (r : ConsumedRequest) × Memᴰ r
      (remember_consumed_nonce test_env signing_policy nonce_b "0.6.0" 8 used).1.working.consumed
    × (r.nonce ≡ nonce_b)
    × (r.version ≡ "0.6.0")
    × (r.sequence ≡ 8)
unfolding executed
remember_consumed_nonce_records_example =
    remember_consumed_nonce_records test_env signing_policy nonce_b "0.6.0" 8 used refl

remember_consumed_nonce_keeps_example :
    Memᴰ receipt_a
      (remember_consumed_nonce test_env signing_policy nonce_b "0.6.0" 8 used).1.working.consumed
unfolding executed
remember_consumed_nonce_keeps_example =
    remember_consumed_nonce_keeps test_env signing_policy nonce_b "0.6.0" 8 used
      (default_ledger test_env) 5 6 receipt_a refl refl refl refl (omega arith) (Memᴰ.head refl)

remember_consumed_nonce_bounded_example :
    length
      (remember_consumed_nonce test_env signing_policy nonce_b "0.6.0" 8 used).1.working.consumed
    ≤ max_requests
remember_consumed_nonce_bounded_example =
    remember_consumed_nonce_bounded test_env signing_policy nonce_b "0.6.0" 8 used (omega arith)

abbrev pending_6 : PendingUpdate
pending_6 = record {
  nonce = nonce_a;
  version = "0.6.0";
  sequence = 7;
  started_at = 900;
  deadline = 1080;
}

abbrev pending_ledger : UpdateLedger
pending_ledger = record (default_ledger test_env) { pending = some pending_6 }

-- The supervisor stopped between the ledger and the journal.
abbrev interrupted : World
interrupted = record new_host { ledger = written 200 pending_ledger }

recover_or_ack_with-Closed_example :
    Closed test_env signing_policy always pending_6
      (recover_or_ack_with test_env signing_policy always interrupted).1
unfolding executed
recover_or_ack_with-Closed_example =
    recover_or_ack_with-Closed test_env signing_policy always pending_6 (omega arith) interrupted
      pending_ledger refl refl refl refl
