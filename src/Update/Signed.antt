-- ===== src/Update/Signed.antt =====
-- Runs of the checks on a signed release and of the health mailbox, and the theorems at these runs.
use lariska.Prelude.{true, arith, ◌≡◌, refl}
use lariska.Exec.{ok, pure, raise, lift, expect, gets, attempt, modify, guard, ◌>>=◌}
use lariska.Exec.Runs.{Outcome}
use lariska.Update.Types.{matches_os, PendingUpdate, HealthAck}
use lariska.Update.Host.{World, written, os, unix_now, read_json, atomic_json}
use lariska.Update.Policy.{
  valid_nonce, validate_nonce, parse_version, validate, validate_keys, validate_emergency,
  validate_state_dir, validate_thumbprint, validate_team_id, validate_signer_pin, safe_id,
  decode_hex, encode_hex,
}
use lariska.Update.Ledger.{open_shared, check_ledger, read_ledger_file, read_ledger}
use lariska.Update.Steps.{OnlyMachine}
use lariska.Update.Verify.{
  read_chunks, verify_not_expired, verify_signature, verify_manifest_inner, verify_manifest,
  verify_artifact, verify_files,
}
use lariska.Update.Trust.{Authentic, AdmittedIn, verify_manifest_sound}
use lariska.Update.Artifact.{AcceptedFiles, verify_files_sound}
use lariska.Update.Health.{judge_ack, health_status_for_pending}
use lariska.Update.Liveness.{health_status_for_pending_complete}
use lariska.Update.Heartbeat.{Acknowledged, health_status_for_pending_sound}
use lariska.Update.Fixtures.{test_env, signing_policy, new_host, signed_6, directory_6, nonce_a}

-- What a test opens.
executed : Unit {0}
unfolding ◌>>=◌ pure raise lift expect gets attempt modify guard os unix_now read_json atomic_json
    valid_nonce validate_nonce parse_version validate validate_keys validate_emergency
    validate_state_dir validate_thumbprint validate_team_id validate_signer_pin safe_id decode_hex
    encode_hex matches_os open_shared check_ledger read_ledger_file read_ledger read_chunks
    verify_not_expired verify_signature verify_manifest_inner verify_manifest verify_artifact
    verify_files judge_ack health_status_for_pending
executed = tt

accepted : (verify_files test_env signing_policy directory_6 new_host).0 ≡ ok signed_6.manifest
unfolding executed
accepted = refl

verify_manifest-sound_example :
    Outcome
      (λ _ t.
        Authentic test_env signing_policy signed_6
        × AdmittedIn test_env signing_policy signed_6 new_host
        × OnlyMachine new_host t)
      (λ _ t. OnlyMachine new_host t)
      (verify_manifest test_env signing_policy signed_6 new_host)
verify_manifest-sound_example = verify_manifest_sound test_env signing_policy signed_6 new_host

verify_files-sound_example :
    Outcome
      (λ manifest t.
        AcceptedFiles test_env signing_policy directory_6 new_host manifest
        × OnlyMachine new_host t)
      (λ _ t. OnlyMachine new_host t)
      (verify_files test_env signing_policy directory_6 new_host)
verify_files-sound_example = verify_files_sound test_env signing_policy directory_6 new_host

abbrev window : PendingUpdate
window = record {
  nonce = nonce_a;
  version = "0.6.0";
  sequence = 7;
  started_at = 900;
  deadline = 1080;
}

abbrev acknowledged : World
acknowledged = record new_host {
  health = written 100 (record { nonce = nonce_a; version = "0.6.0"; at = 950 });
}

health_status_for_pending-sound_example : Acknowledged window acknowledged
unfolding executed
health_status_for_pending-sound_example = health_status_for_pending_sound window acknowledged refl

abbrev ack_6 : HealthAck
ack_6 = record { nonce = nonce_a; version = "0.6.0"; at = 950 }

health_status_for_pending_complete_example :
    (health_status_for_pending window acknowledged).0 ≡ ok true
unfolding executed
health_status_for_pending_complete_example =
    health_status_for_pending_complete 1000 window ack_6 100 acknowledged refl refl refl
      (omega arith) (record { no_failure = λ n. refl; time = λ n. refl })
      (record {
        nonce = refl;
        version = refl;
        not_early = omega arith;
        not_late = omega arith;
        not_future = omega arith;
      })
