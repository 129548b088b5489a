-- ===== src/Update/Examples.antt =====
-- Runs of the ledger operations on the fixtures, and the theorems at these runs.
use lariska.Prelude.{
  inl, ℕ, ◌≡◌, ◌≢◌, refl, String, true, none, some, List, [], ◌∷◌, last, length, ◌≤◌, arith, eq_iff,
  leb,
}
use lariska.Exec.{ok, pure, raise, lift, expect, gets, attempt, modify, guard, ◌>>=◌}
use lariska.Exec.Runs.{Outcome}
use lariska.Update.Types.{PendingUpdate, UpdateLedger, HistoryEntry}
use lariska.Update.Host.{World, os, unix_now, read_json, atomic_json}
use lariska.Update.Policy.{valid_nonce, validate_nonce, parse_version}
use lariska.Update.Ledger.{
  open_shared, remove_shared, clean_mailbox, default_ledger, check_ledger, read_ledger_file,
  read_ledger, write_ledger, publish_pending_health, commit_pending, arm_health, raise_floor,
  finish_update,
}
use lariska.Update.Steps.{held, default_ledger-IsSound}
use lariska.Update.Transitions.Finish.{outcome_name}
use lariska.Update.Commands.{Command, commit, arm, finish, run, run_all}
use lariska.Update.Floor.{run_all-floor}
use lariska.Update.History.{finish_update-history, ReadsSound, run_all-ReadsSound}
use lariska.Update.Refusals.{commit_pending_while_pending, finish_update_other_nonce}
use lariska.Update.Fixtures.{test_env, test_policy, new_host, release_6, nonce_a, nonce_b}

-- What a test opens.
executed : Unit {0}
unfolding ◌>>=◌ pure raise lift expect gets attempt modify guard os unix_now read_json atomic_json
    valid_nonce validate_nonce parse_version open_shared remove_shared clean_mailbox check_ledger
    read_ledger_file read_ledger write_ledger publish_pending_health commit_pending arm_health
    raise_floor finish_update run run_all
executed = tt

abbrev started : List Command
started = commit release_6 nonce_a ∷ arm nonce_a ∷ []

abbrev good_update : List Command
good_update = commit release_6 nonce_a ∷ arm nonce_a ∷ finish nonce_a true "healthy_heartbeat" ∷ []

-- An update that ends healthy raises the floor to its version and sequence.
good_update_floor :
    held test_env (run_all test_env test_policy good_update new_host).ledger
    ≡ some (record {
      floor_version = "0.6.0";
      floor_sequence = 7;
      pending = none;
      history =
          record {
            nonce = nonce_a;
            version = "0.6.0";
            sequence = 7;
            at = 1000;
            outcome = "healthy";
            reason = "healthy_heartbeat";
          }
          ∷ [];
    })
unfolding executed
good_update_floor = refl

run_all-floor_example :
    (l : UpdateLedger) × (v : ℕ) × (held test_env
        (run_all test_env test_policy good_update new_host).ledger
      ≡ some l)
    × (parse_version test_env l.floor_version ≡ ok v)
    × (leb 5 v ≡ true)
    × (0 ≤ l.floor_sequence)
    × Outcome
        (λ read _. read ≡ l)
        (λ _ _. Unit)
        (read_ledger test_env (run_all test_env test_policy good_update new_host))
unfolding executed
run_all-floor_example =
    run_all-floor test_env test_policy good_update new_host (default_ledger test_env) 5 refl refl

run_all-ReadsSound_example : ReadsSound test_env (run_all test_env test_policy good_update new_host)
run_all-ReadsSound_example =
    run_all-ReadsSound test_env test_policy (omega arith) good_update new_host
      (_, refl, default_ledger-IsSound test_env, inl tt)

abbrev waiting : World
waiting = run_all test_env test_policy started new_host

finish_update-history_example :
    (l : UpdateLedger) × (entry : HistoryEntry) × (held test_env
        (finish_update test_env test_policy nonce_a true "ok" waiting).1.ledger
      ≡ some l)
    × (last l.history ≡ some entry)
    × (entry.nonce ≡ nonce_a)
    × (entry.outcome ≡ outcome_name true)
    × (length l.history ≤ test_policy.history_limit)
    × (l.pending ≡ none)
unfolding executed
finish_update-history_example =
    finish_update-history test_env test_policy nonce_a true "ok" waiting (omega arith) refl

abbrev pending_6 : PendingUpdate
pending_6 = record {
  nonce = nonce_a;
  version = "0.6.0";
  sequence = 7;
  started_at = 1000;
  deadline = 1180;
}

abbrev waiting_ledger : UpdateLedger
waiting_ledger = record {
  floor_version = "0.5.0";
  floor_sequence = 0;
  pending = some pending_6;
  history = [];
}

waiting_reads : held test_env waiting.ledger ≡ some waiting_ledger
unfolding executed
waiting_reads = refl

commit_pending_while_pending_example :
    Outcome
      (λ _ _. ⊥)
      (λ _ t. t.ledger ≡ waiting.ledger)
      (commit_pending test_env test_policy release_6 nonce_b waiting)
commit_pending_while_pending_example =
    commit_pending_while_pending test_env test_policy nonce_b waiting waiting_ledger waiting_reads
      release_6 pending_6 refl

nonces_differ : ◌≢◌ {A = String} nonce_a nonce_b
nonces_differ = ground (arith, eq_iff nonce_a nonce_b)

finish_update_other_nonce_example :
    Outcome
      (λ _ _. ⊥)
      (λ _ t. t.ledger ≡ waiting.ledger)
      (finish_update test_env test_policy nonce_b true "ok" waiting)
finish_update_other_nonce_example =
    finish_update_other_nonce test_env test_policy nonce_b waiting waiting_ledger waiting_reads
      pending_6 refl nonces_differ true "ok"
