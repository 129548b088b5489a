-- ===== src/Delivery/Examples.antt =====
-- Runs of the spool and of the submission, and the theorems at these runs.
use lariska.Prelude.{
  ◌*◌, ◌^◌, min, codes, ℕ, zero, suc, ◌+◌, ◌≤◌, ◌≡◌, ◌≢◌, refl, String, true, false, none, some, [],
  ◌∷◌, max, arith,
}
use lariska.Exec.{
  Result, ok, err, Machine, pure, raise, lift, expect, gets, attempt, modify, guard, ◌>>=◌,
}
use lariska.Exec.Runs.{Outcome}
use lariska.Delivery.Host.{ApiError, auth, transient, out_of_fuel, Snapshots, SpoolFile, Host, os}
use lariska.Delivery.Spool.{
  pending_files, remove_file, evict, enforce_limit, quarantine_file, quarantine_existing,
  quarantine_by_id,
}
use lariska.Delivery.Retry.{backoff, classify}
use lariska.Delivery.Delays.{backoff-max_delay}
use lariska.Delivery.Submit.{
  as_blocking, token, post, refresh_once, post_refreshing, reject, retry_or_give_up, conclude,
  submit_loop, submit_one,
}
use lariska.Delivery.Eviction.{ids, entries_of, Within, Evicted, enforce_limit-Evicted}
use lariska.Delivery.Host.{AcceptedState}
use lariska.Delivery.State.{load, store}
use lariska.Delivery.Worker.{Limits, enqueue_if_needed}
use lariska.Delivery.Queue.{enqueue_if_needed-SameNetwork}
use lariska.Delivery.Restart.{restored, load-store}
use lariska.Delivery.Network.{SameNetwork}
use lariska.Delivery.Attempt.{Accepted}
use lariska.Delivery.Attempts.{submit_one-posts, submit_one-Accepted}

executed : Unit {0}
unfolding ◌>>=◌ pure raise lift expect gets attempt modify guard os pending_files remove_file evict
    enforce_limit quarantine_file quarantine_existing quarantine_by_id backoff classify as_blocking
    token post refresh_once post_refreshing reject retry_or_give_up conclude submit_loop load store
executed = tt

abbrev test_snapshots : Snapshots
test_snapshots = record {
  Snapshot = String;
  snapshot_id = λ s. s;
  json_length = λ s. 100;
  compressed_length = λ s. 50;
  content_digest = codes;
  document_length = λ d. 120;
}

abbrev file_of : String → ℕ → SpoolFile String
file_of name modified = record {
  name = name;
  modified = modified;
  size = 50;
  has_zstd_magic = true;
  plain = record { bytes = 50; snapshot = none };
  expanded = none;
}

abbrev calm : Machine
calm = record { fails = λ n. false; clock = λ n. some 1000; calls = 0 }

-- The first token has expired, then the server is busy once.
abbrev answer_of : ℕ → Result ApiError (Unit {0})
answer_of zero = err auth
answer_of (suc zero) = err (transient "busy")
answer_of (suc (suc n)) = ok tt

abbrev full_host : Host String
full_host = record {
  spool = file_of "b.json.zst" 20 ∷ file_of "a.json" 10 ∷ file_of "c.json.zst" 30 ∷ [];
  quarantine = [];
  network = record { answers = answer_of; tokens = λ n. ok "t"; posts = 0; asked = 0 };
  posted = [];
  state_file = none;
  last_accepted = none;
  last_enqueued = none;
  machine = calm;
}

abbrev id_jitter : ℕ → ℕ
id_jitter n = n

oldest_evicted : (enforce_limit 2 full_host).0 ≡ ok ("a" ∷ [])
unfolding executed
oldest_evicted = refl

enforce_limit-Evicted_example :
    Outcome
      (λ answer t.
        (e : Evicted 2 (entries_of full_host.spool) full_host.spool t.spool) × (answer ≡ ids e.gone)
        × Within (max 2 1) e.kept)
      (λ _ t. Evicted 2 (entries_of full_host.spool) full_host.spool t.spool)
      (enforce_limit 2 full_host)
enforce_limit-Evicted_example = enforce_limit-Evicted 2 full_host (omega arith)

submit_one-posts_example :
    ((submit_one test_snapshots id_jitter "c" full_host).1.network.posts
      ≤ full_host.network.posts + 7)
    × ((submit_one test_snapshots id_jitter "c" full_host).0 ≢ err out_of_fuel)
submit_one-posts_example = submit_one-posts test_snapshots id_jitter "c" full_host

submit_one-Accepted_example :
    Accepted full_host (submit_one test_snapshots id_jitter "c" full_host).1
unfolding executed
submit_one-Accepted_example = submit_one-Accepted test_snapshots id_jitter "c" full_host refl

in_range_id : (n : ℕ) → id_jitter n ≤ n
in_range_id n = omega arith

backoff-max_delay_example :
    (backoff id_jitter 3 none ≤ min (2000 * 2 ^ 3) 300000)
    × (backoff (λ n. n) 3 none ≡ min (2000 * 2 ^ 3) 300000)
backoff-max_delay_example = backoff-max_delay id_jitter 3 in_range_id

abbrev limits : Limits
limits = record { max_spool_entries = 2; full_refresh_interval = 3600 }

enqueue_if_needed-SameNetwork_example :
    SameNetwork full_host (enqueue_if_needed test_snapshots id_jitter limits 40 "d" full_host).1
enqueue_if_needed-SameNetwork_example =
    enqueue_if_needed-SameNetwork test_snapshots id_jitter limits 40 "d" full_host

abbrev queued : Host String
queued = (enqueue_if_needed test_snapshots id_jitter limits 40 "d" full_host).1

-- A digest with a capital letter.
abbrev accepted_state : AcceptedState
accepted_state = record {
  digest = codes "A000000000000000000000000000000000000000000000000000000000000000";
  accepted_at_unix_secs = 1000;
}

never_fails : (n : ℕ) → full_host.machine.fails n ≡ false
never_fails n = refl

after_epoch : accepted_state.accepted_at_unix_secs ≢ 0
after_epoch = ground arith

load-store_example :
    (load (store test_snapshots accepted_state full_host).1).0
    ≡ ok (some (restored test_snapshots accepted_state))
unfolding executed
load-store_example =
    load-store test_snapshots accepted_state full_host never_fails refl after_epoch refl
