-- ===== src/Update/Health.antt =====
-- The health mailbox of src/update.rs: the endpoint's `ack_health`, and the supervisor's
-- `health_status_for_pending` and `health_status`. Also `ack_request`.
use lariska.Prelude.{String, Bool, true, false, not, ◌&&◌, ◌||◌, leb, ltb, str_eq, if◌then◌else◌}
use lariska.Exec.{ok, err, pure, lift, attempt, guard, ◌>>=◌, ◌>>◌}
use lariska.Update.Types.{PendingUpdate, HealthAck, RequestResult, bad_request_result}
use lariska.Update.Host.{Env, World, Action, Done, written, unix_now, read_json, atomic_json}
use lariska.Update.Policy.{validate_nonce}
use lariska.Update.Ledger.{max_manifest_bytes, open_shared}

-- `shared.read(…)` under a `match` that takes any error for an absent record.
abbrev pub shared_pending : Action PendingUpdate
shared_pending = read_json (λ w. w.pending_health) max_manifest_bytes

abbrev pub shared_ack : Action HealthAck
shared_ack = read_json (λ w. w.health) max_manifest_bytes

module _ (env : Env) where
  open env use {package_version, ack_size, result_size}

  abbrev pub store_ack : HealthAck → World → World
  store_ack ack w = record w { health = written (ack_size ack) ack }

  -- Outside the health window, or in another version than the pending one, nothing is written.
  unfoldable pub answer_pending : PendingUpdate → Action Done
  answer_pending pending = do
    lift (validate_nonce pending.nonce)
    now ← unix_now
    if (not (str_eq pending.version package_version)
          || ltb now pending.started_at
          || ltb pending.deadline now)
        then pure tt
        else atomic_json
            (store_ack (record { nonce = pending.nonce; version = pending.version; at = now }))

  unfoldable pub ack_health : Action Done
  ack_health = do
    shared ← attempt (open_shared false)
    elim shared [
      | err _ ↦ pure tt
      | ok _ ↦ do
        found ← attempt shared_pending
        elim found [ err _ ↦ pure tt | ok pending ↦ answer_pending pending ]
    ]

  abbrev pub store_result : RequestResult → World → World
  store_result result w = record w { request_result = written (result_size result) result }

  unfoldable pub ack_request : String → String → Action Done
  ack_request nonce outcome = do
    lift (validate_nonce nonce)
    guard (str_eq outcome "accepted" || str_eq outcome "refused") bad_request_result
    open_shared true
    now ← unix_now
    let result : RequestResult = record { nonce = nonce; outcome = outcome; at = now }
    atomic_json (store_result result)

-- Whether an acknowledgement belongs to the pending transaction and its window.
abbrev pub in_window : PendingUpdate → HealthAck → Bool
in_window pending ack =
    str_eq ack.nonce pending.nonce
    && str_eq ack.version pending.version
    && leb pending.started_at ack.at
    && leb ack.at pending.deadline

-- The clock is read only if all the tests before have passed.
unfoldable pub judge_ack : PendingUpdate → HealthAck → Action Bool
judge_ack pending ack =
    if in_window pending ack then (do now ← unix_now; pure (leb ack.at now)) else pure false

unfoldable pub health_status_for_pending : PendingUpdate → Action Bool
health_status_for_pending pending = do
  lift (validate_nonce pending.nonce)
  shared ← attempt (open_shared false)
  elim shared [
    | err _ ↦ pure false
    | ok _ ↦ do
      found ← attempt shared_ack
      elim found [ err _ ↦ pure false | ok ack ↦ judge_ack pending ack ]
  ]

unfoldable pub health_status : String → String → Action Bool
health_status nonce version = do
  lift (validate_nonce nonce)
  shared ← attempt (open_shared false)
  elim shared [
    | err _ ↦ pure false
    | ok _ ↦ do
      found ← attempt shared_pending
      elim found [
        | err _ ↦ pure false
        | ok pending ↦
            if (not (str_eq pending.nonce nonce) || not (str_eq pending.version version))
            then pure false
            else health_status_for_pending pending
      ]
  ]
