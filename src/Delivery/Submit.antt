-- ===== src/Delivery/Submit.antt =====
-- `submit_one` of src/delivery/mod.rs: one snapshot, with its retries.
use lariska.Prelude.{ℕ, zero, suc, String, Bool, true, false, not, ◌&&◌, ◌∷◌, ltb, if◌then◌else◌}
use lariska.Exec.{Result, ok, err, pure, raise, lift, gets, attempt, modify, ◌>>=◌, ◌>>◌}
use lariska.Delivery.Host.{
  ApiError, auth, conflict, validation, payload_too_large, Failure, out_of_fuel, blocking,
  quarantined, Snapshots, Host, Network, Act, Done,
}
use lariska.Delivery.Spool.{quarantine_by_id}
use lariska.Delivery.Retry.{RetryDecision, retry_after, give_up, classify}

abbrev pub max_attempts_per_entry : ℕ
max_attempts_per_entry = 6

-- `Conflict`, `Validation` and `PayloadTooLarge` concern the snapshot itself.
abbrev pub is_rejected : ApiError → Bool
is_rejected (conflict _) = true
is_rejected (validation _) = true
is_rejected (payload_too_large _) = true
is_rejected _ = false

abbrev pub is_auth : ApiError → Bool
is_auth auth = true
is_auth _ = false

-- An error of the token exchange leaves the snapshot in the spool.
unfoldable pub as_blocking : {B : Type 0} → Result ApiError B → Result Failure B
as_blocking (ok b) = ok b
as_blocking (err e) = err (blocking e)

module _ (env : Snapshots) (jitter : ℕ → ℕ) where
  open env use {Snapshot, snapshot_id}

  abbrev pub asked : Network → Network
  asked n = record n { asked = suc n.asked }

  -- `token` and `force_refresh` of the token exchange.
  unfoldable pub token : Act Snapshot String
  token h =
      lift (as_blocking (h.network.tokens h.network.asked)) (record h { network = asked h.network })

  abbrev pub sent : Snapshot → Host Snapshot → Host Snapshot
  sent snapshot h = record h {
    network = record h.network { posts = suc h.network.posts };
    posted = snapshot_id snapshot ∷ h.posted;
  }

  -- The answer to a post, as a value.
  unfoldable pub post : Snapshot → Act Snapshot (Result ApiError Done)
  post snapshot = do
    answer ← gets (λ h. h.network.answers h.network.posts)
    modify (sent snapshot)
    pure answer

  -- A post that is refused for its token is sent once more, with a new one.
  unfoldable pub refresh_once :
      Snapshot → Bool → Result ApiError Done → Act Snapshot (Bool × Result ApiError Done)
  refresh_once snapshot refreshed (ok _) = pure (refreshed, ok tt)
  refresh_once snapshot refreshed (err e) =
      if is_auth e && not refreshed
      then (do t ← token; again ← post snapshot; pure (true, again))
      else pure (refreshed, err e)

  unfoldable pub post_refreshing : Snapshot → Bool → Act Snapshot (Bool × Result ApiError Done)
  post_refreshing snapshot refreshed = do
    t ← token
    answer ← post snapshot
    refresh_once snapshot refreshed answer

  unfoldable pub reject : Snapshot → ApiError → Act Snapshot Done
  reject snapshot e = do
    moved ← attempt (quarantine_by_id (snapshot_id snapshot))
    elim moved [ ok _ ↦ raise (quarantined e) | err _ ↦ raise (blocking e) ]

  -- What follows an attempt. `next` is the rest of the loop.
  unfoldable pub retry_or_give_up :
      Act Snapshot Done → ApiError → ℕ → RetryDecision → Act Snapshot Done
  retry_or_give_up next e attempt give_up = raise (blocking e)
  retry_or_give_up next e attempt (retry_after _) =
      if ltb attempt max_attempts_per_entry then next else raise (blocking e)

  unfoldable pub conclude :
      Act Snapshot Done → Snapshot → ℕ → Result ApiError Done → Act Snapshot Done
  conclude next snapshot attempt (ok _) = pure tt
  conclude next snapshot attempt (err e) =
      if is_rejected e
      then reject snapshot e
      else retry_or_give_up next e attempt (classify jitter e attempt)

  -- The loop of `submit_one`, on fuel. `attempt` is the number of the attempt that begins.
  unfoldable pub submit_loop : ℕ → Snapshot → ℕ → Bool → Act Snapshot Done
  submit_loop zero snapshot attempt refreshed = raise out_of_fuel
  submit_loop (suc fuel) snapshot attempt refreshed =
      let next = submit_loop fuel snapshot (suc attempt) in
      do
        (now_refreshed, answer) ← post_refreshing snapshot refreshed
        conclude (next now_refreshed) snapshot attempt answer

  abbrev pub submit_one : Snapshot → Act Snapshot Done
  submit_one snapshot = submit_loop max_attempts_per_entry snapshot 1 false
