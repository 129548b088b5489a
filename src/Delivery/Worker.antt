-- ===== src/Delivery/Worker.antt =====
-- The queue of src/delivery/mod.rs: `enqueue_if_needed`, `due_for_submission`, `drain_spool`.
use lariska.Prelude.{
  ℕ, ◌-◌, Bool, true, false, not, ◌&&◌, ◌||◌, Option, none, some, List, [], ◌∷◌, leb, ltb,
  if◌then◌else◌, is_empty, texts_equal,
}
use lariska.Exec.{Result, ok, err, called, pure, raise, gets, attempt, modify, ◌>>=◌, ◌>>◌}
use lariska.Delivery.Host.{
  ApiError, Failure, quarantined, Snapshots, AcceptedState, SpoolFile, Act, Done,
}
use lariska.Delivery.Spool.{pending_files, enforce_limit, remove, read_pending, write}
use lariska.Delivery.Submit.{submit_one}
use lariska.Delivery.State.{store}

-- The worker's configuration.
pub record Limits : Type 0 where
  pub max_spool_entries : ℕ
  pub full_refresh_interval : ℕ

abbrev pub is_none {ℓ} : {A : Type ℓ} → Option A → Bool
is_none none = true
is_none (some a) = false

abbrev pub is_queued : List ℕ → Option (List ℕ) → Bool
is_queued digest none = false
is_queued digest (some queued) = texts_equal queued digest

-- `now_unix_secs`: a clock before 1970 counts as 0.
abbrev pub seconds : Option ℕ → ℕ
seconds none = 0
seconds (some t) = t

unfoldable pub now_unix_secs : {A : Type 0} → Act A ℕ
now_unix_secs h =
    pure (seconds (h.machine.clock h.machine.calls)) (record h { machine = called h.machine })

-- A new digest is due, and an old one after the interval, or if the clock was set back.
abbrev pub is_due : ℕ → AcceptedState → List ℕ → ℕ → Bool
is_due interval last digest now =
    not (texts_equal last.digest digest)
    || ltb now last.accepted_at_unix_secs
    || leb interval (now - last.accepted_at_unix_secs)

module _ (env : Snapshots) (jitter : ℕ → ℕ) (limits : Limits) where
  open env use {Snapshot, snapshot_id, content_digest}

  unfoldable pub due_since : List ℕ → Option AcceptedState → Act Snapshot Bool
  due_since digest none = pure true
  due_since digest (some last) = do
    now ← now_unix_secs
    pure (is_due limits.full_refresh_interval last digest now)

  unfoldable pub due_for_submission : List ℕ → Act Snapshot Bool
  due_for_submission digest = do last ← gets (λ h. h.last_accepted); due_since digest last

  -- `modified` is the time that the system gives to the file. An error of the limit is ignored.
  unfoldable pub enqueue : ℕ → Snapshot → Act Snapshot Bool
  enqueue modified snapshot = do
    write env modified snapshot
    evicted ← attempt (enforce_limit limits.max_spool_entries)
    modify (λ h. record h { last_enqueued = some (content_digest snapshot) })
    pure true

  unfoldable pub enqueue_if_needed : ℕ → Snapshot → Act Snapshot Bool
  enqueue_if_needed modified snapshot = do
    due ← due_for_submission (content_digest snapshot)
    queued ← gets (λ h. h.last_enqueued)
    if is_queued (content_digest snapshot) queued
        then pure false
        else if not due && is_none queued
        then pure false
        else enqueue modified snapshot

  -- After an acceptance. An error of the state file is ignored.
  unfoldable pub accepted : Snapshot → Act Snapshot Done
  accepted snapshot = do
    remove (snapshot_id snapshot)
    now ← now_unix_secs
    let state : AcceptedState = record {
      digest = content_digest snapshot;
      accepted_at_unix_secs = now;
    }
    stored ← attempt (store env state)
    modify (λ h. record h { last_accepted = some state })

  abbrev pub first_of : Option ApiError → ApiError → Option ApiError
  first_of none e = some e
  first_of (some first) e = some first

  -- What follows a submission, with the first rejection so far.
  unfoldable pub settle :
      Snapshot → Option ApiError → Result Failure Done → Act Snapshot (Option ApiError)
  settle snapshot first (ok _) = do accepted snapshot; pure first
  settle snapshot first (err (quarantined e)) = pure (first_of first e)
  settle snapshot first (err e) = raise e

  unfoldable pub deliver : Option ApiError → Option Snapshot → Act Snapshot (Option ApiError)
  deliver first none = pure first
  deliver first (some snapshot) = do
    outcome ← attempt (submit_one env jitter snapshot)
    settle snapshot first outcome

  unfoldable pub drain_files :
      Option ApiError → List (SpoolFile Snapshot) → Act Snapshot (Option ApiError)
  drain_files first [] = pure first
  drain_files first (file ∷ files) = do
    read ← read_pending file
    next ← deliver first read
    drain_files next files

  unfoldable pub clear_enqueued_if_spool_empty : Act Snapshot Done
  clear_enqueued_if_spool_empty = do
    files ← pending_files
    if is_empty files then modify (λ h. record h { last_enqueued = none }) else pure tt

  unfoldable pub drain_spool : Act Snapshot Done
  drain_spool = do
    files ← pending_files
    first ← drain_files none files
    clear_enqueued_if_spool_empty
    elim first [ none ↦ pure tt | some e ↦ raise (quarantined e) ]
