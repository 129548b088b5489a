-- ===== src/Delivery/State.antt =====
-- src/delivery/state.rs: the accepted state that survives a restart.
use lariska.Prelude.{
  ℕ, ◌*◌, Bool, not, ◌&&◌, Option, none, some, List, leb, ◌==◌, length, all, is_ascii_hexdigit,
  to_ascii_lowercase,
}
use lariska.Exec.{ok, err, pure, gets, attempt, modify, guard, expect, ◌>>=◌, ◌>>◌}
use lariska.Delivery.Host.{
  invalid_state, state_too_large, Snapshots, AcceptedState, StateDocument, StateFile, Host, Act,
  Done, os,
}

abbrev pub format_version_1 : ℕ
format_version_1 = 1

abbrev pub max_state_bytes : ℕ
max_state_bytes = 4 * 1024

abbrev pub is_digest : List ℕ → Bool
is_digest digest = (length digest == 64) && all is_ascii_hexdigit digest

module _ {A : Type 0} where
  unfoldable pub check_document : StateDocument → Act A (Option AcceptedState)
  check_document document = do
    guard (document.format_version == format_version_1) invalid_state
    guard (is_digest document.digest) invalid_state
    guard (not (document.accepted_at_unix_secs == 0)) invalid_state
    pure (
        some (record {
          digest = to_ascii_lowercase document.digest;
          accepted_at_unix_secs = document.accepted_at_unix_secs;
        }))

  unfoldable pub load_file : Option StateFile → Act A (Option AcceptedState)
  load_file none = pure none
  load_file (some file) = do
    os
    guard (leb file.bytes max_state_bytes) state_too_large
    document ← expect file.parsed invalid_state
    check_document document

  unfoldable pub load : Act A (Option AcceptedState)
  load = do os; file ← gets (λ h. h.state_file); load_file file

  -- A state that cannot be read is removed, if it can be.
  unfoldable pub load_or_discard_invalid : Act A (Option AcceptedState)
  load_or_discard_invalid = do
    found ← attempt load
    elim found [
      | ok state ↦ pure state
      | err _ ↦ do
        removed ← attempt (do os; modify (λ h. record h { state_file = none }))
        pure none
    ]

module _ (env : Snapshots) where
  open env use {Snapshot, document_length}

  abbrev pub document_of : AcceptedState → StateDocument
  document_of state = record {
    format_version = format_version_1;
    digest = state.digest;
    accepted_at_unix_secs = state.accepted_at_unix_secs;
  }

  abbrev pub put_state : AcceptedState → Host Snapshot → Host Snapshot
  put_state state h = record h {
    state_file =
        some (record {
          bytes = document_length (document_of state);
          parsed = some (document_of state);
        });
  }

  -- The temporary file is renamed over the old one, and the directory synced.
  unfoldable pub store : AcceptedState → Act Snapshot Done
  store state = do
    guard (leb (document_length (document_of state)) max_state_bytes) state_too_large
    os
    modify (put_state state)
    os
