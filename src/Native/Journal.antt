-- ===== src/Native/Journal.antt =====
-- The installation journal of src/native_update.rs: `read_journal`, `write_journal` and the receipts of
-- consumed requests. `working` of the world is the journal that the supervisor passes by reference.
use Prim.Native.String.{len}
use lariska.Prelude.{
  ℕ, ◌*◌, String, Bool, true, not, ◌&&◌, ◌||◌, Option, none, some, List, [], ◌∷◌, ◌++◌, ltb, leb,
  ◌==◌, str_eq, if◌then◌else◌, length, all, any, find, is_empty, codes, is_ascii_alphanumeric,
}
use lariska.Exec.{
  Result, is_ok, ok, err, pure, lift, gets, attempt, modify, guard, expect, ◌>>=◌, ◌>>◌,
}
use lariska.Update.Types.{
  Error, UpdateConfig, ReleaseManifest, journal_too_large, journal_unbounded, bad_consumed_identity,
  bad_directory, nonce_changed_identity, consumed_full, version_not_semantic, json_error,
}
use lariska.Update.Host.{
  Env, World, File, Action, Done, Journal, CachedRelease, Pending, ConsumedRequest, written, os,
  atomic_json,
}
use lariska.Update.Policy.{valid_nonce}
use lariska.Update.Ledger.{read_ledger}

abbrev pub max_journal_bytes : ℕ
max_journal_bytes = 64 * 1024

abbrev pub max_requests : ℕ
max_requests = 200

abbrev pub default_journal : Journal
default_journal = record { active = none; pending = none; consumed = [] }

abbrev pub set_consumed : List ConsumedRequest → World → World
set_consumed consumed w = record w { working = record w.working { consumed = consumed } }

abbrev pub set_pending : Option Pending → World → World
set_pending pending w = record w { working = record w.working { pending = pending } }

abbrev pub set_active : Option CachedRelease → World → World
set_active active w = record w { working = record w.working { active = active } }

abbrev pub directory_valid : CachedRelease → Bool
directory_valid cached =
    not (is_empty (codes cached.directory))
    && all (λ c. is_ascii_alphanumeric c || c == b'-') (codes cached.directory)

abbrev pub cached_valid : Option CachedRelease → Bool
cached_valid none = true
cached_valid (some cached) = directory_valid cached

abbrev pub pending_valid : Option Pending → Bool
pending_valid none = true
pending_valid (some pending) = directory_valid pending.release

-- The receipt of that nonce.
abbrev pub receipt : String → List ConsumedRequest → Option ConsumedRequest
receipt nonce = find (λ r. str_eq r.nonce nonce)

module _ (env : Env) where
  open env use {Version, parse, version_le, journal_size}

  -- `semver::Version::parse`
  abbrev pub parse_semver : String → Result Error Version
  parse_semver version = elim (parse version) [ none ↦ err version_not_semantic | some v ↦ ok v ]

  -- `nonces` are those of the receipts before.
  unfoldable pub check_consumed : List String → List ConsumedRequest → Result Error Done
  check_consumed nonces [] = ok tt
  check_consumed nonces (r ∷ rest) =
      let later = check_consumed (r.nonce ∷ nonces) rest in
      if not (valid_nonce r.nonce) || any (λ n. str_eq n r.nonce) nonces || ltb 128 (len r.version)
      then err bad_consumed_identity
      else elim (parse_semver r.version) [ err e ↦ err e | ok _ ↦ later ]

  unfoldable pub check_journal : Journal → Action Journal
  check_journal journal = do
    guard (leb (length journal.consumed) max_requests) journal_unbounded
    lift (check_consumed [] journal.consumed)
    guard (cached_valid journal.active && pending_valid journal.pending) bad_directory
    pure journal

  unfoldable pub read_journal_file : File Journal → Action Journal
  read_journal_file none = pure default_journal
  read_journal_file (some document) = do
    os
    guard (leb document.size max_journal_bytes) journal_too_large
    journal ← expect document.parsed json_error
    check_journal journal

  -- `exists` is also false if the call fails: the journal is then that of a new installation.
  unfoldable pub read_journal : Action Journal
  read_journal = do
    stat ← attempt os
    file ← gets (λ w. w.journal)
    if is_ok stat then read_journal_file file else pure default_journal

  abbrev pub store_journal : Journal → World → World
  store_journal journal w = record w { journal = written (journal_size journal) journal }

  unfoldable pub write_journal : Journal → Action Done
  write_journal journal = do
    guard (leb (journal_size journal) max_journal_bytes) journal_too_large
    atomic_json (store_journal journal)

  -- The journal in memory is written.
  unfoldable pub save_journal : Action Done
  save_journal = do journal ← gets (λ w. w.working); write_journal journal

  abbrev pub is_replayable : Version → ℕ → Version → ConsumedRequest → Bool
  is_replayable floor sequence candidate r = version_le floor candidate && leb sequence r.sequence

  -- The receipts that the floor does not refuse.
  unfoldable pub replayable :
      Version → ℕ → List ConsumedRequest → Result Error (List ConsumedRequest)
  replayable floor sequence [] = ok []
  replayable floor sequence (r ∷ rest) =
      let later = replayable floor sequence rest in
      elim (parse_semver r.version) [
        | err e ↦ err e
        | ok candidate ↦ elim later [
          | err e ↦ err e
          | ok kept ↦ ok (if is_replayable floor sequence candidate r then r ∷ kept else kept)
        ]
      ]

  -- Nothing is pruned while an emergency version is configured.
  unfoldable pub prune_consumed : Option String → Action Done
  prune_consumed (some _) = pure tt
  prune_consumed none = do
    ledger ← read_ledger env
    floor ← lift (parse_semver ledger.floor_version)
    consumed ← gets (λ w. w.working.consumed)
    retained ← lift (replayable floor ledger.floor_sequence consumed)
    modify (set_consumed retained)

  unfoldable pub add_receipt : ConsumedRequest → Action Done
  add_receipt r = do
    consumed ← gets (λ w. w.working.consumed)
    guard (ltb (length consumed) max_requests) consumed_full
    modify (set_consumed (consumed ++ r ∷ []))
    save_journal

  -- A nonce that is known must name the same release.
  unfoldable pub remember_unless_known :
      UpdateConfig → ConsumedRequest → Option ConsumedRequest → Action Done
  remember_unless_known config r (some previous) =
      guard (str_eq previous.version r.version && (previous.sequence == r.sequence))
        nonce_changed_identity
  remember_unless_known config r none = do prune_consumed config.emergency_version; add_receipt r

  unfoldable pub remember_consumed_nonce : UpdateConfig → String → String → ℕ → Action Done
  remember_consumed_nonce config nonce version sequence = do
    guard (valid_nonce nonce && leb (len version) 128) bad_consumed_identity
    parsed ← lift (parse_semver version)
    consumed ← gets (λ w. w.working.consumed)
    remember_unless_known config (record { nonce = nonce; version = version; sequence = sequence })
        (receipt nonce consumed)

  abbrev pub remember_consumed_request : UpdateConfig → String → ReleaseManifest → Action Done
  remember_consumed_request config nonce manifest =
      remember_consumed_nonce config nonce manifest.version manifest.sequence
