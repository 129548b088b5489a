-- ===== src/Native/Ledger.antt =====
-- Proofs about the supervisor's steps of src/native_update.rs: what they do to the ledger file.
use lariska.Prelude.{refl, ℕ, String, Option, none, some, List, [], ◌∷◌}
use lariska.Exec.{ok, err}
use lariska.Exec.Moves.{IsPreorder, Moves, Moves-bind, Moves-attempt, moves_rules}
use lariska.Update.Types.{UpdateConfig, SignedManifest}
use lariska.Update.Host.{
  Env, World, File, Release, Action, Journal, Pending, CachedRelease, ConsumedRequest, os,
  atomic_json,
}
use lariska.Update.Transitions.{LedgerMove}
use lariska.Update.Ledger.{read_ledger}
use lariska.Native.Journal.{
  write_journal, save_journal, store_journal, prune_consumed, add_receipt, remember_unless_known,
  remember_consumed_nonce, set_consumed, set_pending, set_active,
}
use lariska.Native.Cache.{
  remove_directory, copy_manifest, copy_artifact, copy_files, cleaned_on_error, copy_request,
  prune_directories, prune_cache, without, empty_directory,
}
use lariska.Native.Steps.{elsewhere, os-R, atomic_json-R, read_ledger-R}

module _ (env : Env) (config : UpdateConfig) {R : World → World → Type 0} (pre : IsPreorder R)
    (step : (w t : World) → LedgerMove env config w t → R w t) where
  pub os_lem : Moves R os
  os_lem = os-R env config pre step

  pub read_ledger_lem : Moves R (read_ledger env)
  read_ledger_lem = read_ledger-R env config pre step

  pub save_journal-R : Moves R (save_journal env)
  unfolding save_journal write_journal
  save_journal-R = search (moves_rules, pre, stored) depth 20
    where
      stored : (journal : Journal) → Moves R (atomic_json (store_journal env journal))
      stored journal = atomic_json-R env config pre step _ (λ w. refl)

  set_consumed-R : (consumed : List ConsumedRequest) (w : World) → R w (set_consumed consumed w)
  set_consumed-R consumed w = elsewhere env config pre step w _ refl

  pub set_pending-R : (pending : Option Pending) (w : World) → R w (set_pending pending w)
  set_pending-R pending w = elsewhere env config pre step w _ refl

  pub set_active-R : (active : Option CachedRelease) (w : World) → R w (set_active active w)
  set_active-R active w = elsewhere env config pre step w _ refl

  prune_consumed-R : (emergency : Option String) → Moves R (prune_consumed env emergency)
  unfolding prune_consumed
  prune_consumed-R (some v) = search (moves_rules, pre)
  prune_consumed-R none = search (moves_rules, pre, read_ledger_lem, set_consumed-R) depth 20

  remember_unless_known-R :
      (r : ConsumedRequest) (known : Option ConsumedRequest)
      → Moves R (remember_unless_known env config r known)
  unfolding remember_unless_known add_receipt
  remember_unless_known-R r (some previous) = search (moves_rules, pre)
  remember_unless_known-R r none =
      search (moves_rules, pre, prune_consumed-R, save_journal-R, set_consumed-R) depth 20

  pub remember_consumed_nonce-R :
      (nonce version : String) (sequence : ℕ)
      → Moves R (remember_consumed_nonce env config nonce version sequence)
  unfolding remember_consumed_nonce
  remember_consumed_nonce-R nonce version sequence =
      search (moves_rules, pre, remember_unless_known-R) depth 20

  pub remove_directory-R : (name : String) → Moves R (remove_directory name)
  unfolding remove_directory
  remove_directory-R name = search (moves_rules, pre, os_lem, gone) depth 12
    where
      gone : (w : World) → R w (record w { cache = without name w.cache })
      gone w = elsewhere env config pre step w _ refl

  pub cleaned_on_error-R :
      {A : Type 0} (name : String) (steps : Action A)
      → Moves R steps
      → Moves R (cleaned_on_error name steps)
  unfolding cleaned_on_error
  cleaned_on_error-R name steps k = Moves-bind pre _ _ (Moves-attempt pre steps k) (elim [
    | ok a ↦ search (moves_rules, pre)
    | err e ↦ search (moves_rules, pre, remove_directory-R) depth 12
  ])

  copy_manifest-R : (file : File SignedManifest) → Moves R (copy_manifest file)
  unfolding copy_manifest
  copy_manifest-R none = search (moves_rules, pre)
  copy_manifest-R (some document) = search (moves_rules, pre, os_lem) depth 20

  copy_files-R :
      (release : Release) (dest : String) (max_bytes : ℕ)
      → Moves R (copy_files release dest max_bytes)
  unfolding copy_files copy_artifact
  copy_files-R release dest max_bytes =
      search (moves_rules, pre, os_lem, copy_manifest-R, made) depth 30
    where
      made : (w : World) → R w (record w { cache = (dest, release) ∷ without dest w.cache })
      made w = elsewhere env config pre step w _ refl

  pub copy_request-R :
      (release : Release) (dest : String) (max_bytes : ℕ)
      → Moves R (copy_request release dest max_bytes)
  unfolding copy_request
  copy_request-R release dest max_bytes =
      search (moves_rules, pre, os_lem, copy_files-R, cleaned_on_error-R, made) depth 20
    where
      made : (w : World) → R w (record w { cache = (dest, empty_directory) ∷ w.cache })
      made w = elsewhere env config pre step w _ refl

  prune_directories-R :
      (journal : Journal) (directories : List (String × Release))
      → Moves R (prune_directories journal directories)
  unfolding prune_directories
  prune_directories-R journal [] = search (moves_rules, pre)
  prune_directories-R journal ((name, release) ∷ rest) = Moves-bind pre _ _ (os_lem) (λ _.
      Moves-bind pre _ _ (search (moves_rules, pre, remove_directory-R))
        (λ _. prune_directories-R journal rest))

  pub prune_cache-R : Moves R prune_cache
  unfolding prune_cache
  prune_cache-R = search (moves_rules, pre, os_lem, prune_directories-R) depth 20
