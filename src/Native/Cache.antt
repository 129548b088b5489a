-- ===== src/Native/Cache.antt =====
-- The private package cache of src/native_update.rs: `copy_request`, its cleanup and `prune_cache`.
use lariska.Prelude.{
  ℕ, String, Bool, true, false, not, ◌&&◌, ◌||◌, Option, none, some, List, [], ◌∷◌, leb, ◌==◌,
  str_eq, if◌then◌else◌, length, all, retain, codes, take_chars, is_ascii_hexdigit,
}
use lariska.Exec.{ok, err, pure, raise, gets, attempt, modify, guard, ◌>>=◌, ◌>>◌}
use lariska.Update.Types.{io_error, private_staging, not_a_bounded_file, artifact_too_large}
use lariska.Update.Host.{Release, File, Action, Done, Journal, CachedRelease, Pending, os}
use lariska.Update.Types.{SignedManifest}
use lariska.Update.Verify.{total}
use lariska.Native.Journal.{max_journal_bytes}

-- The directory of that name.
abbrev pub in_cache : String → List (String × Release) → Option Release
in_cache name [] = none
in_cache name ((n, release) ∷ rest) = if str_eq n name then some release else in_cache name rest

abbrev pub without : String → List (String × Release) → List (String × Release)
without name = retain (λ d. not (str_eq d.0 name))

abbrev pub is_present {ℓ} : {A : Type ℓ} → Option A → Bool
is_present none = false
is_present (some a) = true

-- `fs::remove_dir_all`
unfoldable pub remove_directory : String → Action Done
remove_directory name = do os; modify (λ w. record w { cache = without name w.cache })

-- `copy_bounded` of the manifest, and of the package.
unfoldable pub copy_manifest : File SignedManifest → Action Done
copy_manifest none = raise io_error
copy_manifest (some document) = do
  os
  guard document.regular not_a_bounded_file
  guard (leb document.size max_journal_bytes) not_a_bounded_file
  os

unfoldable pub copy_artifact : Release → ℕ → Action Done
copy_artifact release max_bytes = do
  os
  guard release.artifact_regular not_a_bounded_file
  guard (leb (total release.artifact) max_bytes) artifact_too_large
  os

-- The copies, in the new directory. The directory is synced last.
unfoldable pub copy_files : Release → String → ℕ → Action Done
copy_files release dest max_bytes = do
  copy_manifest release.manifest
  copy_artifact release max_bytes
  modify (λ w. record w { cache = (dest, release) ∷ without dest w.cache })
  os

abbrev pub empty_directory : Release
empty_directory = record { manifest = none; artifact_regular = false; artifact = [] }

-- An error removes the directory again, if it can.
unfoldable pub cleaned_on_error : {A : Type 0} → String → Action A → Action A
cleaned_on_error name steps = do
  outcome ← attempt steps
  elim outcome [ ok a ↦ pure a | err e ↦ do removed ← attempt (remove_directory name); raise e ]

unfoldable pub copy_request : Release → String → ℕ → Action Done
copy_request release dest max_bytes = do
  os
  found ← gets (λ w. in_cache dest w.cache)
  guard (not (is_present found)) private_staging
  modify (λ w. record w { cache = (dest, empty_directory) ∷ w.cache })
  cleaned_on_error dest (copy_files release dest max_bytes)

-- The directories that a journal names.
abbrev pub is_active : String → Option CachedRelease → Bool
is_active name none = false
is_active name (some r) = str_eq r.directory name

abbrev pub is_pending : String → Option Pending → Bool
is_pending name none = false
is_pending name (some p) = str_eq p.release.directory name

-- `starts_with("seed-")`
abbrev pub is_seed : String → Bool
is_seed name = str_eq (take_chars 5 name) "seed-"

-- What `prune_cache` deletes: a directory with the name of a seed or a nonce that the journal does not
-- name.
abbrev pub is_stale : Journal → String → Bool
is_stale journal name =
    not (is_active name journal.active || is_pending name journal.pending)
    && (is_seed name || ((length (codes name) == 32) && all is_ascii_hexdigit (codes name)))

unfoldable pub prune_directories : Journal → List (String × Release) → Action Done
prune_directories journal [] = pure tt
prune_directories journal ((name, _) ∷ rest) =
    let later = prune_directories journal rest in
    do os; if is_stale journal name then remove_directory name else pure tt; later

unfoldable pub prune_cache : Action Done
prune_cache = do
  os
  directories ← gets (λ w. w.cache)
  journal ← gets (λ w. w.working)
  prune_directories journal directories
