-- ===== src/Delivery/Spool.antt =====
-- The spool of src/delivery/spool.rs.
use Prim.Native.Char.{Char}
use lariska.Prelude.{
  ℕ, ◌+◌, ◌-◌, ◌*◌, ◌^◌, String, Bool, true, false, not, ◌&&◌, ◌||◌, Option, none, some, List, [],
  ◌∷◌, ◌++◌, leb, str_eq, if◌then◌else◌, length, any, find, retain, max, min, append_text,
}
use lariska.Exec.{is_ok, ok, err, pure, lift, gets, attempt, modify, guard, expect, ◌>>=◌, ◌>>◌}
use lariska.Delivery.Host.{
  spool_io, spool_capacity, Snapshots, Body, SpoolFile, Host, Act, Done, os, set_spool,
}

abbrev pub max_snapshot_bytes : ℕ
max_snapshot_bytes = 8 * 1024 * 1024

abbrev pub max_spool_bytes : ℕ
max_spool_bytes = 128 * 1024 * 1024

abbrev pub after_char : Char → Option String → Option String
after_char c none = none
after_char c (some s) = some (String.◌∷◌ c s)

-- `strip_suffix`
abbrev pub strip_suffix : String → String → Option String
strip_suffix suffix String.[] = if str_eq suffix "" then some "" else none
strip_suffix suffix (String.◌∷◌ c s) =
    let rest = strip_suffix suffix s in
    if str_eq suffix (String.◌∷◌ c s) then some "" else after_char c rest

abbrev pub ends_with : String → String → Bool
ends_with suffix s = elim (strip_suffix suffix s) [ none ↦ false | some _ ↦ true ]

abbrev pub snapshot_id_from_name : String → String
snapshot_id_from_name name = elim (strip_suffix ".json.zst" name) [
  | some id ↦ id
  | none ↦ elim (strip_suffix ".json" name) [ some id ↦ id | none ↦ name ]
]

-- `.json.zst`, or the extension `json`.
abbrev pub is_spool_file : String → Bool
is_spool_file name =
    ends_with ".json.zst" name || (ends_with ".json" name && not (str_eq name ".json"))

abbrev pub zst_name : String → String
zst_name id = append_text id ".json.zst"

abbrev pub json_name : String → String
json_name id = append_text id ".json"

-- `saturating_add` of u64
abbrev pub saturating_add : ℕ → ℕ → ℕ
saturating_add a b = min (a + b) (2 ^ 64 - 1)

module _ {A : Type 0} where
  abbrev pub named : String → SpoolFile A → Bool
  named name file = str_eq file.name name

  abbrev pub without : String → List (SpoolFile A) → List (SpoolFile A)
  without name = retain (λ file. not (named name file))

  -- `sort_by_key(modified)` is stable.
  abbrev pub insert_by_age : SpoolFile A → List (SpoolFile A) → List (SpoolFile A)
  insert_by_age file [] = file ∷ []
  insert_by_age file (x ∷ xs) =
      let rest = insert_by_age file xs in
      if leb file.modified x.modified then file ∷ x ∷ xs else x ∷ rest

  abbrev pub sort_by_age : List (SpoolFile A) → List (SpoolFile A)
  sort_by_age [] = []
  sort_by_age (x ∷ xs) = insert_by_age x (sort_by_age xs)

  -- Oldest first.
  unfoldable pub pending_files : Act A (List (SpoolFile A))
  pending_files = do
    os
    files ← gets (λ h. h.spool)
    pure (sort_by_age (retain (λ file. is_spool_file file.name) files))

  abbrev pub total_bytes : ℕ → List (SpoolFile A) → ℕ
  total_bytes total [] = total
  total_bytes total (file ∷ files) = total_bytes (saturating_add total file.size) files

  -- `fs::remove_file` of a file that is there.
  unfoldable pub remove_file : String → Act A Done
  remove_file name = do os; modify (λ h. set_spool (without name h.spool) h)

  -- The loop of `enforce_limit`.
  unfoldable pub evict : ℕ → ℕ → ℕ → List (SpoolFile A) → List String → Act A (List String)
  evict max_entries remaining total [] evicted = pure evicted
  evict max_entries remaining total (file ∷ files) evicted =
      let rest =
        evict max_entries (remaining - 1) (total - file.size) files
          (evicted ++ snapshot_id_from_name file.name ∷ []) in
      if leb remaining max_entries && leb total max_spool_bytes
      then pure evicted
      else if leb remaining 1
      then pure evicted
      else (do remove_file file.name; os; rest)

  unfoldable pub enforce_limit : ℕ → Act A (List String)
  enforce_limit max_entries = do
    entries ← pending_files
    evict (max max_entries 1) (length entries) (total_bytes 0 entries) entries []

  -- A missing file is no error. Any other error of either name is returned in the end.
  unfoldable pub remove_one : String → Act A Done
  remove_one name = do
    files ← gets (λ h. h.spool)
    if any (named name) files then (do remove_file name; synced ← attempt os; pure tt) else pure tt

  unfoldable pub remove : String → Act A Done
  remove id = do
    zst ← attempt (remove_one (zst_name id))
    json ← attempt (remove_one (json_name id))
    lift (elim json [ err e ↦ err e | ok _ ↦ zst ])

  -- `rename` into the quarantine directory, over a file of that name.
  abbrev pub move_aside : SpoolFile A → Host A → Host A
  move_aside file h = record h {
    spool = without file.name h.spool;
    quarantine = file ∷ without file.name h.quarantine;
  }

  unfoldable pub quarantine_file : String → Act A Done
  quarantine_file name = do
    files ← gets (λ h. h.spool)
    file ← expect (find (named name) files) spool_io
    os
    modify (move_aside file)
    os

  -- `exists` is also false if the call fails.
  unfoldable pub quarantine_existing : String → Act A Done
  quarantine_existing name = do
    stat ← attempt os
    files ← gets (λ h. h.spool)
    if is_ok stat && any (named name) files then quarantine_file name else pure tt

  unfoldable pub quarantine_by_id : String → Act A Done
  quarantine_by_id id = do quarantine_existing (zst_name id); quarantine_existing (json_name id)

  -- The snapshot of a body that is not over the limit.
  abbrev pub bounded_snapshot : Option (Body A) → Option A
  bounded_snapshot none = none
  bounded_snapshot (some body) = if leb body.bytes max_snapshot_bytes then body.snapshot else none

  abbrev pub read_entry : SpoolFile A → Option A
  read_entry file =
      if leb file.size max_snapshot_bytes
      then bounded_snapshot (
          if ends_with ".zst" file.name || file.has_zstd_magic
          then file.expanded
          else some file.plain)
      else none

  -- An entry that cannot be read is quarantined and skipped.
  unfoldable pub read_pending : SpoolFile A → Act A (Option A)
  read_pending file = do
    opened ← attempt os
    elim opened [
      | err _ ↦ do quarantine_file file.name; pure none
      | ok _ ↦ elim (read_entry file) [
        | some snapshot ↦ pure (some snapshot)
        | none ↦ do quarantine_file file.name; pure none
      ]
    ]

module _ (env : Snapshots) where
  open env use {Snapshot, snapshot_id, json_length, compressed_length}

  abbrev pub spooled : ℕ → Snapshot → SpoolFile Snapshot
  spooled now snapshot =
      let body : Body Snapshot = record {
        bytes = json_length snapshot;
        snapshot = some snapshot;
      } in
      record {
        name = zst_name (snapshot_id snapshot);
        modified = now;
        size = compressed_length snapshot;
        has_zstd_magic = true;
        plain = record { bytes = compressed_length snapshot; snapshot = none };
        expanded = some body;
      }

  -- The temporary file is invisible to the readers, so only the rename shows. The time of the file is
  -- the system's.
  unfoldable pub write : ℕ → Snapshot → Act Snapshot Done
  write now snapshot = do
    guard (leb (json_length snapshot) max_snapshot_bytes) spool_capacity
    os
    modify (λ h.
        set_spool (spooled now snapshot ∷ without (zst_name (snapshot_id snapshot)) h.spool) h)
    os
