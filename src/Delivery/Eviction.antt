-- ===== src/Delivery/Eviction.antt =====
-- Proofs about `enforce_limit` of src/delivery/spool.rs.
use lariska.Prelude.{
  Bool-cases, false, ℕ, ◌+◌, ◌-◌, ◌^◌, ◌≤◌, ◌<◌, ◌≡◌, refl, sym, ap, ◌∙◌, ◌⊎◌, inl, inr, String,
  true, ◌&&◌, List, [], ◌∷◌, ◌++◌, leb, length, map, max, min, retain, all, arith,
}
use mathlib.Core.List.{append_assoc, append-nil}
use lariska.Exec.{Machine}
use lariska.Exec.Runs.{
  Outcome, Runs-pure, Runs-guard, Runs-gets, Runs-if, Runs-bind, Runs-modify, Runs-imp,
}
use lariska.Delivery.Host.{Failure, SpoolFile, Host, Done, os, set_spool}
use lariska.Delivery.Age.{no_older, Sorted, sort_by_age-Sorted, no_older-append}
use lariska.Delivery.Spool.{
  max_spool_bytes, is_spool_file, without, sort_by_age, pending_files, saturating_add, total_bytes,
  remove_file, snapshot_id_from_name, evict, enforce_limit,
}

module _ {A : Type 0} where
  abbrev pub size_of : List (SpoolFile A) → ℕ
  size_of [] = 0
  size_of (file ∷ files) = file.size + size_of files

  abbrev pub remove_all : List (SpoolFile A) → List (SpoolFile A) → List (SpoolFile A)
  remove_all [] spool = spool
  remove_all (file ∷ files) spool = remove_all files (without file.name spool)

  abbrev pub ids : List (SpoolFile A) → List String
  ids = map (λ file. snapshot_id_from_name file.name)

  -- What is kept is within the limits, or is a single entry.
  abbrev pub Within : ℕ → List (SpoolFile A) → Type 0
  Within max_entries kept =
      ((length kept ≤ max_entries) × (size_of kept ≤ max_spool_bytes)) ⊎ (length kept ≤ 1)

  abbrev pub Over : ℕ → List (SpoolFile A) → Type 0
  Over max_entries files = (max_entries < length files) ⊎ (max_spool_bytes < size_of files)

  -- Each of `gone`, with what is after it, is over one of the limits.
  abbrev pub Needed : ℕ → List (SpoolFile A) → List (SpoolFile A) → Type 0
  Needed max_entries [] kept = Unit
  Needed max_entries (file ∷ gone) kept =
      Over max_entries (file ∷ gone ++ kept) × Needed max_entries gone kept

  -- From `spool` to `left`, the oldest of `files` are removed, each while the limits were exceeded, and
  -- at least one is kept.
  pub record Evicted (max_entries : ℕ) (files spool left : List (SpoolFile A)) : Type 0 where
    pub gone : List (SpoolFile A)
    pub kept : List (SpoolFile A)
    pub oldest : files ≡ gone ++ kept
    pub needed : Needed max_entries gone kept
    pub older : all (λ x. no_older x kept) gone ≡ true
    pub some_kept : min (length files) 1 ≤ length kept
    pub removed : left ≡ remove_all gone spool

  nothing :
      (max_entries : ℕ) (files spool : List (SpoolFile A)) → Evicted max_entries files spool spool
  nothing max_entries files spool = record {
    gone = [];
    kept = files;
    oldest = refl;
    needed = tt;
    older = refl;
    some_kept = omega arith;
    removed = refl;
  }

  Evicted-more :
      (max_entries : ℕ) (file : SpoolFile A) (files spool left : List (SpoolFile A))
      → Sorted (file ∷ files)
      → 1 < length (file ∷ files)
      → Over max_entries (file ∷ files)
      → Evicted max_entries files (without file.name spool) left
      → Evicted max_entries (file ∷ files) spool left
  Evicted-more max_entries file files spool left sorted many over e = record {
    gone = file ∷ e.gone;
    kept = e.kept;
    oldest = ap (λ xs. file ∷ xs) e.oldest;
    needed = (rw (← e.oldest) over, e.needed);
    older = ground (arith, e.older, no_older-append file e.gone e.kept (rw (← e.oldest) sorted.0));
    some_kept = omega (arith, e.some_kept, many);
    removed = e.removed;
  }

  module _ {Q : Done → Host A → Type 0} {R : Failure → Host A → Type 0} where
    Runs-os :
        (h : Host A)
        → ((m : Machine) → Q tt (record h { machine = m }))
        → ((e : Failure) (m : Machine) → R e (record h { machine = m }))
        → Outcome Q R (os h)
    unfolding os
    Runs-os h good bad = Runs-guard _ _ _ (λ _. good _) (λ _. bad _ _)

  module _ {Q : Done → Host A → Type 0} {R : Failure → Host A → Type 0} where
    Runs-remove_file :
        (name : String) (h : Host A)
        → ((m : Machine) → Q tt (set_spool (without name h.spool) (record h { machine = m })))
        → ((e : Failure) (m : Machine) → R e (record h { machine = m }))
        → Outcome Q R (remove_file name h)
    unfolding remove_file
    Runs-remove_file name h good bad =
        Runs-bind _ _ h (Runs-os h (λ m. Runs-modify _ _ (good m)) bad)

  abbrev Answered :
      ℕ → List (SpoolFile A) → List String → List (SpoolFile A) → List String → Host A → Type 0
  Answered max_entries files before spool answer t =
      (e : Evicted max_entries files spool t.spool) × (answer ≡ before ++ ids e.gone)
      × Within max_entries e.kept

  limits-Over :
      {max_entries remaining total : ℕ} (files : List (SpoolFile A))
      → (leb remaining max_entries && leb total max_spool_bytes) ≡ false
      → remaining ≡ length files
      → total ≡ size_of files
      → Over max_entries files
  limits-Over {max_entries} {remaining} {total} files full count bytes =
      elim (Bool-cases (leb remaining max_entries)) [
        | inl few ↦ inr (ground (arith, full, few, bytes))
        | inr many ↦ inl (ground (arith, many, count))
      ]

  evict-Outcome :
      (max_entries remaining total : ℕ) (files : List (SpoolFile A)) (evicted : List String)
      (h : Host A)
      → remaining ≡ length files
      → total ≡ size_of files
      → Sorted files
      → Outcome
          (Answered max_entries files evicted h.spool)
          (λ _ t. Evicted max_entries files h.spool t.spool)
          (evict max_entries remaining total files evicted h)
  unfolding evict nothing Evicted-more
  evict-Outcome max_entries remaining total [] evicted h count bytes sorted =
      Runs-pure _ h (nothing max_entries [] h.spool, sym (append-nil evicted), inr (omega arith))
  evict-Outcome max_entries remaining total (file ∷ files) evicted h count bytes sorted =
      Runs-if (leb remaining max_entries && leb total max_spool_bytes) _ _ h
        (λ fits. Runs-pure _ h (
          nothing max_entries (file ∷ files) h.spool,
          sym (append-nil evicted),
          inl (ground (arith, fits, count), ground (arith, fits, bytes)),
        ))
        (λ full.
          Runs-if (leb remaining 1) _ _ h
            (λ single. Runs-pure _ h (
              nothing max_entries (file ∷ files) h.spool,
              sym (append-nil evicted),
              inr (ground (arith, single, count)),
            ))
            (λ many.
              let more : 1 < length (file ∷ files) = ground (arith, many, count) in
              let over : Over max_entries (file ∷ files) =
                limits-Over (file ∷ files) full count bytes in
              Runs-bind _ _ h (
                Runs-remove_file file.name h
                  (λ _. Runs-bind _ _ _ (
                    Runs-os _
                      (λ m.
                        Runs-imp _
                          (evict-Outcome max_entries (remaining - 1) (total - file.size) files
                            (evicted ++ snapshot_id_from_name file.name ∷ []) _
                            (omega (arith, count)) (omega (arith, bytes)) sorted.1)
                          (λ answer t (e, named, within). (
                            Evicted-more max_entries file files h.spool t.spool sorted more over e,
                            named ∙ append_assoc evicted _ _,
                            within,
                          ))
                          (λ _ t e.
                            Evicted-more max_entries file files h.spool t.spool sorted more over e))
                      (λ _ _.
                        Evicted-more max_entries file files h.spool _ sorted more over
                          (nothing max_entries files _))))
                  (λ _ _. nothing max_entries (file ∷ files) h.spool))))

  total_bytes-size_of :
      (total : ℕ) (files : List (SpoolFile A))
      → total + size_of files < 2 ^ 64
      → total_bytes total files ≡ total + size_of files
  total_bytes-size_of total [] fits = omega arith
  total_bytes-size_of total (file ∷ files) fits =
      let step : saturating_add total file.size ≡ total + file.size = omega (arith, fits) in
      ap (λ n. total_bytes n files) step
      ∙ total_bytes-size_of (total + file.size) files (omega (arith, fits))
      ∙ omega arith

  total_bytes_lem :
      (files : List (SpoolFile A)) → size_of files < 2 ^ 64 → total_bytes 0 files ≡ size_of files
  total_bytes_lem files fits =
      let h : total_bytes 0 files ≡ 0 + size_of files =
        total_bytes-size_of 0 files (omega (arith, fits)) in
      omega (arith, h)

  -- The entries of the directory, oldest first.
  abbrev pub entries_of : List (SpoolFile A) → List (SpoolFile A)
  entries_of spool = sort_by_age (retain (λ file. is_spool_file file.name) spool)

  entries_of-Sorted : (spool : List (SpoolFile A)) → Sorted (entries_of spool)
  entries_of-Sorted spool = sort_by_age-Sorted (retain (λ file. is_spool_file file.name) spool)

  -- If the entries are less than 2^64 bytes, `enforce_limit` removes some of them and nothing else,
  -- none of them newer than one that it keeps, each while it and the entries after it were over the
  -- limit of entries (counted as at least one) or of bytes, and it keeps one if there was one. If
  -- it returns, it names those that it removed, and the others are within both limits, or are a
  -- single entry.
  pub enforce_limit-Evicted :
      (max_entries : ℕ) (h : Host A)
      → size_of (entries_of h.spool) < 2 ^ 64
      → Outcome
          (λ answer t.
            (e : Evicted (max max_entries 1) (entries_of h.spool) h.spool t.spool) × (answer
              ≡ ids e.gone)
            × Within (max max_entries 1) e.kept)
          (λ _ t. Evicted (max max_entries 1) (entries_of h.spool) h.spool t.spool)
          (enforce_limit max_entries h)
  unfolding enforce_limit pending_files
  enforce_limit-Evicted max_entries h fits = Runs-bind _ _ h (
      Runs-bind _ _ h (
        Runs-os h
          (λ m. Runs-bind _ _ _ (
            Runs-gets _ _ (
              Runs-pure _ _ (
                evict-Outcome (max max_entries 1) _ _ (entries_of h.spool) [] _ refl
                  (total_bytes_lem (entries_of h.spool) fits) (entries_of-Sorted h.spool)))))
          (λ _ _. nothing _ _ h.spool)))
