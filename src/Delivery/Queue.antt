-- ===== src/Delivery/Queue.antt =====
-- Proofs about `enqueue_if_needed` of src/delivery/mod.rs.
use lariska.Prelude.{
  ℕ, ◌-◌, ◌++◌, refl, String, ◌&&◌, Option, none, some, List, [], ◌∷◌, leb, if◌then◌else◌,
}
use lariska.Exec.{pure, ◌>>◌}
use lariska.Exec.Moves.{Moves, Moves-bind, Moves-if, Moves-pure, moves_rules}
use lariska.Delivery.Host.{Snapshots, AcceptedState, SpoolFile, Host, os, set_spool}
use lariska.Delivery.Spool.{
  max_spool_bytes, snapshot_id_from_name, without, zst_name, pending_files, remove_file, evict,
  enforce_limit, spooled, write,
}
use lariska.Delivery.Network.{SameNetwork, SameNetwork-preorder, os-SameNetwork}
use lariska.Delivery.Worker.{
  Limits, now_unix_secs, due_since, due_for_submission, enqueue, enqueue_if_needed,
}

module _ {A : Type 0} where
  remove_file-SameNetwork : (name : String) → Moves (SameNetwork {A = A}) (remove_file name)
  unfolding remove_file
  remove_file-SameNetwork name =
      search (moves_rules, SameNetwork-preorder, os-SameNetwork, removed) depth 12
    where
      removed : (h : Host A) → SameNetwork h (set_spool (without name h.spool) h)
      removed h = record { network = refl }

  evict-SameNetwork :
      (max_entries remaining total : ℕ) (files : List (SpoolFile A)) (evicted : List String)
      → Moves (SameNetwork {A = A}) (evict max_entries remaining total files evicted)
  unfolding evict
  evict-SameNetwork max_entries remaining total [] evicted = Moves-pure SameNetwork-preorder _
  evict-SameNetwork max_entries remaining total (file ∷ files) evicted =
      Moves-if SameNetwork-preorder (leb remaining max_entries && leb total max_spool_bytes)
        (pure evicted)
        (if leb remaining 1 then pure evicted else (do
          remove_file file.name
          os
          evict max_entries (remaining - 1) (total - file.size) files
              (evicted ++ snapshot_id_from_name file.name ∷ [])))
        (Moves-pure SameNetwork-preorder evicted)
        (Moves-if SameNetwork-preorder (leb remaining 1) _ _
          (Moves-pure SameNetwork-preorder evicted)
          (Moves-bind SameNetwork-preorder _ _ (remove_file-SameNetwork file.name) (λ _.
            Moves-bind SameNetwork-preorder _ _ os-SameNetwork (λ _.
              evict-SameNetwork max_entries (remaining - 1) (total - file.size) files
                (evicted ++ snapshot_id_from_name file.name ∷ [])))))

  enforce_limit-SameNetwork :
      (max_entries : ℕ) → Moves (SameNetwork {A = A}) (enforce_limit max_entries)
  unfolding enforce_limit pending_files
  enforce_limit-SameNetwork max_entries =
      search (moves_rules, SameNetwork-preorder, os-SameNetwork, evict-SameNetwork) depth 20

  now_unix_secs-SameNetwork : Moves (SameNetwork {A = A}) now_unix_secs
  unfolding now_unix_secs pure
  now_unix_secs-SameNetwork = record { at = λ h. record { network = refl } }

module _ (env : Snapshots) (jitter : ℕ → ℕ) (limits : Limits) where
  open env use {Snapshot, snapshot_id, content_digest}

  write-SameNetwork : (now : ℕ) (snapshot : Snapshot) → Moves SameNetwork (write env now snapshot)
  unfolding write
  write-SameNetwork now snapshot =
      search (moves_rules, SameNetwork-preorder, os-SameNetwork, stored) depth 12
    where
      stored :
          (h : Host Snapshot)
          → SameNetwork h (
              set_spool
                (spooled env now snapshot ∷ without (zst_name (snapshot_id snapshot)) h.spool)
                h)
      stored h = record { network = refl }

  due_since-SameNetwork :
      (digest : List ℕ) (last : Option AcceptedState)
      → Moves SameNetwork (due_since env jitter limits digest last)
  unfolding due_since
  due_since-SameNetwork digest none = search (moves_rules, SameNetwork-preorder)
  due_since-SameNetwork digest (some last) =
      search (moves_rules, SameNetwork-preorder, now_unix_secs-SameNetwork) depth 12

  enqueue-SameNetwork :
      (now : ℕ) (snapshot : Snapshot) → Moves SameNetwork (enqueue env jitter limits now snapshot)
  unfolding enqueue
  enqueue-SameNetwork now snapshot =
      search
        (moves_rules, SameNetwork-preorder, write-SameNetwork, enforce_limit-SameNetwork, marked)
        depth 20
    where
      marked :
          (h : Host Snapshot)
          → SameNetwork h (record h { last_enqueued = some (content_digest snapshot) })
      marked h = record { network = refl }

  -- `enqueue_if_needed` sends nothing and asks for no token, whatever it does.
  pub enqueue_if_needed-SameNetwork :
      (now : ℕ) (snapshot : Snapshot) (h : Host Snapshot)
      → SameNetwork h (enqueue_if_needed env jitter limits now snapshot h).1
  unfolding enqueue_if_needed due_for_submission
  enqueue_if_needed-SameNetwork now snapshot h = all.at h
    where
      all : Moves SameNetwork (enqueue_if_needed env jitter limits now snapshot)
      all =
          search (moves_rules, SameNetwork-preorder, due_since-SameNetwork, enqueue-SameNetwork)
            depth 30
