-- ===== src/Delivery/Restart.antt =====
-- Proofs about the accepted state of src/delivery/state.rs and its file.
use lariska.Prelude.{
  ℕ, ◌≡◌, ◌≢◌, refl, true, false, some, leb, to_ascii_lowercase, some_unique, ap, ◌∙◌, arith,
}
use lariska.Exec.{ok, called}
use lariska.Exec.Runs.{
  Outcome-returns, Outcome, Outcome-split, Runs-pure, Runs-guard, Runs-modify, Runs-bind,
  Runs-guard_bind, Runs-gets, Runs-expect_bind,
}
use lariska.Delivery.Host.{Snapshots, AcceptedState, Host, Failure, Done, os}
use lariska.Delivery.State.{
  max_state_bytes, is_digest, check_document, load_file, load, document_of, put_state, store,
}

module _ (env : Snapshots) where
  open env use {Snapshot, document_length}

  -- What a store leaves on the disk.
  store-Outcome :
      (state : AcceptedState) (h : Host Snapshot)
      → Outcome
          (λ _ t.
            (leb (document_length (document_of env state)) max_state_bytes ≡ true)
            × (t.state_file ≡ (put_state env state h).state_file)
            × (t.machine.fails ≡ h.machine.fails))
          (λ _ _. Unit {0})
          (store env state h)
  unfolding store os
  store-Outcome state h =
      Runs-guard_bind _ _ _ h
        (λ fits. Runs-bind _ _ h (
          Runs-guard _ _ _
            (λ _.
              Runs-bind _ _ _
                (Runs-modify _ _ (Runs-guard _ _ _ (λ _. (fits, refl, refl)) (λ _. tt))))
            (λ _. tt)))
        (λ _. tt)

  -- What a reader makes of a state that was stored.
  abbrev pub restored : AcceptedState → AcceptedState
  restored state = record {
    digest = to_ascii_lowercase state.digest;
    accepted_at_unix_secs = state.accepted_at_unix_secs;
  }

  Runs-quiet :
      {Q : Done → Host Snapshot → Type 0} {R : Failure → Host Snapshot → Type 0} (h : Host Snapshot)
      → ((n : ℕ) → h.machine.fails n ≡ false)
      → Q tt (record h { machine = called h.machine })
      → Outcome Q R (os h)
  unfolding os
  Runs-quiet h calm good =
      Runs-guard _ _ _ (λ _. good) (λ fails. absurd (ground (arith, fails, calm h.machine.calls)))

  load-Outcome :
      (state : AcceptedState) (h : Host Snapshot)
      → leb (document_length (document_of env state)) max_state_bytes ≡ true
      → h.state_file ≡ (put_state env state h).state_file
      → ((n : ℕ) → h.machine.fails n ≡ false)
      → is_digest state.digest ≡ true
      → state.accepted_at_unix_secs ≢ 0
      → Outcome (λ found _. found ≡ some (restored state)) (λ _ _. ⊥) (load h)
  unfolding load load_file check_document
  load-Outcome state h fits file calm digest time = Runs-bind _ _ h (
      Runs-quiet h calm (
        Runs-bind _ _ _ (
          Runs-gets _ _ (
            rw file (
              Runs-bind _ _ _ (
                Runs-quiet _ calm (
                  Runs-guard_bind _ _ _ _
                    (λ _.
                      Runs-expect_bind _ _ _ _
                        (λ d found. rw (← some_unique _ refl found) (
                          Runs-guard_bind _ _ _ _
                            (λ _.
                              Runs-guard_bind _ _ _ _
                                (λ _.
                                  Runs-guard_bind _ _ _ _ (λ _. Runs-pure _ _ refl)
                                    (λ zero_time. absurd (ground (arith, time, zero_time))))
                                (λ bad. absurd (ground (arith, digest, bad))))
                            (λ bad. absurd (ground (arith, bad)))))
                        (λ none_found. absurd (ground (arith, none_found))))
                    (λ bad. absurd (ground (arith, fits, bad))))))))))

  -- If no call of the operating system fails and the store of a state with a SHA-256 digest and a time
  -- that is not 0 returns, the next read returns that state, its digest in lower case.
  pub load-store :
      (state : AcceptedState) (h : Host Snapshot)
      → ((n : ℕ) → h.machine.fails n ≡ false)
      → is_digest state.digest ≡ true
      → state.accepted_at_unix_secs ≢ 0
      → (store env state h).0 ≡ ok tt
      → (load (store env state h).1).0 ≡ ok (some (restored state))
  load-store state h calm digest time done =
      let (fits, file, same) = (Outcome-split _ (store-Outcome state h)).0 tt done in
      Outcome-returns _ (
        load-Outcome state (store env state h).1 fits file (λ n. ap (λ f. f n) same ∙ calm n) digest
          time)
