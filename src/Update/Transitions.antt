-- ===== src/Update/Transitions.antt =====
-- The ledger of src/update.rs as an abstract state machine, and what relates its steps to the
-- operations.
pub mod Begin
pub mod Finish
use lariska.Prelude.{
  ℕ, ◌+◌, ◌^◌, ◌<◌, ◌≡◌, refl, ap, ◌∙◌, String, Bool, true, false, Option, none, some, max, eq_iff,
  str_eq, if◌then◌else◌, arith, ltb,
}
use lariska.Exec.{Result, ok, err, Machine, lift, pure, expect, guard, ◌>>=◌}
use lariska.Exec.Runs.{
  Outcome, Outcome-both, Runs-pure, Runs-lift, Runs-expect, Runs-guard, Runs-bind, Runs-if,
  Runs-Moves,
}
use lariska.Update.Types.{
  UpdateConfig, ReleaseManifest, PendingUpdate, HistoryEntry, UpdateLedger, Error,
  no_update_pending, nonce_mismatch,
}
use lariska.Update.Host.{Env, World, Action, Done, written, checked_add, is_none, atomic_json}
use lariska.Update.Policy.{valid_nonce, validate_nonce, parse_version}
use lariska.Update.Ledger.{
  store_ledger, write_ledger, publish_pending_health, commit_pending, arm_health, raise_floor,
  close_ledger, clean_mailbox, finish_update, read_ledger,
}
use lariska.Update.Steps.{
  after_calls, held, IsSound, Runs-os, Runs-unix_now, Runs-atomic_json, Runs-read_ledger,
}
use lariska.Update.Mailbox.{
  OnlyMailbox, publish_pending_health-OnlyMailbox, clean_mailbox-OnlyMailbox,
}

-- The record that a transaction leaves in the history.
pub record Closes (pending : PendingUpdate) (entry : HistoryEntry) : Type 0 where
  pub nonce : entry.nonce ≡ pending.nonce
  pub version : entry.version ≡ pending.version
  pub sequence : entry.sequence ≡ pending.sequence

-- A health window of the configured length, whose end is a u64.
pub record Window (config : UpdateConfig) (pending : PendingUpdate) : Type 0 where
  pub length_set : pending.deadline ≡ pending.started_at + config.health_timeout_secs
  pub no_overflow : pending.deadline < 2 ^ 64

module _ (env : Env) (config : UpdateConfig) where
  -- The floor after a healthy update: the later version of the two, and the larger sequence.
  pub record Raised (p : PendingUpdate) (l r : UpdateLedger) : Type 0 where
    pub candidate : Env.Version env
    pub floor : Env.Version env
    pub candidate_parses : parse_version env p.version ≡ ok candidate
    pub floor_parses : parse_version env l.floor_version ≡ ok floor
    pub raised : r ≡ record l {
      floor_version = if env.version_le candidate floor then l.floor_version else p.version;
      floor_sequence = max l.floor_sequence p.sequence;
    }

  pub data LedgerStep (l l' : UpdateLedger) : Type 0 where
    begun :
        (p : PendingUpdate)
        → l.pending ≡ none
        → valid_nonce p.nonce ≡ true
        → Window config p
        → l' ≡ record l { pending = some p }
        → LedgerStep l l'
    armed :
        (p q : PendingUpdate)
        → l.pending ≡ some p
        → q.nonce ≡ p.nonce
        → q.version ≡ p.version
        → q.sequence ≡ p.sequence
        → Window config q
        → l' ≡ record l { pending = some q }
        → LedgerStep l l'
    rolled_back :
        (p : PendingUpdate) (entry : HistoryEntry)
        → l.pending ≡ some p
        → Closes p entry
        → entry.outcome ≡ "rolled_back"
        → valid_nonce entry.nonce ≡ true
        → l' ≡ close_ledger config.history_limit entry l
        → LedgerStep l l'
    succeeded :
        (p : PendingUpdate) (entry : HistoryEntry) (raised : UpdateLedger)
        → l.pending ≡ some p
        → Closes p entry
        → entry.outcome ≡ "healthy"
        → valid_nonce entry.nonce ≡ true
        → Raised p l raised
        → l' ≡ close_ledger config.history_limit entry raised
        → LedgerStep l l'

  -- What one operation does to the ledger file.
  pub data LedgerMove (w t : World) : Type 0 where
    same : t.ledger ≡ w.ledger → LedgerMove w t
    moved :
        (l l' : UpdateLedger)
        → held env w.ledger ≡ some l
        → IsSound env l
        → t.ledger ≡ written (env.ledger_size l') l'
        → LedgerStep l l'
        → LedgerMove w t

  -- A step keeps to its ledger while the mailbox is written.
  pub LedgerMove-OnlyMailbox : {w t u : World} → LedgerMove w t → OnlyMailbox t u → LedgerMove w u
  LedgerMove-OnlyMailbox (same e) b = same (b.ledger ∙ e)
  LedgerMove-OnlyMailbox (moved l l' r s h st) b = moved l l' r s (b.ledger ∙ h) st

  pub checked_add_sound : (a b : ℕ) {c : ℕ} → checked_add a b ≡ some c → (c ≡ a + b) × (c < 2 ^ 64)
  checked_add_sound a b h = ground arith

  module _ {Q : Done → World → Type 0} {R : Error → World → Type 0} (l l' : UpdateLedger)
      (w : World) (reads : held env w.ledger ≡ some l) (sound : IsSound env l)
      (step : LedgerStep l l') where
    -- A write of a successor ledger, and what follows it in the mailbox.
    pub Runs-write_ledger :
        ((t : World) → LedgerMove w t → held env t.ledger ≡ some l' → Q tt t)
        → ((e : Error) (t : World) → LedgerMove w t → R e t)
        → (m : Machine) → Outcome Q R (write_ledger env l' (after_calls w m))
    unfolding write_ledger
    Runs-write_ledger good bad m =
        Runs-atomic_json _ _ (λ a b. good _ (moved l l' reads sound refl step) refl)
          (λ e a. bad e _ (same refl)) (λ e a b. bad e _ (moved l l' reads sound refl step))

  module _ {A : Type 0} {Q : A → World → Type 0} {R : Error → World → Type 0} where
    -- All three operations check the nonce and read the ledger first.
    pub Runs-opened :
        (nonce : String) (k : UpdateLedger → Action A) (w : World)
        → ((l : UpdateLedger) (m : Machine)
            → valid_nonce nonce ≡ true
            → held env w.ledger ≡ some l
            → IsSound env l
            → Outcome Q R (k l (after_calls w m)))
        → ((e : Error) (m : Machine) → R e (after_calls w m))
        → Outcome Q R ((lift (validate_nonce nonce) >>= λ _. read_ledger env >>= k) w)
    unfolding validate_nonce
    Runs-opened nonce k w good bad = Runs-bind _ _ w (
        Runs-lift _ _
          (λ _ valid.
            Runs-bind _ _ _ (Runs-read_ledger env _ (λ l m. good l m (ground (arith, valid))) bad))
          (λ e _. bad e w.machine))

    -- Two of them then ask for the pending transaction by its nonce.
    pub Runs-identified :
        (l : UpdateLedger) (nonce : String) (k : PendingUpdate → Action A) (w : World)
        → ((p : PendingUpdate) → l.pending ≡ some p → p.nonce ≡ nonce → Outcome Q R (k p w))
        → ((e : Error) → R e w)
        → Outcome Q R (
            (expect l.pending no_update_pending >>= λ p.
            guard (str_eq p.nonce nonce) nonce_mismatch >>= λ _. k p)
              w)
    Runs-identified l nonce k w good bad = Runs-bind _ _ w (
        Runs-expect _ _ _
          (λ p found.
            Runs-bind _ _ _
              (Runs-guard _ _ _ (λ eq. good p found ((eq_iff _ _).0 eq)) (λ _. bad _)))
          (λ _. bad _))
