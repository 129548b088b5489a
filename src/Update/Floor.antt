-- ===== src/Update/Floor.antt =====
-- Proofs about the anti-rollback floor of the ledger of src/update.rs.
use lariska.Prelude.{
  ◌≤◌, ◌≡◌, refl, ap, ◌∙◌, true, some, List, [], ◌∷◌, inl, inr, Bool-cases, arith, some_unique,
  if◌then◌else◌,
}
use mathlib.Core.Path.{subst}
use lariska.Exec.{Result, ok}
use lariska.Update.Types.{UpdateConfig, PendingUpdate, UpdateLedger, Error}
use lariska.Update.Host.{Env, World}
use lariska.Update.Policy.{parse_version}
use lariska.Exec.Runs.{Outcome}
use lariska.Update.Ledger.{read_ledger}
use lariska.Update.Steps.{held, read_ledger-held}
use lariska.Update.Transitions.{
  Raised, LedgerStep, begun, armed, rolled_back, succeeded, LedgerMove, same, moved,
}
use lariska.Update.Commands.{Command, run, run_all, run-LedgerMove}

module _ (env : Env) where
  open env use {Version, version_le, version_total, version_trans}

  -- Version and sequence of the second floor are at least those of the first.
  pub record FloorRises (l l' : UpdateLedger) : Type 0 where
    pub version :
        (v : Version)
        → parse_version env l.floor_version ≡ ok v
        → (v' : Version) × (parse_version env l'.floor_version ≡ ok v') × (version_le v v' ≡ true)
    pub sequence : l.floor_sequence ≤ l'.floor_sequence

  version_le_refl : (v : Version) → version_le v v ≡ true
  version_le_refl v = elim (version_total v v) [ inl h ↦ h | inr h ↦ h ]

  pub FloorRises-same :
      {l l' : UpdateLedger}
      → l'.floor_version ≡ l.floor_version
      → l'.floor_sequence ≡ l.floor_sequence
      → FloorRises l l'
  FloorRises-same e s = record {
    version = λ v p. (v, rw e p, version_le_refl v);
    sequence = omega arith;
  }

  pub FloorRises-trans : {l m n : UpdateLedger} → FloorRises l m → FloorRises m n → FloorRises l n
  FloorRises-trans a b = record {
    version = λ v p.
        let (u, pu, vu) = a.version v p in
        let (t, pt, ut) = b.version u pu in (t, pt, version_trans v u t vu ut);
    sequence = omega (arith, a.sequence, b.sequence);
  }

  ok-injective : {u v : Version} (r : Result Error Version) → r ≡ ok u → r ≡ ok v → u ≡ v
  ok-injective r a b = cc

  module _ (config : UpdateConfig) where
    Raised-FloorRises :
        (p : PendingUpdate) (l r : UpdateLedger) → Raised env config p l r → FloorRises l r
    Raised-FloorRises p l r up = record {
      version = λ v pv.
          let same_floor = ok-injective _ pv up.floor_parses in
          elim (Bool-cases (version_le up.candidate up.floor)) [
            | inl kept ↦
                let stays : r.floor_version ≡ l.floor_version = rw kept at version_of in
                (v, rw stays pv, version_le_refl v)
            | inr new ↦
                let moves : r.floor_version ≡ p.version = rw new at version_of in
                (
                  up.candidate,
                  rw moves up.candidate_parses,
                  rw same_floor (elim (version_total up.floor up.candidate) [
                    | inl h ↦ h
                    | inr h ↦ cc (new, h)
                  ]),
                )
          ];
      sequence = omega (arith, ap (λ (x : UpdateLedger). x.floor_sequence) up.raised);
    }
      where
        version_of :
            r.floor_version
            ≡ (if version_le up.candidate up.floor then l.floor_version else p.version)
        version_of = ap (λ (x : UpdateLedger). x.floor_version) up.raised

    LedgerStep-FloorRises : (l l' : UpdateLedger) → LedgerStep env config l l' → FloorRises l l'
    LedgerStep-FloorRises l l' (begun p f v w e) = FloorRises-same (rw e refl) (rw e refl)
    LedgerStep-FloorRises l l' (armed p q f n v s w e) = FloorRises-same (rw e refl) (rw e refl)
    LedgerStep-FloorRises l l' (rolled_back p x f c o v e) = FloorRises-same (rw e refl) (rw e refl)
    LedgerStep-FloorRises l l' (succeeded p x r f c o v up e) =
        FloorRises-trans (Raised-FloorRises p l r up) (FloorRises-same (rw e refl) (rw e refl))

    -- The floor that a reader of the second state finds is at least that of the first.
    abbrev pub FloorKept : World → World → Type 0
    FloorKept w t =
        (l : UpdateLedger)
        → held env w.ledger ≡ some l
        → (l' : UpdateLedger) × (held env t.ledger ≡ some l') × FloorRises l l'

    pub LedgerMove-FloorKept : (w t : World) → LedgerMove env config w t → FloorKept w t
    LedgerMove-FloorKept w t (same e) = λ l h. (l, ap (held env) e ∙ h, FloorRises-same refl refl)
    LedgerMove-FloorKept w t (moved l l' r s h st) = λ k hk. (
      l',
      ap (held env) h,
      subst (λ x. FloorRises x l') (some_unique _ r hk) (LedgerStep-FloorRises l l' st),
    )

    run_all-FloorKept : (cs : List Command) (w : World) → FloorKept w (run_all env config cs w)
    unfolding run_all
    run_all-FloorKept [] w = λ l h. (l, h, FloorRises-same refl refl)
    run_all-FloorKept (c ∷ cs) w = λ l h.
        let (m, hm, up) = LedgerMove-FloorKept w _ (run-LedgerMove env config c w) l h in
        let (n, hn, up') = run_all-FloorKept cs (run env config c w) m hm in
        (n, hn, FloorRises-trans up up')

    -- Whatever commands run, in whatever order and with whatever failures of the operating system, if
    -- the JSON of the ledger file (or the ledger of a new installation, if there is no file) is a
    -- ledger whose floor is a version, it is one afterwards, and neither the version nor the sequence
    -- of its floor is lower than it was. `read_ledger` then returns this ledger or fails.
    pub run_all-floor :
        (cs : List Command) (w : World) (l : UpdateLedger) (v : Version)
        → held env w.ledger ≡ some l
        → parse_version env l.floor_version ≡ ok v
        → (l' : UpdateLedger) × (v' : Version) × (held env (run_all env config cs w).ledger
            ≡ some l')
          × (parse_version env l'.floor_version ≡ ok v')
          × (version_le v v' ≡ true)
          × (l.floor_sequence ≤ l'.floor_sequence)
          × Outcome (λ read _. read ≡ l') (λ _ _. Unit) (read_ledger env (run_all env config cs w))
    run_all-floor cs w l v h p =
        let (l', h', up) = run_all-FloorKept cs w l h in
        let (v', p', le) = up.version v p in
        (l', v', h', p', le, up.sequence, read_ledger-held env _ l' h')
