-- ===== src/Update/History.antt =====
-- Proofs about the history of the ledger of src/update.rs, and about what a read finds after the
-- operations that write the ledger.
use lariska.Prelude.{
  ℕ, zero, suc, ◌-◌, ◌≤◌, ◌<◌, ◌≡◌, refl, ap, ◌∙◌, String, Bool, true, false, none, some, List, [],
  ◌∷◌, ◌++◌, length, last, drop, all, length-append, length-drop, last-snoc, arith, ◌⊎◌, inl, inr,
  Bool-cases, leb, some_unique, if◌then◌else◌,
}
use lariska.Exec.{ok}
use lariska.Update.Types.{UpdateConfig, HistoryEntry, PendingUpdate, UpdateLedger}
use lariska.Update.Host.{Env, World, written}
use lariska.Update.Policy.{parse_version, valid_nonce}
use lariska.Update.Ledger.{
  max_ledger_bytes, remember, close_ledger, history_nonces_valid, finish_update,
}
use lariska.Update.Steps.{held, IsSound}
use lariska.Update.Reading.{IsRead, IsAdmitted, admitted_reads}
use lariska.Update.Transitions.{
  Raised, LedgerStep, begun, armed, rolled_back, succeeded, LedgerMove, same, moved,
}
use lariska.Exec.Runs.{Outcome-split}
use lariska.Update.Transitions.Finish.{outcome_name, finish_update-Outcome}
use lariska.Update.Commands.{Command, run, run_all, run-LedgerMove}

module _ {ℓ} {A : Type ℓ} (p : A → Bool) where
  all-drop : (n : ℕ) (xs : List A) → all p xs ≡ true → all p (drop n xs) ≡ true
  all-drop zero xs h = h
  all-drop (suc n) [] h = h
  all-drop (suc n) (x ∷ xs) h = all-drop n xs (ground arith)

  all-snoc : (xs : List A) (x : A) → all p xs ≡ true → p x ≡ true → all p (xs ++ x ∷ []) ≡ true
  all-snoc [] x h hx = ground arith
  all-snoc (y ∷ ys) x h hx = ground (arith, all-snoc ys x)

last-drop {ℓ} : {A : Type ℓ} (n : ℕ) (xs : List A) → n < length xs → last (drop n xs) ≡ last xs
last-drop zero xs h = refl
last-drop (suc n) [] h = absurd (omega arith)
last-drop (suc n) (x ∷ []) h = absurd (omega arith)
last-drop (suc n) (x ∷ y ∷ ys) h = last-drop n (y ∷ ys) (omega arith)

length-remember-le :
    (limit : ℕ) (entry : HistoryEntry) (history : List HistoryEntry)
    → length (remember limit entry history) ≤ limit
length-remember-le limit entry history =
    omega (arith, length-drop (length (history ++ entry ∷ []) - limit) (history ++ entry ∷ []))

pub last-remember :
    (limit : ℕ) (entry : HistoryEntry) (history : List HistoryEntry)
    → 0 < limit
    → last (remember limit entry history) ≡ some entry
last-remember limit entry history h =
    last-drop _ (history ++ entry ∷ []) (omega (arith, length-append history (entry ∷ [])))
    ∙ last-snoc history entry

remember-nonces :
    (limit : ℕ) (entry : HistoryEntry) (history : List HistoryEntry)
    → history_nonces_valid history ≡ true
    → valid_nonce entry.nonce ≡ true
    → history_nonces_valid (remember limit entry history) ≡ true
remember-nonces limit entry history h v =
    all-drop _ _ (history ++ entry ∷ []) (all-snoc _ history entry h (ground (arith, v)))

Raised-parses :
    (env : Env) (config : UpdateConfig) (p : PendingUpdate) (l r : UpdateLedger)
    → (up : Raised env config p l r) (b : Bool)
    → (v : Env.Version env) × (parse_version env (if b then l.floor_version else p.version) ≡ ok v)
Raised-parses env config p l r up true = (up.floor, up.floor_parses)
Raised-parses env config p l r up false = (up.candidate, up.candidate_parses)

-- If the configured history is not empty and `finish_update` returns, the ledger file holds a ledger
-- whose last record has the nonce and the outcome given, whose history is within the limit, and which
-- has nothing pending.
pub finish_update-history :
    (env : Env) (config : UpdateConfig) (nonce : String) (healthy : Bool) (reason : String)
    (w : World)
    → 0 < config.history_limit
    → (finish_update env config nonce healthy reason w).0 ≡ ok tt
    → (l : UpdateLedger) × (entry : HistoryEntry) × (held env
          (finish_update env config nonce healthy reason w).1.ledger
        ≡ some l)
      × (last l.history ≡ some entry)
      × (entry.nonce ≡ nonce)
      × (entry.outcome ≡ outcome_name healthy)
      × (length l.history ≤ config.history_limit)
      × (l.pending ≡ none)
finish_update-history env config nonce healthy reason w pos done =
    let f =
      ((Outcome-split _ (finish_update-Outcome env config nonce healthy reason w)).0 tt done).1 in
    (
      close_ledger config.history_limit f.entry f.closed,
      f.entry,
      f.stored,
      last-remember config.history_limit f.entry f.closed.history pos,
      f.closes.nonce ∙ f.nonce_kept,
      f.outcome_kept,
      length-remember-le config.history_limit f.entry f.closed.history,
      refl,
    )

-- If the JSON of the ledger file is a ledger and `finish_update` returns for a transaction that is
-- rolled back, the version and the sequence of the floor are as they were.
finish_update_unhealthy-floor :
    (env : Env) (config : UpdateConfig) (nonce reason : String) (w : World) (b : UpdateLedger)
    → held env w.ledger ≡ some b
    → (finish_update env config nonce false reason w).0 ≡ ok tt
    → (l : UpdateLedger) × (held env (finish_update env config nonce false reason w).1.ledger
        ≡ some l)
      × (l.floor_version ≡ b.floor_version)
      × (l.floor_sequence ≡ b.floor_sequence)
finish_update_unhealthy-floor env config nonce reason w b reads done =
    let f =
      ((Outcome-split _ (finish_update-Outcome env config nonce false reason w)).0 tt done).1 in
    let e : f.closed ≡ b = f.unraised refl ∙ some_unique _ f.reads reads in
    (
      close_ledger config.history_limit f.entry f.closed,
      f.stored,
      ap (λ (x : UpdateLedger). x.floor_version) e,
      ap (λ (x : UpdateLedger). x.floor_sequence) e,
    )

-- The JSON of the ledger file is a sound ledger, and the file is missing, or regular and at most 256 KiB
-- long; or this ledger as serde_json writes it is longer than that.
abbrev pub HoldsSound : Env → World → Type 0
HoldsSound env w =
    (l : UpdateLedger) × (held env w.ledger ≡ some l)
    × IsSound env l
    × (IsAdmitted env w.ledger ⊎ (max_ledger_bytes < env.ledger_size l))

-- The same with the read itself: `read_ledger` returns this ledger if no call fails.
abbrev pub ReadsSound : Env → World → Type 0
ReadsSound env w =
    (l : UpdateLedger) × (held env w.ledger ≡ some l)
    × IsSound env l
    × (IsRead env w l ⊎ (max_ledger_bytes < env.ledger_size l))

pub HoldsSound-ReadsSound : (env : Env) (w : World) → HoldsSound env w → ReadsSound env w
HoldsSound-ReadsSound env w (l, h, s, inl k) = (l, h, s, inl (admitted_reads env _ l w refl h k s))
HoldsSound-ReadsSound env w (l, h, s, inr over) = (l, h, s, inr over)

written-IsAdmitted :
    (env : Env) (l : UpdateLedger)
    → IsAdmitted env (written (env.ledger_size l) l) ⊎ (max_ledger_bytes < env.ledger_size l)
written-IsAdmitted env l = elim (Bool-cases (leb (env.ledger_size l) max_ledger_bytes)) [
  | inl short ↦ inl (refl, short)
  | inr long ↦ inr (ground (arith, long))
]

module _ (env : Env) (config : UpdateConfig) (fits : config.history_limit ≤ 100) where
  LedgerStep-IsSound :
      (l l' : UpdateLedger) → LedgerStep env config l l' → IsSound env l → IsSound env l'
  LedgerStep-IsSound l l' (begun p f v w e) s =
      rw e (record { floor_parses = s.floor_parses; bounded = s.bounded; nonces = s.nonces })
  LedgerStep-IsSound l l' (armed p q f n v sq w e) s =
      rw e (record { floor_parses = s.floor_parses; bounded = s.bounded; nonces = s.nonces })
  LedgerStep-IsSound l l' (rolled_back p x f c o v e) s = rw e (record {
    floor_parses = s.floor_parses;
    bounded = omega (arith, length-remember-le config.history_limit x l.history);
    nonces = remember-nonces config.history_limit x l.history s.nonces v;
  })
  LedgerStep-IsSound l l' (succeeded p x r f c o v up e) s =
      rw (e ∙ ap (close_ledger config.history_limit x) up.raised) (record {
        floor_parses = Raised-parses env config p l r up _;
        bounded = omega (arith, length-remember-le config.history_limit x l.history);
        nonces = remember-nonces config.history_limit x l.history s.nonces v;
      })

  pub LedgerMove-HoldsSound :
      (w t : World) → LedgerMove env config w t → HoldsSound env w → HoldsSound env t
  LedgerMove-HoldsSound w t (same e) (l, h, s, k) = (l, ap (held env) e ∙ h, s, rw e k)
  LedgerMove-HoldsSound w t (moved l l' r s h st) _ =
      (l', ap (held env) h, LedgerStep-IsSound l l' st s, rw h (written-IsAdmitted env l'))

  run_all-HoldsSound :
      (cs : List Command) (w : World) → HoldsSound env w → HoldsSound env (run_all env config cs w)
  unfolding run_all
  run_all-HoldsSound [] w h = h
  run_all-HoldsSound (c ∷ cs) w h =
      run_all-HoldsSound cs (run env config c w)
        (LedgerMove-HoldsSound w _ (run-LedgerMove env config c w) h)

  -- If the configured history is at most 100 records, the JSON of the ledger file is a sound
  -- ledger (the floor is a version, the history is at most 100 records, and every nonce in it is
  -- valid), and the file is missing or regular and at most 256 KiB long, or this ledger as
  -- serde_json writes it is longer than that; then after any commands, in any order and with any
  -- failures, the JSON is a sound ledger again, and `read_ledger` returns it if no call fails,
  -- unless this ledger as serde_json writes it is longer than 256 KiB.
  pub run_all-ReadsSound :
      (cs : List Command) (w : World) → HoldsSound env w → ReadsSound env (run_all env config cs w)
  run_all-ReadsSound cs w h =
      HoldsSound-ReadsSound env (run_all env config cs w) (run_all-HoldsSound cs w h)
