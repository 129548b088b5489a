-- ===== src/Native/Receipts.antt =====
-- Proofs about the receipts of consumed nonces of src/native_update.rs, and about their pruning.
use mathlib.Core.List.{Memᴰ}
use lariska.Prelude.{
  ℕ, ◌≤◌, ◌≡◌, refl, ap, ◌⊎◌, inl, inr, String, Bool, true, false, Option, none, some, List, [],
  ◌∷◌, length, if◌then◌else◌, Bool-cases, Option-cases, some_unique, arith,
}
use lariska.Exec.{Result, ok, err, Machine}
use lariska.Exec.Runs.{
  Outcome, Runs-pure, Runs-bind, Runs-modify, Runs-gets_bind, Runs-guard_bind, Runs-lift_bind,
}
use lariska.Update.Types.{UpdateConfig, ReleaseManifest, UpdateLedger, Error}
use lariska.Update.Host.{Env, World, Release, Done, ConsumedRequest}
use lariska.Update.Steps.{held, after_calls, Runs-read_ledger, Runs-atomic_json}
use lariska.Native.Journal.{
  set_consumed, receipt, parse_semver, is_replayable, replayable, prune_consumed, write_journal,
  save_journal,
}
use lariska.Native.Supervisor.{accept_request_with}

Result-cases : {E A : Type 0} (r : Result E A) → ((a : A) × (r ≡ ok a)) ⊎ ((e : E) × (r ≡ err e))
Result-cases (ok a) = inl (a, refl)
Result-cases (err e) = inr (e, refl)

Mem-if :
    {A : Type 0} {x : A} {ys : List A} (y : A) (b : Bool)
    → Memᴰ x ys
    → Memᴰ x (if b then y ∷ ys else ys)
Mem-if y true m = Memᴰ.tail m
Mem-if y false m = m

module _ (env : Env) (config : UpdateConfig)
    (native_signed : ReleaseManifest → Release → Bool) where
  pub accept_request_with_consumed :
      (nonce : String) (request : Release) (w : World) (r : ConsumedRequest)
      → receipt nonce w.working.consumed ≡ some r
      → Outcome
          (λ _ _. ⊥)
          (λ _ t. t ≡ w)
          (accept_request_with env config native_signed nonce request w)
  unfolding accept_request_with
  accept_request_with_consumed nonce request w r known =
      Runs-guard_bind _ _ _ w
        (λ _.
          Runs-gets_bind _ _ w
            (Runs-guard_bind _ _ _ w (λ fresh. absurd (ground (arith, fresh, known))) (λ _. refl)))
        (λ _. refl)

module _ (env : Env) where
  replayable-cons :
      (floor : Env.Version env) (sequence : ℕ) (x : ConsumedRequest)
      (xs kept : List ConsumedRequest)
      → replayable env floor sequence (x ∷ xs) ≡ ok kept
      → (u : Env.Version env) × (rest : List ConsumedRequest) × (env.parse x.version ≡ some u)
        × (replayable env floor sequence xs ≡ ok rest)
        × (kept ≡ (if is_replayable env floor sequence u x then x ∷ rest else rest))
  unfolding replayable
  replayable-cons floor sequence x xs kept h = elim (Option-cases (env.parse x.version)) [
    | inl e ↦ absurd (ground (arith, h, e))
    | inr (u, e) ↦ elim (Result-cases (replayable env floor sequence xs)) [
      | inl (rest, k) ↦ (u, rest, e, k, ground (arith, h, e, k))
      | inr (x, k) ↦ absurd (ground (arith, h, e, k))
    ]
  ]

  replayable-Mem :
      (floor : Env.Version env) (sequence : ℕ) (xs kept : List ConsumedRequest)
      {r : ConsumedRequest} {u : Env.Version env}
      → replayable env floor sequence xs ≡ ok kept
      → Memᴰ r xs
      → env.parse r.version ≡ some u
      → is_replayable env floor sequence u r ≡ true
      → Memᴰ r kept
  replayable-Mem floor sequence [] kept h m p k = elim m [ ]
  replayable-Mem floor sequence (x ∷ xs) kept {r} {u} h (Memᴰ.head e) p k =
      let (v, rest, pv, _, shape) = replayable-cons floor sequence x xs kept h in
      let same : v ≡ u = some_unique _ pv (rw (← e) p) in
      let stays : kept ≡ x ∷ rest = rw shape (rw same (rw (← e) (ground (arith, k)))) in
      rw stays (Memᴰ.head e)
  replayable-Mem floor sequence (x ∷ xs) kept {r} {u} h (Memᴰ.tail m) p k =
      let (v, rest, _, later, shape) = replayable-cons floor sequence x xs kept h in
      let m' : Memᴰ r rest = replayable-Mem floor sequence xs rest later m p k in
      rw shape (Mem-if x (is_replayable env floor sequence v x) m')

  length-replayable-le :
      (floor : Env.Version env) (sequence : ℕ) (xs kept : List ConsumedRequest)
      → replayable env floor sequence xs ≡ ok kept
      → length kept ≤ length xs
  unfolding replayable
  length-replayable-le floor sequence [] kept h = ground (arith, h)
  length-replayable-le floor sequence (x ∷ xs) kept h =
      let (v, rest, _, later, shape) = replayable-cons floor sequence x xs kept h in
      let ih = length-replayable-le floor sequence xs rest later in
      elim (Bool-cases (is_replayable env floor sequence v x)) [
        | inl b ↦ ground (arith, shape, b, ih)
        | inr b ↦ ground (arith, shape, b, ih)
      ]

  -- The receipts that the floor of the ledger file does not refuse are among `kept`.
  abbrev pub KeepsReplayable : World → List ConsumedRequest → Type 0
  KeepsReplayable w kept =
      (l : UpdateLedger) (f u : Env.Version env) (r : ConsumedRequest)
      → held env w.ledger ≡ some l
      → env.parse l.floor_version ≡ some f
      → env.parse r.version ≡ some u
      → Memᴰ r w.working.consumed
      → is_replayable env f l.floor_sequence u r ≡ true
      → Memᴰ r kept

  module _ {Q : Done → World → Type 0} {R : Error → World → Type 0} where
    pub Runs-save_journal :
        (w : World)
        → ((t : World) → t.working ≡ w.working → Q tt t)
        → ((e : Error) (t : World) → t.working ≡ w.working → R e t)
        → Outcome Q R (save_journal env w)
    unfolding save_journal write_journal
    Runs-save_journal w good bad = Runs-gets_bind _ _ w (
        Runs-guard_bind _ _ _ w
          (λ _.
            Runs-atomic_json _ w (λ _ _. good _ refl) (λ e _. bad e _ refl) (λ e _ _. bad e _ refl))
          (λ _. bad _ w refl))

  module _ {Q : Done → World → Type 0} {R : Error → World → Type 0} where
    pub Runs-prune_consumed :
        (emergency : Option String) (w : World)
        → ((kept : List ConsumedRequest) (m : Machine)
            → KeepsReplayable w kept
            → length kept ≤ length w.working.consumed
            → Q tt (set_consumed kept (after_calls w m)))
        → ((e : Error) (m : Machine) → R e (after_calls w m))
        → Outcome Q R (prune_consumed env emergency w)
    unfolding prune_consumed
    Runs-prune_consumed (some v) w good bad =
        Runs-pure _ w (good w.working.consumed w.machine (λ _ _ _ _ _ _ _ m _. m) (omega arith))
    Runs-prune_consumed none w good bad = Runs-bind _ _ w (
        Runs-read_ledger env w
          (λ l m reads _.
            Runs-lift_bind _ _ _
              (λ f pf. Runs-gets_bind _ _ _ (
                Runs-lift_bind _ _ _
                  (λ kept pk. Runs-modify _ _ (
                    good kept m (still l f kept reads pf pk)
                      (length-replayable-le f l.floor_sequence _ kept pk)))
                  (λ e _. bad e m)))
              (λ e _. bad e m))
          bad)
      where
        still :
            (l : UpdateLedger) (f : Env.Version env) (kept : List ConsumedRequest)
            → held env w.ledger ≡ some l
            → parse_semver env l.floor_version ≡ ok f
            → replayable env f l.floor_sequence w.working.consumed ≡ ok kept
            → KeepsReplayable w kept
        still l f kept reads pf pk k g u r reads' pg pu m holds =
            let e : k ≡ l = some_unique _ reads' reads in
            let same : g ≡ f = some_unique _ pg (
              rw e (elim (Option-cases (env.parse l.floor_version)) [
                | inl q ↦ absurd (ground (arith, pf, q))
                | inr (x, q) ↦ ground (arith, pf, q)
              ])) in
            replayable-Mem f l.floor_sequence _ kept pk m pu
              (rw (← ap (λ (x : UpdateLedger). x.floor_sequence) e) (rw (← same) holds))
