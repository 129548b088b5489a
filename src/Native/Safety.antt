-- ===== src/Native/Safety.antt =====
-- Proofs about the ledger file over any run of the supervisor of src/native_update.rs.
use lariska.Prelude.{◌≡◌, refl, ◌≤◌, true, some, String, Bool, List, [], ◌∷◌}
use lariska.Exec.{ok}
use lariska.Exec.Moves.{IsPreorder}
use lariska.Update.Types.{UpdateConfig, ReleaseManifest, UpdateLedger}
use lariska.Update.Host.{Env, World, Release}
use lariska.Update.Policy.{parse_version}
use lariska.Exec.Runs.{Outcome}
use lariska.Update.Ledger.{read_ledger}
use lariska.Update.Steps.{held, read_ledger-held}
use lariska.Update.Floor.{FloorKept, FloorRises-same, FloorRises-trans, LedgerMove-FloorKept}
use lariska.Update.History.{HoldsSound, ReadsSound, HoldsSound-ReadsSound, LedgerMove-HoldsSound}
use lariska.Native.Supervisor.{begin_turn, consider}
use lariska.Native.Turns.{begin_turn-R, consider-R}

-- What may happen to a supervisor: a turn of its loop begins, or a request of the endpoint is
-- considered. Either may stop at an error, and the next may be of another process.
pub data Event : Type 0 where
  turn : Event
  request : String → Release → Event

module _ (env : Env) (config : UpdateConfig)
    (native_signed : ReleaseManifest → Release → Bool) where
  unfoldable pub happen : Event → World → World
  happen turn w = (begin_turn env config native_signed w).1
  happen (request nonce release) w = (consider env config native_signed nonce release w).1

  unfoldable pub happen_all : List Event → World → World
  happen_all [] w = w
  happen_all (e ∷ es) w = happen_all es (happen e w)

  FloorKept-preorder : IsPreorder (FloorKept env config)
  FloorKept-preorder = record {
    stay = λ w l h. (l, h, FloorRises-same env refl refl);
    chain = λ s t u a b l h.
        let (m, hm, up) = a l h in
        let (n, hn, up') = b m hm in (n, hn, FloorRises-trans env up up');
  }

  happen_all-FloorKept : (es : List Event) (w : World) → FloorKept env config w (happen_all es w)
  unfolding happen_all happen
  happen_all-FloorKept [] w = FloorKept-preorder.stay w
  happen_all-FloorKept (turn ∷ es) w =
      FloorKept-preorder.chain w (happen turn w) (happen_all (turn ∷ es) w)
        ((begin_turn-R env config native_signed FloorKept-preorder
            (LedgerMove-FloorKept env config)).at
          w)
        (happen_all-FloorKept es (happen turn w))
  happen_all-FloorKept (request nonce release ∷ es) w =
      FloorKept-preorder.chain w (happen (request nonce release) w)
        (happen_all (request nonce release ∷ es) w)
        ((consider-R env config native_signed FloorKept-preorder (LedgerMove-FloorKept env config)
            nonce release).at
          w)
        (happen_all-FloorKept es (happen (request nonce release) w))

  -- Whatever turns begin and whatever requests are considered, in any order and with any failures, if
  -- the JSON of the ledger file (or the ledger of a new installation, if there is no file) is a ledger
  -- whose floor is a version, it is one afterwards, and neither the version nor the sequence of its
  -- floor is lower than it was. `read_ledger` then returns this ledger or fails.
  pub happen_all-floor :
      (es : List Event) (w : World) (l : UpdateLedger) (v : Env.Version env)
      → held env w.ledger ≡ some l
      → parse_version env l.floor_version ≡ ok v
      → (l' : UpdateLedger) × (v' : Env.Version env) × (held env (happen_all es w).ledger ≡ some l')
        × (parse_version env l'.floor_version ≡ ok v')
        × (Env.version_le env v v' ≡ true)
        × (l.floor_sequence ≤ l'.floor_sequence)
        × Outcome (λ read _. read ≡ l') (λ _ _. Unit) (read_ledger env (happen_all es w))
  happen_all-floor es w l v h p =
      let (l', h', up) = happen_all-FloorKept es w l h in
      let (v', p', le) = up.version v p in
      (l', v', h', p', le, up.sequence, read_ledger-held env _ l' h')

  module _ (fits : config.history_limit ≤ 100) where
    SoundKept-preorder : IsPreorder (λ w t. HoldsSound env w → HoldsSound env t)
    SoundKept-preorder = record { stay = λ w h. h; chain = λ s t u a b h. b (a h) }

    happen_all-HoldsSound :
        (es : List Event) (w : World) → HoldsSound env w → HoldsSound env (happen_all es w)
    unfolding happen_all happen
    happen_all-HoldsSound [] w h = h
    happen_all-HoldsSound (turn ∷ es) w h = happen_all-HoldsSound es (happen turn w) (
        (begin_turn-R env config native_signed SoundKept-preorder
            (LedgerMove-HoldsSound env config fits)).at
          w h)
    happen_all-HoldsSound (request nonce release ∷ es) w h =
        happen_all-HoldsSound es (happen (request nonce release) w) (
          (consider-R env config native_signed SoundKept-preorder
              (LedgerMove-HoldsSound env config fits) nonce release).at
            w h)

    -- If the configured history is at most 100 records, the JSON of the ledger file is a sound
    -- ledger (the floor is a version, the history is at most 100 records, and every nonce in it is
    -- valid), and the file is missing or regular and at most 256 KiB long, or this ledger as
    -- serde_json writes it is longer than that; then after any turns and requests, in any order
    -- and with any failures, the JSON is a sound ledger again, and `read_ledger` returns it if no
    -- call fails, unless this ledger as serde_json writes it is longer than 256 KiB.
    pub happen_all-ReadsSound :
        (es : List Event) (w : World) → HoldsSound env w → ReadsSound env (happen_all es w)
    happen_all-ReadsSound es w h =
        HoldsSound-ReadsSound env (happen_all es w) (happen_all-HoldsSound es w h)
