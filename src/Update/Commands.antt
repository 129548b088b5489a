-- ===== src/Update/Commands.antt =====
-- The three operations on the ledger as commands, in any order and number, with any answers of the
-- operating system.
use lariska.Prelude.{String, Bool, List, [], ◌∷◌}
use lariska.Exec.Runs.{Outcome-both, Runs-imp}
use lariska.Update.Types.{UpdateConfig, ReleaseManifest}
use lariska.Update.Host.{Env, World}
use lariska.Update.Ledger.{commit_pending, arm_health, finish_update}
use lariska.Update.Transitions.{LedgerMove}
use lariska.Update.Transitions.Begin.{commit_pending-Outcome, arm_health-Outcome}
use lariska.Update.Transitions.Finish.{finish_update-Outcome}

pub data Command : Type 0 where
  commit : ReleaseManifest → String → Command
  arm : String → Command
  finish : String → Bool → String → Command

module _ (env : Env) (config : UpdateConfig) where
  -- A command runs to its end or to its first error.
  unfoldable pub run : Command → World → World
  run (commit manifest nonce) w = (commit_pending env config manifest nonce w).1
  run (arm nonce) w = (arm_health env config nonce w).1
  run (finish nonce ok reason) w = (finish_update env config nonce ok reason w).1

  unfoldable pub run_all : List Command → World → World
  run_all [] w = w
  run_all (c ∷ cs) w = run_all cs (run c w)

  -- Every command leaves the ledger file alone or makes one step of the abstract machine.
  pub run-LedgerMove : (c : Command) (w : World) → LedgerMove env config w (run c w)
  unfolding run
  run-LedgerMove (commit manifest nonce) w =
      Outcome-both _ (
        Runs-imp _ (commit_pending-Outcome env config manifest nonce w) (λ _ _ h. h.0) (λ _ _ h. h))
  run-LedgerMove (arm nonce) w =
      Outcome-both _
        (Runs-imp _ (arm_health-Outcome env config nonce w) (λ _ _ h. h.0) (λ _ _ h. h))
  run-LedgerMove (finish nonce ok reason) w =
      Outcome-both _ (
        Runs-imp _ (finish_update-Outcome env config nonce ok reason w) (λ _ _ h. h.0) (λ _ _ h. h))
