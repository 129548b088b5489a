-- ===== src/Update/Mailbox.antt =====
-- Proofs about the mailbox calls of src/update.rs (`publish_pending_health`, and the cleanup of
-- `finish_update`): what they leave alone.
use lariska.Prelude.{◌≡◌, refl, ◌∙◌, not, Bool, true}
use lariska.Exec.{called, ok, err}
use lariska.Exec.Moves.{IsPreorder, Moves, Moves-bind, Moves-guard, moves_rules}
use lariska.Update.Types.{PendingUpdate, io_error}
use lariska.Update.Host.{Env, World, os, atomic_json}
use lariska.Update.Ledger.{
  open_shared, remove_shared, no_health, no_pending_health, publish_pending_health,
  store_pending_health, clean_mailbox,
}

-- The two states differ in the mailbox and in the machine at most.
pub record OnlyMailbox (w t : World) : Type 0 where
  pub ledger : t.ledger ≡ w.ledger
  pub journal : t.journal ≡ w.journal
  pub cache : t.cache ≡ w.cache
  pub native : t.native ≡ w.native
  pub working : t.working ≡ w.working

pub OnlyMailbox-preorder : IsPreorder OnlyMailbox
OnlyMailbox-preorder = record {
  stay = λ w. record { ledger = refl; journal = refl; cache = refl; native = refl; working = refl };
  chain = λ w t u a b. record {
    ledger = b.ledger ∙ a.ledger;
    journal = b.journal ∙ a.journal;
    cache = b.cache ∙ a.cache;
    native = b.native ∙ a.native;
    working = b.working ∙ a.working;
  };
}

pub os-OnlyMailbox : Moves OnlyMailbox os
unfolding os
os-OnlyMailbox = record {
  at = λ w.
      let k =
        (Moves-guard OnlyMailbox-preorder (not (w.machine.fails w.machine.calls)) io_error).at
          (record w { machine = called w.machine }) in
      record {
        ledger = k.ledger;
        journal = k.journal;
        cache = k.cache;
        native = k.native;
        working = k.working;
      };
}

module _ (f : World → World) (k : (w : World) → OnlyMailbox w (f w)) where
  atomic_json-OnlyMailbox : Moves OnlyMailbox (atomic_json f)
  unfolding atomic_json
  atomic_json-OnlyMailbox = search (moves_rules, OnlyMailbox-preorder, os-OnlyMailbox, k) depth 8

  remove_shared-OnlyMailbox : Moves OnlyMailbox (remove_shared f)
  unfolding remove_shared
  remove_shared-OnlyMailbox = search (moves_rules, OnlyMailbox-preorder, os-OnlyMailbox, k) depth 8

open_shared-OnlyMailbox : (create : Bool) → Moves OnlyMailbox (open_shared create)
unfolding open_shared
open_shared-OnlyMailbox create =
    search (moves_rules, OnlyMailbox-preorder, os-OnlyMailbox, shared_made) depth 8
  where
    shared_made : (w : World) → OnlyMailbox w (record w { shared = true })
    shared_made w = record {
      ledger = refl;
      journal = refl;
      cache = refl;
      native = refl;
      working = refl;
    }

no_health-OnlyMailbox : (w : World) → OnlyMailbox w (no_health w)
no_health-OnlyMailbox w = record {
  ledger = refl;
  journal = refl;
  cache = refl;
  native = refl;
  working = refl;
}

no_pending_health-OnlyMailbox : (w : World) → OnlyMailbox w (no_pending_health w)
no_pending_health-OnlyMailbox w = record {
  ledger = refl;
  journal = refl;
  cache = refl;
  native = refl;
  working = refl;
}

ruleset mailbox_rules = (
  moves_rules, OnlyMailbox-preorder, os-OnlyMailbox, open_shared-OnlyMailbox,
  remove_shared-OnlyMailbox, atomic_json-OnlyMailbox, no_health-OnlyMailbox,
  no_pending_health-OnlyMailbox,
)

module _ (env : Env) where
  pub publish_pending_health-OnlyMailbox :
      (p : PendingUpdate) → Moves OnlyMailbox (publish_pending_health env p)
  unfolding publish_pending_health
  publish_pending_health-OnlyMailbox p = search (mailbox_rules, stored) depth 8
    where
      stored : (w : World) → OnlyMailbox w (store_pending_health env p w)
      stored w = record {
        ledger = refl;
        journal = refl;
        cache = refl;
        native = refl;
        working = refl;
      }

pub clean_mailbox-OnlyMailbox : Moves OnlyMailbox clean_mailbox
unfolding clean_mailbox
clean_mailbox-OnlyMailbox =
    Moves-bind OnlyMailbox-preorder _ _ (search mailbox_rules)
      (elim [ ok a ↦ search mailbox_rules depth 8 | err e ↦ search mailbox_rules ])
