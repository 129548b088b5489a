-- ===== src/Delivery/Network.antt =====
-- Proofs about the spool of src/delivery/spool.rs and the network.
use lariska.Prelude.{◌≡◌, refl, ◌∙◌, String, not}
use lariska.Exec.{called}
use lariska.Exec.Moves.{IsPreorder, Moves, Moves-guard, moves_rules}
use lariska.Delivery.Host.{spool_io, SpoolFile, Host, os}
use lariska.Delivery.Spool.{move_aside, quarantine_file, quarantine_existing, quarantine_by_id}

-- The files may differ, the network does not.
pub record SameNetwork {A : Type 0} (h t : Host A) : Type 0 where
  pub network : t.network ≡ h.network

module _ {A : Type 0} where
  pub SameNetwork-preorder : IsPreorder (SameNetwork {A = A})
  SameNetwork-preorder = record {
    stay = λ h. record { network = refl };
    chain = λ s t u a b. record { network = b.network ∙ a.network };
  }

  pub os-SameNetwork : Moves (SameNetwork {A = A}) os
  unfolding os
  os-SameNetwork = record {
    at = λ h.
        let k =
          (Moves-guard SameNetwork-preorder (not (h.machine.fails h.machine.calls)) spool_io).at
            (record h { machine = called h.machine }) in
        record { network = k.network };
  }

  pub quarantine_file-SameNetwork :
      (name : String) → Moves (SameNetwork {A = A}) (quarantine_file name)
  unfolding quarantine_file
  quarantine_file-SameNetwork name =
      search (moves_rules, SameNetwork-preorder, os-SameNetwork, moved) depth 20
    where
      moved : (file : SpoolFile A) (h : Host A) → SameNetwork h (move_aside file h)
      moved file h = record { network = refl }

  pub quarantine_by_id-SameNetwork :
      (id : String) → Moves (SameNetwork {A = A}) (quarantine_by_id id)
  unfolding quarantine_by_id quarantine_existing
  quarantine_by_id-SameNetwork id =
      search (moves_rules, SameNetwork-preorder, os-SameNetwork, quarantine_file-SameNetwork) depth
        24
