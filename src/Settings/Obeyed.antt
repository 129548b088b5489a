-- ===== src/Settings/Obeyed.antt =====
-- Proofs about the revision that `apply_settings` of src/managed.rs acknowledges.
use lariska.Prelude.{ℕ, ◌≡◌, refl, Bool, true, Option, none, some, ==_iff, arith}
use lariska.Exec.{ok}
use lariska.Inventory.Text.{Text, Unicode}
use lariska.Inventory.Snapshot.{same_version}
use lariska.Inventory.Rows.{texts_equal_refl}
use lariska.Settings.Managed.{
  ManagedSettings, Agent, same_number, same_settings, interval_or, validate_managed_settings,
}

pub same_number_refl : (n : Option ℕ) → same_number n n ≡ true
same_number_refl none = refl
same_number_refl (some n) = (==_iff n n).1 refl

same_version_refl : (v : Option Text) → same_version v v ≡ true
same_version_refl none = refl
same_version_refl (some v) = texts_equal_refl v

pub same_settings_refl : (settings : ManagedSettings) → same_settings settings settings ≡ true
same_settings_refl settings = ground (
  arith,
  same_number_refl settings.heartbeat_interval_secs,
  same_number_refl settings.inventory_interval_secs,
  same_version_refl settings.log_level,
)

-- What `agent` publishes once it has taken the settings.
abbrev pub Obeys : ManagedSettings → Agent → Agent → Type 0
Obeys validated before after =
    (after.runtime.heartbeat_interval
      ≡ interval_or before.runtime.heartbeat_interval validated.heartbeat_interval_secs)
    × (after.runtime.inventory_interval
        ≡ interval_or before.runtime.inventory_interval validated.inventory_interval_secs)

module _ (reloads : Text → Bool) (unicode : Unicode) where
  abbrev Acknowledged : Option ℕ → ManagedSettings → Agent → ℕ → Agent → Type 0
  Acknowledged revision settings agent r after =
      (validated : ManagedSettings) × (validate_managed_settings unicode settings ≡ ok validated)
      × (revision ≡ some r)
      × Obeys validated agent after
