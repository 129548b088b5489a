-- ===== src/Settings/Accepted.antt =====
-- Proofs about the configuration that `from_file_and_env` of src/config.rs returns.
use lariska.Prelude.{ℕ, ◌≤◌, ◌≡◌, refl, ◌⊎◌, true, codes, arith}
use lariska.Exec.{Result, ok, err}
use lariska.Exec.Fallible.{◌>>=◌}
use lariska.Inventory.Text.{Unicode}
use lariska.Update.Types.{Error}
use lariska.Update.Host.{Env}
use lariska.Update.Policy.{validate}
use lariska.Settings.Config.{
  ConfigError, FileConfig, Config, Process, min_interval_secs, max_interval_secs, min_timeout_secs,
  max_timeout_secs, min_max_spool_entries, max_max_spool_entries, starts_with, updates_checked,
  bounded_u64, validate_interval, validate_timeout, validate_config, apply_env_overrides,
  from_file_config, from_file_and_env,
}

abbrev pub IsInterval : ℕ → Type 0
IsInterval seconds = (min_interval_secs ≤ seconds) × (seconds ≤ max_interval_secs)

pub record IsConfigured (process : Process) (env : Env) (config : Config) : Type 0 where
  pub inventory : IsInterval config.inventory_interval
  pub heartbeat : IsInterval config.heartbeat_interval
  pub refresh : IsInterval config.inventory_full_refresh_interval
  pub timeout :
      (min_timeout_secs ≤ config.request_timeout) × (config.request_timeout ≤ max_timeout_secs)
  pub spool :
      (min_max_spool_entries ≤ config.max_spool_entries)
      × (config.max_spool_entries ≤ max_max_spool_entries)
  pub encrypted :
      (starts_with (codes "https://") config.server_url ≡ true)
      ⊎ ((config.allow_plain_http ≡ true)
          × (starts_with (codes "http://") config.server_url ≡ true))
  pub key_file : process.is_file config.provisioning_key_file ≡ true
  pub updates : validate env config.updates ≡ ok tt

-- What a bind that succeeds has done.
pub >>=-ok :
    {E A B : Type 0} (m : Result E A) (f : A → Result E B) {b : B}
    → (m >>= f) ≡ ok b
    → (a : A) × (m ≡ ok a) × (f a ≡ ok b)
>>=-ok (ok a) f h = (a, refl, h)
>>=-ok (err e) f h = cc

updates_accepted : (r : Result Error (Unit {0})) → updates_checked r ≡ ok tt → r ≡ ok tt
updates_accepted (ok done) h = refl
updates_accepted (err e) h = cc

module _ (process : Process) (unicode : Unicode) (env : Env) where
  validate_config-parts :
      (config : Config)
      → validate_config process unicode env config ≡ ok tt
      → (min_max_spool_entries ≤ config.max_spool_entries)
        × (config.max_spool_entries ≤ max_max_spool_entries)
      → IsConfigured process env config
  unfolding validate_config validate_interval validate_timeout
  validate_config-parts config h spool =
      ground (arith, updates_accepted (validate env config.updates))

  from_file_config-parts :
      (values : FileConfig) (config : Config)
      → from_file_config process unicode env values ≡ ok config
      → (validate_config process unicode env config ≡ ok tt)
        × (min_max_spool_entries ≤ config.max_spool_entries)
        × (config.max_spool_entries ≤ max_max_spool_entries)
  unfolding from_file_config bounded_u64
  from_file_config-parts values config h = ground arith

  -- A configuration that `from_file_and_env` accepts, whatever the file and the environment say, has
  -- its intervals, its timeout and its spool limit within their bounds, an https address or an http
  -- one that was allowed, a key file that is there, and an update policy that is valid.
  pub from_file_and_env-IsConfigured :
      (file : Result ConfigError FileConfig) (config : Config)
      → from_file_and_env process unicode env file ≡ ok config
      → IsConfigured process env config
  unfolding from_file_and_env
  from_file_and_env-IsConfigured file config h =
      let (values, read, h1) = >>=-ok file _ h in
      let (overridden, applied, h2) = >>=-ok (apply_env_overrides process values) _ h1 in
      let parts = from_file_config-parts overridden config h2 in
      validate_config-parts config parts.0 (parts.1, parts.2)
