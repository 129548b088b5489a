-- ===== src/Settings/Examples.antt =====
-- Runs of the settings, and the theorems at these runs.
use lariska.Prelude.{
  ℕ, ◌≡◌, refl, Bool, true, false, Option, none, some, [], ◌∷◌, codes, texts_equal, if◌then◌else◌,
}
use lariska.Exec.{ok}
use lariska.Inventory.Text.{Text, trim_start, trim_end}
use lariska.Inventory.Version.{decimal}
use lariska.Inventory.Fixtures.{ascii}
use lariska.Update.Fixtures.{test_env, test_policy}
use lariska.Update.Policy.{
  validate, validate_keys, validate_emergency, validate_state_dir, validate_thumbprint,
  validate_team_id, validate_signer_pin,
}
use lariska.Settings.Config.{
  FileConfig, Config, Process, parse_u64, bounded_u64, validate_interval, validate_timeout,
  override_text, override_u64, override_bool, apply_env_overrides, validate_config,
  from_file_config, from_file_and_env,
}
use lariska.Settings.Accepted.{IsConfigured, from_file_and_env-IsConfigured}
use lariska.Settings.Managed.{
  from_config, ManagedSettings, ManagedDirective, Agent, validate_managed_interval,
  validate_managed_log_level, validate_level, validate_managed_settings, remember_rejected_settings,
  clear_rejected_settings, set_log_level, put_settings, take_settings, reject_settings,
  judge_settings, decide_settings, apply_settings, apply_all,
}
use lariska.Settings.Bounds.{InForce, apply_all-configured}
use lariska.Settings.Repeated.{apply_settings_again}

abbrev process : Process
process = record {
  var = λ name.
      if texts_equal name (codes "LARISKA_HEARTBEAT_INTERVAL_SECS")
      then some (codes "+45")
      else none;
  is_file = λ path. true;
}

abbrev file : FileConfig
file = record {
  server_url = some (codes "https://server");
  provisioning_key_file = some (codes "/etc/key");
  state_dir = some (codes "/var/lib");
  inventory_interval_secs = none;
  heartbeat_interval_secs = some 5;
  request_timeout_secs = none;
  tls_ca_file = none;
  log_level = none;
  allow_plain_http = none;
  allow_insecure_updates = none;
  inventory_full_refresh_interval_secs = none;
  max_spool_entries = none;
  updates = test_policy;
}

abbrev config : Config
config = record {
  server_url = codes "https://server";
  provisioning_key_file = codes "/etc/key";
  state_dir = codes "/var/lib";
  inventory_interval = 3600;
  heartbeat_interval = 45;
  request_timeout = 30;
  tls_ca_file = none;
  log_level = codes "info";
  allow_plain_http = false;
  allow_insecure_updates = false;
  inventory_full_refresh_interval = 86400;
  max_spool_entries = 200;
  updates = test_policy;
}

configured : Unit {0}
unfolding trim_start trim_end decimal parse_u64 bounded_u64 validate_interval validate_timeout
    override_text override_u64 override_bool apply_env_overrides validate_config from_file_config
    from_file_and_env validate validate_keys validate_emergency validate_state_dir
    validate_thumbprint validate_team_id validate_signer_pin
configured = tt

-- The environment wins over the file, whose own interval would be refused.
accepted : from_file_and_env process ascii test_env (ok file) ≡ ok config
unfolding configured
accepted = refl

from_file_and_env-IsConfigured_example : IsConfigured process test_env config
from_file_and_env-IsConfigured_example =
    from_file_and_env-IsConfigured process ascii test_env (ok file) config accepted

abbrev agent : Agent
agent = record {
  runtime = record { heartbeat_interval = 45; inventory_interval = 3600 };
  filter = some (codes "info");
  last_rejected = none;
  last_unversioned = none;
  log = [];
}

abbrev all_reload : Text → Bool
all_reload level = true

abbrev settings_of : Option ℕ → Option Text → ManagedSettings
settings_of heartbeat level = record {
  heartbeat_interval_secs = heartbeat;
  inventory_interval_secs = none;
  log_level = level;
}

abbrev directive_of : Option ℕ → ManagedSettings → ManagedDirective
directive_of revision settings = record {
  managed_settings = some settings;
  managed_revision = revision;
}

abbrev faster : ManagedSettings
faster = settings_of (some 20) (some (codes " Debug"))

abbrev slower : ManagedSettings
slower = settings_of (some 600) none

abbrev too_fast : ManagedSettings
too_fast = settings_of (some 1) none

managed : Unit {0}
unfolding configured validate_managed_interval validate_managed_log_level validate_level
    validate_managed_settings remember_rejected_settings clear_rejected_settings set_log_level
    put_settings take_settings reject_settings judge_settings decide_settings apply_settings
    apply_all from_config
managed = tt

-- The level is normalized; what is out of range is refused whole.
directives_taken :
    (apply_all all_reload ascii
      (directive_of (some 7) faster ∷ directive_of (some 8) too_fast ∷ [])
      (none, agent)).0
    ≡ some 7
unfolding managed
directives_taken = refl

-- Settings without a revision that were taken once are not taken again after others.
unversioned_lost :
    (apply_all all_reload ascii
      (directive_of none faster ∷ directive_of (some 5) slower ∷ directive_of none faster ∷ [])
      (none, agent)).1.runtime.heartbeat_interval
    ≡ 600
unfolding managed
unversioned_lost = refl

started : agent.runtime ≡ from_config config
unfolding managed
started = refl

apply_all-configured_example :
    InForce agent.filter
      (apply_all all_reload ascii
        (directive_of (some 7) faster ∷ directive_of none slower ∷ [])
        (none, agent)).1
apply_all-configured_example =
    apply_all-configured process ascii test_env all_reload (ok file) config agent
      (directive_of (some 7) faster ∷ directive_of none slower ∷ []) none accepted started

apply_settings_again_example :
    apply_settings all_reload ascii
      (directive_of none faster)
      (apply_settings all_reload ascii (directive_of none faster) (some 3) agent).0
      (apply_settings all_reload ascii (directive_of none faster) (some 3) agent).1
    ≡ apply_settings all_reload ascii (directive_of none faster) (some 3) agent
apply_settings_again_example =
    apply_settings_again all_reload ascii (directive_of none faster) (some 3) agent
