-- ===== src/Settings/Config.antt =====
-- src/config.rs: the configuration file, the environment that overrides it, and the checks.
use lariska.Prelude.{
  ℕ, ◌^◌, Bool, true, false, not, ◌&&◌, Option, none, some, [], ◌∷◌, codes, ltb, ◌==◌,
  if◌then◌else◌, all, in_range, is_empty, is_ascii_digit, texts_equal,
}
use lariska.Exec.{Result, ok, err}
use lariska.Exec.Fallible.{◌>>=◌, ◌>>◌, require}
use lariska.Inventory.Text.{Text, Unicode, trim}
use lariska.Inventory.Version.{decimal}
use lariska.Update.Types.{UpdateConfig, Error}
use lariska.Update.Host.{Env}
use lariska.Update.Policy.{validate}

abbrev pub min_interval_secs : ℕ
min_interval_secs = 10

abbrev pub max_interval_secs : ℕ
max_interval_secs = 86400

abbrev pub min_timeout_secs : ℕ
min_timeout_secs = 1

abbrev pub max_timeout_secs : ℕ
max_timeout_secs = 300

abbrev pub min_max_spool_entries : ℕ
min_max_spool_entries = 1

abbrev pub max_max_spool_entries : ℕ
max_max_spool_entries = 10000

abbrev default_inventory_interval_secs : ℕ
default_inventory_interval_secs = 3600

abbrev default_heartbeat_interval_secs : ℕ
default_heartbeat_interval_secs = 60

abbrev default_request_timeout_secs : ℕ
default_request_timeout_secs = 30

abbrev default_full_refresh_interval_secs : ℕ
default_full_refresh_interval_secs = 86400

abbrev default_max_spool_entries : ℕ
default_max_spool_entries = 200

-- A constructor for each message.
pub data ConfigError : Type 0 where
  unreadable_file bad_toml needs_https bad_scheme no_key_file : ConfigError
  not_an_integer not_a_boolean missing out_of_range : Text → ConfigError
  bad_updates : Error → ConfigError

-- Durations are seconds.
pub record FileConfig : Type 0 where
  pub server_url : Option Text
  pub provisioning_key_file : Option Text
  pub state_dir : Option Text
  pub inventory_interval_secs : Option ℕ
  pub heartbeat_interval_secs : Option ℕ
  pub request_timeout_secs : Option ℕ
  pub tls_ca_file : Option Text
  pub log_level : Option Text
  pub allow_plain_http : Option Bool
  pub allow_insecure_updates : Option Bool
  pub inventory_full_refresh_interval_secs : Option ℕ
  pub max_spool_entries : Option ℕ
  pub updates : UpdateConfig

pub record Config : Type 0 where
  pub server_url : Text
  pub provisioning_key_file : Text
  pub state_dir : Text
  pub inventory_interval : ℕ
  pub heartbeat_interval : ℕ
  pub request_timeout : ℕ
  pub tls_ca_file : Option Text
  pub log_level : Text
  pub allow_plain_http : Bool
  pub allow_insecure_updates : Bool
  pub inventory_full_refresh_interval : ℕ
  pub max_spool_entries : ℕ
  pub updates : UpdateConfig

abbrev pub unwrap_or : {A : Type 0} → A → Option A → A
unwrap_or default' none = default'
unwrap_or default' (some a) = a

abbrev pub keep_if : (Text → Bool) → Option Text → Option Text
keep_if p none = none
keep_if p (some value) = if p value then some value else none

abbrev pub ok_or : Option Text → ConfigError → Result ConfigError Text
ok_or none e = err e
ok_or (some value) e = ok value

abbrev pub starts_with : Text → Text → Bool
starts_with [] text = true
starts_with (p ∷ prefix) [] = false
starts_with (p ∷ prefix) (c ∷ text) = (p == c) && starts_with prefix text

abbrev digits_u64 : Text → Option ℕ
digits_u64 digits =
    let value = decimal 0 digits in
    if not (is_empty digits) && all is_ascii_digit digits && ltb value (2 ^ 64)
    then some value
    else none

-- `parse::<u64>()`: a plus sign may stand before the digits.
unfoldable pub parse_u64 : Text → Option ℕ
unfolding decimal
parse_u64 [] = none
parse_u64 (c ∷ cs) = if c == b'+' then digits_u64 cs else digits_u64 (c ∷ cs)

unfoldable pub bounded_u64 : Text → ℕ → ℕ → ℕ → Result ConfigError ℕ
bounded_u64 name value min' max' = do
  require (in_range min' max' value) (out_of_range name)
  ok value

unfoldable pub validate_interval : Text → ℕ → Result ConfigError (Unit {0})
validate_interval name value =
    require (in_range min_interval_secs max_interval_secs value) (out_of_range name)

unfoldable pub validate_timeout : Text → ℕ → Result ConfigError (Unit {0})
validate_timeout name value =
    require (in_range min_timeout_secs max_timeout_secs value) (out_of_range name)

abbrev pub updates_checked : Result Error (Unit {0}) → Result ConfigError (Unit {0})
updates_checked (ok done) = ok done
updates_checked (err e) = err (bad_updates e)

-- The values that were checked, and the defaults of the others.
abbrev config_of : FileConfig → Text → Text → Text → ℕ → Config
config_of values server_url provisioning_key_file state_dir max_spool_entries = record {
  server_url = server_url;
  provisioning_key_file = provisioning_key_file;
  state_dir = state_dir;
  inventory_interval = unwrap_or default_inventory_interval_secs values.inventory_interval_secs;
  heartbeat_interval = unwrap_or default_heartbeat_interval_secs values.heartbeat_interval_secs;
  request_timeout = unwrap_or default_request_timeout_secs values.request_timeout_secs;
  tls_ca_file = values.tls_ca_file;
  log_level = unwrap_or (codes "info") values.log_level;
  allow_plain_http = unwrap_or false values.allow_plain_http;
  allow_insecure_updates = unwrap_or false values.allow_insecure_updates;
  inventory_full_refresh_interval =
      unwrap_or default_full_refresh_interval_secs values.inventory_full_refresh_interval_secs;
  max_spool_entries = max_spool_entries;
  updates = values.updates;
}

-- `var` is the environment, `is_file` asks the file system.
pub record Process : Type 0 where
  pub var : Text → Option Text
  pub is_file : Text → Bool

module _ (process : Process) where
  open process use {var, is_file}

  unfoldable pub override_text : Option Text → Text → Option Text
  override_text target name = elim (var name) [ none ↦ target | some value ↦ some value ]

  unfoldable pub override_u64 : Option ℕ → Text → Result ConfigError (Option ℕ)
  override_u64 target name = elim (var name) [
    | none ↦ ok target
    | some value ↦ elim (parse_u64 value) [
      | none ↦ err (not_an_integer name)
      | some n ↦ ok (some n)
    ]
  ]

  unfoldable pub override_bool : Option Bool → Text → Result ConfigError (Option Bool)
  override_bool target name = elim (var name) [
    | none ↦ ok target
    | some value ↦
        if texts_equal value (codes "true")
        then ok (some true)
        else if texts_equal value (codes "false")
        then ok (some false)
        else err (not_a_boolean name)
  ]

  unfoldable pub apply_env_overrides : FileConfig → Result ConfigError FileConfig
  apply_env_overrides values = do
    inventory ←
        override_u64 values.inventory_interval_secs (codes "LARISKA_INVENTORY_INTERVAL_SECS")
    heartbeat ←
        override_u64 values.heartbeat_interval_secs (codes "LARISKA_HEARTBEAT_INTERVAL_SECS")
    timeout ← override_u64 values.request_timeout_secs (codes "LARISKA_REQUEST_TIMEOUT_SECS")
    plain ← override_bool values.allow_plain_http (codes "LARISKA_ALLOW_PLAIN_HTTP")
    refresh ←
        override_u64 values.inventory_full_refresh_interval_secs
          (codes "LARISKA_INVENTORY_FULL_REFRESH_INTERVAL_SECS")
    entries ← override_u64 values.max_spool_entries (codes "LARISKA_MAX_SPOOL_ENTRIES")
    ok (record values {
      server_url = override_text values.server_url (codes "LARISKA_SERVER_URL");
      provisioning_key_file =
          override_text values.provisioning_key_file (codes "LARISKA_PROVISIONING_KEY_FILE");
      state_dir = override_text values.state_dir (codes "LARISKA_STATE_DIR");
      tls_ca_file = override_text values.tls_ca_file (codes "LARISKA_TLS_CA_FILE");
      log_level = override_text values.log_level (codes "LARISKA_LOG_LEVEL");
      inventory_interval_secs = inventory;
      heartbeat_interval_secs = heartbeat;
      request_timeout_secs = timeout;
      allow_plain_http = plain;
      inventory_full_refresh_interval_secs = refresh;
      max_spool_entries = entries;
    })

  module _ (unicode : Unicode) (env : Env) where
    abbrev pub blank_url : Text → Bool
    blank_url value = is_empty (trim unicode value)

    unfoldable pub validate_config : Config → Result ConfigError (Unit {0})
    validate_config config = do
      updates_checked (validate env config.updates)
      require (not (blank_url config.server_url)) (missing (codes "server_url"))
      require
          (not
            (not config.allow_plain_http && not (starts_with (codes "https://") config.server_url)))
          needs_https
      require
          (not (
            config.allow_plain_http
            && not (starts_with (codes "http://") config.server_url)
            && not (starts_with (codes "https://") config.server_url)))
          bad_scheme
      require (is_file config.provisioning_key_file) no_key_file
      validate_interval (codes "inventory_interval") config.inventory_interval
      validate_interval (codes "heartbeat_interval") config.heartbeat_interval
      validate_timeout (codes "request_timeout") config.request_timeout
      validate_interval (codes "inventory_full_refresh_interval")
          config.inventory_full_refresh_interval

    unfoldable pub from_file_config : FileConfig → Result ConfigError Config
    from_file_config values = do
      server_url ←
          ok_or (keep_if (λ value. not (blank_url value)) values.server_url)
            (missing (codes "server_url"))
      provisioning_key_file ←
          ok_or (keep_if (λ value. not (is_empty value)) values.provisioning_key_file)
            (missing (codes "provisioning_key_file"))
      state_dir ←
          ok_or (keep_if (λ value. not (is_empty value)) values.state_dir)
            (missing (codes "state_dir"))
      max_spool_entries ←
          bounded_u64 (codes "max_spool_entries")
            (unwrap_or default_max_spool_entries values.max_spool_entries) min_max_spool_entries
            max_max_spool_entries
      let config = config_of values server_url provisioning_key_file state_dir max_spool_entries
      validate_config config
      ok config

    -- `file` is what reading and parsing the file gives.
    unfoldable pub from_file_and_env : Result ConfigError FileConfig → Result ConfigError Config
    from_file_and_env file = do
      values ← file
      overridden ← apply_env_overrides values
      from_file_config overridden
