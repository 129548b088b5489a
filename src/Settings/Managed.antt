-- ===== src/Settings/Managed.antt =====
-- src/managed.rs: the settings that the server decides, and how the agent takes them.
use lariska.Prelude.{
  ℕ, Bool, true, false, ◌&&◌, Option, none, some, List, [], ◌∷◌, codes, ◌==◌, if◌then◌else◌, any,
  in_range, texts_equal, to_ascii_lowercase,
}
use lariska.Exec.{Result, ok, err}
use lariska.Exec.Fallible.{◌>>=◌, ◌>>◌, require}
use lariska.Inventory.Text.{Text, Unicode, trim}
use lariska.Inventory.Entry.{or_else}
use lariska.Inventory.Snapshot.{same_version}
use lariska.Settings.Config.{Config}

abbrev pub min_managed_interval_secs : ℕ
min_managed_interval_secs = 10

abbrev pub max_managed_interval_secs : ℕ
max_managed_interval_secs = 86400

abbrev pub managed_log_levels : List Text
managed_log_levels =
    codes "error" ∷ codes "warn" ∷ codes "info" ∷ codes "debug" ∷ codes "trace" ∷ []

-- Intervals are seconds.
pub record Runtime : Type 0 where
  pub heartbeat_interval : ℕ
  pub inventory_interval : ℕ

unfoldable pub from_config : Config → Runtime
from_config config = record {
  heartbeat_interval = config.heartbeat_interval;
  inventory_interval = config.inventory_interval;
}

pub record ManagedSettings : Type 0 where
  pub heartbeat_interval_secs : Option ℕ
  pub inventory_interval_secs : Option ℕ
  pub log_level : Option Text

-- The half of a directive that is about settings.
pub record ManagedDirective : Type 0 where
  pub managed_settings : Option ManagedSettings
  pub managed_revision : Option ℕ

pub record RejectedManagedSettings : Type 0 where
  pub revision : Option ℕ
  pub settings : ManagedSettings

pub data SettingsError : Type 0 where
  interval_out_of_range : Text → SettingsError
  unknown_log_level : Text → SettingsError

-- What is written to the log.
pub data LogLine : Type 0 where
  policy_rejected policy_applied : Option ℕ → LogLine
  level_refused level_changed : Text → LogLine

-- The channel of the loops, the log filter, if one is installed, and the two memories of the
-- process.
pub record Agent : Type 0 where
  pub runtime : Runtime
  pub filter : Option Text
  pub last_rejected : Option RejectedManagedSettings
  pub last_unversioned : Option ManagedSettings
  pub log : List LogLine

abbrev pub same_number : Option ℕ → Option ℕ → Bool
same_number none none = true
same_number none (some n) = false
same_number (some m) none = false
same_number (some m) (some n) = m == n

abbrev pub same_settings : ManagedSettings → ManagedSettings → Bool
same_settings a b =
    same_number a.heartbeat_interval_secs b.heartbeat_interval_secs
    && same_number a.inventory_interval_secs b.inventory_interval_secs
    && same_version a.log_level b.log_level

abbrev pub is_settings : Option ManagedSettings → ManagedSettings → Bool
is_settings none settings = false
is_settings (some last) settings = same_settings last settings

abbrev pub is_rejected : Option RejectedManagedSettings → RejectedManagedSettings → Bool
is_rejected none rejected = false
is_rejected (some last) rejected =
    same_number last.revision rejected.revision && same_settings last.settings rejected.settings

-- `matches!(revision, Some(revision) if applied == Some(revision))`
abbrev pub already_applied : Option ℕ → Option ℕ → Bool
already_applied none applied = false
already_applied (some revision) applied = same_number applied (some revision)

unfoldable pub validate_managed_interval : Text → Option ℕ → Result SettingsError (Option ℕ)
validate_managed_interval name none = ok none
validate_managed_interval name (some seconds) = do
  require (in_range min_managed_interval_secs max_managed_interval_secs seconds)
      (interval_out_of_range name)
  ok (some seconds)

module _ (unicode : Unicode) where
  unfoldable pub validate_managed_log_level : Text → Result SettingsError Text
  validate_managed_log_level level =
      let normalized = to_ascii_lowercase (trim unicode level) in
      if any (texts_equal normalized) managed_log_levels
      then ok normalized
      else err (unknown_log_level level)

  unfoldable pub validate_level : Option Text → Result SettingsError (Option Text)
  validate_level none = ok none
  validate_level (some level) = do
    normalized ← validate_managed_log_level level
    ok (some normalized)

  -- The settings with the level normalized.
  unfoldable pub validate_managed_settings : ManagedSettings → Result SettingsError ManagedSettings
  validate_managed_settings settings = do
    heartbeat ←
        validate_managed_interval (codes "heartbeat_interval_secs") settings.heartbeat_interval_secs
    inventory ←
        validate_managed_interval (codes "inventory_interval_secs") settings.inventory_interval_secs
    level ← validate_level settings.log_level
    ok (record {
      heartbeat_interval_secs = heartbeat;
      inventory_interval_secs = inventory;
      log_level = level;
    })

unfoldable pub remember_rejected_settings : Option ℕ → ManagedSettings → Agent → Bool × Agent
remember_rejected_settings revision settings agent =
    let rejected : RejectedManagedSettings = record { revision = revision; settings = settings } in
    if is_rejected agent.last_rejected rejected
    then (false, agent)
    else (true, record agent { last_rejected = some rejected })

unfoldable pub clear_rejected_settings : Agent → Agent
clear_rejected_settings agent = record agent { last_rejected = none }

-- The log is written latest first.
abbrev pub say : LogLine → Agent → Agent
say line agent = record agent { log = line ∷ agent.log }

abbrev pub interval_or : ℕ → Option ℕ → ℕ
interval_or old none = old
interval_or old (some interval) = interval

-- `reloads` says whether the filter of a level parses and can be put in the place of the old one.
module _ (reloads : Text → Bool) where
  unfoldable pub set_log_level : Text → Agent → Agent
  set_log_level level agent = elim agent.filter [
    | none ↦ agent
    | some old ↦
        if reloads level
        then say (level_changed level) (record agent { filter = some level })
        else say (level_refused level) agent
  ]

  abbrev pub set_level : Option Text → Agent → Agent
  set_level none agent = agent
  set_level (some level) agent = set_log_level level agent

  -- The settings are valid and new: the intervals that are given are published.
  unfoldable pub put_settings : Option ℕ → ManagedSettings → Agent → Agent
  put_settings revision validated agent =
      let leveled = set_level validated.log_level agent in
      say (policy_applied revision) (record leveled {
        runtime = record {
          heartbeat_interval =
              interval_or leveled.runtime.heartbeat_interval validated.heartbeat_interval_secs;
          inventory_interval =
              interval_or leveled.runtime.inventory_interval validated.inventory_interval_secs;
        };
      })

  -- Settings with no revision are known by what they say.
  unfoldable pub take_settings :
      Option ℕ → Option ℕ → ManagedSettings → ManagedSettings → Agent → Option ℕ × Agent
  take_settings (some revision) applied settings validated agent =
      (some revision, put_settings (some revision) validated agent)
  take_settings none applied settings validated agent =
      if is_settings agent.last_unversioned settings then (applied, agent) else (
        applied,
        put_settings none validated (record agent { last_unversioned = some settings }),
      )

  unfoldable pub reject_settings : Option ℕ → Option ℕ → ManagedSettings → Agent → Option ℕ × Agent
  reject_settings revision applied settings agent =
      let (is_new, remembered) = remember_rejected_settings revision settings agent in
      (applied, if is_new then say (policy_rejected revision) remembered else remembered)

  unfoldable pub judge_settings :
      Option ℕ
      → Option ℕ
      → ManagedSettings
      → Agent
      → Result SettingsError ManagedSettings
      → Option ℕ × Agent
  judge_settings revision applied settings agent (ok validated) =
      take_settings revision applied settings validated (clear_rejected_settings agent)
  judge_settings revision applied settings agent (err error) =
      reject_settings revision applied settings agent

  module _ (unicode : Unicode) where
    unfoldable pub decide_settings :
        Option ℕ → Option ℕ → ManagedSettings → Agent → Option ℕ × Agent
    decide_settings revision applied settings agent =
        if already_applied revision applied
        then (applied, agent)
        else judge_settings revision applied settings agent
            (validate_managed_settings unicode settings)

    unfoldable pub apply_settings : ManagedDirective → Option ℕ → Agent → Option ℕ × Agent
    apply_settings directive applied agent = elim directive.managed_settings [
      | none ↦ (or_else directive.managed_revision applied, agent)
      | some settings ↦ decide_settings directive.managed_revision applied settings agent
    ]

    -- The loop of the heartbeats: the revision that one directive leaves is that of the next.
    unfoldable pub apply_all : List ManagedDirective → Option ℕ × Agent → Option ℕ × Agent
    apply_all [] state = state
    apply_all (directive ∷ rest) (applied, agent) =
        apply_all rest (apply_settings directive applied agent)
