-- ===== src/Settings/Bounds.antt =====
-- Proofs about the intervals and the log level that `apply_settings` of src/managed.rs puts in force.
use lariska.Prelude.{
  codes, ℕ, ◌≡◌, refl, ◌⊎◌, inl, inr, Bool, true, Option, none, some, List, [], ◌∷◌, any,
  texts_equal, if_split, arith,
}
use lariska.Exec.{Result, ok, err}
use lariska.Inventory.Text.{Text, Unicode}
use lariska.Update.Host.{Env}
use lariska.Settings.Config.{Config, Process, FileConfig, ConfigError, from_file_and_env}
use lariska.Settings.Accepted.{IsInterval, from_file_and_env-IsConfigured}
use lariska.Settings.Managed.{
  from_config, ManagedSettings, ManagedDirective, SettingsError, Agent, managed_log_levels,
  validate_managed_interval, validate_managed_log_level, validate_level, validate_managed_settings,
  remember_rejected_settings, clear_rejected_settings, set_log_level, set_level, interval_or,
  judge_settings, put_settings, take_settings, reject_settings, decide_settings, apply_settings,
  apply_all,
}

abbrev pub IntervalIf : Option ℕ → Type 0
IntervalIf none = Unit
IntervalIf (some seconds) = IsInterval seconds

-- One of the levels that may be managed.
abbrev pub IsLevel : Text → Type 0
IsLevel level = any (texts_equal level) managed_log_levels ≡ true

abbrev pub LevelIf : Option Text → Type 0
LevelIf none = Unit
LevelIf (some level) = IsLevel level

pub record IsWithin (settings : ManagedSettings) : Type 0 where
  pub heartbeat : IntervalIf settings.heartbeat_interval_secs
  pub inventory : IntervalIf settings.inventory_interval_secs
  pub level : LevelIf settings.log_level

-- The filter is still the one that was installed at first, or one of the managed levels.
pub record InForce (first : Option Text) (agent : Agent) : Type 0 where
  pub heartbeat : IsInterval agent.runtime.heartbeat_interval
  pub inventory : IsInterval agent.runtime.inventory_interval
  pub filter :
      (agent.filter ≡ first) ⊎ ((level : Text) × (agent.filter ≡ some level) × IsLevel level)

interval-IsInterval :
    (name : Text) (given checked : Option ℕ)
    → validate_managed_interval name given ≡ ok checked
    → IntervalIf checked
unfolding validate_managed_interval
interval-IsInterval name given none h = tt
interval-IsInterval name none (some seconds) h = cc
interval-IsInterval name (some given) (some seconds) h = ground arith

module _ (unicode : Unicode) where
  level-IsLevel :
      (given checked : Option Text) → validate_level unicode given ≡ ok checked → LevelIf checked
  unfolding validate_level validate_managed_log_level
  level-IsLevel given none h = tt
  level-IsLevel none (some level) h = cc
  level-IsLevel (some given) (some level) h = ground arith

  settings-parts :
      (settings validated : ManagedSettings)
      → validate_managed_settings unicode settings ≡ ok validated
      → (validate_managed_interval
            (codes "heartbeat_interval_secs")
            settings.heartbeat_interval_secs
          ≡ ok validated.heartbeat_interval_secs)
        × (validate_managed_interval
              (codes "inventory_interval_secs")
              settings.inventory_interval_secs
            ≡ ok validated.inventory_interval_secs)
        × (validate_level unicode settings.log_level ≡ ok validated.log_level)
  unfolding validate_managed_settings
  settings-parts settings validated h = ground arith

  pub validate_managed_settings-IsWithin :
      (settings validated : ManagedSettings)
      → validate_managed_settings unicode settings ≡ ok validated
      → IsWithin validated
  validate_managed_settings-IsWithin settings validated h =
      let parts = settings-parts settings validated h in
      record {
        heartbeat = interval-IsInterval _ settings.heartbeat_interval_secs _ parts.0;
        inventory = interval-IsInterval _ settings.inventory_interval_secs _ parts.1;
        level = level-IsLevel settings.log_level _ parts.2;
      }

interval_or-IsInterval :
    (old : ℕ) (given : Option ℕ)
    → IsInterval old
    → IntervalIf given
    → IsInterval (interval_or old given)
interval_or-IsInterval old none h k = h
interval_or-IsInterval old (some given) h k = k

module _ (reloads : Text → Bool) (unicode : Unicode) (first : Option Text) where
  -- Only the filter is set, and only to the level.
  pub set_log_level_effect :
      (level : Text) (agent : Agent)
      → ((set_log_level reloads level agent).runtime ≡ agent.runtime)
        × (((set_log_level reloads level agent).filter ≡ agent.filter)
            ⊎ ((set_log_level reloads level agent).filter ≡ some level))
  unfolding set_log_level
  set_log_level_effect level agent = (ground arith, ground arith)

  set_level-InForce :
      (level : Option Text) (agent : Agent)
      → LevelIf level
      → InForce first agent
      → InForce first (set_level reloads level agent)
  set_level-InForce none agent h f = f
  set_level-InForce (some level) agent h f =
      let effect = set_log_level_effect level agent in
      record {
        heartbeat = rw effect.0 f.heartbeat;
        inventory = rw effect.0 f.inventory;
        filter = elim effect.1 [ inl kept ↦ rw kept f.filter | inr set' ↦ inr (level, set', h) ];
      }

  put_settings-InForce :
      (revision : Option ℕ) (validated : ManagedSettings) (agent : Agent)
      → IsWithin validated
      → InForce first agent
      → InForce first (put_settings reloads revision validated agent)
  unfolding put_settings
  put_settings-InForce revision validated agent h f =
      let leveled = set_level-InForce validated.log_level agent h.level f in
      record {
        heartbeat =
            interval_or-IsInterval _ validated.heartbeat_interval_secs leveled.heartbeat
              h.heartbeat;
        inventory =
            interval_or-IsInterval _ validated.inventory_interval_secs leveled.inventory
              h.inventory;
        filter = leveled.filter;
      }

  abbrev Kept : Option ℕ × Agent → Type 0
  Kept answer = InForce first answer.1

  take_settings-InForce :
      (revision applied : Option ℕ) (settings validated : ManagedSettings) (agent : Agent)
      → IsWithin validated
      → InForce first agent
      → Kept (take_settings reloads revision applied settings validated agent)
  unfolding take_settings
  take_settings-InForce (some revision) applied settings validated agent h f =
      put_settings-InForce (some revision) validated agent h f
  take_settings-InForce none applied settings validated agent h f =
      if_split Kept _ _ _ (λ _. f)
        (λ _.
          put_settings-InForce none validated (record agent { last_unversioned = some settings }) h
            (record { heartbeat = f.heartbeat; inventory = f.inventory; filter = f.filter }))

  reject_settings-InForce :
      (revision applied : Option ℕ) (settings : ManagedSettings) (agent : Agent)
      → InForce first agent
      → Kept (reject_settings reloads revision applied settings agent)
  unfolding reject_settings remember_rejected_settings
  reject_settings-InForce revision applied settings agent f = record {
    heartbeat = ground arith;
    inventory = ground arith;
    filter = ground arith;
  }

  judge_settings-InForce :
      (revision applied : Option ℕ) (settings : ManagedSettings) (agent : Agent)
      (verdict : Result SettingsError ManagedSettings)
      → validate_managed_settings unicode settings ≡ verdict
      → InForce first agent
      → Kept (judge_settings reloads revision applied settings agent verdict)
  unfolding judge_settings clear_rejected_settings
  judge_settings-InForce revision applied settings agent (ok validated) e f =
      take_settings-InForce revision applied settings validated
        (record agent { last_rejected = none })
        (validate_managed_settings-IsWithin unicode settings validated e)
        (record { heartbeat = f.heartbeat; inventory = f.inventory; filter = f.filter })
  judge_settings-InForce revision applied settings agent (err error) e f =
      reject_settings-InForce revision applied settings agent f

  decide_settings-InForce :
      (revision applied : Option ℕ) (settings : ManagedSettings) (agent : Agent)
      → InForce first agent
      → Kept (decide_settings reloads unicode revision applied settings agent)
  unfolding decide_settings
  decide_settings-InForce revision applied settings agent f =
      if_split Kept _ _ _ (λ _. f)
        (λ _. judge_settings-InForce revision applied settings agent _ refl f)

  apply_settings-InForce :
      (managed : Option ManagedSettings) (revision applied : Option ℕ) (agent : Agent)
      → InForce first agent
      → Kept (
          apply_settings reloads unicode
            (record { managed_settings = managed; managed_revision = revision })
            applied
            agent)
  unfolding apply_settings
  apply_settings-InForce none revision applied agent f = f
  apply_settings-InForce (some settings) revision applied agent f =
      decide_settings-InForce revision applied settings agent f

  apply_all-InForce :
      (directives : List ManagedDirective) (applied : Option ℕ) (agent : Agent)
      → InForce first agent
      → Kept (apply_all reloads unicode directives (applied, agent))
  unfolding apply_all
  apply_all-InForce [] applied agent f = f
  apply_all-InForce (directive ∷ rest) applied agent f =
      let next = apply_settings reloads unicode directive applied agent in
      apply_all-InForce rest next.0 next.1 (
        apply_settings-InForce directive.managed_settings directive.managed_revision applied agent
          f)

-- An agent that starts from a configuration that was accepted has, after any directives of the
-- server, both intervals within the bounds of that configuration, and the log filter that it had or
-- one of the five levels.
pub apply_all-configured :
    (process : Process) (unicode : Unicode) (env : Env) (reloads : Text → Bool)
    (file : Result ConfigError FileConfig) (config : Config) (agent : Agent)
    (directives : List ManagedDirective) (applied : Option ℕ)
    → from_file_and_env process unicode env file ≡ ok config
    → agent.runtime ≡ from_config config
    → InForce agent.filter (apply_all reloads unicode directives (applied, agent)).1
unfolding from_config
apply_all-configured process unicode env reloads file config agent directives applied h start =
    let c = from_file_and_env-IsConfigured process unicode env file config h in
    apply_all-InForce reloads unicode agent.filter directives applied agent (record {
      heartbeat = rw start c.heartbeat;
      inventory = rw start c.inventory;
      filter = inl refl;
    })
