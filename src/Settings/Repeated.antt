-- ===== src/Settings/Repeated.antt =====
-- Proofs about a directive that the server repeats, for src/managed.rs.
use lariska.Prelude.{
  ℕ, ◌≡◌, refl, sym, ap, ◌∙◌, inl, inr, Bool, true, false, Option, none, some, Bool-cases, arith,
}
use lariska.Exec.{Result, ok, err}
use lariska.Inventory.Text.{Text, Unicode}
use lariska.Settings.Managed.{
  ManagedSettings, ManagedDirective, SettingsError, Agent, is_settings, is_rejected,
  already_applied, validate_managed_settings, remember_rejected_settings, clear_rejected_settings,
  set_log_level, set_level, put_settings, take_settings, reject_settings, judge_settings,
  decide_settings, apply_settings,
}
use lariska.Settings.Obeyed.{same_number_refl, same_settings_refl}

module _ (reloads : Text → Bool) (unicode : Unicode) where
  set_level_memory :
      (level : Option Text) (agent : Agent)
      → ((set_level reloads level agent).last_unversioned ≡ agent.last_unversioned)
        × ((set_level reloads level agent).last_rejected ≡ agent.last_rejected)
  unfolding set_log_level
  set_level_memory none agent = (refl, refl)
  set_level_memory (some level) agent = (ground arith, ground arith)

  put_settings_memory :
      (revision : Option ℕ) (validated : ManagedSettings) (agent : Agent)
      → ((put_settings reloads revision validated agent).last_unversioned ≡ agent.last_unversioned)
        × ((put_settings reloads revision validated agent).last_rejected ≡ agent.last_rejected)
  unfolding put_settings
  put_settings_memory revision validated agent = set_level_memory validated.log_level agent

  cleared : (agent : Agent) → (clear_rejected_settings agent).last_rejected ≡ none
  unfolding clear_rejected_settings
  cleared agent = refl

  known_unversioned :
      (applied : Option ℕ) (settings validated : ManagedSettings) (agent : Agent)
      → is_settings agent.last_unversioned settings ≡ true
      → agent.last_rejected ≡ none
      → take_settings reloads none applied settings validated (clear_rejected_settings agent)
        ≡ (applied, agent)
  unfolding take_settings clear_rejected_settings
  known_unversioned applied settings validated agent known clear =
      rw known (λ i. (applied, record agent { last_rejected = sym clear i }))

  known_rejected :
      (revision applied : Option ℕ) (settings : ManagedSettings) (agent : Agent)
      → is_rejected agent.last_rejected (record { revision = revision; settings = settings }) ≡ true
      → reject_settings reloads revision applied settings agent ≡ (applied, agent)
  unfolding reject_settings remember_rejected_settings
  known_rejected revision applied settings agent known = rw known

  rejected_again :
      (revision applied : Option ℕ) (settings : ManagedSettings) (agent : Agent)
      → ((reject_settings reloads revision applied settings agent).0 ≡ applied)
        × (is_rejected
              (reject_settings reloads revision applied settings agent).1.last_rejected
              (record { revision = revision; settings = settings })
            ≡ true)
  unfolding reject_settings remember_rejected_settings
  rejected_again revision applied settings agent =
      (ground arith, ground (arith, same_number_refl revision, same_settings_refl settings))

  taken_again :
      (applied : Option ℕ) (settings validated : ManagedSettings) (agent : Agent)
      → agent.last_rejected ≡ none
      → ((take_settings reloads none applied settings validated agent).0 ≡ applied)
        × (is_settings
              (take_settings reloads none applied settings validated agent).1.last_unversioned
              settings
            ≡ true)
        × ((take_settings reloads none applied settings validated agent).1.last_rejected ≡ none)
  unfolding take_settings
  taken_again applied settings validated agent clear =
      let put =
        put_settings_memory none validated (record agent { last_unversioned = some settings }) in
      elim (Bool-cases (is_settings agent.last_unversioned settings)) [
        | inl known ↦ rw known (refl, known, clear)
        | inr fresh ↦ rw fresh (
          refl,
          ap (λ last. is_settings last settings) put.0 ∙ same_settings_refl settings,
          put.1 ∙ clear,
        )
      ]

  decide_known :
      (revision applied : Option ℕ) (settings : ManagedSettings) (agent : Agent)
      → already_applied revision applied ≡ true
      → decide_settings reloads unicode revision applied settings agent ≡ (applied, agent)
  unfolding decide_settings
  decide_known revision applied settings agent known = rw known

  decide_fresh :
      (revision applied : Option ℕ) (settings : ManagedSettings) (agent : Agent)
      (verdict : Result SettingsError ManagedSettings)
      → already_applied revision applied ≡ false
      → validate_managed_settings unicode settings ≡ verdict
      → decide_settings reloads unicode revision applied settings agent
        ≡ judge_settings reloads revision applied settings agent verdict
  unfolding decide_settings
  decide_fresh revision applied settings agent verdict new' e =
      rw new' (ap (judge_settings reloads revision applied settings agent) e)

  put_again :
      (revision : ℕ) (applied : Option ℕ) (settings validated : ManagedSettings) (agent : Agent)
      → already_applied
          (some revision)
          (take_settings reloads (some revision) applied settings validated agent).0
        ≡ true
  unfolding take_settings
  put_again revision applied settings validated agent = same_number_refl (some revision)

  -- The answer of `judge_settings`, judged again.
  judge_again :
      (revision applied : Option ℕ) (settings : ManagedSettings) (agent : Agent)
      (verdict : Result SettingsError ManagedSettings)
      → already_applied revision applied ≡ false
      → validate_managed_settings unicode settings ≡ verdict
      → decide_settings reloads unicode revision
          (judge_settings reloads revision applied settings agent verdict).0
          settings
          (judge_settings reloads revision applied settings agent verdict).1
        ≡ judge_settings reloads revision applied settings agent verdict
  unfolding judge_settings
  judge_again (some revision) applied settings agent (ok validated) new' e =
      decide_known (some revision) _ settings _
        (put_again revision applied settings validated (clear_rejected_settings agent))
  judge_again none applied settings agent (ok validated) new' e =
      let again =
        taken_again applied settings validated (clear_rejected_settings agent) (cleared agent) in
      decide_fresh none _ settings _ (ok validated) refl e
      ∙ known_unversioned _ settings validated _ again.1 again.2
  judge_again revision applied settings agent (err error) new' e =
      let again = rejected_again revision applied settings agent in
      decide_fresh revision _ settings _ (err error) (ap (already_applied revision) again.0 ∙ new')
        e
      ∙ known_rejected revision _ settings _ again.1

  decide_again :
      (revision applied : Option ℕ) (settings : ManagedSettings) (agent : Agent)
      → decide_settings reloads unicode revision
          (decide_settings reloads unicode revision applied settings agent).0
          settings
          (decide_settings reloads unicode revision applied settings agent).1
        ≡ decide_settings reloads unicode revision applied settings agent
  decide_again revision applied settings agent =
      elim (Bool-cases (already_applied revision applied)) [
        | inl known ↦
            rw (decide_known revision applied settings agent known)
              (decide_known revision applied settings agent known)
        | inr new' ↦
            rw (decide_fresh revision applied settings agent _ new' refl)
              (judge_again revision applied settings agent _ new' refl)
      ]

  -- A directive that comes a second time changes nothing: neither the revision that is reported, nor
  -- the intervals, the filter or the memories, and nothing more is logged.
  pub apply_settings_again :
      (directive : ManagedDirective) (applied : Option ℕ) (agent : Agent)
      → apply_settings reloads unicode directive
          (apply_settings reloads unicode directive applied agent).0
          (apply_settings reloads unicode directive applied agent).1
        ≡ apply_settings reloads unicode directive applied agent
  apply_settings_again directive applied agent =
      again directive.managed_settings directive.managed_revision
    where
      again :
          (settings : Option ManagedSettings) (revision : Option ℕ)
          → apply_settings reloads unicode
              (record { managed_settings = settings; managed_revision = revision })
              (apply_settings reloads unicode
                (record { managed_settings = settings; managed_revision = revision })
                applied
                agent).0
              (apply_settings reloads unicode
                (record { managed_settings = settings; managed_revision = revision })
                applied
                agent).1
            ≡ apply_settings reloads unicode
                (record { managed_settings = settings; managed_revision = revision })
                applied
                agent
      again none none = unfold apply_settings in refl
      again none (some revision) = unfold apply_settings in refl
      again (some settings) revision =
          unfold apply_settings in decide_again revision applied settings agent
