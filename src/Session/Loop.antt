-- ===== src/Session/Loop.antt =====
-- src/heartbeat.rs: one tick of the heartbeat loop, with what the loop keeps between the ticks.
use lariska.Prelude.{
  ℕ, Bool, true, false, ◌&&◌, Option, none, some, List, [], ◌∷◌, ◌==◌, if◌then◌else◌, str_eq,
  texts_equal,
}
use lariska.Exec.{Result, ok, err}
use lariska.Inventory.Text.{Text, Unicode}
use lariska.Inventory.Snapshot.{same_version}
use lariska.Delivery.Host.{ApiError}
use lariska.Settings.Managed.{Agent, same_number, apply_settings}
use lariska.Update.Types.{same_kind, ReleaseManifest, SignedManifest}
use lariska.Update.Host.{World, Env}
use lariska.Update.Health.{ack_health}
use lariska.Session.Client.{
  ManagedUpdate, HeartbeatResponse, Server, Session, token, heartbeat_with_revision,
}

-- The equality of the releases that are offered.
abbrev pub same_manifest : ReleaseManifest → ReleaseManifest → Bool
same_manifest a b =
    (a.schema == b.schema)
    && str_eq a.key_id b.key_id
    && str_eq a.version b.version
    && str_eq a.platform b.platform
    && same_kind a.package_kind b.package_kind
    && (a.size_bytes == b.size_bytes)
    && str_eq a.sha256 b.sha256
    && (a.expires_at == b.expires_at)
    && (a.sequence == b.sequence)

abbrev pub same_signed : Option SignedManifest → Option SignedManifest → Bool
same_signed none none = true
same_signed (some a) (some b) =
    same_manifest a.manifest b.manifest && str_eq a.signature b.signature
same_signed _ _ = false

abbrev pub same_update : ManagedUpdate → ManagedUpdate → Bool
same_update a b =
    texts_equal a.version b.version
    && texts_equal a.platform b.platform
    && texts_equal a.sha256 b.sha256
    && same_number a.size_bytes b.size_bytes
    && texts_equal a.url b.url
    && same_signed a.signed_manifest b.signed_manifest

-- The offer that was tried last, if it is this one.
abbrev pub is_declined : Option ManagedUpdate → ManagedUpdate → Bool
is_declined none update = false
is_declined (some declined) update = same_update declined update

-- The process at the head of the loop. `world` is the host of the updates, for the acknowledgement of
-- health. `tried` holds the offers that `try_update` was called with, `applied_updates` those that it
-- gave to `apply_update`, and `warned` the reasons that were logged: all latest first.
pub record Beating : Type 0 where
  pub session : Session
  pub agent : Agent
  pub world : World
  pub applied : Option ℕ
  pub last_block_reason : Option Text
  pub declined_update : Option ManagedUpdate
  pub tried : List ManagedUpdate
  pub applied_updates : List ManagedUpdate
  pub warned : List Text

abbrev pub warn : Option Text → List Text → List Text
warn none warned = warned
warn (some reason) warned = reason ∷ warned

unfoldable pub note_block : Option Text → Beating → Beating
note_block reason b =
    if same_version reason b.last_block_reason
    then b
    else record b { last_block_reason = reason; warned = warn reason b.warned }

-- `client` is whether the certificate of the client can be loaded.
unfoldable pub give_update : Bool → ManagedUpdate → Result ApiError Text → Beating → Beating
give_update client update (err error) b = b
give_update false update (ok fetched) b = b
give_update true update (ok fetched) b = record b { applied_updates = update ∷ b.applied_updates }

module _ (server : Server) (unicode : Unicode) where
  -- It never ends the process: every outcome of `apply_update` is `None`.
  unfoldable pub try_update : Bool → ManagedUpdate → Beating → Beating
  try_update client update b =
      let (answer, session) = token server unicode b.session in
      give_update client update answer (record b { session = session; tried = update ∷ b.tried })

  unfoldable pub consider_update : Bool → Option ManagedUpdate → Beating → Beating
  consider_update client none b = b
  consider_update client (some update) b =
      if is_declined b.declined_update update
      then b
      else record (try_update client update b) { declined_update = some update }

  module _ (env : Env) (reloads : Text → Bool) where
    unfoldable pub obey : HeartbeatResponse → Beating → Beating
    obey response b =
        let (applied, agent) =
          apply_settings reloads unicode response.directive b.applied b.agent in
        record b { world = (ack_health env b.world).1; applied = applied; agent = agent }

    unfoldable pub answered : Bool → Result ApiError HeartbeatResponse → Beating → Beating
    answered client (err error) b = b
    answered client (ok response) b =
        consider_update client response.managed_update
          (note_block response.managed_update_blocked (obey response b))

    unfoldable pub tick : Bool → Beating → Beating
    tick client b =
        let (answer, session) = heartbeat_with_revision server unicode b.session in
        answered client answer (record b { session = session })

    unfoldable pub ticks : List Bool → Beating → Beating
    ticks [] b = b
    ticks (client ∷ rest) b = ticks rest (tick client b)
