-- ===== src/Session/Client.antt =====
-- src/auth.rs and the calls of src/heartbeat.rs: the cached token, its exchange, and the request
-- that is made again once after a refused token.
use lariska.Prelude.{
  ℕ, suc, ◌+◌, Bool, true, false, not, Option, none, some, List, ◌∷◌, max, ltb, ◌==◌, if◌then◌else◌,
  is_empty,
}
use lariska.Exec.{Result, ok, err, Exec, pure, raise, gets, attempt, modify, guard, ◌>>=◌, ◌>>◌}
use lariska.Inventory.Text.{Text, Unicode, trim}
use lariska.Delivery.Host.{ApiError, auth, fatal}
use lariska.Settings.Managed.{ManagedDirective}
use lariska.Update.Types.{SignedManifest}

-- `AuthExchangeResponse`. The lifetime is an i64; a negative one is 0 here, and both count as 1.
pub record AuthExchangeResponse : Type 0 where
  pub access_token : Text
  pub expires_in : ℕ

-- Instants and durations are milliseconds.
pub record TokenState : Type 0 where
  pub access_token : Text
  pub refresh_at : ℕ

-- What the agent reads of `AgentInfo`.
pub record AgentInfo : Type 0 where
  pub agent_id : Text
  pub inventory_schema_version : ℕ

pub record ManagedUpdate : Type 0 where
  pub version : Text
  pub platform : Text
  pub sha256 : Text
  pub size_bytes : Option ℕ
  pub url : Text
  pub signed_manifest : Option SignedManifest

-- The update half of a directive, beside the half about settings.
pub record HeartbeatResponse : Type 0 where
  pub info : AgentInfo
  pub directive : ManagedDirective
  pub managed_update : Option ManagedUpdate
  pub managed_update_blocked : Option Text

-- What is not the agent's own: the key file at its n-th read, the server's answer to the n-th exchange
-- with a key, to the n-th request with a token, the clock at its n-th reading, and how long before its
-- refresh a token lasts: its lifetime less the jitter.
pub record Server : Type 0 where
  pub key_file : ℕ → Option Text
  pub exchanges : ℕ → Text → Result ApiError AuthExchangeResponse
  pub replies : ℕ → Text → Result ApiError HeartbeatResponse
  pub now : ℕ → ℕ
  pub refresh_in : ℕ → ℕ → ℕ

-- `state` of the client is shared by its clones. `sent` holds the tokens of the requests that were
-- made, latest first.
pub record Session : Type 0 where
  pub state : Option TokenState
  pub inventory_schema_version : ℕ
  pub exchanged : ℕ
  pub posts : ℕ
  pub looks : ℕ
  pub sent : List Text

abbrev pub Call : Type 0 → Type 0
Call A = Exec Session ApiError A

abbrev pub is_auth : ApiError → Bool
is_auth auth = true
is_auth _ = false

unfoldable pub read_key : Option Text → Call Text
read_key none = raise (fatal "failed to read provisioning key")
read_key (some key) = pure key

unfoldable pub record_capability : AgentInfo → Session → Session
record_capability info s = record s {
  inventory_schema_version = if info.inventory_schema_version == 2 then 2 else 1;
}

module _ (server : Server) where
  unfoldable pub instant_now : Call ℕ
  instant_now s = (ok (server.now s.looks), record s { looks = suc s.looks })

  -- The request of a token, with the number that it is.
  unfoldable pub post_exchange : Text → Call AuthExchangeResponse
  post_exchange key s = (server.exchanges s.exchanged key, record s { exchanged = suc s.exchanged })

  unfoldable pub post_json : Text → Call HeartbeatResponse
  post_json token s =
      (server.replies s.posts token, record s { posts = suc s.posts; sent = token ∷ s.sent })

  module _ (unicode : Unicode) where
    unfoldable pub exchange : Call TokenState
    exchange = do
      number ← gets (λ s. s.exchanged)
      text ← read_key (server.key_file number)
      guard (not (is_empty (trim unicode text))) (fatal "provisioning key file is empty")
      response ← post_exchange (trim unicode text)
      now ← instant_now
      pure (record {
        access_token = response.access_token;
        refresh_at = now + server.refresh_in number (max response.expires_in 1);
      })

    unfoldable pub force_refresh : Call Text
    force_refresh = do
      fresh ← exchange
      modify (λ s. record s { state = some fresh })
      pure fresh.access_token

    unfoldable pub token_or_refresh : Option TokenState → Call Text
    token_or_refresh none = force_refresh
    token_or_refresh (some state) = do
      now ← instant_now
      if ltb now state.refresh_at then pure state.access_token else force_refresh

    unfoldable pub token : Call Text
    token = do state ← gets (λ s. s.state); token_or_refresh state

    -- The answer to the first request, or that to the second after a refused token.
    unfoldable pub retry_refused : Result ApiError HeartbeatResponse → Call HeartbeatResponse
    retry_refused (ok response) = pure response
    retry_refused (err error) = if is_auth error then force_refresh >>= post_json else raise error

    unfoldable pub heartbeat_with_revision : Call HeartbeatResponse
    heartbeat_with_revision = do
      first ← token
      answer ← attempt (post_json first)
      response ← retry_refused answer
      modify (record_capability response.info)
      pure response
