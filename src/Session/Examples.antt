-- ===== src/Session/Examples.antt =====
-- Runs of the session, and the theorems at these runs.
use lariska.Prelude.{ℕ, ◌≡◌, refl, Bool, true, false, none, some, List, [], ◌∷◌, codes}
use lariska.Exec.{Result, ok, err, pure, gets, modify, guard, attempt, ◌>>=◌}
use lariska.Exec.Runs.{Outcome}
use lariska.Inventory.Text.{Text, trim_start, trim_end}
use lariska.Inventory.Fixtures.{ascii}
use lariska.Delivery.Host.{ApiError, auth}
use lariska.Settings.Managed.{Agent, apply_settings}
use lariska.Update.Fixtures.{test_env, new_host}
use lariska.Session.Client.{
  AuthExchangeResponse, ManagedUpdate, HeartbeatResponse, Server, Session, read_key,
  record_capability, instant_now, post_exchange, post_json, exchange, force_refresh,
  token_or_refresh, token, retry_refused, heartbeat_with_revision,
}
use lariska.Session.Renewed.{Serves, Renewed, heartbeat_with_revision-Renewed}
use lariska.Session.Loop.{
  Beating, note_block, give_update, try_update, consider_update, obey, answered, tick, ticks,
}
use lariska.Session.Offers.{Remembers, ticks-Remembers}

abbrev offer : ManagedUpdate
offer = record {
  version = codes "0.6.0";
  platform = codes "x86_64-unknown-linux-gnu";
  sha256 = codes "00";
  size_bytes = some 5;
  url = codes "/releases/5";
  signed_manifest = none;
}

abbrev response : HeartbeatResponse
response = record {
  info = record { agent_id = codes "agent"; inventory_schema_version = 2 };
  directive = record { managed_settings = none; managed_revision = none };
  managed_update = some offer;
  managed_update_blocked = none;
}

abbrev issued : AuthExchangeResponse
issued = record { access_token = codes "jwt"; expires_in = 7200 }

-- The server takes every token but the empty one.
abbrev reply : ℕ → Text → Result ApiError HeartbeatResponse
reply number [] = err auth
reply number (c ∷ cs) = ok response

abbrev server : Server
server = record {
  key_file = λ number. some (codes "key\n");
  exchanges = λ number key. ok issued;
  replies = reply;
  now = λ look. look;
  refresh_in = λ number lifetime. lifetime;
}

abbrev session : Session
session = record {
  state = some (record { access_token = []; refresh_at = 100 });
  inventory_schema_version = 1;
  exchanged = 0;
  posts = 0;
  looks = 0;
  sent = [];
}

refusal_is_auth :
    (number : ℕ) (token : Text) (error : ApiError) → reply number token ≡ err error → error ≡ auth
refusal_is_auth number [] error p = cc p
refusal_is_auth number (c ∷ cs) error p = cc p

serves : Serves server ascii
unfolding trim_start trim_end
serves = record {
  key = codes "key\n";
  readable = λ number. refl;
  is_key = refl;
  issued = λ number. issued;
  exchanged = λ number. refl;
  taken = λ number post. (response, refl);
  refused = refusal_is_auth;
}

-- The cached token is refused, and the heartbeat is made again with a new one.
renewed_in_time : (heartbeat_with_revision server ascii session).1.sent ≡ codes "jwt" ∷ [] ∷ []
unfolding trim_start trim_end exchange ◌>>=◌ gets read_key pure guard post_exchange instant_now
    modify attempt post_json force_refresh token_or_refresh token retry_refused
    heartbeat_with_revision record_capability
renewed_in_time = refl

heartbeat_with_revision-Renewed_example :
    Outcome
      (λ answer t. Renewed server session answer t)
      (λ _ _. ⊥)
      (heartbeat_with_revision server ascii session)
heartbeat_with_revision-Renewed_example =
    heartbeat_with_revision-Renewed server ascii serves session

abbrev agent : Agent
agent = record {
  runtime = record { heartbeat_interval = 60; inventory_interval = 3600 };
  filter = none;
  last_rejected = none;
  last_unversioned = none;
  log = [];
}

abbrev beating : Beating
beating = record {
  session = session;
  agent = agent;
  world = new_host;
  applied = none;
  last_block_reason = none;
  declined_update = none;
  tried = [];
  applied_updates = [];
  warned = [];
}

abbrev all_reload : Text → Bool
all_reload level = true

abbrev three_ticks : List Bool
three_ticks = true ∷ false ∷ true ∷ []

-- The same offer on three ticks is tried on the first.
offered_once : (ticks server ascii test_env all_reload three_ticks beating).tried ≡ offer ∷ []
unfolding trim_start trim_end exchange ◌>>=◌ gets read_key pure guard post_exchange instant_now
    modify attempt post_json force_refresh token_or_refresh token retry_refused
    heartbeat_with_revision record_capability apply_settings note_block give_update try_update
    consider_update obey answered tick ticks
offered_once = refl

ticks-Remembers_example : Remembers (ticks server ascii test_env all_reload three_ticks beating)
ticks-Remembers_example =
    ticks-Remembers server ascii test_env all_reload three_ticks beating
      (record { latest_declined = refl; none_twice = tt })
