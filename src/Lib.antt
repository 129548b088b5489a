-- ===== src/Lib.antt =====
-- The signed updates, the inventory, the settings, the session and the delivery of the Lariska agent.
--
-- The agent (src/update.rs) checks a signed release against a local keyring and an update ledger, and
-- a privileged supervisor (src/native_update.rs) installs it and waits until the new version
-- acknowledges its health through a shared mailbox.
-- Independently of that, it brings an inventory of the endpoint's software to a normal form and
-- compares it with the one before (src/model.rs), takes its settings from a file (src/config.rs)
-- and from the server (src/managed.rs), which it hears on its heartbeats (src/heartbeat.rs) with a
-- token that it renews (src/auth.rs), spools snapshots on disk (src/delivery/spool.rs),
-- submits them to the server with bounded retries (src/delivery/mod.rs, src/delivery/retry.rs), and
-- remembers what was accepted last (src/delivery/state.rs).
--
-- Files:
--   Prelude, Exec      the helpers: lists, tests and texts; a monad of actions that may fail, rules for
--                      the outcome of a run (Exec/Runs) and for preorders on states (Exec/Moves).
--   Update/Types       the records of src/update.rs: UpdateConfig, ReleaseManifest, UpdateLedger, ...
--   Update/Host        what this code stands on: `World` is the supervisor's directory and the shared
--                      mailbox, `Env` the libraries; read_json, atomic_json, unix_now.
--   Update/Policy      UpdateConfig::validate, safe_id, validate_nonce, decode_hex, parse_version.
--   Update/Ledger      read_ledger, commit_pending, arm_health, finish_update.
--   Update/Verify      verify_manifest, verify_artifact, verify_files.
--   Update/Health      ack_health, ack_request, health_status, health_status_for_pending.
--   Update/Steps .. Update/Refusals, Update/Reading, Update/Trust, Update/Artifact, Update/Heartbeat,
--   Update/Liveness
--                      the proofs; Transitions holds the step relation that the ledger refines.
--   Native/Journal     the journal of src/native_update.rs and the receipts of consumed requests.
--   Native/Cache       copy_request, the cleanup of a copy, prune_cache.
--   Native/Supervisor  accept_request_with, recover_or_ack_with, rollback_with, a turn of supervise.
--   Native/Steps, Native/Ledger, Native/Transactions, Native/Turns
--                      every action of the supervisor changes the ledger file by ledger moves alone.
--   Native/Safety, Native/Receipts, Native/Remember, Native/Recovery,
--   Native/Examples
--                      the proofs and runs.
--   Update/Fixtures, Update/Examples, Update/Signed
--                      concrete runs.
--   Delivery/Host      the spool directory, the answers of the server, the libraries of snapshots.
--   Delivery/Spool     write, remove, quarantine, pending_files, read_pending, enforce_limit.
--   Delivery/Retry, Delivery/Submit
--                      classify and backoff; submit_one.
--   Delivery/State, Delivery/Worker
--                      load and store of the accepted state; enqueue_if_needed, drain_spool.
--   Delivery/Age, Delivery/Eviction, Delivery/Network, Delivery/Attempt,
--   Delivery/Attempts, Delivery/Delays, Delivery/Queue,
--   Delivery/Restart, Delivery/Examples
--                      the proofs and runs.
--   Inventory/Text, Inventory/Order, Inventory/Lexicographic, Inventory/Sort
--                      text as code points, comparisons, the stable sort.
--   Inventory/Version  version_chunks and compare_versions.
--   Inventory/Hash     hash_identity.
--   Inventory/Entry    SoftwareEntry: normalize, the keys, ensure_installation_identity.
--   Inventory/Snapshot InventorySnapshot: new, new_v2, normalize, deduplicate_software, into_v1.
--   Inventory/Validate validate.
--   Inventory/Delta    diff, with the maps it builds.
--   Inventory/Version/*, Inventory/Framing, Inventory/Rows .. Inventory/Idempotent,
--   Inventory/Valid, Inventory/Described, Inventory/Meaning, Inventory/Sources, Inventory/Accepted, Inventory/Delta/*,
--   Inventory/Fixtures, Inventory/Examples
--                      the proofs and runs.
--   Session/Client     src/auth.rs: exchange, force_refresh, token; src/heartbeat.rs:
--                      heartbeat_with_revision, record_capability.
--   Session/Loop       a tick of run_loop, with try_update.
--   Session/Renewed, Session/Offers, Session/Examples
--                      the proofs and runs.
--   Settings/Config    the configuration file, its overrides by the environment and its checks.
--   Settings/Managed   apply_settings: what the server decides on the heartbeats.
--   Settings/Accepted, Settings/Bounds, Settings/Obeyed, Settings/Repeated, Settings/Examples
--                      the proofs and runs.
--
-- The model. A JSON file is a `Document`: whether it is a regular file, its length, and what
-- serde_json makes of it. Every call of the operating system may fail: `Machine` holds an
-- arbitrary answer for each call and each reading of the clock. A write is atomic at its rename;
-- an error after the rename leaves the new file. A file does not change between its metadata and
-- its read. An error of the source is a text; here it is a constructor that stands for it. u64
-- additions are checked as in the source. Semver, Ed25519, SHA-256, the bytes that serde_json
-- writes for a manifest's sorted fields and the lengths of serialized records are fields of `Env`;
-- its laws say that semver's order is total and transitive and that the package's own version is
-- one. The loops are over lists, but for the attempts of submit_one,
-- which run on fuel: six, the limit of the source, is shown to be enough. Calls of the operating
-- system with nothing between them are one call of the model. The journal that the supervisor
-- passes by `&mut` is the field `working`. `NativeOperations` is a Boolean parameter for the
-- native signature, and a log of the calls of the package and service managers. The supervisor's
-- set of examined requests is left out: the theorems on it hold for requests in any order and
-- number.
--
-- In the inventory a text is the list of its code points, whose order is that of the bytes of UTF-8.
-- What the standard library knows of Unicode is the record `Unicode`, and `IsUnicode` what is relied
-- on: ASCII digits are alphanumeric, the dot is not, printable ASCII is not whitespace and the space
-- is. SHA-256 in hexadecimal is a parameter. `version_chunks` runs on fuel, one more than the length
-- of the text, which is shown to reach the end of the iterator. A BTreeMap is the list of its pairs
-- in the order of the keys, and a sort is by insertion, which is stable as the source's is.
-- In the settings a duration is its seconds. The file as TOML reads it, the environment and the test
-- that a file is there are parameters, and so is whether the log filter can be reloaded.
-- In the session an instant is its milliseconds. The server's answers, the key file, the clock and the
-- jitter are parameters, each a function of the number of the call; an answer is what `post_json` of
-- src/api.rs makes of it. A tick runs to its end before the next one, as in the loop.
--
-- Not modelled: the download and its staging directory, the endpoint's side of the request
-- directory, `seed`, the Windows handles and path trust, and the agent's other parts (the loop of
-- the delivery worker, the collectors, apply_update, the registration, the classification of
-- responses, identity), which are I/O or await their own modules.
pub mod Delivery
pub mod Exec
pub mod Inventory
pub mod Native
pub mod Prelude
pub mod Session
pub mod Settings
pub mod Update
