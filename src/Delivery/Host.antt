-- ===== src/Delivery/Host.antt =====
-- What the delivery worker of src/delivery stands on: the spool directory, the server's answers,
-- and the libraries that write and read snapshots.
use lariska.Prelude.{ℕ, String, Bool, not, Option, List}
use lariska.Exec.{Result, Exec, Machine, called, guard}

-- `ApiError` of src/api.rs.
pub data ApiError : Type 0 where
  auth : ApiError
  forbidden conflict validation transient fatal payload_too_large : String → ApiError
  rate_limited : Option ℕ → ApiError

-- The errors of the delivery code. `blocking` and `quarantined` are those of `SubmitFailure`.
pub data Failure : Type 0 where
  spool_io spool_capacity out_of_fuel invalid_state state_too_large : Failure
  blocking : ApiError → Failure
  quarantined : ApiError → Failure

-- `AcceptedState` and `StateDocument` of src/delivery/state.rs. A digest is the code points of its
-- text.
pub record AcceptedState : Type 0 where
  pub digest : List ℕ
  pub accepted_at_unix_secs : ℕ

pub record StateDocument : Type 0 where
  pub format_version : ℕ
  pub digest : List ℕ
  pub accepted_at_unix_secs : ℕ

-- The state file: its length, and what serde_json reads.
pub record StateFile : Type 0 where
  pub bytes : ℕ
  pub parsed : Option StateDocument

-- The snapshots of src/model.rs, serde_json, zstd and SHA-256, as the spool uses them.
pub record Snapshots : Type 1 where
  pub Snapshot : Type 0
  pub snapshot_id : Snapshot → String
  pub json_length : Snapshot → ℕ
  pub compressed_length : Snapshot → ℕ
  pub content_digest : Snapshot → List ℕ
  pub document_length : StateDocument → ℕ

-- What reading the bytes of a file gives: their number, and the snapshot that serde_json reads and
-- `validate` accepts.
pub record Body (A : Type 0) : Type 0 where
  pub bytes : ℕ
  pub snapshot : Option A

-- A file of the spool directory. `expanded` is what zstd makes of it.
pub record SpoolFile (A : Type 0) : Type 0 where
  pub name : String
  pub modified : ℕ
  pub size : ℕ
  pub has_zstd_magic : Bool
  pub plain : Body A
  pub expanded : Option (Body A)

-- `answers` and `tokens` are the server's: to the n-th post, and to the n-th request of a token.
pub record Network : Type 0 where
  pub answers : ℕ → Result ApiError (Unit {0})
  pub tokens : ℕ → Result ApiError String
  pub posts : ℕ
  pub asked : ℕ

-- `spool` is the directory in the order of `read_dir`. `posted` is what was sent, latest first. The
-- last two fields are the worker's memory.
pub record Host (A : Type 0) : Type 0 where
  pub spool : List (SpoolFile A)
  pub quarantine : List (SpoolFile A)
  pub network : Network
  pub posted : List String
  pub state_file : Option StateFile
  pub last_accepted : Option AcceptedState
  pub last_enqueued : Option (List ℕ)
  pub machine : Machine

abbrev pub Act : Type 0 → Type 0 → Type 0
Act A B = Exec (Host A) Failure B

abbrev pub Done : Type 0
Done = Unit {0}

-- A call of the operating system.
unfoldable pub os : {A : Type 0} → Act A Done
os h =
    guard (not (h.machine.fails h.machine.calls)) spool_io (record h { machine = called h.machine })

abbrev pub set_spool : {A : Type 0} → List (SpoolFile A) → Host A → Host A
set_spool files h = record h { spool = files }
