-- ===== src/Update/Host.antt =====
-- What the update code stands on and does not implement: the semver and Ed25519 libraries, SHA-256,
-- serde_json's sizes, the package manager; and the files that it reads and writes.
use Prim.Native.String.{len}
use lariska.Prelude.{
  ℕ, ◌+◌, ◌^◌, ◌≤◌, String, Bool, true, false, not, Option, none, some, List, ◌≡◌, ◌⊎◌, ltb, leb,
  if◌then◌else◌,
}
use lariska.Exec.{
  Result, ok, err, Exec, Machine, called, lift, expect, gets, modify, guard, ◌>>=◌, ◌>>◌,
}
use lariska.Update.Types.{
  TargetOs, JsonValue, ReleaseManifest, SignedManifest, PendingUpdate, UpdateLedger, HealthAck,
  RequestResult, Error, io_error, json_error, not_a_bounded_file, clock_before_epoch,
}

-- A file as a reader finds it: its kind, its length, and what serde_json makes of its bytes.
pub record Document {ℓ} (A : Type ℓ) : Type ℓ where
  pub regular : Bool
  pub size : ℕ
  pub parsed : Option A

abbrev pub File {ℓ} : Type ℓ → Type ℓ
File A = Option (Document A)

-- A release cached by the supervisor, and the receipts of `native-journal.json`.
pub record CachedRelease : Type 0 where
  pub manifest : ReleaseManifest
  pub directory : String

pub record Pending : Type 0 where
  pub release : CachedRelease
  pub nonce : String
  pub started_at : ℕ

pub record ConsumedRequest : Type 0 where
  pub nonce : String
  pub version : String
  pub sequence : ℕ

pub record Journal : Type 0 where
  pub active : Option CachedRelease
  pub pending : Option Pending
  pub consumed : List ConsumedRequest

-- A directory with `manifest.json` and `artifact`, the artifact as the chunks that reads return.
pub record Release : Type 0 where
  pub manifest : File SignedManifest
  pub artifact_regular : Bool
  pub artifact : List (List ℕ)

-- What the package manager and the service manager were told to do, latest first.
pub data NativeCall : Type 0 where
  installed : ReleaseManifest → NativeCall
  restarted : NativeCall

-- The supervisor's private root (`ledger`, `journal`, `cache`), the mailbox that the endpoint can
-- write (`pending_health`, `health`, `request_result`), the journal in the supervisor's memory
-- (`working`), and the machine.
pub record World : Type 0 where
  pub ledger : File UpdateLedger
  pub journal : File Journal
  pub cache : List (String × Release)
  pub shared : Bool
  pub pending_health : File PendingUpdate
  pub health : File HealthAck
  pub request_result : File RequestResult
  pub native : List NativeCall
  pub working : Journal
  pub machine : Machine

-- The libraries, and the constants that the build fixes. The laws: semver's order on versions is total
-- and transitive, and Cargo accepts only a semantic version as `CARGO_PKG_VERSION`.
pub record Env : Type 1 where
  pub Version : Type 0
  pub parse : String → Option Version
  pub version_le : Version → Version → Bool
  pub version_total : (a b : Version) → (version_le a b ≡ true) ⊎ (version_le b a ≡ true)
  pub version_trans :
      (a b c : Version) → version_le a b ≡ true → version_le b c ≡ true → version_le a c ≡ true
  pub is_key : List ℕ → Bool
  -- what serde_json writes for a map of these pairs
  pub to_vec : List (String × JsonValue) → List ℕ
  pub verify_strict : List ℕ → List ℕ → List ℕ → Bool
  pub sha256 : List ℕ → List ℕ
  pub is_absolute : String → Bool
  pub show_error : Error → String
  pub target_os : TargetOs
  pub target_triple : String
  pub package_version : String
  pub package_semver : Version
  pub package_parses : parse package_version ≡ some package_semver
  pub package_short : len package_version ≤ 128
  -- the lengths of what serde_json writes
  pub ledger_size : UpdateLedger → ℕ
  pub journal_size : Journal → ℕ
  pub pending_size : PendingUpdate → ℕ
  pub ack_size : HealthAck → ℕ
  pub result_size : RequestResult → ℕ

abbrev pub Action : Type 0 → Type 0
Action A = Exec World Error A

abbrev pub Done : Type 0
Done = Unit {0}

abbrev pub written {ℓ} : {A : Type ℓ} → ℕ → A → File A
written n a = some (record { regular = true; size = n; parsed = some a })

-- A call of the operating system that changes nothing by itself: `?` returns its error.
unfoldable pub os : Action Done
os w =
    guard (not (w.machine.fails w.machine.calls)) io_error (record w { machine = called w.machine })

-- `unix_now`
unfoldable pub unix_now : Action ℕ
unix_now w =
    expect (w.machine.clock w.machine.calls) clock_before_epoch
      (record w { machine = called w.machine })

abbrev pub is_some {ℓ} : {A : Type ℓ} → Option A → Bool
is_some none = false
is_some (some a) = true

abbrev pub is_none {ℓ} : {A : Type ℓ} → Option A → Bool
is_none none = true
is_none (some a) = false

-- What a file holds, if it is a regular file of at most `limit` bytes that serde_json can read.
abbrev pub decode : {A : Type 0} → ℕ → Document A → Result Error A
decode limit d =
    if d.regular
    then (if leb d.size limit
        then elim d.parsed [ none ↦ err json_error | some a ↦ ok a ]
        else err not_a_bounded_file)
    else err not_a_bounded_file

-- `read_json`, and `read` of the mailbox: the metadata, then the bounded read.
unfoldable pub read_json : {A : Type 0} → (World → File A) → ℕ → Action A
read_json slot limit = do
  os
  file ← gets slot
  document ← expect file io_error
  os
  lift (decode limit document)

-- `atomic_json`, and `write` of the mailbox. Until the rename, a failure leaves the old file. After
-- it only the sync of the directory can fail, and the new file stands.
unfoldable pub atomic_json : (World → World) → Action Done
atomic_json publish = do os; modify publish; os

-- `checked_add` of u64
abbrev pub checked_add : ℕ → ℕ → Option ℕ
checked_add a b = if ltb (a + b) (2 ^ 64) then some (a + b) else none
