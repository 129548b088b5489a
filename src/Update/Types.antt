-- ===== src/Update/Types.antt =====
-- The records and errors of src/update.rs.
use lariska.Prelude.{ℕ, String, Bool, true, false, Option, List}

pub data PackageKind : Type 0 where
  deb rpm msi pkg : PackageKind

abbrev pub same_kind : PackageKind → PackageKind → Bool
same_kind deb deb = true
same_kind rpm rpm = true
same_kind msi msi = true
same_kind pkg pkg = true
same_kind _ _ = false

abbrev pub kind_name : PackageKind → String
kind_name deb = "deb"
kind_name rpm = "rpm"
kind_name msi = "msi"
kind_name pkg = "pkg"

-- `cfg!(target_os)`: the system that the program is built for.
pub data TargetOs : Type 0 where
  linux windows macos other_os : TargetOs

unfoldable pub matches_os : PackageKind → TargetOs → Bool
matches_os deb linux = true
matches_os rpm linux = true
matches_os msi windows = true
matches_os pkg macos = true
matches_os _ _ = false

pub record TrustedKey : Type 0 where
  pub id : String
  pub public_key : String
  pub revoked : Bool

pub record UpdateConfig : Type 0 where
  pub trusted_keys : List TrustedKey
  pub package_kind : Option PackageKind
  pub max_download_bytes : ℕ
  pub health_timeout_secs : ℕ
  pub history_limit : ℕ
  pub emergency_version : Option String
  pub windows_signer_thumbprint : Option String
  pub macos_team_id : Option String
  pub allow_self_signed_native : Bool
  pub macos_signer_sha256 : Option String
  pub native_state_dir : Option String

pub record ReleaseManifest : Type 0 where
  pub schema : ℕ
  pub key_id : String
  pub version : String
  pub platform : String
  pub package_kind : PackageKind
  pub size_bytes : ℕ
  pub sha256 : String
  pub expires_at : ℕ
  pub sequence : ℕ

-- The values of a JSON object that has no objects in it.
pub data JsonValue : Type 0 where
  json_text : String → JsonValue
  json_number : ℕ → JsonValue

pub record SignedManifest : Type 0 where
  pub manifest : ReleaseManifest
  pub signature : String

pub record PendingUpdate : Type 0 where
  pub nonce : String
  pub version : String
  pub sequence : ℕ
  pub started_at : ℕ
  pub deadline : ℕ

pub record HistoryEntry : Type 0 where
  pub nonce : String
  pub version : String
  pub sequence : ℕ
  pub at : ℕ
  pub outcome : String
  pub reason : String

pub record UpdateLedger : Type 0 where
  pub floor_version : String
  pub floor_sequence : ℕ
  pub pending : Option PendingUpdate
  pub history : List HistoryEntry

pub record HealthAck : Type 0 where
  pub nonce : String
  pub version : String
  pub at : ℕ

pub record RequestResult : Type 0 where
  pub nonce : String
  pub outcome : String
  pub at : ℕ

-- The errors are texts in the source. Each stands for its text.
pub data Error : Type 0 where
  io_error json_error not_a_bounded_file clock_before_epoch : Error
  bad_download_limit bad_health_timeout bad_history_limit too_many_keys bad_key_id : Error
  bad_hex bad_public_key relative_state_dir bad_thumbprint bad_team_id self_signed_without_pin :
      Error
  version_too_long version_not_semantic : Error
  unsupported_schema foreign_platform wrong_package_kind bad_sequence bad_size bad_sha256 : Error
  manifest_expired unknown_key invalid_signature : Error
  below_floor transaction_pending : Error
  artifact_too_large artifact_not_signed_size artifact_overflow artifact_grew artifact_mismatch :
      Error
  ledger_not_regular history_unbounded : Error
  bad_nonce update_pending deadline_overflow no_update_pending nonce_mismatch : Error
  bad_request_result journal_too_large journal_unbounded bad_consumed_identity bad_directory : Error
  bad_request_directory bad_request_nonce nonce_consumed not_seeded same_version : Error
  already_rolled_back nonce_changed_identity consumed_full : Error
  completed_nonce_disagrees journal_disagrees identities_disagree : Error
  no_pending_to_roll_back no_previous_package private_staging : Error
  bad_native_signature install_failed restart_failed : Error
