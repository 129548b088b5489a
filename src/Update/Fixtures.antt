-- ===== src/Update/Fixtures.antt =====
-- Concrete libraries, a policy and a machine, on which the tests and the examples run.
use lariska.Prelude.{
  ℕ, ◌≡◌, refl, String, true, false, Option, none, some, List, [], ◌∷◌, leb, str_eq, ◌⊎◌, arith,
  if◌then◌else◌, length,
}
use lariska.Exec.{Machine}
use lariska.Update.Types.{linux, deb, UpdateConfig, ReleaseManifest, SignedManifest}
use lariska.Update.Host.{Env, World, Release, written}

-- Three versions, read as numbers.
abbrev small_parse : String → Option ℕ
small_parse s =
    if str_eq s "0.4.0"
    then some 4
    else if str_eq s "0.5.0"
    then some 5
    else if str_eq s "0.6.0"
    then some 6
    else none

pub leb_total : (a b : ℕ) → (leb a b ≡ true) ⊎ (leb b a ≡ true)
leb_total a b = ground arith

pub leb_trans : (a b c : ℕ) → leb a b ≡ true → leb b c ≡ true → leb a c ≡ true
leb_trans a b c p q = ground arith

abbrev pub test_env : Env
test_env = record {
  Version = ℕ;
  parse = small_parse;
  version_le = leb;
  version_total = leb_total;
  version_trans = leb_trans;
  is_key = λ bytes. leb 32 (length bytes);
  to_vec = λ pairs. [];
  verify_strict = λ key manifest signature. true;
  sha256 = λ bytes. bytes;
  is_absolute = λ path. true;
  show_error = λ error. "error";
  target_os = linux;
  target_triple = "x86_64-unknown-linux-gnu";
  package_version = "0.5.0";
  package_semver = 5;
  package_parses = refl;
  package_short = omega arith;
  ledger_size = λ ledger. 200;
  journal_size = λ journal. 200;
  pending_size = λ pending. 100;
  ack_size = λ ack. 100;
  result_size = λ result. 100;
}

abbrev pub test_policy : UpdateConfig
test_policy = record {
  trusted_keys = [];
  package_kind = some deb;
  max_download_bytes = 1000;
  health_timeout_secs = 180;
  history_limit = 2;
  emergency_version = none;
  windows_signer_thumbprint = none;
  macos_team_id = none;
  allow_self_signed_native = false;
  macos_signer_sha256 = none;
  native_state_dir = none;
}

-- No call fails, and the clock stands at 1000.
abbrev pub calm : Machine
calm = record { fails = λ n. false; clock = λ n. some 1000; calls = 0 }

abbrev pub new_host : World
new_host = record {
  ledger = none;
  journal = none;
  cache = [];
  shared = true;
  pending_health = none;
  health = none;
  request_result = none;
  native = [];
  working = record { active = none; pending = none; consumed = [] };
  machine = calm;
}

abbrev pub release_6 : ReleaseManifest
release_6 = record {
  schema = 1;
  key_id = "k1";
  version = "0.6.0";
  platform = "x86_64-unknown-linux-gnu";
  package_kind = deb;
  size_bytes = 3;
  sha256 = "010203";
  expires_at = 2000;
  sequence = 7;
}

abbrev pub nonce_a : String
nonce_a = "0123456789abcdef0123456789abcdef"

abbrev pub nonce_b : String
nonce_b = "fedcba9876543210fedcba9876543210"

abbrev zeros_16 : List ℕ
zeros_16 = 0 ∷ 0 ∷ 0 ∷ 0 ∷ 0 ∷ 0 ∷ 0 ∷ 0 ∷ 0 ∷ 0 ∷ 0 ∷ 0 ∷ 0 ∷ 0 ∷ 0 ∷ 0 ∷ []

abbrev hex_32_bytes : String
hex_32_bytes = "0000000000000000000000000000000000000000000000000000000000000000"

abbrev pub signed_6 : SignedManifest
signed_6 = record {
  manifest = record release_6 { size_bytes = 32; sha256 = hex_32_bytes };
  signature =
      "00000000000000000000000000000000000000000000000000000000000000000000000000000000000000000000000000000000000000000000000000000000";
}

-- A revoked key stands before the good one.
abbrev pub signing_policy : UpdateConfig
signing_policy = record test_policy {
  trusted_keys =
      record { id = "k0"; public_key = hex_32_bytes; revoked = true }
      ∷ record { id = "k1"; public_key = hex_32_bytes; revoked = false }
      ∷ [];
}

abbrev pub directory_6 : Release
directory_6 = record {
  manifest = written 900 signed_6;
  artifact_regular = true;
  artifact = zeros_16 ∷ zeros_16 ∷ [];
}
