-- ===== src/Inventory/Fixtures.antt =====
-- Concrete tables of characters, rows and snapshots for the runs.
use lariska.Prelude.{
  ℕ, ◌≡◌, refl, true, ◌||◌, none, some, List, [], ◌∷◌, codes, ◌==◌, in_range, is_ascii_alphanumeric,
  to_ascii_lowercase, arith,
}
use lariska.Inventory.Text.{Text, Unicode, IsUnicode}
use lariska.Inventory.Hash.{utf8}
use lariska.Inventory.Entry.{SoftwareEntry, winreg, apt}
use lariska.Inventory.Snapshot.{InventorySnapshot, CollectionSource, mac_hash, complete, partial}
use lariska.Inventory.Validate.{is_identity}

-- The ASCII part of the tables.
abbrev pub ascii : Unicode
ascii = record {
  is_alphanumeric = is_ascii_alphanumeric;
  is_whitespace = λ c. in_range 9 13 c || c == 32;
  to_lowercase = to_ascii_lowercase;
}

pub ascii-IsUnicode : IsUnicode ascii
ascii-IsUnicode = record {
  digit_alphanumeric = λ c h. ground arith;
  dot_separates = refl;
  graphic_visible = λ c h. ground arith;
  space_white = refl;
}

abbrev pub test_sha256 : List ℕ → Text
test_sha256 bytes = codes "0123456789abcdef0123456789abcdef0123456789abcdef0123456789abcdef"

pub test_sha256_hexadecimal : (bytes : List ℕ) → is_identity (some (test_sha256 bytes)) ≡ true
unfolding utf8
test_sha256_hexadecimal bytes = refl

abbrev pub row : Text → Text → SoftwareEntry
row name version = record {
  name = name;
  version = some version;
  publisher = none;
  architecture = some (codes "AMD64");
  source = winreg;
  install_location = some (codes "C:\\Program Files");
  product_identity = none;
  installation_identity = none;
  package_id = none;
  scope = none;
  install_instance_id = none;
}

abbrev pub windows_source : CollectionSource
windows_source = record {
  source = winreg;
  status = complete;
  collected_at = codes "2026-01-01T00:00:00Z";
  last_complete_at = some (codes "2026-01-01T00:00:00Z");
  collector_version = codes "1.0.0";
  diagnostic_code = some (codes "access_denied");
}

abbrev pub packages_source : CollectionSource
packages_source = record windows_source { source = apt; status = partial; last_complete_at = none }

abbrev pub snapshot_of : ℕ → List SoftwareEntry → InventorySnapshot
snapshot_of schema_version software = record {
  schema_version = schema_version;
  snapshot_id = codes "s-1";
  agent_id = codes "a-1";
  collected_at = codes "2026-01-01T00:00:00Z";
  hostname = codes "host";
  os_family = none;
  os_name = none;
  os_version = none;
  os_arch = none;
  agent_version = codes "1.0.0";
  labels = [];
  identifiers =
      record { identifier_type = mac_hash; value_hash = codes "0011223344" }
      ∷ record { identifier_type = mac_hash; value_hash = codes "0011223344" }
      ∷ [];
  software = software;
  collector_warnings = [];
  sources = windows_source ∷ packages_source ∷ [];
}

abbrev pub editors : List SoftwareEntry
editors =
    row (codes "Editor ") (codes "1.9.0")
    ∷ row (codes "editor") (codes "1.10.0")
    ∷ row (codes "Browser") (codes "3")
    ∷ row (codes " ") (codes "1")
    ∷ []
