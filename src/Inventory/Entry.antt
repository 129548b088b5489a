-- ===== src/Inventory/Entry.antt =====
-- src/model.rs: one row of software, its normal form and the identities that it is known by.
use lariska.Prelude.{
  ℕ, ◌||◌, Option, none, some, List, [], ◌∷◌, ◌++◌, codes, ◌==◌, if◌then◌else◌, texts_equal,
  to_ascii_lowercase,
}
use lariska.Inventory.Text.{Text, Unicode, normalize_required_string, normalize_optional_string}
use lariska.Inventory.Hash.{hash_identity}

pub data SoftwareSource : Type 0 where
  apt dpkg rpm winreg msi brew pip npm java kb pacman mac_bundle other : SoftwareSource

pub data InstallationScope : Type 0 where
  system user runtime container : InstallationScope

pub record SoftwareEntry : Type 0 where
  pub name : Text
  pub version : Option Text
  pub publisher : Option Text
  pub architecture : Option Text
  pub source : SoftwareSource
  pub install_location : Option Text
  pub product_identity : Option Text
  pub installation_identity : Option Text
  pub package_id : Option Text
  pub scope : Option InstallationScope
  pub install_instance_id : Option Text

abbrev pub inventory_schema_version : ℕ
inventory_schema_version = 2

abbrev pub legacy_inventory_schema_version : ℕ
legacy_inventory_schema_version = 1

-- The derived order is that of the declaration.
abbrev pub source_rank : SoftwareSource → ℕ
source_rank apt = 0
source_rank dpkg = 1
source_rank rpm = 2
source_rank winreg = 3
source_rank msi = 4
source_rank brew = 5
source_rank pip = 6
source_rank npm = 7
source_rank java = 8
source_rank kb = 9
source_rank pacman = 10
source_rank mac_bundle = 11
source_rank other = 12

unfoldable pub as_str : SoftwareSource → Text
as_str apt = codes "apt"
as_str dpkg = codes "dpkg"
as_str rpm = codes "rpm"
as_str winreg = codes "winreg"
as_str msi = codes "msi"
as_str brew = codes "brew"
as_str pip = codes "pip"
as_str npm = codes "npm"
as_str java = codes "java"
as_str kb = codes "kb"
as_str pacman = codes "pacman"
as_str mac_bundle = codes "mac_bundle"
as_str other = codes "other"

-- The names of each source, in the order of the match.
abbrev source_names : List (Text × SoftwareSource)
source_names =
    (codes "apt", apt)
    ∷ (codes "dpkg", dpkg)
    ∷ (codes "rpm", rpm)
    ∷ (codes "winreg", winreg)
    ∷ (codes "msi", msi)
    ∷ (codes "brew", brew)
    ∷ (codes "pip", pip)
    ∷ (codes "python", pip)
    ∷ (codes "npm", npm)
    ∷ (codes "node", npm)
    ∷ (codes "nodejs", npm)
    ∷ (codes "java", java)
    ∷ (codes "jar", java)
    ∷ (codes "jdk", java)
    ∷ (codes "jre", java)
    ∷ (codes "kb", kb)
    ∷ (codes "msu", kb)
    ∷ (codes "hotfix", kb)
    ∷ (codes "pacman", pacman)
    ∷ (codes "mac_bundle", mac_bundle)
    ∷ []

abbrev source_named : Text → List (Text × SoftwareSource) → SoftwareSource
source_named raw [] = other
source_named raw ((name, source) ∷ rest) =
    if texts_equal raw name then source else source_named raw rest

unfoldable pub from_raw : Text → SoftwareSource
from_raw raw = source_named (to_ascii_lowercase raw) source_names

unfoldable pub normalize_architecture : Text → Text
normalize_architecture value =
    let lower = to_ascii_lowercase value in
    if texts_equal lower (codes "amd64") || texts_equal lower (codes "x64")
    then codes "x86_64"
    else if texts_equal lower (codes "arm64")
    then codes "aarch64"
    else lower

abbrev pub or_empty : Option Text → Text
or_empty none = []
or_empty (some value) = value

abbrev pub or_else : {A : Type 0} → Option A → Option A → Option A
or_else none second = second
or_else (some a) second = some a

abbrev pub option_map : {A B : Type 0} → (A → B) → Option A → Option B
option_map f none = none
option_map f (some a) = some (f a)

abbrev pub default_scope : SoftwareSource → InstallationScope
default_scope pip = runtime
default_scope npm = runtime
default_scope java = runtime
default_scope _ = system

abbrev pub scope_or : InstallationScope → Option InstallationScope → InstallationScope
scope_or scope none = scope
scope_or scope (some given) = given

abbrev pub scope_name : InstallationScope → Text
scope_name system = codes "system"
scope_name user = codes "user"
scope_name runtime = codes "runtime"
scope_name container = codes "container"

abbrev bar : ℕ
bar = b'|'

module _ (unicode : Unicode) where
  open unicode use {to_lowercase}

  unfoldable pub normalize_entry : SoftwareEntry → SoftwareEntry
  normalize_entry entry = record entry {
    name = normalize_required_string unicode entry.name;
    version = normalize_optional_string unicode entry.version;
    publisher = normalize_optional_string unicode entry.publisher;
    architecture =
        option_map normalize_architecture (normalize_optional_string unicode entry.architecture);
    install_location = normalize_optional_string unicode entry.install_location;
  }

  unfoldable pub comparison_key : SoftwareEntry → Text
  unfolding as_str
  comparison_key entry =
      to_lowercase entry.name
      ++ bar ∷ to_lowercase (or_empty entry.publisher)
      ++ bar ∷ to_lowercase (or_empty entry.architecture)
      ++ bar ∷ as_str entry.source

  unfoldable pub identity_key : ℕ → SoftwareEntry → Text
  identity_key schema_version entry =
      if schema_version == inventory_schema_version
      then elim entry.installation_identity [
        | some identity ↦ identity
        | none ↦ comparison_key entry
      ]
      else comparison_key entry

  abbrev pub normal_row : SoftwareEntry → SoftwareEntry
  normal_row entry =
      let normal = normalize_entry entry in
      record normal { package_id = normalize_optional_string unicode normal.package_id }

  module _ (sha256 : List ℕ → Text) where
    unfoldable pub with_instance :
        Option Text → InstallationScope → Text → SoftwareEntry → SoftwareEntry
    with_instance package_id scope private_instance entry = record entry {
      package_id = package_id;
      scope = some scope;
      install_instance_id =
          some (hash_identity sha256 (codes "lariska-install-instance-v2" ∷ private_instance ∷ []));
    }

    -- What stands for an installation that has no key of its own.
    abbrev instance_of : SoftwareEntry → Text
    instance_of entry = elim (or_else entry.install_location entry.package_id) [
      | some instance' ↦ instance'
      | none ↦ elim entry.version [ some version ↦ version | none ↦ codes "unknown" ]
    ]

    abbrev instance_id : SoftwareEntry → Text
    instance_id entry = elim entry.install_instance_id [
      | some given ↦ given
      | none ↦ hash_identity sha256 (codes "lariska-install-instance-v2" ∷ instance_of entry ∷ [])
    ]

    -- The identities of a row in normal form.
    unfoldable pub identified : InstallationScope → Text → Text → SoftwareEntry → SoftwareEntry
    identified scope product instance' entry = record entry {
      scope = some scope;
      install_instance_id = some instance';
      installation_identity = some (
          hash_identity sha256 (
            codes "lariska-installation-v2"
            ∷ product
            ∷ or_empty entry.package_id
            ∷ scope_name scope
            ∷ instance'
            ∷ []));
      product_identity = some product;
      install_location = none;
    }

    abbrev pub assign_identity : SoftwareEntry → SoftwareEntry
    assign_identity entry =
        identified (scope_or (default_scope entry.source) entry.scope) (comparison_key entry)
          (instance_id entry) entry

    unfoldable pub ensure_installation_identity : SoftwareEntry → SoftwareEntry
    ensure_installation_identity entry = assign_identity (normal_row entry)
