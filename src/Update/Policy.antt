-- ===== src/Update/Policy.antt =====
-- `UpdateConfig::validate`, and the text checks of src/update.rs: nonces, key ids, versions, hex.
use Prim.Native.String.{len}
use lariska.Prelude.{
  ℕ, ◌+◌, ◌-◌, ◌*◌, ◌/◌, ◌%◌, String, Bool, not, ◌&&◌, ◌||◌, Option, none, some, List, [], ◌∷◌, leb,
  ltb, ◌==◌, str_eq, in_range, length, all, any, codes, is_ascii_digit, is_lower_hex,
  is_ascii_hexdigit, is_ascii_alphanumeric, if◌then◌else◌,
}
use lariska.Exec.{Result, ok, err}
use lariska.Exec.Fallible.{◌>>=◌, ◌>>◌, require}
use lariska.Update.Types.{
  TrustedKey, UpdateConfig, Error, bad_download_limit, bad_health_timeout, bad_history_limit,
  too_many_keys, bad_key_id, bad_hex, bad_public_key, relative_state_dir, bad_thumbprint,
  bad_team_id, self_signed_without_pin, version_too_long, version_not_semantic, bad_nonce,
}
use lariska.Update.Host.{Env, Done, is_none}

abbrev pub hard_max_download_bytes : ℕ
hard_max_download_bytes = 1024 * 1024 * 1024

unfoldable pub safe_id : String → Bool
safe_id id =
    not (length (codes id) == 0)
    && leb (length (codes id)) 64
    && all (λ c. is_ascii_alphanumeric c || c == b'-' || c == b'_') (codes id)

unfoldable pub valid_nonce : String → Bool
valid_nonce nonce = (length (codes nonce) == 32) && all is_lower_hex (codes nonce)

unfoldable pub validate_nonce : String → Result Error Done
unfolding valid_nonce
validate_nonce nonce = if valid_nonce nonce then ok tt else err bad_nonce

-- The value of a hexadecimal digit.
abbrev pub hex_value : ℕ → ℕ
hex_value c = if leb c b'9' then c - b'0' else if leb c b'F' then c - b'A' + 10 else c - b'a' + 10

abbrev pub hex_bytes : List ℕ → List ℕ
hex_bytes (h ∷ l ∷ rest) = (hex_value h * 16 + hex_value l) ∷ hex_bytes rest
hex_bytes _ = []

-- `decode_hex::<N>`
unfoldable pub decode_hex : ℕ → String → Result Error (List ℕ)
decode_hex n value =
    if (length (codes value) == n * 2) && all is_ascii_hexdigit (codes value)
    then ok (hex_bytes (codes value))
    else err bad_hex

abbrev pub hex_digit : ℕ → ℕ
hex_digit d = if ltb d 10 then b'0' + d else b'a' + (d - 10)

-- `encode_hex`, as the code points of its text.
unfoldable pub encode_hex : List ℕ → List ℕ
encode_hex [] = []
encode_hex (b ∷ bytes) = hex_digit (b / 16) ∷ hex_digit (b % 16) ∷ encode_hex bytes

module _ (env : Env) where
  open env use {Version, parse, is_key, is_absolute}

  unfoldable pub parse_version : String → Result Error Version
  parse_version version =
      if ltb 128 (len version)
      then err version_too_long
      else elim (parse version) [ none ↦ err version_not_semantic | some v ↦ ok v ]

  -- The loop over `trusted_keys`, with the ids that came before.
  unfoldable pub validate_keys : List String → List TrustedKey → Result Error Done
  validate_keys ids [] = ok tt
  validate_keys ids (key ∷ keys) =
      let rest = validate_keys (key.id ∷ ids) keys in
      do
        require (safe_id key.id && not (any (str_eq key.id) ids)) bad_key_id
        bytes ← decode_hex 32 key.public_key
        require (is_key bytes) bad_public_key
        rest

  unfoldable pub validate_emergency : Option String → Result Error Done
  validate_emergency none = ok tt
  validate_emergency (some version) = do v ← parse_version version; ok tt

  unfoldable pub validate_state_dir : Option String → Result Error Done
  validate_state_dir none = ok tt
  validate_state_dir (some path) = require (is_absolute path) relative_state_dir

  unfoldable pub validate_thumbprint : Option String → Result Error Done
  validate_thumbprint none = ok tt
  validate_thumbprint (some pin) =
      require ((length (codes pin) == 40) && all is_ascii_hexdigit (codes pin)) bad_thumbprint

  unfoldable pub validate_team_id : Option String → Result Error Done
  validate_team_id none = ok tt
  validate_team_id (some team) =
      require
        ((length (codes team) == 10)
          && all (λ c. in_range b'A' b'Z' c || is_ascii_digit c) (codes team))
        bad_team_id

  unfoldable pub validate_signer_pin : Option String → Result Error Done
  validate_signer_pin none = ok tt
  validate_signer_pin (some pin) = do bytes ← decode_hex 32 pin; ok tt

  unfoldable pub validate : UpdateConfig → Result Error Done
  validate c = do
    require (in_range 1 hard_max_download_bytes c.max_download_bytes) bad_download_limit
    require (in_range 30 3600 c.health_timeout_secs) bad_health_timeout
    require (in_range 1 100 c.history_limit) bad_history_limit
    require (leb (length c.trusted_keys) 32) too_many_keys
    validate_keys [] c.trusted_keys
    validate_emergency c.emergency_version
    validate_state_dir c.native_state_dir
    validate_thumbprint c.windows_signer_thumbprint
    validate_team_id c.macos_team_id
    validate_signer_pin c.macos_signer_sha256
    require
        (not (
          c.allow_self_signed_native
          && is_none c.windows_signer_thumbprint
          && is_none c.macos_signer_sha256))
        self_signed_without_pin
