-- ===== src/DataPlane.antt =====
-- The contracts of src/web_data_plane.rs: its errors, identifiers and names. A parsed URL is what
-- the `url` crate's accessors return of it; the parser itself is an argument.
pub mod Policies
pub mod Requests
pub mod Frames
pub mod Receipts
mod Tests
use canonical_api_server_rs.Prelude.{
  ℕ, Bool, true, false, not, ◌&&◌, ◌||◌, Option, none, some, Text, codes, text_eq, byte_length,
  trim, is_ascii_alphanumeric, is_control, starts_with, ends_with, contains_text, rsplit_once,
  parse_unsigned, [], ◌∷◌, all, any, is_empty, is_some, is_some_and, leb, ltb, ◌==◌, if◌then◌else◌,
  Result, ok, err, fail_if, ◌>>◌, ◌>>=◌,
}

pub data AsyncStatus : Type 0 where
  pending published processing succeeded failed dead_letter : AsyncStatus

-- The names of the fields that `InvalidIdentifier` reports
pub data Field : Type 0 where
  request_id tenant_id subject dedupe_key : Field

pub data DataPlaneError : Type 0 where
  contract audience invalid_resource direct_database_write missing_dedupe_key : DataPlaneError
  serialization unsafe_direct_database_policy unsafe_http_policy : DataPlaneError
  unsafe_mtls_policy unsafe_jet_stream_policy frame_size : DataPlaneError
  invalid_identifier : Field → DataPlaneError
  request_too_large : (actual maximum : ℕ) → DataPlaneError
  response_too_large : (actual maximum : ℕ) → DataPlaneError
  invalid_status_transition : (from to : AsyncStatus) → DataPlaneError

abbrev pub max_request_bytes : ℕ
max_request_bytes = 65536

abbrev pub max_response_bytes : ℕ
max_response_bytes = 262144

abbrev pub max_frame_bytes : ℕ
max_frame_bytes = 262144

abbrev pub max_dedupe_key_bytes : ℕ
max_dedupe_key_bytes = 128

-- What the accessors of `reqwest::Url` return
pub record Url : Type 0 where
  pub scheme : Text
  pub username : Text
  pub password : Option Text
  pub query : Option Text
  pub fragment : Option Text
  pub host_str : Option Text

unfoldable pub validate_identifier : Field → Text → ℕ → Result DataPlaneError (Unit {0})
validate_identifier field value maximum =
    fail_if
      (is_empty value
        || ltb maximum (byte_length value)
        || not (text_eq (trim value) value)
        || any is_control value)
      (invalid_identifier field)

unfoldable pub validate_resource : Text → Result DataPlaneError (Unit {0})
validate_resource value =
    fail_if
      (is_empty value
        || ltb 256 (byte_length value)
        || not (starts_with (b'/' ∷ []) value)
        || contains_text value (b'.' ∷ b'.' ∷ [])
        || any (λ c. c == b'?' || c == b'#') value
        || any is_control value)
      invalid_resource

unfoldable pub validate_dedupe_key : Option Text → Result DataPlaneError (Unit {0})
unfolding validate_identifier
validate_dedupe_key none = err missing_dedupe_key
validate_dedupe_key (some value) = validate_identifier dedupe_key value max_dedupe_key_bytes

abbrev host_of : Option Text → Text
host_of none = []
host_of (some host) = host

unfoldable pub safe_service_url : (Text → Option Url) → Text → Bool
safe_service_url parse value = elim (parse value) [
  | none ↦ false
  | some url ↦
      if not (is_empty url.username)
        || is_some url.password
        || is_some url.query
        || is_some url.fragment
      then false
      else text_eq url.scheme (codes "https")
        || text_eq url.scheme (codes "http")
          && (text_eq (host_of url.host_str) (codes "localhost")
              || text_eq (host_of url.host_str) (codes "127.0.0.1")
              || text_eq (host_of url.host_str) (codes "::1")
              || ends_with (codes ".svc.cluster.local") (host_of url.host_str))
]

unfoldable pub safe_secret_reference : Text → Bool
safe_secret_reference value =
    not (is_empty value)
    && leb (byte_length value) 256
    && all (λ c. is_ascii_alphanumeric c || c == b'/' || c == b'.' || c == b'_' || c == b'-') value

unfoldable pub valid_dns_name : Text → Bool
valid_dns_name value =
    not (is_empty value)
    && leb (byte_length value) 253
    && all (λ c. is_ascii_alphanumeric c || c == b'.' || c == b'-') value

unfoldable pub valid_socket_address : Text → Bool
unfolding valid_dns_name
valid_socket_address value =
    leb (byte_length value) 255
    && is_some_and (λ (p : Text × Text). valid_dns_name p.0 && is_some (parse_unsigned 65535 p.1))
        (rsplit_once b':' value)

unfoldable pub valid_route_name : Text → Bool
valid_route_name value =
    not (is_empty value)
    && leb (byte_length value) 128
    && all (λ c. is_ascii_alphanumeric c || c == b'.' || c == b'_' || c == b'-') value
