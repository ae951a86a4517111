-- ===== src/Auth.antt =====
-- Authentication and idempotency keys of src/lib.rs. The shared authority's introspection is a
-- parameter, none if the call fails.
pub mod Subjects
mod Tests
use canonical_api_server_rs.Prelude.{
  ℕ, Bool, true, false, not, ◌&&◌, ◌||◌, List, [], ◌∷◌, Option, none, some, map, Text, codes,
  text_eq, byte_length, trim, strip_prefix, is_ascii_alphanumeric, is_empty, all, leb, ◌==◌,
  if◌then◌else◌, bind_option, keep_if, is_some, is_some_and, Result, ok, err, ok_or, fail_if, ◌>>=◌,
  ◌>>◌,
}
use canonical_api_server_rs.Http.{
  HeaderMap, HeaderValue, get, get_text, ApiError, unauthorized, bad_request,
}

-- INTERNAL_TOKEN_HEADER, SUBJECT_HEADER and IDEMPOTENCY_HEADER
abbrev pub internal_token_header : Text
internal_token_header = codes "x-canonical-internal-token"

abbrev pub subject_header : Text
subject_header = codes "x-canonical-subject"

abbrev pub idempotency_header : Text
idempotency_header = codes "idempotency-key"

abbrev pub authorization : Text
authorization = codes "authorization"

-- The set of bytes of a subject, and that of a key or a shared-auth identifier
abbrev pub is_subject_byte : ℕ → Bool
is_subject_byte b = is_ascii_alphanumeric b || b == b'-' || b == b'_' || b == b':'

abbrev pub is_key_byte : ℕ → Bool
is_key_byte b =
    is_ascii_alphanumeric b || b == b'.' || b == b'_' || b == b':' || b == b'/' || b == b'-'

abbrev pub subject_test : Text → Bool
subject_test value =
    not (is_empty value) && leb (byte_length value) 255 && all is_subject_byte value

unfoldable pub valid_subject : Text → Option Text
valid_subject value = let value' = trim value in if subject_test value' then some value' else none

unfoldable pub valid_shared_auth_identifier : Text → Bool
valid_shared_auth_identifier value =
    not (is_empty value) && leb (byte_length value) 128 && all is_key_byte value

unfoldable pub valid_idempotency_key : Text → Bool
valid_idempotency_key value =
    leb 8 (byte_length value) && leb (byte_length value) 128 && all is_key_byte value

abbrev pub map_trim : Option Text → Option Text
map_trim none = none
map_trim (some t) = some (trim t)

unfoldable pub required_idempotency_key : HeaderMap → Result ApiError Text
unfolding valid_idempotency_key
required_idempotency_key headers =
    ok_or (keep_if valid_idempotency_key (map_trim (get_text idempotency_header headers)))
      (bad_request "invalid_request")

-- What the source reads of an introspection
pub record Introspection : Type 0 where
  pub active : Bool
  pub sub : Option Text

-- `SharedAuthAuthority`: its audience, and `introspect_with_requirements` of a bearer token, an
-- audience and the required scopes.
pub record SharedAuthAuthority : Type 0 where
  pub audience : Text
  pub introspect : Text → Text → List Text → Option Introspection

-- The fields of `AppState` that authentication reads
pub record AuthState : Type 0 where
  pub internal_auth_token : Text
  pub shared_auth : Option SharedAuthAuthority

abbrev pub bearer_of : HeaderMap → Option Text
bearer_of headers =
    keep_if (λ value. not (is_empty value) && leb (byte_length value) 16384)
      (map_trim (bind_option (get_text authorization headers) (strip_prefix (codes "Bearer "))))

unfoldable pub authenticate_bearer : HeaderMap → AuthState → List Text → Result ApiError Text
unfolding valid_subject
authenticate_bearer headers state required_scopes = do
  bearer ← ok_or (bearer_of headers) unauthorized
  authority ← ok_or state.shared_auth unauthorized
  introspection ←
      ok_or (authority.introspect bearer authority.audience required_scopes) unauthorized
  fail_if (not introspection.active) unauthorized
  ok_or (bind_option introspection.sub valid_subject) unauthorized

authenticate_proxy : HeaderMap → AuthState → Option Text → Result ApiError Text
unfolding valid_subject
authenticate_proxy headers state supplied_token = do
  fail_if (not (is_some_and (λ token. text_eq token state.internal_auth_token) supplied_token))
      unauthorized
  ok_or (bind_option (get_text subject_header headers) valid_subject) unauthorized

unfoldable pub authenticate : HeaderMap → AuthState → List Text → Result ApiError Text
unfolding authenticate_bearer authenticate_proxy
authenticate headers state required_scopes =
    let supplied_token = get_text internal_token_header headers in
    if not (is_some supplied_token) && not (is_some (get subject_header headers))
    then authenticate_bearer headers state required_scopes
    else authenticate_proxy headers state supplied_token
