-- ===== src/DataPlane/Policies.antt =====
-- The transport policies of src/web_data_plane.rs: each `validate` is one guard, modelled whole, and
-- is proved to accept exactly the policies within the documented limits.
use canonical_api_server_rs.Prelude.{
  ℕ, ◌≤◌, ◌≡◌, ◌≢◌, ◌↔◌, Bool, true, not, ◌&&◌, ◌||◌, List, [], ◌∷◌, Option, Text, codes, text_eq,
  text_eq_iff, leb, any, Result, ok, fail_if, All, arith,
}
use canonical_api_server_rs.DataPlane.{
  DataPlaneError, unsafe_direct_database_policy, unsafe_http_policy, unsafe_mtls_policy,
  unsafe_jet_stream_policy, Url, max_request_bytes, max_response_bytes, max_frame_bytes,
  safe_service_url, safe_secret_reference, valid_socket_address, valid_dns_name, valid_route_name,
}

-- `(low..=high).contains(&n)`
abbrev pub in_range : ℕ → ℕ → ℕ → Bool
in_range low high n = leb low n && leb n high

abbrev pub InRange : ℕ → ℕ → ℕ → Type 0
InRange low high n = (low ≤ n) × (n ≤ high)

abbrev pub direct_database_role : Text
direct_database_role = codes "canonical_cloud__quote__web_ro"

pub record DirectDatabasePolicy : Type 0 where
  pub role_name : Text
  pub transaction_read_only : Bool
  pub forced_row_level_security : Bool
  pub statement_timeout_ms : ℕ
  pub lock_timeout_ms : ℕ
  pub row_limit : ℕ

pub record StatelessHttpPolicy : Type 0 where
  pub base_url : Text
  pub service_credential_ref : Text
  pub connect_timeout_ms : ℕ
  pub request_timeout_ms : ℕ
  pub max_request : ℕ
  pub max_response : ℕ
  pub redirects_enabled : Bool

pub record StatefulMtlsTcpPolicy : Type 0 where
  pub address : Text
  pub server_name : Text
  pub ca_bundle_ref : Text
  pub client_certificate_ref : Text
  pub client_private_key_ref : Text
  pub tls_minimum_version : Text
  pub connect_timeout_ms : ℕ
  pub io_timeout_ms : ℕ
  pub max_frame : ℕ

pub record JetStreamPolicy : Type 0 where
  pub stream : Text
  pub request_subject : Text
  pub status_subject : Text
  pub durable_consumer : Text
  pub outbox_table : Text
  pub inbox_table : Text
  pub status_table : Text
  pub ack_timeout_ms : ℕ
  pub dedupe_window_seconds : ℕ
  pub max_message_bytes : ℕ
  pub max_deliveries : ℕ

unfoldable pub validate_direct_database : DirectDatabasePolicy → Result DataPlaneError (Unit {0})
validate_direct_database p =
    fail_if
      (not (text_eq p.role_name direct_database_role)
        || not p.transaction_read_only
        || not p.forced_row_level_security
        || not (in_range 1 5000 p.statement_timeout_ms)
        || not (in_range 1 1000 p.lock_timeout_ms)
        || not (in_range 1 1000 p.row_limit))
      unsafe_direct_database_policy

unfoldable pub validate_stateless_http :
    (Text → Option Url) → StatelessHttpPolicy → Result DataPlaneError (Unit {0})
validate_stateless_http parse p =
    fail_if
      (not (safe_service_url parse p.base_url)
        || not (safe_secret_reference p.service_credential_ref)
        || p.redirects_enabled
        || not (in_range 1 2000 p.connect_timeout_ms)
        || not (in_range 1 10000 p.request_timeout_ms)
        || not (in_range 1 max_request_bytes p.max_request)
        || not (in_range 1 max_response_bytes p.max_response))
      unsafe_http_policy

unfoldable pub validate_stateful_mtls : StatefulMtlsTcpPolicy → Result DataPlaneError (Unit {0})
validate_stateful_mtls p =
    fail_if
      (not (valid_socket_address p.address)
        || not (valid_dns_name p.server_name)
        || any (λ r. not (safe_secret_reference r))
            (p.ca_bundle_ref ∷ p.client_certificate_ref ∷ p.client_private_key_ref ∷ [])
        || not (text_eq p.tls_minimum_version (codes "1.3"))
        || not (in_range 1 2000 p.connect_timeout_ms)
        || not (in_range 1 10000 p.io_timeout_ms)
        || not (in_range 1 max_frame_bytes p.max_frame))
      unsafe_mtls_policy

-- `let names = […]`
abbrev pub names : JetStreamPolicy → List Text
names p =
    p.stream ∷ p.request_subject ∷ p.status_subject ∷ p.durable_consumer ∷ p.outbox_table
    ∷ p.inbox_table ∷ p.status_table ∷ []

unfoldable pub validate_jet_stream : JetStreamPolicy → Result DataPlaneError (Unit {0})
validate_jet_stream p =
    fail_if
      (any (λ n. not (valid_route_name n)) (names p)
        || text_eq p.request_subject p.status_subject
        || not (in_range 1000 120000 p.ack_timeout_ms)
        || not (in_range 60 604800 p.dedupe_window_seconds)
        || not (in_range 1 max_request_bytes p.max_message_bytes)
        || not (in_range 1 25 p.max_deliveries))
      unsafe_jet_stream_policy

-- A direct database connection within its limits
pub record IsSafeDirect (p : DirectDatabasePolicy) : Type 0 where
  pub role : p.role_name ≡ direct_database_role
  pub read_only : p.transaction_read_only ≡ true
  pub row_security : p.forced_row_level_security ≡ true
  pub statement_timeout : InRange 1 5000 p.statement_timeout_ms
  pub lock_timeout : InRange 1 1000 p.lock_timeout_ms
  pub rows : InRange 1 1000 p.row_limit

-- A message path within its limits
pub record IsSafeJetStream (p : JetStreamPolicy) : Type 0 where
  pub named : All (λ n. valid_route_name n ≡ true) (names p)
  pub separate : p.request_subject ≢ p.status_subject
  pub ack_timeout : InRange 1000 120000 p.ack_timeout_ms
  pub dedupe_window : InRange 60 604800 p.dedupe_window_seconds
  pub message : InRange 1 max_request_bytes p.max_message_bytes
  pub deliveries : InRange 1 25 p.max_deliveries

-- The direct database policies that are accepted are those of the one read-only role, in read-only
-- transactions under forced row-level security, with positive and bounded timeouts and row limit.
pub validate_direct_database_iff :
    (p : DirectDatabasePolicy) → (validate_direct_database p ≡ ok tt) ↔ IsSafeDirect p
unfolding validate_direct_database
validate_direct_database_iff p = ground (arith, text_eq_iff p.role_name direct_database_role)

-- The JetStream policies that are accepted are those with seven valid names, different subjects for
-- requests and statuses, and the four numbers in their ranges.
pub validate_jet_stream_iff :
    (p : JetStreamPolicy) → (validate_jet_stream p ≡ ok tt) ↔ IsSafeJetStream p
unfolding validate_jet_stream
validate_jet_stream_iff p = ground (arith, text_eq_iff p.request_subject p.status_subject)
