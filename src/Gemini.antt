-- ===== src/Gemini.antt =====
-- The Gemini client of src/gemini.rs: its errors, its retry policy and its circuit breaker. Instants
-- are nanoseconds since a fixed start; the mutex makes each circuit operation one step.
pub mod Circuit
pub mod Analysis
pub mod Calls
mod Tests
use canonical_api_server_rs.Prelude.{
  ℕ, ◌+◌, ◌*◌, ◌^◌, Bool, true, false, ◌&&◌, ◌||◌, Option, none, some, String, ltb, leb, ◌==◌, min,
  if◌then◌else◌, Result, ok, err,
}

-- MAX_ATTEMPTS
abbrev pub max_attempts : ℕ
max_attempts = 3

-- MAX_RESPONSE_BYTES
abbrev pub gemini_max_response_bytes : ℕ
gemini_max_response_bytes = 2_000_000

-- CIRCUIT_FAILURE_THRESHOLD
abbrev pub circuit_failure_threshold : ℕ
circuit_failure_threshold = 5

-- CIRCUIT_OPEN_FOR
abbrev pub circuit_open_for : ℕ
circuit_open_for = 30_000_000_000

abbrev pub failures_max : ℕ
failures_max = 4294967295

pub data GeminiError : Type 0 where
  circuit_open invalid_analysis invalid_response prompt_too_large : GeminiError
  rejected : ℕ → GeminiError
  response_too_large transport : GeminiError

-- `GeminiError::code`
unfoldable pub error_code : GeminiError → String
error_code circuit_open = "gemini_circuit_open"
error_code invalid_analysis = "gemini_analysis_invalid"
error_code invalid_response = "gemini_response_invalid"
error_code prompt_too_large = "gemini_prompt_too_large"
error_code (rejected status) = "gemini_request_rejected"
error_code response_too_large = "gemini_response_too_large"
error_code transport = "gemini_transport_error"

unfoldable pub is_operational_failure : GeminiError → Bool
is_operational_failure circuit_open = true
is_operational_failure transport = true
is_operational_failure (rejected status) = status == 429 || leb 500 status && leb status 599
is_operational_failure _ = false

-- `StatusCode::is_success` and `StatusCode::is_server_error`
abbrev pub is_success : ℕ → Bool
is_success status = leb 200 status && ltb status 300

abbrev pub is_server_error : ℕ → Bool
is_server_error status = leb 500 status && ltb status 600

unfoldable pub should_retry_status : ℕ → Bool
should_retry_status status = status == 429 || is_server_error status

-- In milliseconds. The product is at most 4,000, so it does not saturate.
unfoldable pub retry_delay : ℕ → ℕ
retry_delay attempt = 250 * 2 ^ min attempt 4

pub record CircuitState : Type 0 where
  pub failures : ℕ
  pub open_until : Option ℕ

-- `CircuitState::default()`
unfoldable pub closed : CircuitState
closed = record { failures = 0; open_until = none }

reopen : CircuitState → ℕ → Option ℕ → CircuitState × Result GeminiError (Unit {0})
reopen c now none = (c, ok tt)
reopen c now (some open_until) =
    if ltb now open_until
    then (c, err circuit_open)
    else (record { failures = 0; open_until = none }, ok tt)

unfoldable pub before_request : ℕ → CircuitState → CircuitState × Result GeminiError (Unit {0})
unfolding reopen
before_request now c = reopen c now c.open_until

unfoldable pub record_success : CircuitState → CircuitState
record_success c = record { failures = 0; open_until = none }

unfoldable pub record_failure : ℕ → CircuitState → CircuitState
record_failure now c =
    let failures = min (c.failures + 1) failures_max in
    record {
      failures = failures;
      open_until =
          if leb circuit_failure_threshold failures
          then some (now + circuit_open_for)
          else c.open_until;
    }
