-- ===== src/Gemini/Tests.antt =====
-- The Gemini client's laws at concrete calls.
use canonical_api_server_rs.Prelude.{
  ℕ, ◌+◌, ◌<◌, ◌≤◌, ◌≡◌, refl, ◌↔◌, true, List, [], ◌∷◌, Option, none, some, Text, codes, text_eq,
  length, take, if◌then◌else◌, zero, suc, Result, ok, err, arith,
}
use canonical_api_server_rs.Gemini.{
  GeminiError, circuit_open, closed, before_request, record_failure, record_success,
  should_retry_status, circuit_failure_threshold, circuit_open_for, is_operational_failure,
}
use canonical_api_server_rs.Gemini.Circuit.{
  Step, asks, fails, succeeds, after, failures_in_a_row, refuses-trips,
}
use canonical_api_server_rs.Gemini.Analysis.{
  Json, Candidate, validate_analysis, IsAnalysis, validate_analysis_iff,
}
use canonical_api_server_rs.Gemini.Calls.{
  Sent, answered, send_failed, execute_with_retries, analyze, verdict, last_attempt,
  IsProviderFailure, execute_with_retries-eq, analyze-blames,
}

-- Five failures in a row, with calls that ask between them
abbrev steps : List Step
steps =
    fails 50
    ∷ asks 45
    ∷ fails 40
    ∷ fails 30
    ∷ asks 25
    ∷ fails 20
    ∷ fails 10
    ∷ succeeds 5
    ∷ fails 1
    ∷ []

sixty_is_refused : (before_request 60 (after steps closed)).1 ≡ err circuit_open
unfolding before_request after closed record_failure record_success
sixty_is_refused = refl

refuses-trips_example :
    (f : ℕ) × (earlier : List ℕ) × (failures_in_a_row steps ≡ f ∷ earlier)
    × (circuit_failure_threshold ≤ length (failures_in_a_row steps))
    × (60 < f + circuit_open_for)
refuses-trips_example = refuses-trips steps 60 sixty_is_refused

-- A small JSON: texts, numbers, empty arrays and objects without nesting
data Scalar : Type 0 where
  text : Text → Scalar
  number : ℕ → Scalar
  array : Scalar

data Value : Type 0 where
  scalar : Scalar → Value
  object : List (Text × Scalar) → Value

abbrev field : List (Text × Scalar) → Text → Option Value
field [] name = none
field ((n, v) ∷ members) name =
    let rest = field members name in if text_eq n name then some (scalar v) else rest

abbrev as_object : Value → Option (Text → Option Value)
as_object (object members) = some (field members)
as_object _ = none

abbrev as_str : Value → Option Text
as_str (scalar (text t)) = some t
as_str _ = none

abbrev as_u64 : Value → Option ℕ
as_u64 (scalar (number n)) = some n
as_u64 _ = none

abbrev as_array : Value → Option (List Value)
as_array (scalar array) = some []
as_array _ = none

abbrev json : Json Value
json = record { as_object = as_object; as_str = as_str; as_u64 = as_u64; as_array = as_array }

abbrev analysis : Value
analysis = object (
    (codes "summary", text (codes "scope"))
    ∷ (codes "currency", text (codes "USD"))
    ∷ (codes "estimated_total_fee_low", number 10)
    ∷ (codes "estimated_total_fee_high", number 20)
    ∷ (codes "estimated_total_weeks_low", number 1)
    ∷ (codes "estimated_total_weeks_high", number 2)
    ∷ (codes "recommended_services", array)
    ∷ (codes "assumptions", array)
    ∷ (codes "risks", array)
    ∷ (codes "missing_information", array)
    ∷ (codes "disclaimer", text (codes "estimate"))
    ∷ [])

analysis_is_valid : validate_analysis json analysis ≡ ok tt
unfolding validate_analysis
analysis_is_valid = refl

validate_analysis_iff_example : (validate_analysis json analysis ≡ ok tt) ↔ IsAnalysis json analysis
validate_analysis_iff_example = validate_analysis_iff json analysis

-- A provider that times out and answers with HTTP 503 after that
abbrev send : ℕ → Sent
send zero = send_failed true
send (suc n) = answered (record { status = 503; content_length = none; bytes = some [] })

abbrev parse_response : List ℕ → Option (List Candidate)
parse_response bytes = none

abbrev parse_json : Text → Option Value
parse_json t = some analysis

execute_with_retries-eq_example :
    execute_with_retries json parse_response parse_json send ≡ record {
      result = verdict json parse_response parse_json (send (last_attempt send));
      delays = take (last_attempt send) (250 ∷ 500 ∷ []);
    }
execute_with_retries-eq_example = execute_with_retries-eq json parse_response parse_json send

abbrev prompt : Result GeminiError Text
prompt = ok (codes "prompt")

call_fails :
    closed.failures < (analyze json parse_response parse_json 1 2 prompt send closed).0.failures
unfolding analyze closed before_request execute_with_retries is_operational_failure record_failure
    should_retry_status
call_fails = omega arith

analyze-blames_example :
    (e : GeminiError) × (verdict json parse_response parse_json (send (last_attempt send)) ≡ err e)
    × IsProviderFailure e
analyze-blames_example =
    analyze-blames json parse_response parse_json 1 2 prompt send closed call_fails
