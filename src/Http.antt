-- ===== src/Http.antt =====
-- Headers and API errors of src/lib.rs. A `HeaderMap` is the sequence of names and values that its
-- iterator yields; of a value the model has its bytes and what `to_str` returns. Of an `ApiError` it
-- has the status, the code and the `retry-after` seconds; the texts of messages and the random
-- request id are left out.
use canonical_api_server_rs.Prelude.{
  ℕ, List, [], ◌∷◌, Option, none, some, Text, text_eq, text_eq_iff, String, Eq, lookup, bind_option,
  if◌then◌else◌,
}
use canonical_api_server_rs.Admission.{RateLimited}

pub record HeaderValue : Type 0 where
  pub bytes : List ℕ
  pub text : Option Text

abbrev pub HeaderMap : Type 0
HeaderMap = List (Text × HeaderValue)

abbrev pub text_key : Eq Text
text_key = record { beq = text_eq; beq_iff = text_eq_iff }

-- `headers.get(name)`: the first value under the name
abbrev pub get : Text → HeaderMap → Option HeaderValue
get name headers = lookup text_key name headers

-- `headers.get_all(name)`
abbrev pub get_all : Text → HeaderMap → List HeaderValue
get_all name [] = []
get_all name ((n, v) ∷ headers) =
    let rest = get_all name headers in if text_eq n name then v ∷ rest else rest

-- `headers.get(name).and_then(|value| value.to_str().ok())`
abbrev pub get_text : Text → HeaderMap → Option Text
get_text name headers = bind_option (get name headers) (λ v. v.text)

pub record ApiError : Type 0 where
  pub status : ℕ
  pub code : String
  pub retry_after_seconds : Option ℕ

abbrev pub api_error : ℕ → String → ApiError
api_error status code = record { status = status; code = code; retry_after_seconds = none }

abbrev pub bad_request : String → ApiError
bad_request code = api_error 400 code

abbrev pub unauthorized : ApiError
unauthorized = api_error 401 "unauthorized"

abbrev pub not_found : ApiError
not_found = api_error 404 "not_found"

abbrev pub conflict : String → ApiError
conflict code = api_error 409 code

abbrev pub service_unavailable : String → ApiError
service_unavailable code = api_error 503 code

abbrev pub rate_limited : RateLimited → ApiError
rate_limited limit = record {
  status = 429;
  code = "rate_limited";
  retry_after_seconds = some limit.retry_after_seconds;
}

-- `idempotency_reused` and `storage_unavailable`
abbrev pub idempotency_reused : ApiError
idempotency_reused = conflict "idempotency_key_reused"

abbrev pub storage_unavailable : ApiError
storage_unavailable = service_unavailable "storage_unavailable"
