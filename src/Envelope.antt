-- ===== src/Envelope.antt =====
-- The request envelope of src/lib.rs: header budget, encoding and deadline, checked in this order
-- before a handler runs. Durations are milliseconds.
pub mod Laws
mod Tests
use canonical_api_server_rs.Prelude.{
  ℕ, ◌+◌, Bool, true, false, List, [], ◌∷◌, Option, none, some, Text, codes, byte_length, length,
  ltb, ◌==◌, min, if◌then◌else◌, all, is_some_and, eq_ignore_ascii_case, parse_unsigned, Result, ok,
  err, ok_or, fail_if, ◌>>=◌, ◌>>◌,
}
use canonical_api_server_rs.Http.{HeaderMap, HeaderValue, get, get_all}

abbrev pub max_request_header_bytes : ℕ
max_request_header_bytes = 32768

abbrev pub max_request_header_count : ℕ
max_request_header_count = 100

abbrev pub max_request_duration : ℕ
max_request_duration = 90000

abbrev pub u64_max : ℕ
u64_max = 18446744073709551615

abbrev pub request_deadline_header : Text
request_deadline_header = codes "x-ores-deadline-ms"

abbrev pub content_encoding : Text
content_encoding = codes "content-encoding"

-- `usize::saturating_add`, at 64 bits
abbrev saturating_add : ℕ → ℕ → ℕ
saturating_add a b = min (a + b) u64_max

-- The loop over the headers, which stops at the first total above the budget
within_budget_from : ℕ → HeaderMap → Bool
within_budget_from total [] = true
within_budget_from total ((name, value) ∷ headers) =
    let total' = saturating_add (saturating_add total (byte_length name)) (length value.bytes) in
    let rest = within_budget_from total' headers in
    if ltb max_request_header_bytes total' then false else rest

unfoldable pub request_headers_within_budget : HeaderMap → Bool
unfolding within_budget_from
request_headers_within_budget headers =
    if ltb max_request_header_count (length headers) then false else within_budget_from 0 headers

unfoldable pub request_encoding_supported : HeaderMap → Bool
request_encoding_supported headers =
    all (λ (v : HeaderValue). is_some_and (λ t. eq_ignore_ascii_case t (codes "identity")) v.text)
      (get_all content_encoding headers)

parse_duration : HeaderValue → Result ℕ ℕ
parse_duration value = do
  text ← ok_or value.text 400
  milliseconds ← ok_or (parse_unsigned u64_max text) 400
  fail_if (milliseconds == 0) 408
  ok (min milliseconds max_request_duration)

-- The duration, or the status of the refusal
unfoldable pub request_duration : HeaderMap → Result ℕ ℕ
unfolding parse_duration
request_duration headers = elim (get request_deadline_header headers) [
  | none ↦ ok max_request_duration
  | some value ↦ parse_duration value
]

pub data Response (R : Type 0) : Type 0 where
  status : ℕ → Response R
  handled : R → Response R

module _ {R : Type 0} where
  or_timeout : Option R → Response R
  or_timeout none = status 408
  or_timeout (some r) = handled r

  run_by : (ℕ → Option R) → ℕ → Result ℕ ℕ → Response R
  unfolding or_timeout
  run_by run now (err code) = status code
  run_by run now (ok duration) = or_timeout (run (now + duration))

  -- `run expires_at` is `timeout_at(expires_at, next.run(request))`: none, if the time is up first.
  unfoldable pub enforce_request_envelope : (ℕ → Option R) → ℕ → HeaderMap → Response R
  unfolding run_by
  enforce_request_envelope run now headers =
      if request_headers_within_budget headers
      then (if request_encoding_supported headers
          then run_by run now (request_duration headers)
          else status 415)
      else status 431
