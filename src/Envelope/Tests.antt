-- ===== src/Envelope/Tests.antt =====
-- The envelope's laws at concrete headers.
use canonical_api_server_rs.Prelude.{
  ℕ, ◌≡◌, refl, [], ◌∷◌, Option, some, none, Text, codes, byte_length, parse_unsigned, ltb,
  if◌then◌else◌,
}
use canonical_api_server_rs.Http.{HeaderMap, HeaderValue}
use canonical_api_server_rs.Envelope.{
  request_headers_within_budget, request_encoding_supported, request_duration,
  enforce_request_envelope, handled,
}
use canonical_api_server_rs.Envelope.Laws.{IsAdmitted, enforce_request_envelope-IsAdmitted}

abbrev value : Text → HeaderValue
value t = record { bytes = t; text = some t }

abbrev headers : HeaderMap
headers =
    (codes "accept", value (codes "*/*"))
    ∷ (codes "content-encoding", value (codes "Identity"))
    ∷ (codes "x-ores-deadline-ms", value (codes "250"))
    ∷ []

-- A handler that is done at the instant 1,100
abbrev handler : ℕ → Option Text
handler expires_at = if ltb expires_at 1100 then none else some (codes "done")

headers_are_admitted : enforce_request_envelope handler 1000 headers ≡ handled (codes "done")
unfolding enforce_request_envelope request_headers_within_budget byte_length
    request_encoding_supported request_duration parse_unsigned
headers_are_admitted = refl

enforce_request_envelope-IsAdmitted_example : IsAdmitted handler 1000 headers (codes "done")
enforce_request_envelope-IsAdmitted_example =
    enforce_request_envelope-IsAdmitted handler 1000 headers (codes "done") headers_are_admitted
