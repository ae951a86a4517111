-- ===== src/Auth/Tests.antt =====
-- The authentication laws at concrete requests.
use canonical_api_server_rs.Prelude.{
  ◌≡◌, refl, ◌↔◌, true, List, [], ◌∷◌, Option, some, Text, codes, byte_length, trim, ok,
}
use canonical_api_server_rs.Http.{HeaderMap, HeaderValue}
use canonical_api_server_rs.Auth.{
  AuthState, Introspection, authenticate, authenticate_bearer, valid_subject,
  required_idempotency_key,
}
use canonical_api_server_rs.Auth.Subjects.{
  IsVouched, IsSubject, IsKey, authenticate-IsVouched, required_idempotency_key_iff,
}

abbrev value : Text → HeaderValue
value t = record { bytes = t; text = some t }

abbrev introspect : Text → Text → List Text → Option Introspection
introspect bearer audience scopes = some (record { active = true; sub = some (codes "user:7") })

abbrev state : AuthState
state = record {
  internal_auth_token = codes "secret";
  shared_auth = some (record { audience = codes "canonical"; introspect = introspect });
}

abbrev bearer_request : HeaderMap
bearer_request = (codes "authorization", value (codes "Bearer abc")) ∷ []

abbrev scopes : List Text
scopes = codes "quotes:read" ∷ []

bearer_is_admitted : authenticate bearer_request state scopes ≡ ok (codes "user:7")
unfolding authenticate authenticate_bearer valid_subject byte_length trim
bearer_is_admitted = refl

authenticate-IsVouched_example :
    IsVouched bearer_request state scopes (codes "user:7") × IsSubject (codes "user:7")
authenticate-IsVouched_example =
    authenticate-IsVouched bearer_request state scopes (codes "user:7") bearer_is_admitted

abbrev proxy_request : HeaderMap
proxy_request =
    (codes "x-canonical-internal-token", value (codes "secret"))
    ∷ (codes "x-canonical-subject", value (codes " user:9 "))
    ∷ (codes "idempotency-key", value (codes "key-00001"))
    ∷ []

nine_is_valid : valid_subject (codes " user:9 ") ≡ some (codes "user:9")
unfolding valid_subject byte_length trim
nine_is_valid = refl

required_idempotency_key_iff_example :
    (required_idempotency_key proxy_request ≡ ok (codes "key-00001"))
    ↔ IsKey proxy_request (codes "key-00001")
required_idempotency_key_iff_example =
    required_idempotency_key_iff proxy_request (codes "key-00001")
