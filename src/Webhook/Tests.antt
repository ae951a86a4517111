-- ===== src/Webhook/Tests.antt =====
-- The delivery laws at concrete endpoints and answers.
use canonical_api_server_rs.Prelude.{
  ℕ, zero, suc, ◌<◌, ◌≡◌, refl, Bool, false, List, [], ◌∷◌, ◌++◌, Option, none, some, Text, codes,
  length, take, replicate, All, ok, arith,
}
use canonical_api_server_rs.DataPlane.{Url}
use canonical_api_server_rs.Ingest.Signatures.{parse_signature}
use canonical_api_server_rs.Webhook.{
  Sent, answered, send_failed, dispatch, WebhookDispatcher, new_dispatcher, validate_endpoint,
  signature,
}
use canonical_api_server_rs.Webhook.Delivery.{
  verdict, last_attempt, dispatch-eq, parse_signature-signature,
}

-- A receiver that is down and then takes the event
abbrev send : ℕ → Sent
send zero = send_failed
send (suc n) = answered 204

dispatch-eq_example : dispatch send ≡ record {
  result = verdict (send (last_attempt send));
  delays = take (last_attempt send) (250 ∷ 1000 ∷ []);
}
dispatch-eq_example = dispatch-eq send

abbrev url : Url
url = record {
  scheme = codes "http";
  username = [];
  password = none;
  query = none;
  fragment = none;
  host_str = some (codes "localhost");
}

abbrev parse_url : Text → Option Url
parse_url t = some url

abbrev is_loopback : Text → Bool
is_loopback t = false

abbrev secret : List ℕ
secret = replicate 32 b'x'

abbrev dispatcher : WebhookDispatcher
dispatcher = record { endpoint = url; secret = secret }

dispatcher_is_built :
    new_dispatcher parse_url is_loopback (codes "http://localhost") secret ≡ ok dispatcher
unfolding new_dispatcher validate_endpoint
dispatcher_is_built = refl

abbrev hmac : List ℕ → List ℕ → List ℕ
hmac key message = replicate 32 7

hmac_bytes :
    (key message : List ℕ)
    → (length (hmac key message) ≡ 32) × All (λ b. b < 256) (hmac key message)
hmac_bytes key message = ground arith

parse_signature-signature_example :
    parse_signature (signature hmac secret (codes "17") (1 ∷ 2 ∷ []))
    ≡ ok (hmac secret (codes "17" ++ b'.' ∷ 1 ∷ 2 ∷ []))
parse_signature-signature_example =
    parse_signature-signature hmac secret (codes "17") (1 ∷ 2 ∷ []) hmac_bytes
