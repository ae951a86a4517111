-- ===== src/Webhook.antt =====
-- Webhook delivery of src/webhook.rs: the endpoint and secret that a dispatcher takes, the signature
-- and the delivery loop. HMAC-SHA-256, the parsing of IP addresses and the HTTP exchange are
-- parameters; building the client and serializing an event are left out.
pub mod Delivery
mod Tests
use canonical_api_server_rs.Prelude.{
  ℕ, zero, suc, ◌+◌, Bool, true, false, not, ◌&&◌, ◌||◌, List, [], ◌∷◌, ◌++◌, Option, none, some,
  Text, codes, text_eq, eq_ignore_ascii_case, is_empty, is_some, count, leb, ltb, ◌==◌,
  if◌then◌else◌, Result, ok, err, ok_or, fail_if, ◌>>=◌, ◌>>◌,
}
use canonical_api_server_rs.DataPlane.{Url}
use canonical_api_server_rs.Ingest.Signatures.{hex_lower}

pub data WebhookBuildError : Type 0 where
  client insecure_url invalid_url unsafe_url weak_secret : WebhookBuildError

pub data DeliveryError : Type 0 where
  rejected : ℕ → DeliveryError
  serialize : DeliveryError
  unavailable : Option ℕ → DeliveryError

-- DELIVERY_ATTEMPTS
abbrev pub delivery_attempts : ℕ
delivery_attempts = 3

-- `is_loopback` says whether a host parses as a loopback IP address.
unfoldable pub validate_endpoint : (Text → Bool) → Url → Result WebhookBuildError (Unit {0})
validate_endpoint is_loopback endpoint = do
  fail_if
      (not (is_empty endpoint.username)
        || is_some endpoint.password
        || is_some endpoint.fragment
        || is_some endpoint.query)
      unsafe_url
  host ← ok_or endpoint.host_str invalid_url
  fail_if
      (not (text_eq endpoint.scheme (codes "https"))
        && not (
            text_eq endpoint.scheme (codes "http")
            && (eq_ignore_ascii_case host (codes "localhost") || is_loopback host)))
      insecure_url

-- `u8::is_ascii_whitespace`
abbrev pub is_ascii_whitespace : ℕ → Bool
is_ascii_whitespace b = b == 9 || b == 10 || b == 12 || b == 13 || b == 32

pub record WebhookDispatcher : Type 0 where
  pub endpoint : Url
  pub secret : List ℕ

-- `WebhookDispatcher::new`, but for the HTTP client
unfoldable pub new_dispatcher :
    (Text → Option Url) → (Text → Bool) → Text → List ℕ → Result WebhookBuildError WebhookDispatcher
unfolding validate_endpoint
new_dispatcher parse_url is_loopback endpoint secret = do
  url ← ok_or (parse_url endpoint) invalid_url
  validate_endpoint is_loopback url
  fail_if (ltb (count (λ b. not (is_ascii_whitespace b)) secret) 32) weak_secret
  ok (record { endpoint = url; secret = secret })

-- `hmac secret message`
unfoldable pub signature : (List ℕ → List ℕ → List ℕ) → List ℕ → Text → List ℕ → Text
signature hmac secret timestamp body =
    codes "v1=" ++ hex_lower (hmac secret (timestamp ++ b'.' ∷ body))

-- What `send().await` returns: the status of the answer, or an error
pub data Sent : Type 0 where
  answered : ℕ → Sent
  send_failed : Sent

abbrev pub is_success : ℕ → Bool
is_success status = leb 200 status && ltb status 300

abbrev pub is_client_error : ℕ → Bool
is_client_error status = leb 400 status && ltb status 500

abbrev pub is_final : ℕ → Bool
is_final attempt = attempt + 1 == delivery_attempts

-- One round of the loop: none, if it sleeps and goes on
decide : ℕ → Sent → Option (Result DeliveryError (Unit {0}))
decide attempt (answered status) =
    if is_success status
    then some (ok tt)
    else (if is_client_error status && not (status == 408 || status == 429)
        then some (err (rejected status))
        else (if is_final attempt then some (err (unavailable (some status))) else none))
decide attempt send_failed = if is_final attempt then some (err (unavailable none)) else none

-- In milliseconds
abbrev pub pause : ℕ → ℕ
pause zero = 250
pause (suc attempt) = 1000

pub record Run : Type 0 where
  pub result : Result DeliveryError (Unit {0})
  pub delays : List ℕ

abbrev continue_with : ℕ → Run → Option (Result DeliveryError (Unit {0})) → Run
continue_with attempt rest none = record {
  result = rest.result;
  delays = pause attempt ∷ rest.delays;
}
continue_with attempt rest (some r) = record { result = r; delays = [] }

attempts_from : ℕ → ℕ → (ℕ → Sent) → Run
unfolding decide
attempts_from zero attempt send = record { result = err (unavailable none); delays = [] }
attempts_from (suc n) attempt send =
    continue_with attempt (attempts_from n (attempt + 1) send) (decide attempt (send attempt))

-- The loop of `dispatch`
unfoldable pub dispatch : (ℕ → Sent) → Run
unfolding attempts_from
dispatch send = attempts_from delivery_attempts 0 send
