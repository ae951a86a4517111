-- ===== src/Webhook/Delivery.antt =====
-- What the dispatcher of src/webhook.rs delivers, where to, and that the receiver of
-- src/readiness_observation_ingest.rs reads its signatures.
use canonical_api_server_rs.Prelude.{
  ℕ, ◌+◌, ◌≤◌, ◌<◌, ◌≡◌, refl, sym, ap, subst, ◌∙◌, ltb, ◌⊎◌, inl, inr, Bool, true, false, not,
  ◌&&◌, ◌||◌, List, [], ◌∷◌, ◌++◌, Option, none, some, Text, codes, text_eq_iff,
  eq_ignore_ascii_case, is_empty, is_some, count, length, take, All, ◌==◌, if◌then◌else◌, Result,
  ok, err, >>=-eq-ok, >>-eq-ok, ok_or-eq-ok, fail_if-eq-ok, ok_injective, Bool-cases, arith,
}
use canonical_api_server_rs.DataPlane.{Url}
use canonical_api_server_rs.Ingest.Signatures.{parse_signature, parse_signature_iff}
use canonical_api_server_rs.Webhook.{
  unsafe_url, weak_secret, DeliveryError, rejected, unavailable, validate_endpoint,
  is_ascii_whitespace, WebhookDispatcher, new_dispatcher, signature, Sent, answered, send_failed,
  is_success, is_client_error, decide, attempts_from, dispatch,
}

-- Whether an attempt may be followed by another one
abbrev pub may_retry : Sent → Bool
may_retry (answered status) =
    not (is_success status) && not (is_client_error status && not (status == 408 || status == 429))
may_retry send_failed = true

abbrev pub last_attempt : (ℕ → Sent) → ℕ
last_attempt send = if may_retry (send 0) then if may_retry (send 1) then 2 else 1 else 0

-- What an attempt alone comes to when no other follows
abbrev pub verdict : Sent → Result DeliveryError (Unit {0})
verdict (answered status) =
    if is_success status
    then ok tt
    else (if is_client_error status && not (status == 408 || status == 429)
        then err (rejected status)
        else err (unavailable (some status)))
verdict send_failed = err (unavailable none)

decide-eq :
    (attempt : ℕ) (s : Sent)
    → decide attempt s ≡ (if may_retry s && not (attempt + 1 == 3) then none else some (verdict s))
unfolding decide
decide-eq attempt (answered status) = ground arith
decide-eq attempt send_failed = ground arith

-- The delivery loop sends at most three times: its result is what the first attempt says that ends
-- it, by a success or by a client error other than 408 and 429, or what the third attempt says; it
-- has slept 250 and 1,000 milliseconds before the second and the third attempt.
pub dispatch-eq :
    (send : ℕ → Sent)
    → dispatch send ≡ record {
      result = verdict (send (last_attempt send));
      delays = take (last_attempt send) (250 ∷ 1000 ∷ []);
    }
unfolding dispatch attempts_from
dispatch-eq send =
    rw (decide-eq 0 (send 0), decide-eq 1 (send 1), decide-eq 2 (send 2))
      (elim (Bool-cases (may_retry (send 0))) [
        | inr e ↦ rw e refl
        | inl e ↦ elim (Bool-cases (may_retry (send 1))) [
          | inr d ↦ rw (e, d) refl
          | inl d ↦ elim (Bool-cases (may_retry (send 2))) [
            | inr c ↦ rw (e, d, c) refl
            | inl c ↦ rw (e, d, c) refl
          ]
        ]
      ])

-- Where events may be sent
pub record IsSafe (is_loopback : Text → Bool) (url : Url) : Type 0 where
  pub bare :
      (url.username ≡ []) × (url.password ≡ none) × (url.query ≡ none) × (url.fragment ≡ none)
  pub host : Text
  pub has_host : url.host_str ≡ some host
  pub encrypted :
      (url.scheme ≡ codes "https")
      ⊎ ((url.scheme ≡ codes "http")
          × ((eq_ignore_ascii_case host (codes "localhost") ≡ true) ⊎ (is_loopback host ≡ true)))

none-of : {A : Type 0} (o : Option A) → is_some o ≡ false → o ≡ none
none-of none h = refl
none-of (some a) h = cc

empty-of : (t : Text) → not (is_empty t) ≡ false → t ≡ []
empty-of [] h = refl
empty-of (c ∷ t) h = cc

validate_endpoint-IsSafe :
    (is_loopback : Text → Bool) (url : Url)
    → validate_endpoint is_loopback url ≡ ok tt
    → IsSafe is_loopback url
unfolding validate_endpoint
validate_endpoint-IsSafe is_loopback url h =
    let (plain, h1) = >>-eq-ok _ _ h in
    let (host, o, encrypted) = >>=-eq-ok _ _ h1 in
    let p =
      fail_if-eq-ok
        (not (is_empty url.username)
          || is_some url.password
          || is_some url.fragment
          || is_some url.query)
        unsafe_url plain in
    record {
      bare = (
        empty-of url.username (ground (arith, p)),
        none-of url.password (ground (arith, p)),
        none-of url.query (ground (arith, p)),
        none-of url.fragment (ground (arith, p)),
      );
      host = host;
      has_host = ok_or-eq-ok _ _ o;
      encrypted = ground (
        arith,
        encrypted,
        text_eq_iff url.scheme (codes "https"),
        text_eq_iff url.scheme (codes "http"),
      );
    }

ltb-eq-false : (a b : ℕ) → ltb a b ≡ false → b ≤ a
ltb-eq-false a b h = ground (arith, h)

-- A dispatcher that is built has the endpoint that its text parses to and the secret that it was
-- given; the endpoint has a host, no credentials, query or fragment, and the scheme https, or http
-- on a loopback host; the secret has at least 32 bytes that are not white space.
pub new_dispatcher-IsSafe :
    (parse_url : Text → Option Url) (is_loopback : Text → Bool) (endpoint : Text) (secret : List ℕ)
    (d : WebhookDispatcher)
    → new_dispatcher parse_url is_loopback endpoint secret ≡ ok d
    → (parse_url endpoint ≡ some d.endpoint)
      × IsSafe is_loopback d.endpoint
      × (d.secret ≡ secret)
      × (32 ≤ count (λ b. not (is_ascii_whitespace b)) secret)
unfolding new_dispatcher
new_dispatcher-IsSafe parse_url is_loopback endpoint secret d h =
    let (url, p, h1) = >>=-eq-ok _ _ h in
    let (safe, h2) = >>-eq-ok _ _ h1 in
    let (strong, h3) = >>-eq-ok _ _ h2 in
    let made = ok_injective h3 in
    let same = ap (λ (w : WebhookDispatcher). w.endpoint) made in
    let long =
      fail_if-eq-ok (ltb (count (λ b. not (is_ascii_whitespace b)) secret) 32) weak_secret strong in
    (
      ok_or-eq-ok _ _ p ∙ ap some same,
      subst (IsSafe is_loopback) same (validate_endpoint-IsSafe is_loopback url safe),
      sym (ap (λ (w : WebhookDispatcher). w.secret) made),
      ltb-eq-false _ 32 long,
    )

-- If the MAC always has 32 bytes, then the signature that the dispatcher makes of a timestamp and a
-- body is read by the receiver of observations as the MAC of the timestamp, a dot and the body.
pub parse_signature-signature :
    (hmac : List ℕ → List ℕ → List ℕ) (secret : List ℕ) (timestamp : Text) (body : List ℕ)
    → ((key message : List ℕ)
        → (length (hmac key message) ≡ 32) × All (λ b. b < 256) (hmac key message))
    → parse_signature (signature hmac secret timestamp body)
      ≡ ok (hmac secret (timestamp ++ b'.' ∷ body))
unfolding signature
parse_signature-signature hmac secret timestamp body h =
    let digest = hmac secret (timestamp ++ b'.' ∷ body) in
    let (n, small) = h secret (timestamp ++ b'.' ∷ body) in
    (parse_signature_iff (signature hmac secret timestamp body) digest).1 (refl, n, small)
