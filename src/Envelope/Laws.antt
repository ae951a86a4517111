-- ===== src/Envelope/Laws.antt =====
-- What the envelope admits, and with which deadline.
use canonical_api_server_rs.Prelude.{
  ℕ, ◌+◌, ◌≤◌, ◌≡◌, refl, ◌↔◌, ◌⊎◌, inl, inr, true, false, [], ◌∷◌, Option, none, some, Text,
  byte_length, length, min, arith, parse_unsigned, Result, ok, err, Bool-cases, Option-cases,
  >>=-eq-ok, ok_or-eq-ok,
}
use canonical_api_server_rs.Http.{HeaderMap, HeaderValue, get}
use canonical_api_server_rs.Envelope.{
  max_request_header_bytes, max_request_header_count, max_request_duration, request_deadline_header,
  within_budget_from, u64_max, request_headers_within_budget, request_encoding_supported,
  parse_duration, request_duration, status, handled, run_by, or_timeout, enforce_request_envelope,
}

-- The bytes of all names and values, with no bound
unfoldable pub header_bytes : HeaderMap → ℕ
header_bytes [] = 0
header_bytes ((name, value) ∷ headers) =
    byte_length name + length value.bytes + header_bytes headers

within_budget_from_iff :
    (total : ℕ) (headers : HeaderMap)
    → total ≤ max_request_header_bytes
    → (within_budget_from total headers ≡ true)
      ↔ (total + header_bytes headers ≤ max_request_header_bytes)
unfolding within_budget_from header_bytes
within_budget_from_iff total [] h = ground arith
within_budget_from_iff total ((name, value) ∷ headers) h = ground (
  arith,
  within_budget_from_iff (total + byte_length name + length value.bytes) headers,
  within_budget_from_iff (min (min (total + byte_length name) u64_max + length value.bytes) u64_max)
      headers,
)

-- The loop with its saturating sum and its early exit accepts exactly the headers of at most 100
-- values and at most 32,768 bytes of names and values.
pub request_headers_within_budget_iff :
    (headers : HeaderMap)
    → (request_headers_within_budget headers ≡ true) ↔ (
        (length headers ≤ max_request_header_count)
        × (header_bytes headers ≤ max_request_header_bytes))
unfolding request_headers_within_budget
request_headers_within_budget_iff headers = ground (arith, within_budget_from_iff 0 headers)

-- The deadline that is granted: 90 seconds with no header, and otherwise the announced number of
-- milliseconds, which is positive, cut to 90 seconds.
abbrev pub Grants : Option HeaderValue → ℕ → Type 0
Grants none d = d ≡ max_request_duration
Grants (some v) d =
    (t : Text) × (n : ℕ) × (v.text ≡ some t)
    × (parse_unsigned u64_max t ≡ some n)
    × (1 ≤ n)
    × (d ≡ min n max_request_duration)

parse_duration-Grants : (v : HeaderValue) (d : ℕ) → parse_duration v ≡ ok d → Grants (some v) d
unfolding parse_duration
parse_duration-Grants v d h =
    let (t, e, h1) = >>=-eq-ok _ _ h in
    let (n, p, h2) = >>=-eq-ok _ _ h1 in
    (
      t,
      n,
      ok_or-eq-ok v.text 400 e,
      ok_or-eq-ok (parse_unsigned u64_max t) 400 p,
      ground arith,
      ground arith,
    )

request_duration-Grants :
    (headers : HeaderMap) (d : ℕ)
    → request_duration headers ≡ ok d
    → Grants (get request_deadline_header headers) d
unfolding request_duration
request_duration-Grants headers d h = elim (Option-cases (get request_deadline_header headers)) [
  | inl e ↦ rw e (ground arith)
  | inr (v, e) ↦ rw e (parse_duration-Grants v d (rw (e, request_duration) at h))
]

Grants-bounds : (o : Option HeaderValue) (d : ℕ) → Grants o d → (1 ≤ d) × (d ≤ max_request_duration)
Grants-bounds none d g = ground arith
Grants-bounds (some v) d (t, n, e, p, h, m) = ground arith

-- A request that reaches its handler.
pub record IsAdmitted {R : Type 0} (run : ℕ → Option R) (now : ℕ) (headers : HeaderMap) (r : R)
    : Type 0 where
  pub few : length headers ≤ max_request_header_count
  pub small : header_bytes headers ≤ max_request_header_bytes
  pub plain : request_encoding_supported headers ≡ true
  pub duration : ℕ
  pub granted : Grants (get request_deadline_header headers) duration
  pub positive : 1 ≤ duration
  pub bounded : duration ≤ max_request_duration
  pub answered : run (now + duration) ≡ some r

run_by-handled :
    {R : Type 0} (run : ℕ → Option R) (now : ℕ) (d : Result ℕ ℕ) (r : R)
    → run_by run now d ≡ handled r
    → (n : ℕ) × (d ≡ ok n) × (run (now + n) ≡ some r)
unfolding run_by or_timeout
run_by-handled run now (err c) r h = cc
run_by-handled run now (ok n) r h = (n, refl, ground arith)

-- Whatever answer a handler gives reaches the client only for a request within the header budget,
-- with no content encoding but identity, and if the handler answers by a deadline that is the one
-- granted to its headers, at least 1 and at most 90,000 milliseconds from now.
pub enforce_request_envelope-IsAdmitted :
    {R : Type 0} (run : ℕ → Option R) (now : ℕ) (headers : HeaderMap) (r : R)
    → enforce_request_envelope run now headers ≡ handled r
    → IsAdmitted run now headers r
unfolding enforce_request_envelope
enforce_request_envelope-IsAdmitted run now headers r h =
    elim (Bool-cases (request_headers_within_budget headers)) [
      | inr over ↦ cc (rw (over, enforce_request_envelope) at h)
      | inl within ↦ elim (Bool-cases (request_encoding_supported headers)) [
        | inr encoded ↦ ground arith
        | inl plain ↦
            let (few, small) = (request_headers_within_budget_iff headers).0 within in
            let (n, granted, answered) =
              run_by-handled run now (request_duration headers) r (ground arith) in
            let grants = request_duration-Grants headers n granted in
            let (positive, bounded) = Grants-bounds _ n grants in
            record {
              few = few;
              small = small;
              plain = plain;
              duration = n;
              granted = grants;
              positive = positive;
              bounded = bounded;
              answered = answered;
            }
      ]
    ]

-- The statuses of the envelope's own answers, in the order of its checks
pub enforce_request_envelope_refuses :
    {R : Type 0} (run : ℕ → Option R) (now : ℕ) (headers : HeaderMap) (code : ℕ)
    → enforce_request_envelope run now headers ≡ status code
    → (code ≡ 431) × (request_headers_within_budget headers ≡ false)
      ⊎ (code ≡ 415) × (request_encoding_supported headers ≡ false)
      ⊎ (request_duration headers ≡ err code)
      ⊎ (code ≡ 408)
unfolding enforce_request_envelope run_by or_timeout
enforce_request_envelope_refuses run now headers code h = ground arith
