-- ===== src/Gemini/Calls.antt =====
-- One analysis of src/gemini.rs: the retry loop `execute_with_retries`, and `analyze` around it.
-- `send` gives what the HTTP client returns for each attempt; the prompt's text is not modelled.
use canonical_api_server_rs.Prelude.{
  ℕ, ◌+◌, ◌≤◌, ◌<◌, ◌≡◌, refl, sym, ap, ◌⊎◌, inl, inr, Bool, true, false, ◌&&◌, List, [], ◌∷◌,
  Option, none, some, Text, length, ltb, if◌then◌else◌, is_some_and, trim, Result, ok, err, ◌>>=◌,
  ◌>>◌, ok_or, fail_if, Bool-cases, Option-cases, arith, zero, suc, take, OnlyErr, >>=-OnlyErr,
  ok_or-OnlyErr, fail_if-OnlyErr,
}
use canonical_api_server_rs.Gemini.{
  GeminiError, transport, rejected, invalid_response, invalid_analysis, response_too_large,
  is_success, should_retry_status, retry_delay, max_attempts, gemini_max_response_bytes,
  CircuitState, before_request, record_success, record_failure, is_operational_failure,
}
use canonical_api_server_rs.Gemini.Analysis.{
  Json, Candidate, extract_text, strip_json_fence, validate_analysis, validate_analysis-OnlyErr,
}

pub record Answer : Type 0 where
  pub status : ℕ
  pub content_length : Option ℕ
  -- `response.bytes().await`, none on an error
  pub bytes : Option (List ℕ)

-- What `send().await` returns. A failure says whether it is one of connecting or a timeout.
pub data Sent : Type 0 where
  answered : Answer → Sent
  send_failed : (is_connect_or_timeout : Bool) → Sent

pub record Run (J : Type 0) : Type 0 where
  pub result : Result GeminiError J
  -- The sleeps between the attempts, in milliseconds
  pub delays : List ℕ

abbrev continue_with : {J : Type 0} → ℕ → Run J → Option (Result GeminiError J) → Run J
continue_with attempt rest none = record {
  result = rest.result;
  delays = retry_delay attempt ∷ rest.delays;
}
continue_with attempt rest (some r) = record { result = r; delays = [] }

-- The JSON parser and the provider are the parameters.
module _ {J : Type 0} (json : Json J) (parse_response : List ℕ → Option (List Candidate))
    (parse_json : Text → Option J) where
  -- The branch of a successful status
  unfoldable pub accept : Answer → Result GeminiError J
  accept answer = do
    fail_if (is_some_and (ltb gemini_max_response_bytes) answer.content_length) response_too_large
    bytes ← ok_or answer.bytes transport
    fail_if (ltb gemini_max_response_bytes (length bytes)) response_too_large
    payload ← ok_or (parse_response bytes) invalid_response
    text ← ok_or (extract_text payload) invalid_response
    analysis ← ok_or (parse_json (strip_json_fence (trim text))) invalid_analysis
    validate_analysis json analysis
    ok analysis

  -- One round of the loop: none, if it sleeps and continues
  decide : ℕ → Sent → Option (Result GeminiError J)
  decide attempt (answered answer) =
      if is_success answer.status
      then some (accept answer)
      else (if should_retry_status answer.status && ltb (attempt + 1) max_attempts
          then none
          else some (err (rejected answer.status)))
  decide attempt (send_failed retryable) =
      if retryable && ltb (attempt + 1) max_attempts then none else some (err transport)

  attempts_from : ℕ → ℕ → (ℕ → Sent) → Run J
  unfolding decide
  attempts_from zero attempt send = record { result = err transport; delays = [] }
  attempts_from (suc n) attempt send =
      continue_with attempt (attempts_from n (attempt + 1) send) (decide attempt (send attempt))

  unfoldable pub execute_with_retries : (ℕ → Sent) → Run J
  unfolding attempts_from
  execute_with_retries send = attempts_from max_attempts 0 send

  -- The `match &result`
  record_outcome : ℕ → CircuitState → Result GeminiError J → CircuitState
  record_outcome now c (ok analysis) = record_success c
  record_outcome now c (err e) = if is_operational_failure e then record_failure now c else c

  call_provider :
      ℕ → (ℕ → Sent) → CircuitState × Result GeminiError (Unit {0}) → CircuitState × Run J
  unfolding record_outcome execute_with_retries
  call_provider ended send (c, err e) = (c, record { result = err e; delays = [] })
  call_provider ended send (c, ok u) =
      let run = execute_with_retries send in (record_outcome ended c run.result, run)

  -- `prompt` is what `build_prompt` returns; the call asks at `asked` and ends at `ended`.
  unfoldable pub analyze :
      ℕ → ℕ → Result GeminiError Text → (ℕ → Sent) → CircuitState → CircuitState × Run J
  unfolding call_provider
  analyze asked ended (err e) send c = (c, record { result = err e; delays = [] })
  analyze asked ended (ok prompt) send c = call_provider ended send (before_request asked c)

  -- The description of the loop: what an attempt alone says, and whether it may be made again.
  abbrev pub verdict : Sent → Result GeminiError J
  verdict (answered answer) =
      if is_success answer.status then accept answer else err (rejected answer.status)
  verdict (send_failed retryable) = err transport

abbrev pub may_retry : Sent → Bool
may_retry (answered answer) =
    if is_success answer.status then false else should_retry_status answer.status
may_retry (send_failed retryable) = retryable

-- The first attempt that may not be made again, and the third if there is none
abbrev pub last_attempt : (ℕ → Sent) → ℕ
last_attempt send = if may_retry (send 0) then if may_retry (send 1) then 2 else 1 else 0

-- Failures of the transport, HTTP 429 and HTTP 5xx
abbrev pub IsProviderFailure : GeminiError → Type 0
IsProviderFailure e =
    (e ≡ transport)
    ⊎ ((status : ℕ) × (e ≡ rejected status) × ((status ≡ 429) ⊎ (500 ≤ status) × (status ≤ 599)))

before_request_failures :
    (now : ℕ) (c : CircuitState) → (before_request now c).0.failures ≤ c.failures
unfolding before_request
before_request_failures now c = elim (Option-cases c.open_until) [
  | inl e ↦ ground arith
  | inr (t, e) ↦ ground arith
]

module _ {J : Type 0} (json : Json J) (parse_response : List ℕ → Option (List Candidate))
    (parse_json : Text → Option J) where
  decide-eq :
      (attempt : ℕ) (s : Sent)
      → decide json parse_response parse_json attempt s ≡ (
          if may_retry s && ltb (attempt + 1) max_attempts
          then none
          else some (verdict json parse_response parse_json s))
  unfolding decide
  decide-eq attempt (answered answer) = ground arith
  decide-eq attempt (send_failed retryable) = ground arith

  -- The loop sends at most three times: its result is what the first attempt that may not be
  -- repeated says, or the third, and it has slept 250 and 500 milliseconds before the second and
  -- the third attempt.
  pub execute_with_retries-eq :
      (send : ℕ → Sent)
      → execute_with_retries json parse_response parse_json send ≡ record {
        result = verdict json parse_response parse_json (send (last_attempt send));
        delays = take (last_attempt send) (250 ∷ 500 ∷ []);
      }
  unfolding execute_with_retries attempts_from retry_delay
  execute_with_retries-eq send =
      rw (decide-eq 0 (send 0), decide-eq 1 (send 1), decide-eq 2 (send 2))
        (elim (Bool-cases (may_retry (send 0))) [
          | inr e ↦ rw e refl
          | inl e ↦ elim (Bool-cases (may_retry (send 1))) [
            | inr d ↦ rw (e, d) refl
            | inl d ↦ elim (Bool-cases (may_retry (send 2))) [
              | inr c ↦ rw (e, d, c) refl
              | inl c ↦ rw (e, d, c) refl
            ]
          ]
        ])

  accept-OnlyErr :
      (P : GeminiError → Type 0) (answer : Answer)
      → P response_too_large
      → P transport
      → P invalid_response
      → P invalid_analysis
      → OnlyErr P (accept json parse_response parse_json answer)
  unfolding accept
  accept-OnlyErr P answer large lost unread invalid =
      search (>>=-OnlyErr P, ok_or-OnlyErr P, fail_if-OnlyErr P, validate_analysis-OnlyErr json P)
        depth 40

  verdict-OnlyErr :
      (s : Sent)
      → OnlyErr
          (λ e. is_operational_failure e ≡ true → IsProviderFailure e)
          (verdict json parse_response parse_json s)
  unfolding is_operational_failure
  verdict-OnlyErr (answered answer) = elim (Bool-cases (is_success answer.status)) [
    | inl e ↦ rw e (accept-OnlyErr _ answer (λ k. cc) (λ k. inl refl) (λ k. cc) (λ k. cc))
    | inr e ↦ rw e (λ k. inr (answer.status, refl, ground arith))
  ]
  verdict-OnlyErr (send_failed retryable) = λ k. inl refl

  record_outcome-blames :
      (now : ℕ) (c : CircuitState) (r : Result GeminiError J)
      → OnlyErr (λ e. is_operational_failure e ≡ true → IsProviderFailure e) r
      → c.failures < (record_outcome json parse_response parse_json now c r).failures
      → (e : GeminiError) × (r ≡ err e) × IsProviderFailure e
  unfolding record_outcome record_success record_failure
  record_outcome-blames now c (ok a) o h = ground arith
  record_outcome-blames now c (err e) o h = elim (Bool-cases (is_operational_failure e)) [
    | inl k ↦ (e, refl, o k)
    | inr k ↦ ground arith
  ]

  call_provider-blames :
      (ended : ℕ) (send : ℕ → Sent) (c : CircuitState)
      (asked : CircuitState × Result GeminiError (Unit {0}))
      → asked.0.failures ≤ c.failures
      → c.failures < (call_provider json parse_response parse_json ended send asked).0.failures
      → (e : GeminiError) × (verdict json parse_response parse_json (send (last_attempt send))
          ≡ err e)
        × IsProviderFailure e
  unfolding call_provider
  call_provider-blames ended send c (d, err e) l h = ground arith
  call_provider-blames ended send c (d, ok u) l h =
      let result = ap (λ run. run.result) (execute_with_retries-eq send) in
      record_outcome-blames ended d
        (verdict json parse_response parse_json (send (last_attempt send)))
        (verdict-OnlyErr (send (last_attempt send))) (rw (sym result) (omega (arith, l, h)))

  -- A call raises the failure count only for a transport failure, HTTP 429 or HTTP 5xx of the last
  -- attempt made.
  pub analyze-blames :
      (asked ended : ℕ) (prompt : Result GeminiError Text) (send : ℕ → Sent) (c : CircuitState)
      → c.failures < (analyze json parse_response parse_json asked ended prompt send c).0.failures
      → (e : GeminiError) × (verdict json parse_response parse_json (send (last_attempt send))
          ≡ err e)
        × IsProviderFailure e
  unfolding analyze
  analyze-blames asked ended (err e) send c h = ground arith
  analyze-blames asked ended (ok prompt) send c h =
      call_provider-blames ended send c (before_request asked c) (before_request_failures asked c) h
