-- ===== src/Lib.antt =====
-- Verification library of the canonical API server (Rust, src/). The server accepts quote requests
-- from authenticated subjects, has an external model analyse them, and answers web applications. A
-- request passes the envelope (Envelope), is authenticated (Auth), and a submission is charged to
-- its subject's quota (Admission) before a quote is stored and analysed through the Gemini client
-- (Gemini), or a readiness assessment is stored (Assessments). The web data plane (DataPlane) fixes
-- the contract with web applications. The server loop (Shutdown) ends all of this. Customer systems
-- report signed readiness observations, which are stored in the order of their source (Ingest);
-- people register their interest beforehand (PreInterest); quotes are shown as src/contract.rs
-- says (Contract); the readiness frameworks form a catalog (Frameworks); changes are announced to
-- webhooks (Webhook).
--
-- Prelude: names of the libraries, Rust texts as lists of code points with the `str` methods that
--   the source calls, results with `?`, hash maps as association lists.
-- Admission: `QuoteAdmission::check_submission` of src/lib.rs as a function from the windows, the
--   instant and the subject to the new windows and the answer. Admission.Ledger is its
--   specification, Admission.Windows and Admission.Refinement relate the two, Admission.Quota has
--   the consequences.
-- Http: header maps and `ApiError` of src/lib.rs.
-- Envelope: `enforce_request_envelope` of src/lib.rs and the tests it makes.
-- Auth: `authenticate`, `authenticate_bearer`, `valid_subject` and the idempotency keys of
--   src/lib.rs.
-- Gemini: src/gemini.rs. The circuit breaker's three operations are steps of one state;
--   Gemini.Circuit runs them in any interleaving. Gemini.Analysis is the acceptance of an analysis,
--   Gemini.Calls the retry loop and `analyze`.
-- Quotes: `create_quote`, `retry_quote` and `run_quote_analysis` of src/lib.rs on the memory store.
--   Quotes.Tasks has them as tasks that run one step at a time, in any order; Quotes.Invariant,
--   Quotes.Ownership, Quotes.Permits, Quotes.Progress and Quotes.Termination hold for every order.
--   Quotes.Calls, Quotes.Creations, Quotes.Lifecycle and Quotes.Retries run the steps of one call
--   back to back.
-- Contract: src/contract.rs. Contract.Responses, Contract.Requests and Contract.Listing have its
--   answers, its requests and `list_quotes`; Contract.Listing.Order says which records are listed,
--   Contract.Analyses relates the estimate to Gemini.Analysis.
-- PreInterest: src/pre_interest.rs. PreInterest.Registrations is `validate_registration`,
--   PreInterest.Timestamps `is_rfc3339`, PreInterest.Digests the e-mail alias and the fingerprint of a
--   request; PreInterest.Letters, PreInterest.Emails and PreInterest.Names are about normal forms.
-- Ingest: src/readiness_observation_ingest.rs. `store_memory` is a function from the store and the
--   call's arguments to the new store and the answer; Ingest.Ledger is its description,
--   Ingest.Runs has sequences of calls. Ingest.Signatures, Ingest.Keys and Ingest.Events are the
--   checks of a signed event, Ingest.Coherence what they give, Ingest.Requests the whole of
--   `ingest` over any store.
-- Assessments: the memory behind `create_readiness_assessment` of src/lib.rs. Assessments.Store has
--   its invariant, Assessments.Runs sequences of calls.
-- Frameworks: src/frameworks.rs, the catalog and `parse_assessment_request`.
-- Webhook: src/webhook.rs, the delivery loop of `dispatch`, `signature` and what a dispatcher is
--   built from.
-- DataPlane: src/web_data_plane.rs. DataPlane.Requests, DataPlane.Policies, DataPlane.Receipts and
--   DataPlane.Frames are its four parts.
-- Shutdown: src/shutdown.rs. `reduce` is the reducer; `receive` and `finish` are the branches of
--   the loop in `serve_with_events`.
--
-- Every loop is recursion on a list or on the number of rounds that the source fixes. Only the
-- client that follows the cursors of `list_quotes` takes fuel: one page more than it has quotes is
-- enough. Instants are nanoseconds or milliseconds since a fixed start, as each file says; `u16`,
-- `u32` and `u64` counters saturate where the source's do. A mutex makes each operation under it
-- one step.
--
-- Parameters: JSON encoding and parsing, URL parsing, the HTTP exchanges with Gemini and with
-- webhooks, the shared authority's introspection, HMAC, SHA-256, RFC 3339 parsing, the observation
-- store behind `ingest`, the handler behind the envelope, the quote request of canonical_lib with
-- its validation, the text of a UUID.
--
-- Not modelled: the websocket of quote events, the key document, the contents of webhook
-- events, telemetry and configuration; SQL in
-- src/persistence.rs, src/readiness.rs and src/grc_work_queue.rs; the static catalog of src/grc.rs;
-- routing, logging, signal handlers and message texts; scripts/vendor, which is a copy of another
-- project.
pub mod Prelude
pub mod Admission
pub mod Contract
pub mod DataPlane
pub mod PreInterest
pub mod Quotes
pub mod Shutdown
pub mod Http
pub mod Envelope
pub mod Frameworks
pub mod Gemini
pub mod Auth
pub mod Ingest
pub mod Webhook
pub mod Assessments
