-- ===== src/Ingest/Requests.antt =====
-- `ObservationService::ingest` of src/readiness_observation_ingest.rs. The store, which is the
-- database's or the memory's, is a parameter with its own state, and so are JSON parsing, SHA-256
-- and the candidate receipt, whose id is random.
use canonical_api_server_rs.Prelude.{
  ℕ, ◌≤◌, ◌≡◌, refl, subst, Bool, not, List, [], ◌∷◌, Option, some, Text, codes, text_eq,
  text_eq_iff, trim, length, is_empty, ltb, ◌==◌, if◌then◌else◌, eq_ignore_ascii_case, ℤ, Result,
  ok, err, ok_or, fail_if, ◌>>=◌, ◌>>◌, >>=-eq-ok, >>-eq-ok, ok_or-eq-ok, ok_injective,
  fail_if-eq-ok, arith,
}
use canonical_api_server_rs.Http.{HeaderMap, get_text}
use canonical_api_server_rs.DataPlane.{Url}
use canonical_api_server_rs.Ingest.{
  IngestError, invalid_request, body_too_large, ObservationEvent, VerifiedTransport,
  ReceiptIdentity, StorageOutcome,
}
use canonical_api_server_rs.Ingest.Keys.{OffsetDateTime, KeyRing, verify, IsSigned, verify-IsSigned}
use canonical_api_server_rs.Ingest.Events.{validate_event}
use canonical_api_server_rs.Ingest.Coherence.{IsCoherent, validate_event-IsCoherent}

-- MAX_BODY_BYTES
abbrev pub max_body_bytes : ℕ
max_body_bytes = 262_144

-- `split(';').next()`
unfoldable pub before_semicolon : Text → Text
before_semicolon [] = []
before_semicolon (c ∷ s) = let rest = before_semicolon s in if c == b';' then [] else c ∷ rest

unfoldable pub validate_content_type : HeaderMap → Result IngestError (Unit {0})
unfolding before_semicolon
validate_content_type headers = do
  value ← ok_or (get_text (codes "content-type") headers) invalid_request
  fail_if
      (not (eq_ignore_ascii_case (trim (before_semicolon (trim value))) (codes "application/json")))
      invalid_request

-- The fields that are not constants: `spec_version`, `transport_verification` and
-- `substantive_review` are.
pub record ObservationReceipt : Type 0 where
  pub receipt_id : Text
  pub event_id : Text
  pub source_id : Text
  pub source_sequence : ℤ
  pub status : Text
  pub duplicate : Bool
  pub payload_sha256 : Text
  pub received_at : Text

pub record Accepted : Type 0 where
  pub event : ObservationEvent
  pub transport : VerifiedTransport

abbrev pub receipt : ObservationEvent → Text → StorageOutcome → ObservationReceipt
receipt event payload_sha256 stored = record {
  receipt_id = stored.receipt_id;
  event_id = event.event_id;
  source_id = event.source_id;
  source_sequence = event.source_sequence;
  status = if stored.duplicate then codes "duplicate" else codes "accepted";
  duplicate = stored.duplicate;
  payload_sha256 = payload_sha256;
  received_at = stored.received_at;
}

abbrev pub receipts :
    ObservationEvent
    → Text
    → Result IngestError StorageOutcome
    → Result IngestError ObservationReceipt
receipts event payload_sha256 (err e) = err e
receipts event payload_sha256 (ok stored) = ok (receipt event payload_sha256 stored)

module _ (parse_timestamp : Text → Option OffsetDateTime) (parse_url : Text → Option Url)
    (mac_verifies : List ℕ → List ℕ → List ℕ → Bool)
    (parse_event : List ℕ → Option ObservationEvent) (sha256_label : List ℕ → Text) where
  -- From the first check to the verified transport
  unfoldable pub admit :
      KeyRing → Text → HeaderMap → List ℕ → OffsetDateTime → Result IngestError Accepted
  admit ring path_source_id headers body now = do
    validate_content_type headers
    fail_if (is_empty body) invalid_request
    fail_if (ltb max_body_bytes (length body)) body_too_large
    event ← ok_or (parse_event body) invalid_request
    validate_event parse_timestamp parse_url event now
    fail_if (not (text_eq path_source_id event.source_id)) invalid_request
    transport ← verify mac_verifies ring headers body event now
    ok (record { event = event; transport = transport })

  module _ {S : Type 0}
      (store : VerifiedTransport
        → ObservationEvent
        → Text
        → ReceiptIdentity
        → S
        → S × Result IngestError StorageOutcome) where
    store_accepted :
        List ℕ
        → Result IngestError ReceiptIdentity
        → S
        → Result IngestError Accepted
        → S × Result IngestError ObservationReceipt
    store_accepted body candidate s (err e) = (s, err e)
    store_accepted body (err e) s (ok a) = (s, err e)
    store_accepted body (ok candidate) s (ok a) =
        let stored = store a.transport a.event (sha256_label body) candidate s in
        (stored.0, receipts a.event (sha256_label body) stored.1)

    -- `candidate` is the new receipt id with the formatted instant, or the error of formatting it.
    unfoldable pub ingest :
        KeyRing
        → Text
        → HeaderMap
        → List ℕ
        → OffsetDateTime
        → Result IngestError ReceiptIdentity
        → S
        → S × Result IngestError ObservationReceipt
    unfolding admit store_accepted
    ingest ring path_source_id headers body now candidate s =
        store_accepted body candidate s (admit ring path_source_id headers body now)

  -- What stands behind a change of the store and behind a receipt
  pub record IsAdmitted (ring : KeyRing) (path_source_id : Text) (headers : HeaderMap)
      (body : List ℕ) (now : OffsetDateTime) (a : Accepted) : Type 0 where
    pub parsed : parse_event body ≡ some a.event
    pub json : validate_content_type headers ≡ ok tt
    pub size : (1 ≤ length body) × (length body ≤ max_body_bytes)
    pub coherent : IsCoherent parse_timestamp parse_url a.event now
    pub own_path : path_source_id ≡ a.event.source_id
    pub signed : IsSigned mac_verifies ring headers body a.event now a.transport

  admit-IsAdmitted :
      (ring : KeyRing) (path_source_id : Text) (headers : HeaderMap) (body : List ℕ)
      (now : OffsetDateTime) (a : Accepted)
      → admit ring path_source_id headers body now ≡ ok a
      → IsAdmitted ring path_source_id headers body now a
  unfolding admit
  admit-IsAdmitted ring path_source_id headers body now a h =
      let (json, h1) = >>-eq-ok _ _ h in
      let (nonempty, h2) = >>-eq-ok _ _ h1 in
      let (small, h3) = >>-eq-ok _ _ h2 in
      let (event, p, h4) = >>=-eq-ok _ _ h3 in
      let (valid, h5) = >>-eq-ok _ _ h4 in
      let (path, h6) = >>-eq-ok _ _ h5 in
      let (transport, v, h7) = >>=-eq-ok _ _ h6 in
      let e = fail_if-eq-ok (is_empty body) invalid_request nonempty in
      let s = fail_if-eq-ok (ltb max_body_bytes (length body)) body_too_large small in
      let q = fail_if-eq-ok (not (text_eq path_source_id event.source_id)) invalid_request path in
      subst (IsAdmitted ring path_source_id headers body now) (ok_injective h7) (record {
        parsed = ok_or-eq-ok _ _ p;
        json = json;
        size = (ground (arith, e), ground (arith, s));
        coherent = validate_event-IsCoherent parse_timestamp parse_url event now valid;
        own_path = (text_eq_iff path_source_id event.source_id).0 (ground (arith, q));
        signed = verify-IsSigned mac_verifies ring headers body event now transport v;
      })

  module _ {S : Type 0}
      (store : VerifiedTransport
        → ObservationEvent
        → Text
        → ReceiptIdentity
        → S
        → S × Result IngestError StorageOutcome) where
    -- What a call comes to, from the state `s`
    pub data IsAnswered (ring : KeyRing) (path_source_id : Text) (headers : HeaderMap)
        (body : List ℕ) (now : OffsetDateTime) (candidate : Result IngestError ReceiptIdentity)
        (s : S) : S × Result IngestError ObservationReceipt → Type 0 where
      refused :
          (e : IngestError) → IsAnswered ring path_source_id headers body now candidate s (s, err e)
      stored :
          (a : Accepted) (c : ReceiptIdentity)
          → candidate ≡ ok c
          → IsAdmitted ring path_source_id headers body now a
          → IsAnswered ring path_source_id headers body now candidate s (
            (store a.transport a.event (sha256_label body) c s).0,
            receipts a.event
                (sha256_label body)
                (store a.transport a.event (sha256_label body) c s).1,
          )

    store_accepted-IsAnswered :
        (ring : KeyRing) (path_source_id : Text) (headers : HeaderMap) (body : List ℕ)
        (now : OffsetDateTime) (candidate : Result IngestError ReceiptIdentity) (s : S)
        (r : Result IngestError Accepted)
        → ((a : Accepted) → r ≡ ok a → IsAdmitted ring path_source_id headers body now a)
        → IsAnswered ring path_source_id headers body now candidate s
            (store_accepted store body candidate s r)
    unfolding store_accepted
    store_accepted-IsAnswered ring path headers body now candidate s (err e) f = refused e
    store_accepted-IsAnswered ring path headers body now (err e) s (ok a) f = refused e
    store_accepted-IsAnswered ring path headers body now (ok c) s (ok a) f =
        stored a c refl (f a refl)

    -- Every call either leaves the store as it is and answers with an error, or it answers with
    -- what the store says of an event that was parsed from a JSON body of 1 to 262,144 bytes, whose
    -- parts fit together, that names the source of the path, and that is signed by a key of that
    -- source.
    pub ingest-IsAnswered :
        (ring : KeyRing) (path_source_id : Text) (headers : HeaderMap) (body : List ℕ)
        (now : OffsetDateTime) (candidate : Result IngestError ReceiptIdentity) (s : S)
        → IsAnswered ring path_source_id headers body now candidate s
            (ingest store ring path_source_id headers body now candidate s)
    unfolding ingest
    ingest-IsAnswered ring path headers body now candidate s =
        store_accepted-IsAnswered ring path headers body now candidate s
          (admit ring path headers body now) (admit-IsAdmitted ring path headers body now)
