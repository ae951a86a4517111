-- ===== src/Ingest/Keys.antt =====
-- `KeyRing::verify` of src/readiness_observation_ingest.rs. The HMAC of the `hmac` package, which
-- takes a key of any length, is a parameter. Header texts are visible ASCII, so that their bytes are
-- their code points.
use canonical_api_server_rs.Prelude.{
  ℕ, ◌≤◌, ◌≡◌, sym, ap, ◌∙◌, inl, inr, Bool, true, false, not, ◌&&◌, ◌||◌, List, [], ◌∷◌, ◌++◌,
  Option, none, some, Text, codes, text_eq, text_eq_iff, trim, byte_length, is_empty, leb, ltb,
  if◌then◌else◌, keep_if, is_some_and, lookup, ℤ, int_eq, abs_diff, parse_i64, exceeds_by, Result,
  ok, err, ok_or, fail_if, ◌>>=◌, ◌>>◌, >>=-eq-ok, >>-eq-ok, ok_or-eq-ok, fail_if-eq-ok,
  ok_injective, Bool-cases, arith,
}
use canonical_api_server_rs.Http.{HeaderMap, get_text, text_key}
use canonical_api_server_rs.Ingest.{
  IngestError, invalid_signature, stale_signature, ObservationEvent, VerifiedTransport,
}
use canonical_api_server_rs.Ingest.Signatures.{parse_signature}

-- An instant: `unix_timestamp()` and the nanoseconds behind it
pub record OffsetDateTime : Type 0 where
  pub unix_timestamp : ℤ
  pub nanosecond : ℕ

-- `<` of instants
unfoldable pub is_before : OffsetDateTime → OffsetDateTime → Bool
is_before a b =
    exceeds_by 0 b.unix_timestamp a.unix_timestamp
    || int_eq a.unix_timestamp b.unix_timestamp && ltb a.nanosecond b.nanosecond

-- MAX_CLOCK_SKEW_SECONDS
abbrev pub max_clock_skew_seconds : ℕ
max_clock_skew_seconds = 300

abbrev pub webhook_id_header : Text
webhook_id_header = codes "x-canonical-webhook-id"

abbrev pub timestamp_header : Text
timestamp_header = codes "x-canonical-webhook-timestamp"

abbrev pub signature_header : Text
signature_header = codes "x-canonical-webhook-signature"

pub record IngestKey : Type 0 where
  pub key_id : Text
  pub organization : Text
  pub owner_subject : Text
  pub secret : List ℕ
  pub valid_from : Option OffsetDateTime
  pub valid_until : Option OffsetDateTime

pub record KeyRing : Type 0 where
  pub by_source : List (Text × List IngestKey)

abbrev trimmed : Option Text → Option Text
trimmed none = none
trimmed (some t) = some (trim t)

unfoldable pub header : HeaderMap → Text → Result IngestError Text
header headers name =
    ok_or
      (keep_if (λ value. not (is_empty value) && leb (byte_length value) 4096)
        (trimmed (get_text name headers)))
      invalid_signature

-- The negation of the test that continues the loop
unfoldable pub applies : ObservationEvent → OffsetDateTime → IngestKey → Bool
unfolding is_before
applies event now key =
    text_eq key.organization event.organization
    && not (is_some_and (λ start. is_before now start) key.valid_from)
    && not (is_some_and (λ end. not (is_before now end)) key.valid_until)

-- `mac_verifies secret message signature` is `verify_slice`.
module _ (mac_verifies : List ℕ → List ℕ → List ℕ → Bool) where
  -- The loop over the candidates
  first_match :
      ObservationEvent
      → OffsetDateTime
      → List ℕ
      → List ℕ
      → List IngestKey
      → Result IngestError VerifiedTransport
  unfolding applies
  first_match event now message supplied [] = err invalid_signature
  first_match event now message supplied (key ∷ keys) =
      let rest = first_match event now message supplied keys in
      if applies event now key && mac_verifies key.secret message supplied
      then ok (record { key_id = key.key_id; owner_subject = key.owner_subject })
      else rest

  unfoldable pub verify :
      KeyRing
      → HeaderMap
      → List ℕ
      → ObservationEvent
      → OffsetDateTime
      → Result IngestError VerifiedTransport
  unfolding header first_match
  verify ring headers body event now = do
    webhook_id ← header headers webhook_id_header
    fail_if (not (text_eq webhook_id event.event_id)) invalid_signature
    timestamp_text ← header headers timestamp_header
    timestamp ← ok_or (parse_i64 timestamp_text) invalid_signature
    fail_if (ltb max_clock_skew_seconds (abs_diff now.unix_timestamp timestamp)) stale_signature
    signature_text ← header headers signature_header
    supplied ← parse_signature signature_text
    candidates ← ok_or (lookup text_key event.source_id ring.by_source) invalid_signature
    first_match event now (timestamp_text ++ b'.' ∷ body) supplied candidates

-- Membership in the list of a source's keys
pub data Has (key : IngestKey) : List IngestKey → Type 0 where
  here : (keys : List IngestKey) → Has key (key ∷ keys)
  there : (other : IngestKey) (keys : List IngestKey) → Has key keys → Has key (other ∷ keys)

both : {a b : Bool} → (a && b) ≡ true → (a ≡ true) × (b ≡ true)
both {a} {b} h = ground (arith, h)

module _ (mac_verifies : List ℕ → List ℕ → List ℕ → Bool) where
  -- Why a request speaks for its owner.
  pub record IsSigned (ring : KeyRing) (headers : HeaderMap) (body : List ℕ)
      (event : ObservationEvent) (now : OffsetDateTime) (t : VerifiedTransport) : Type 0 where
    pub identified : header headers webhook_id_header ≡ ok event.event_id
    pub timestamp_text : Text
    pub timestamp : ℤ
    pub sent : header headers timestamp_header ≡ ok timestamp_text
    pub parsed : parse_i64 timestamp_text ≡ some timestamp
    pub recent : abs_diff now.unix_timestamp timestamp ≤ 300
    pub signature_text : Text
    pub supplied : List ℕ
    pub signed : header headers signature_header ≡ ok signature_text
    pub decoded : parse_signature signature_text ≡ ok supplied
    pub candidates : List IngestKey
    pub known : lookup text_key event.source_id ring.by_source ≡ some candidates
    pub key : IngestKey
    pub listed : Has key candidates
    pub same_organization : key.organization ≡ event.organization
    pub started : is_some_and (λ start. is_before now start) key.valid_from ≡ false
    pub not_ended : is_some_and (λ end. not (is_before now end)) key.valid_until ≡ false
    pub verified : mac_verifies key.secret (timestamp_text ++ b'.' ∷ body) supplied ≡ true
    pub transport : t ≡ record { key_id = key.key_id; owner_subject = key.owner_subject }

  Matched :
      ObservationEvent
      → OffsetDateTime
      → List ℕ
      → List ℕ
      → List IngestKey
      → VerifiedTransport
      → Type 0
  Matched event now message supplied keys t =
      (key : IngestKey) × Has key keys
      × (applies event now key ≡ true)
      × (mac_verifies key.secret message supplied ≡ true)
      × (t ≡ record { key_id = key.key_id; owner_subject = key.owner_subject })

  first_match-Matched :
      (event : ObservationEvent) (now : OffsetDateTime) (message supplied : List ℕ)
      (keys : List IngestKey) (t : VerifiedTransport)
      → first_match mac_verifies event now message supplied keys ≡ ok t
      → Matched event now message supplied keys t
  unfolding first_match Matched
  first_match-Matched event now message supplied [] t h = cc
  first_match-Matched event now message supplied (key ∷ keys) t h =
      elim (Bool-cases (applies event now key && mac_verifies key.secret message supplied)) [
        | inl m ↦
            let (a, v) = both m in
            (key, here keys, a, v, sym (ok_injective (rw (m, first_match) at h)))
        | inr m ↦
            let (other, listed, a, v, e) =
              first_match-Matched event now message supplied keys t (rw (m, first_match) at h) in
            (other, there key keys listed, a, v, e)
      ]

  -- A request that is verified names its event in its header, was stamped within 300 seconds of
  -- now, and carries the signature that a key of the event's source makes of the stamp and the
  -- body; that key is the organization's, has become valid and has not ended, and the result names
  -- it and its owner.
  pub verify-IsSigned :
      (ring : KeyRing) (headers : HeaderMap) (body : List ℕ) (event : ObservationEvent)
      (now : OffsetDateTime) (t : VerifiedTransport)
      → verify mac_verifies ring headers body event now ≡ ok t
      → IsSigned ring headers body event now t
  unfolding verify Matched applies
  verify-IsSigned ring headers body event now t h =
      let (webhook_id, w, h1) = >>=-eq-ok _ _ h in
      let (same, h2) = >>-eq-ok _ _ h1 in
      let (timestamp_text, sent, h3) = >>=-eq-ok _ _ h2 in
      let (timestamp, parsed, h4) = >>=-eq-ok _ _ h3 in
      let (fresh, h5) = >>-eq-ok _ _ h4 in
      let (signature_text, signed, h6) = >>=-eq-ok _ _ h5 in
      let (supplied, decoded, h7) = >>=-eq-ok _ _ h6 in
      let (candidates, known, h8) = >>=-eq-ok _ _ h7 in
      let (key, listed, a, verified, transport) =
        first_match-Matched event now (timestamp_text ++ b'.' ∷ body) supplied candidates t h8 in
      let identified =
        fail_if-eq-ok (not (text_eq webhook_id event.event_id)) invalid_signature same in
      let recent =
        fail_if-eq-ok (ltb max_clock_skew_seconds (abs_diff now.unix_timestamp timestamp))
          stale_signature fresh in
      record {
        identified =
            w ∙ ap ok ((text_eq_iff webhook_id event.event_id).0 (ground (arith, identified)));
        timestamp_text = timestamp_text;
        timestamp = timestamp;
        sent = sent;
        parsed = ok_or-eq-ok _ _ parsed;
        recent = ground (arith, recent);
        signature_text = signature_text;
        supplied = supplied;
        signed = signed;
        decoded = decoded;
        candidates = candidates;
        known = ok_or-eq-ok _ _ known;
        key = key;
        listed = listed;
        same_organization = (text_eq_iff key.organization event.organization).0 (ground (arith, a));
        started = ground (arith, a);
        not_ended = ground (arith, a);
        verified = verified;
        transport = transport;
      }
