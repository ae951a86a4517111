-- ===== src/Ingest/Events.antt =====
-- `validate_event` of src/readiness_observation_ingest.rs. RFC 3339 parsing (`time`) and URL parsing
-- (`reqwest`) are parameters. A `HashSet` under construction is the list of what it holds.
use canonical_api_server_rs.Prelude.{
  ℕ, Bool, not, ◌&&◌, ◌||◌, List, [], ◌∷◌, Option, none, some, Text, codes, text_eq, byte_length,
  is_ascii_alphanumeric, is_ascii_digit, is_empty, all, any, length, leb, ltb, ◌==◌, strip_prefix,
  is_some, is_some_and, is_positive, exceeds_by, Eq, pair_eq, Result, ok, ok_or, fail_if, ◌>>=◌,
  ◌>>◌,
}
use canonical_api_server_rs.Http.{text_key}
use canonical_api_server_rs.DataPlane.{Url}
use canonical_api_server_rs.Ingest.{
  IngestError, invalid_request, ObservationEvent, ObservationAssertion, EvidenceItem,
}
use canonical_api_server_rs.Ingest.Keys.{OffsetDateTime, max_clock_skew_seconds}

-- EVENT_SPEC
abbrev pub event_spec : Text
event_spec = codes "canonical.readiness.observation.v1"

unfoldable pub portable_identifier : Text → Bool
portable_identifier value =
    not (is_empty value)
    && leb (byte_length value) 128
    && all
        (λ b.
          is_ascii_alphanumeric b || b == b'-' || b == b'_' || b == b'.' || b == b':' || b == b'/')
        value

abbrev pub is_lower_hex : ℕ → Bool
is_lower_hex b = is_ascii_digit b || leb b'a' b && leb b b'f'

unfoldable pub valid_sha256 : Text → Bool
valid_sha256 value =
    is_some_and (λ hex. byte_length hex == 64 && all is_lower_hex hex)
      (strip_prefix (codes "sha256:") value)

-- `u8::is_ascii_control`
abbrev pub is_ascii_control : ℕ → Bool
is_ascii_control b = ltb b 32 || b == 127

-- Membership in a set
abbrev pub holds : {A : Type 0} → Eq A → A → List A → Bool
holds e a xs = any (e.beq a) xs

-- `a.unix_timestamp() - b.unix_timestamp() > MAX_CLOCK_SKEW_SECONDS`
abbrev pub is_later : OffsetDateTime → OffsetDateTime → Bool
is_later a b = exceeds_by max_clock_skew_seconds a.unix_timestamp b.unix_timestamp

abbrev pub bad_event_head : ObservationEvent → Bool
bad_event_head event =
    not (text_eq event.spec_version event_spec)
    || not (portable_identifier event.event_id)
    || not (portable_identifier event.source_id)
    || not (portable_identifier event.organization)
    || not (is_positive event.source_sequence)
    || is_empty event.assertions
    || ltb 256 (length event.assertions)
    || ltb 256 (length event.evidence)

abbrev pub bad_content_type : Text → Bool
bad_content_type value = is_empty value || ltb 128 (byte_length value) || any is_ascii_control value

abbrev pub bad_evidence_head : EvidenceItem → List Text → Bool
bad_evidence_head item seen =
    not (portable_identifier item.evidence_id)
    || is_empty item.kind
    || ltb 64 (byte_length item.kind)
    || not (valid_sha256 item.sha256)
    || is_some_and bad_content_type item.content_type
    || is_some_and (ltb 1125899906842624) item.size_bytes
    || holds text_key item.evidence_id seen

abbrev pub bad_assertion_head : ObservationAssertion → List (Text × Text) → Bool
bad_assertion_head assertion seen =
    not (portable_identifier assertion.framework_id)
    || not (portable_identifier assertion.control_id)
    || is_some_and (λ value. is_empty value || ltb 2048 (byte_length value)) assertion.statement
    || ltb 128 (length assertion.evidence_ids)
    || holds (pair_eq text_key text_key) (assertion.framework_id, assertion.control_id) seen

-- The loop over an assertion's references, with those that it has read
unfoldable pub check_references : List Text → List Text → List Text → Result IngestError (Unit {0})
check_references evidence_ids seen [] = ok tt
check_references evidence_ids seen (id ∷ ids) =
    fail_if (holds text_key id seen || not (holds text_key id evidence_ids)) invalid_request
    >> check_references evidence_ids (id ∷ seen) ids

-- The loop over the assertions
unfoldable pub check_assertions :
    List Text → List (Text × Text) → List ObservationAssertion → Result IngestError (Unit {0})
unfolding check_references
check_assertions evidence_ids seen [] = ok tt
check_assertions evidence_ids seen (assertion ∷ assertions) =
    fail_if (bad_assertion_head assertion seen) invalid_request
    >> (check_references evidence_ids [] assertion.evidence_ids
        >> check_assertions evidence_ids ((assertion.framework_id, assertion.control_id) ∷ seen)
            assertions)

module _ (parse_timestamp : Text → Option OffsetDateTime) (parse_url : Text → Option Url) where
  pub validate_locator : Text → Result IngestError (Unit {0})
  validate_locator locator = do
    fail_if (is_empty locator || ltb 2048 (byte_length locator)) invalid_request
    parsed ← ok_or (parse_url locator) invalid_request
    fail_if
        (is_some parsed.query
          || is_some parsed.fragment
          || not (is_empty parsed.username)
          || is_some parsed.password)
        invalid_request
    fail_if
        (not (
          text_eq parsed.scheme (codes "urn")
          || text_eq parsed.scheme (codes "https") && is_some parsed.host_str))
        invalid_request

  pub check_locator : Option Text → Result IngestError (Unit {0})
  unfolding validate_locator
  check_locator none = ok tt
  check_locator (some locator) = validate_locator locator

  pub check_collected : OffsetDateTime → OffsetDateTime → Text → Result IngestError (Unit {0})
  check_collected now observed_at text = do
    collected_at ← ok_or (parse_timestamp text) invalid_request
    fail_if (is_later collected_at now || is_later collected_at observed_at) invalid_request

  -- The loop over the evidence, with the ids that it has read; it returns all of them.
  unfoldable pub check_evidence :
      OffsetDateTime
      → OffsetDateTime
      → List Text
      → List EvidenceItem
      → Result IngestError (List Text)
  unfolding check_collected check_locator
  check_evidence now observed_at seen [] = ok seen
  check_evidence now observed_at seen (item ∷ items) =
      fail_if (bad_evidence_head item seen) invalid_request
      >> (check_collected now observed_at item.collected_at
          >> (check_locator item.locator
              >> check_evidence now observed_at (item.evidence_id ∷ seen) items))

  unfoldable pub validate_event : ObservationEvent → OffsetDateTime → Result IngestError (Unit {0})
  unfolding check_evidence check_assertions
  validate_event event now = do
    fail_if (bad_event_head event) invalid_request
    observed_at ← ok_or (parse_timestamp event.observed_at) invalid_request
    fail_if (is_later observed_at now) invalid_request
    evidence_ids ← check_evidence now observed_at [] event.evidence
    check_assertions evidence_ids [] event.assertions
