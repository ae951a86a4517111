-- ===== src/Ingest/Tests.antt =====
-- The memory store at concrete calls.
use canonical_api_server_rs.Prelude.{
  ℕ, ◌<◌, ◌≡◌, refl, ◌↔◌, Bool, true, false, List, [], ◌∷◌, ◌++◌, Option, none, some, Text, codes,
  ok, err, ℤ, pos, All, length, replicate, byte_length, trim, parse_i64,
}
use canonical_api_server_rs.Http.{HeaderMap, HeaderValue}
use canonical_api_server_rs.DataPlane.{Url}
use canonical_api_server_rs.Ingest.{
  ObservationEvent, ReceiptIdentity, StorageOutcome, empty_store, store_memory, event_conflict,
  sequence_conflict, observed,
}
use canonical_api_server_rs.Ingest.Ledger.{store_ledger, find_entry, stream_length}
use canonical_api_server_rs.Ingest.Runs.{
  Submission, stores, store_answers, store_after, ledger_answers, store_answers-refines,
  stores_replays,
}
use canonical_api_server_rs.Ingest.Signatures.{hex_lower, parse_signature, parse_signature_iff}
use canonical_api_server_rs.Ingest.Keys.{
  OffsetDateTime, IngestKey, KeyRing, header, applies, verify, IsSigned, verify-IsSigned,
}
use canonical_api_server_rs.Ingest.Events.{validate_event, portable_identifier, valid_sha256}
use canonical_api_server_rs.Ingest.Coherence.{IsCoherent, validate_event-IsCoherent}
use canonical_api_server_rs.Ingest.Requests.{ingest, IsAnswered, ingest-IsAnswered}

-- 64 digits
abbrev hex : Text
hex = codes "abababababababababababababababababababababababababababababababab"

abbrev digest : Text → Text → Text → ℤ → Text
digest prior payload id sequence = prior ++ payload ++ id

abbrev submission : Text → ℤ → Text → Text → Submission
submission id sequence payload receipt = record {
  transport = record { key_id = codes "k1"; owner_subject = codes "owner:1" };
  event = record {
    spec_version = codes "canonical.readiness.observation.v1";
    event_id = id;
    source_id = codes "src";
    source_sequence = sequence;
    organization = codes "org";
    observed_at = codes "2026-01-01T00:00:00Z";
    assertions = [];
    evidence = [];
  };
  payload_sha256 = payload;
  candidate = record { receipt_id = receipt; received_at = codes "now" };
}

abbrev first : Submission
first = submission (codes "e1") (pos 1) (codes "p1") (codes "r1")

abbrev second : Submission
second = submission (codes "e2") (pos 2) (codes "p2") (codes "r2")

-- In order, with a gap, with a conflict, and again
abbrev calls : List Submission
calls =
    first
    ∷ submission (codes "e3") (pos 3) (codes "p3") (codes "r3")
    ∷ second
    ∷ submission (codes "e2") (pos 2) (codes "other") (codes "r4")
    ∷ first
    ∷ []

abbrev receipt : StorageOutcome
receipt = record { duplicate = false; receipt_id = codes "r1"; received_at = codes "now" }

calls_ledger :
    ledger_answers calls []
    ≡ ok receipt
      ∷ err sequence_conflict
      ∷ ok (record { duplicate = false; receipt_id = codes "r2"; received_at = codes "now" })
      ∷ err event_conflict
      ∷ ok (record receipt { duplicate = true })
      ∷ []
unfolding ledger_answers store_ledger find_entry stream_length
calls_ledger = refl

store_answers-refines_example : store_answers digest calls empty_store ≡ ledger_answers calls []
store_answers-refines_example = store_answers-refines digest calls

first_is_stored : (stores digest first (store_after digest [] empty_store)).1 ≡ ok receipt
unfolding store_memory store_after empty_store
first_is_stored = refl

stores_replays_example :
    (stores digest
      (record first { candidate = record { receipt_id = codes "r9"; received_at = codes "later" } })
      (store_after digest
        (second ∷ [])
        (stores digest first (store_after digest [] empty_store)).0)).1
    ≡ ok (record receipt { duplicate = true })
stores_replays_example =
    stores_replays digest [] first (second ∷ [])
      (record { receipt_id = codes "r9"; received_at = codes "later" }) receipt first_is_stored

-- A whole request, with small parsers and a MAC that compares with the last byte of the secret
abbrev now : OffsetDateTime
now = record { unix_timestamp = pos 1000; nanosecond = 5 }

abbrev parse_timestamp : Text → Option OffsetDateTime
parse_timestamp t = some now

abbrev parse_url : Text → Option Url
parse_url t = none

abbrev mac_verifies : List ℕ → List ℕ → List ℕ → Bool
mac_verifies secret message signature = true

abbrev event : ObservationEvent
event = record (first.event) {
  assertions =
      record {
        framework_id = codes "soc2";
        control_id = codes "cc1.1";
        reported_status = observed;
        statement = none;
        evidence_ids = codes "ev1" ∷ [];
      }
      ∷ [];
  evidence =
      record {
        evidence_id = codes "ev1";
        kind = codes "log";
        sha256 = codes "sha256:" ++ hex;
        collected_at = codes "2026-01-01T00:00:00Z";
        locator = none;
        content_type = none;
        size_bytes = some 10;
      }
      ∷ [];
}

abbrev key : IngestKey
key = record {
  key_id = codes "k1";
  organization = codes "org";
  owner_subject = codes "owner:1";
  secret = [];
  valid_from = some (record { unix_timestamp = pos 1000; nanosecond = 5 });
  valid_until = some (record { unix_timestamp = pos 1000; nanosecond = 6 });
}

abbrev ring : KeyRing
ring = record { by_source = (codes "src", key ∷ []) ∷ [] }

abbrev value : Text → HeaderValue
value t = record { bytes = t; text = some t }

abbrev headers : HeaderMap
headers =
    (codes "content-type", value (codes "application/json; charset=utf-8"))
    ∷ (codes "x-canonical-webhook-id", value (codes "e1"))
    ∷ (codes "x-canonical-webhook-timestamp", value (codes "1300"))
    ∷ (codes "x-canonical-webhook-signature", value (codes "v1=" ++ hex))
    ∷ []

abbrev body : List ℕ
body = 123 ∷ 125 ∷ []

request_is_signed : verify mac_verifies ring headers body event now ≡ ok (first.transport)
unfolding verify header parse_i64 parse_signature applies byte_length trim
request_is_signed = refl

verify-IsSigned_example : IsSigned mac_verifies ring headers body event now (first.transport)
verify-IsSigned_example =
    verify-IsSigned mac_verifies ring headers body event now (first.transport) request_is_signed

event_is_valid : validate_event parse_timestamp parse_url event now ≡ ok tt
unfolding validate_event portable_identifier valid_sha256 byte_length
event_is_valid = refl

validate_event-IsCoherent_example : IsCoherent parse_timestamp parse_url event now
validate_event-IsCoherent_example =
    validate_event-IsCoherent parse_timestamp parse_url event now event_is_valid

abbrev bytes_ab : List ℕ
bytes_ab = replicate 32 0xab

parse_signature_iff_example : (parse_signature (codes "v1=" ++ hex) ≡ ok bytes_ab) ↔ (
    (codes "v1=" ++ hex ≡ codes "v1=" ++ hex_lower bytes_ab)
    × (length bytes_ab ≡ 32)
    × All (λ b. b < 256) bytes_ab)
parse_signature_iff_example = parse_signature_iff (codes "v1=" ++ hex) bytes_ab

abbrev parse_event : List ℕ → Option ObservationEvent
parse_event bytes = some event

abbrev sha256_label : List ℕ → Text
sha256_label bytes = codes "sha256:" ++ hex

abbrev identity : ReceiptIdentity
identity = record { receipt_id = codes "r1"; received_at = codes "now" }

ingest-IsAnswered_example :
    IsAnswered parse_timestamp parse_url mac_verifies parse_event sha256_label
      (store_memory digest)
      ring
      (codes "src")
      headers
      body
      now
      (ok identity)
      empty_store
      (ingest parse_timestamp parse_url mac_verifies parse_event sha256_label
        (store_memory digest)
        ring
        (codes "src")
        headers
        body
        now
        (ok identity)
        empty_store)
ingest-IsAnswered_example =
    ingest-IsAnswered parse_timestamp parse_url mac_verifies parse_event sha256_label
      (store_memory digest) ring (codes "src") headers body now (ok identity) empty_store
