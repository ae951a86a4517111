-- ===== src/Ingest.antt =====
-- Readiness observations of src/readiness_observation_ingest.rs: events, receipts, errors and the
-- memory store. The mutex makes each call of `store_memory` one step.
pub mod Ledger
pub mod Runs
pub mod Signatures
pub mod Keys
pub mod Events
pub mod Coherence
pub mod Requests
mod Tests
use canonical_api_server_rs.Prelude.{
  ℕ, Bool, true, false, not, ◌&&◌, List, [], ◌∷◌, ◌++◌, Option, none, some, String, Text, codes,
  text_eq, length, leb, if◌then◌else◌, Result, ok, err, Eq, pair_eq, lookup, insert, ℤ, pos, int_eq,
  checked_inc,
}
use canonical_api_server_rs.Http.{text_key}

-- A database error is one value here.
pub data IngestError : Type 0 where
  invalid_request body_too_large invalid_signature stale_signature : IngestError
  event_conflict sequence_conflict storage_unavailable internal database : IngestError

-- The status and the code of `IngestProblem::from`
unfoldable pub problem : IngestError → ℕ × String
problem invalid_request = (400, "invalid-request")
problem body_too_large = (413, "invalid-request")
problem invalid_signature = (401, "invalid-signature")
problem stale_signature = (401, "stale-signature")
problem event_conflict = (409, "event-conflict")
problem sequence_conflict = (409, "sequence-conflict")
problem storage_unavailable = (503, "storage-unavailable")
problem database = (503, "storage-unavailable")
problem internal = (500, "internal")

-- MEMORY_CAPACITY
abbrev pub memory_capacity : ℕ
memory_capacity = 10_000

-- ZERO_RECORD_DIGEST
abbrev pub zero_record_digest : Text
zero_record_digest = codes "sha256:0000000000000000000000000000000000000000000000000000000000000000"

pub data ReportedStatus : Type 0 where
  observed not_observed exception not_applicable_requested unknown : ReportedStatus

pub record ObservationAssertion : Type 0 where
  pub framework_id : Text
  pub control_id : Text
  pub reported_status : ReportedStatus
  pub statement : Option Text
  pub evidence_ids : List Text

pub record EvidenceItem : Type 0 where
  pub evidence_id : Text
  pub kind : Text
  pub sha256 : Text
  pub collected_at : Text
  pub locator : Option Text
  pub content_type : Option Text
  pub size_bytes : Option ℕ

pub record ObservationEvent : Type 0 where
  pub spec_version : Text
  pub event_id : Text
  pub source_id : Text
  pub source_sequence : ℤ
  pub organization : Text
  pub observed_at : Text
  pub assertions : List ObservationAssertion
  pub evidence : List EvidenceItem

pub record VerifiedTransport : Type 0 where
  pub key_id : Text
  pub owner_subject : Text

pub record ReceiptIdentity : Type 0 where
  pub receipt_id : Text
  pub received_at : Text

pub record StorageOutcome : Type 0 where
  pub duplicate : Bool
  pub receipt_id : Text
  pub received_at : Text

pub record MemoryRecord : Type 0 where
  pub source_sequence : ℤ
  pub payload_sha256 : Text
  pub receipt_id : Text
  pub received_at : Text

pub record StreamCursor : Type 0 where
  pub source_sequence : ℤ
  pub record_sha256 : Text

-- Owner and source, and owner, source and event
abbrev pub StreamKey : Type 0
StreamKey = Text × Text

abbrev pub EventKey : Type 0
EventKey = StreamKey × Text

abbrev pub stream_eq : Eq StreamKey
stream_eq = pair_eq text_key text_key

abbrev pub event_eq : Eq EventKey
event_eq = pair_eq stream_eq text_key

pub record MemoryStore : Type 0 where
  pub events : List (EventKey × MemoryRecord)
  pub streams : List (StreamKey × StreamCursor)
  pub order : List EventKey

-- `MemoryStore::default()`
unfoldable pub empty_store : MemoryStore
empty_store = record { events = []; streams = []; order = [] }

abbrev pub stream_key : VerifiedTransport → ObservationEvent → StreamKey
stream_key transport event = (transport.owner_subject, event.source_id)

abbrev pub event_key : VerifiedTransport → ObservationEvent → EventKey
event_key transport event = (stream_key transport event, event.event_id)

replay : ObservationEvent → Text → MemoryRecord → Result IngestError StorageOutcome
replay event payload_sha256 existing =
    if text_eq existing.payload_sha256 payload_sha256
      && int_eq existing.source_sequence event.source_sequence
    then ok (record {
      duplicate = true;
      receipt_id = existing.receipt_id;
      received_at = existing.received_at;
    })
    else err event_conflict

abbrev pub cursor_or_start : Option StreamCursor → StreamCursor
cursor_or_start none = record { source_sequence = pos 0; record_sha256 = zero_record_digest }
cursor_or_start (some cursor) = cursor

-- `record_digest` of the prior digest, the payload's, the event's id and its sequence, whose hash
-- is another package's, is a parameter.
module _ (record_digest : Text → Text → Text → ℤ → Text) where
  append :
      VerifiedTransport
      → ObservationEvent
      → Text
      → ReceiptIdentity
      → StreamCursor
      → MemoryStore
      → MemoryStore
  append transport event payload_sha256 candidate prior memory = record {
    events =
        insert event_eq (event_key transport event)
          (record {
            source_sequence = event.source_sequence;
            payload_sha256 = payload_sha256;
            receipt_id = candidate.receipt_id;
            received_at = candidate.received_at;
          })
          memory.events;
    streams =
        insert stream_eq (stream_key transport event)
          (record {
            source_sequence = event.source_sequence;
            record_sha256 =
                record_digest prior.record_sha256 payload_sha256 event.event_id
                  event.source_sequence;
          })
          memory.streams;
    order = memory.order ++ event_key transport event ∷ [];
  }

  -- The checks of the sequence and of the capacity
  store_expected :
      VerifiedTransport
      → ObservationEvent
      → Text
      → ReceiptIdentity
      → StreamCursor
      → MemoryStore
      → Option ℤ
      → MemoryStore × Result IngestError StorageOutcome
  unfolding append
  store_expected transport event payload_sha256 candidate prior memory none =
      (memory, err sequence_conflict)
  store_expected transport event payload_sha256 candidate prior memory (some expected) =
      if not (int_eq event.source_sequence expected)
      then (memory, err sequence_conflict)
      else (if leb memory_capacity (length memory.order)
          then (memory, err storage_unavailable)
          else (
            append transport event payload_sha256 candidate prior memory,
            ok (record {
              duplicate = false;
              receipt_id = candidate.receipt_id;
              received_at = candidate.received_at;
            }),
          ))

  -- From the lookup of the stream on
  store_next :
      VerifiedTransport
      → ObservationEvent
      → Text
      → ReceiptIdentity
      → StreamCursor
      → MemoryStore
      → MemoryStore × Result IngestError StorageOutcome
  unfolding store_expected
  store_next transport event payload_sha256 candidate prior memory =
      store_expected transport event payload_sha256 candidate prior memory
        (checked_inc prior.source_sequence)

  -- An event that is known is answered from its record.
  store_or_replay :
      VerifiedTransport
      → ObservationEvent
      → Text
      → ReceiptIdentity
      → MemoryStore
      → Option MemoryRecord
      → MemoryStore × Result IngestError StorageOutcome
  unfolding replay store_next
  store_or_replay transport event payload_sha256 candidate memory (some existing) =
      (memory, replay event payload_sha256 existing)
  store_or_replay transport event payload_sha256 candidate memory none =
      store_next transport event payload_sha256 candidate
        (cursor_or_start (lookup stream_eq (stream_key transport event) memory.streams)) memory

  unfoldable pub store_memory :
      VerifiedTransport
      → ObservationEvent
      → Text
      → ReceiptIdentity
      → MemoryStore
      → MemoryStore × Result IngestError StorageOutcome
  unfolding store_or_replay
  store_memory transport event payload_sha256 candidate memory =
      store_or_replay transport event payload_sha256 candidate memory
        (lookup event_eq (event_key transport event) memory.events)
