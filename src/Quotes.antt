-- ===== src/Quotes.antt =====
-- Quotes of src/lib.rs where no database is configured: the handlers `create_quote` and
-- `retry_quote` from the accepted call on, and the worker `run_quote_analysis`. This file has the
-- data and what each does between two awaits. UUIDs are numbers; a new one is an argument, and so is
-- the formatted instant. The type of requests and that of analyses are parameters; `same` compares
-- the JSON values of two requests.
pub mod Tasks
pub mod Records
pub mod Invariant
pub mod Ownership
pub mod Permits
pub mod Progress
pub mod Termination
pub mod Calls
pub mod Creations
pub mod Lifecycle
pub mod Retries
mod Tests
use canonical_api_server_rs.Prelude.{
  ℕ, ◌+◌, ◌%◌, ◌^◌, Bool, true, false, not, ◌||◌, List, [], ◌∷◌, ◌++◌, Option, none, some, Text,
  codes, text_eq, byte_length, trim, is_empty, ltb, ◌==◌, ==_iff, if◌then◌else◌, Result, ok, err,
  ok_or, fail_if, keep_if, ◌>>=◌, ◌>>◌, Eq, pair_eq, lookup, insert, String,
}
use canonical_api_server_rs.Http.{
  text_key, ApiError, conflict, not_found, service_unavailable, idempotency_reused,
  storage_unavailable,
}
use canonical_api_server_rs.Gemini.{GeminiError, error_code}

pub record QuoteRecord (R J : Type 0) : Type 0 where
  pub analysis : Option J
  pub context_record_id : ℕ
  pub error_code : Option String
  pub gemini_model : Text
  pub owner_subject : Text
  pub persistence : Text
  pub quote_id : ℕ
  pub request : R
  pub status : Text
  pub created_at : Text
  pub updated_at : Text

pub record QuoteEventRecord : Type 0 where
  pub owner_subject : Text
  pub quote_id : ℕ
  pub sequence : ℕ
  pub status : Text
  pub occurred_at : Text

-- The request of an assessment is kept out: quotes never read it.
pub data MemoryOperation (R : Type 0) : Type 0 where
  assessment : (id : ℕ) → MemoryOperation R
  create : (quote_id : ℕ) (request_json : R) → MemoryOperation R
  retry : (quote_id : ℕ) → MemoryOperation R

-- Who calls, and under which idempotency key
pub record Call : Type 0 where
  pub subject : Text
  pub key : Text

abbrev pub operation_key : Call → Text × Text
operation_key c = (c.subject, c.key)

abbrev pub operation_eq : Eq (Text × Text)
operation_eq = pair_eq text_key text_key

abbrev pub quote_eq : Eq ℕ
quote_eq = record { beq = ◌==◌; beq_iff = ==_iff }

-- The fields of `AppState` that quotes change. The broadcast channel is the list of what was sent.
pub record Memory (R J : Type 0) : Type 0 where
  pub quotes : List (ℕ × QuoteRecord R J)
  pub operations : List ((Text × Text) × MemoryOperation R)
  pub next_event_sequence : ℕ
  pub events : List QuoteEventRecord

-- The fields that they read
pub record Config : Type 0 where
  pub gemini_configured : Bool
  pub gemini_model : Text
  pub application_context_markdown : Text

-- MAX_MARKDOWN_CONTEXT_BYTES
abbrev pub max_markdown_context_bytes : ℕ
max_markdown_context_bytes = 262_144

abbrev pub context_unavailable : ApiError
context_unavailable = service_unavailable "context_unavailable"

abbrev pub markdown_unavailable : Config → Bool
markdown_unavailable config =
    let application_markdown = trim config.application_context_markdown in
    is_empty application_markdown
    || ltb max_markdown_context_bytes (byte_length application_markdown)

module _ {R J : Type 0} where
  unfoldable pub new_record : Config → Text → R → (quote_id : ℕ) → Text → QuoteRecord R J
  new_record config subject request quote_id timestamp = record {
    analysis = none;
    context_record_id = 0;
    error_code = none;
    gemini_model = config.gemini_model;
    owner_subject = subject;
    persistence = codes "memory-only";
    quote_id = quote_id;
    request = request;
    status = codes "queued";
    created_at = timestamp;
    updated_at = timestamp;
  }

  -- The event that `memory_event` makes, and the counter behind it
  abbrev pub memory_event : Memory R J → QuoteRecord R J → QuoteEventRecord
  memory_event memory r = record {
    owner_subject = r.owner_subject;
    quote_id = r.quote_id;
    sequence = memory.next_event_sequence;
    status = r.status;
    occurred_at = r.updated_at;
  }

  abbrev pub count_event : Memory R J → Memory R J
  count_event memory = record memory {
    next_event_sequence = (memory.next_event_sequence + 1) % 2 ^ 64;
  }

  abbrev pub store_quote : QuoteRecord R J → Memory R J → Memory R J
  store_quote r memory = record memory { quotes = insert quote_eq r.quote_id r memory.quotes }

  abbrev pub store_operation : Call → MemoryOperation R → Memory R J → Memory R J
  store_operation c operation memory = record memory {
    operations = insert operation_eq (operation_key c) operation memory.operations;
  }

  -- The webhook's delivery is a task of its own, which changes none of this.
  abbrev pub publish_event : QuoteEventRecord → Memory R J → Memory R J
  publish_event event memory = record memory { events = memory.events ++ event ∷ [] }

  abbrev pub publish : Option QuoteEventRecord → Memory R J → Memory R J
  publish none memory = memory
  publish (some event) memory = publish_event event memory

  unfoldable pub find_quote : Memory R J → ℕ → Text → Result ApiError (QuoteRecord R J)
  find_quote memory quote_id subject =
      ok_or
        (keep_if (λ (r : QuoteRecord R J). text_eq r.owner_subject subject)
          (lookup quote_eq quote_id memory.quotes))
        not_found

  -- `create_quote` under a key that has an operation
  unfoldable pub create_existing :
      Eq R → Memory R J → R → MemoryOperation R → Result ApiError (QuoteRecord R J)
  create_existing same memory request_json (create quote_id existing) =
      if same.beq existing request_json
      then ok_or (lookup quote_eq quote_id memory.quotes) storage_unavailable
      else err idempotency_reused
  create_existing same memory request_json (retry quote_id) = err idempotency_reused
  create_existing same memory request_json (assessment id) = err idempotency_reused

  -- `retry_quote` under a key that has an operation
  unfoldable pub retry_existing :
      Memory R J → Text → ℕ → MemoryOperation R → Result ApiError (QuoteRecord R J)
  unfolding find_quote
  retry_existing memory subject quote_id (retry existing) =
      if existing == quote_id then find_quote memory quote_id subject else err idempotency_reused
  retry_existing memory subject quote_id (create existing request_json) = err idempotency_reused
  retry_existing memory subject quote_id (assessment id) = err idempotency_reused

  abbrev pub requeue : QuoteRecord R J → Text → QuoteRecord R J
  requeue r timestamp = record r {
    status = codes "queued";
    analysis = none;
    error_code = none;
    updated_at = timestamp;
  }

  -- `retry_quote` under a new key, up to the record that is to be stored
  unfoldable pub retry_new :
      Memory R J → Text → ℕ → Result ApiError Text → Result ApiError (QuoteRecord R J)
  unfolding find_quote
  retry_new memory subject quote_id now = do
    r ← find_quote memory quote_id subject
    fail_if (not (text_eq r.status (codes "failed"))) (conflict "conflict")
    timestamp ← now
    ok (requeue r timestamp)

  -- `update_quote_state` up to the lock: the record with its new instant and the event, or none if it
  -- returns false
  unfoldable pub count_update :
      Result ApiError Text
      → QuoteRecord R J
      → Memory R J
      → Memory R J × Option (QuoteRecord R J × QuoteEventRecord)
  count_update (err e) r memory = (memory, none)
  count_update (ok timestamp) r memory =
      let updated = record r { updated_at = timestamp } in
      (count_event memory, some (updated, memory_event memory updated))

  -- `update_quote_state` under the lock
  abbrev pub store_update : QuoteRecord R J → QuoteEventRecord → Memory R J → Memory R J
  store_update r event memory = publish_event event (store_quote r memory)

  abbrev pub start_record : QuoteRecord R J → QuoteRecord R J
  start_record r = record r { status = codes "analyzing"; error_code = none; analysis = none }

  abbrev pub complete_record : QuoteRecord R J → J → QuoteRecord R J
  complete_record r analysis = record r {
    status = codes "completed";
    analysis = some analysis;
    error_code = none;
  }

  abbrev pub fail_record : QuoteRecord R J → String → QuoteRecord R J
  fail_record r code = record r { status = codes "failed"; error_code = some code }

  -- The record behind the call of Gemini; where Gemini is not configured, there is no call.
  unfoldable pub finish_record : Config → QuoteRecord R J → Result GeminiError J → QuoteRecord R J
  unfolding error_code
  finish_record config r (ok analysis) =
      if config.gemini_configured
      then complete_record r analysis
      else fail_record r "gemini_not_configured"
  finish_record config r (err e) =
      if config.gemini_configured
      then record (fail_record r (error_code e)) { analysis = none }
      else fail_record r "gemini_not_configured"
