-- ===== src/Quotes/Tests.antt =====
-- Quotes at concrete calls, with texts as requests and numbers as analyses.
use canonical_api_server_rs.Prelude.{
  IfSome-insert, ℕ, ◌+◌, ◌≤◌, ◌≡◌, refl, true, List, [], ◌∷◌, none, some, Text, codes, ok, err,
  length, lookup, arith,
}
use canonical_api_server_rs.Http.{text_key}
use canonical_api_server_rs.Admission.{default}
use canonical_api_server_rs.Gemini.{transport}
use canonical_api_server_rs.Quotes.{
  QuoteRecord, Call, Config, Memory, create, quote_eq, new_record, memory_event, count_event,
  store_quote,
}
use canonical_api_server_rs.Quotes.Tasks.{
  Input, Event, create_arrives, runs, start, run, create_call, analysis_max_concurrency, analyze,
  reply_with,
}
use canonical_api_server_rs.Quotes.Invariant.{IsSystem}
use canonical_api_server_rs.Quotes.Ownership.{run-IsOwn}
use canonical_api_server_rs.Quotes.Permits.{run-permits}
use canonical_api_server_rs.Quotes.Termination.{run-terminates, drain}
use canonical_api_server_rs.Quotes.Calls.{handle, analyze_quote}
use canonical_api_server_rs.Quotes.Creations.{IsCreated, handle-IsCreated}
use canonical_api_server_rs.Quotes.Lifecycle.{
  started_record, finished_record, analyze_quote-IsFinished, create-once,
}

abbrev ann_call : Call
ann_call = record { subject = codes "ann"; key = codes "key-00001" }

abbrev retry_key : Call
retry_key = record { subject = codes "ann"; key = codes "key-00002" }

abbrev server : Config
server = record {
  gemini_configured = true;
  gemini_model = codes "gemini";
  application_context_markdown = codes "context";
}

abbrev succeeds : Input ℕ
succeeds = record { now = ok (codes "t"); reply = ok 5 }

abbrev fails : Input ℕ
fails = record { now = ok (codes "u"); reply = err transport }

abbrev owner : ℕ → Text
owner id = codes "ann"

-- One call up to its worker, and the same call again
abbrev created_once : List (Event Text ℕ)
created_once =
    create_arrives 0 ann_call (codes "request") 7
    ∷ runs 0 succeeds
    ∷ runs 0 succeeds
    ∷ runs 0 succeeds
    ∷ runs 0 succeeds
    ∷ create_arrives 1 ann_call (codes "request") 8
    ∷ []

run-IsOwn_example : IsSystem {R = Text} {J = ℕ} owner (run text_key server start created_once)
run-IsOwn_example =
    run-IsOwn owner text_key server created_once (refl, (tt, (tt, (tt, (tt, (refl, tt))))))

run-permits_example :
    let system = run {R = Text} {J = ℕ} text_key server start created_once in
    (system.permits + length system.tasks ≡ analysis_max_concurrency)
    × (length system.tasks ≤ analysis_max_concurrency)
run-permits_example = run-permits text_key server created_once

abbrev twelve : List (Input ℕ)
twelve =
    succeeds ∷ succeeds ∷ fails ∷ fails ∷ succeeds ∷ fails ∷ succeeds ∷ succeeds ∷ fails ∷ succeeds
    ∷ succeeds ∷ fails ∷ []

run-terminates_example :
    let system =
      run {R = Text} {J = ℕ} text_key server
        (run text_key server start created_once)
        (drain text_key server twelve) in
    (system.tasks ≡ []) × (system.permits ≡ analysis_max_concurrency) × (length system.answers ≡ 2)
unfolding run default
run-terminates_example = run-terminates text_key server created_once twelve (omega arith)

abbrev empty : Memory Text ℕ
empty = record { quotes = []; operations = []; next_event_sequence = 1; events = [] }

abbrev queued_quote : QuoteRecord Text ℕ
queued_quote = record {
  analysis = none;
  context_record_id = 0;
  error_code = none;
  gemini_model = codes "gemini";
  owner_subject = codes "ann";
  persistence = codes "memory-only";
  quote_id = 7;
  request = codes "request";
  status = codes "queued";
  created_at = codes "t";
  updated_at = codes "t";
}

abbrev failed_quote : QuoteRecord Text ℕ
failed_quote = record queued_quote {
  error_code = some "gemini_transport_error";
  status = codes "failed";
}

abbrev holding : QuoteRecord Text ℕ → Memory Text ℕ
holding r = record {
  quotes = (7, r) ∷ [];
  operations = ((codes "ann", codes "key-00001"), create 7 (codes "request")) ∷ [];
  next_event_sequence = 2;
  events = [];
}

handle-IsCreated_example :
    IsCreated
      (holding queued_quote)
      ann_call
      (codes "other")
      9
      (codes "u")
      (handle text_key server (holding queued_quote) fails (create_call ann_call (codes "other") 9))
handle-IsCreated_example =
    handle-IsCreated text_key server (holding queued_quote) fails ann_call (codes "other") 9
      (codes "u")
      (IfSome-insert quote_eq (λ id (r : QuoteRecord Text ℕ). r.quote_id ≡ id) 7 queued_quote []
        refl (λ id. tt))
      refl

create-once_example :
    let o = handle text_key server empty succeeds (create_call ann_call (codes "request") 7) in
    let later = analyze_quote text_key server o.memory succeeds fails queued_quote in
    let finished = finished_record server queued_quote (codes "t") (codes "u") (err transport) in
    let p = handle text_key server later fails (create_call ann_call (codes "request") 9) in
    (o.answer ≡ some (codes "ann", ok queued_quote))
    × (o.next ≡ some (analyze queued_quote))
    × (p ≡ reply_with (store_quote finished later) ann_call (ok finished) none)
unfolding new_record
create-once_example =
    create-once text_key server empty succeeds succeeds fails fails ann_call (codes "request") 7 9
      (codes "t") (codes "t") (codes "u") refl refl refl refl

analyze_quote-IsFinished_example :
    let after = analyze_quote text_key server empty succeeds fails queued_quote in
    let started = started_record queued_quote (codes "t") in
    let finished = finished_record server queued_quote (codes "t") (codes "u") (err transport) in
    (lookup quote_eq 7 after.quotes ≡ some finished)
    × (after.operations ≡ [])
    × (after.events ≡ memory_event empty started ∷ memory_event (count_event empty) finished ∷ [])
analyze_quote-IsFinished_example =
    analyze_quote-IsFinished text_key server empty succeeds fails queued_quote (codes "t")
      (codes "u") refl refl

-- A repeated call that has read the quote before its worker ends stores it as it was: the quote is
-- queued again, though its analysis was completed and no worker is left.
abbrev stale : List (Event Text ℕ)
stale =
    create_arrives 0 ann_call (codes "request") 7
    ∷ runs 0 succeeds
    ∷ runs 0 succeeds
    ∷ runs 0 succeeds
    ∷ runs 0 succeeds
    ∷ create_arrives 1 ann_call (codes "request") 8
    ∷ runs 1 succeeds
    ∷ runs 1 succeeds
    ∷ runs 0 succeeds
    ∷ runs 1 succeeds
    ∷ runs 1 succeeds
    ∷ runs 1 succeeds
    ∷ runs 0 succeeds
    ∷ []

stale_replay :
    let system = run {R = Text} {J = ℕ} text_key server start stale in
    (system.tasks ≡ []) × (lookup quote_eq 7 system.memory.quotes ≡ some queued_quote)
unfolding run default
stale_replay = (refl, refl)
