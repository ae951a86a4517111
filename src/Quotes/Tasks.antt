-- ===== src/Quotes/Tasks.antt =====
-- The handlers and the worker of quotes as tasks that run one step at a time, in any order. A step
-- ends where the task may wait: for a lock, or for Gemini. A handler reads the operations in one
-- step, reads or makes the record and counts its event in the next, inserts the operation, and
-- stores the record in the last; a worker's updates count the event in one step and store the record
-- in the next. Each task holds one permit of the semaphore, and the worker takes its handler's over.
use canonical_api_server_rs.Prelude.{
  ℕ, ◌+◌, ◌-◌, zero, suc, Bool, true, false, List, [], ◌∷◌, ◌++◌, Option, none, some, Text, ◌==◌,
  if◌then◌else◌, Result, ok, err, Eq, lookup,
}
use canonical_api_server_rs.Http.{ApiError, service_unavailable, rate_limited}
use canonical_api_server_rs.Admission.{SubmissionWindows, RateLimited, check_submission, default}
use canonical_api_server_rs.Gemini.{GeminiError}
use canonical_api_server_rs.Quotes.{
  QuoteRecord, QuoteEventRecord, MemoryOperation, create, retry, Call, operation_key, operation_eq,
  Memory, Config, context_unavailable, markdown_unavailable, new_record, memory_event, count_event,
  store_quote, store_operation, publish, create_existing, retry_existing, retry_new, count_update,
  store_update, start_record, finish_record,
}

-- QUOTE_ANALYSIS_MAX_CONCURRENCY
abbrev pub analysis_max_concurrency : ℕ
analysis_max_concurrency = 4

pub data Task (R J : Type 0) : Type 0 where
  create_call : Call → R → ℕ → Task R J
  create_found : Call → R → ℕ → Option (MemoryOperation R) → Task R J
  create_record : Call → R → QuoteRecord R J → QuoteEventRecord → Task R J
  retry_call : Call → ℕ → Task R J
  retry_found : Call → ℕ → Option (MemoryOperation R) → Task R J
  retry_record : Call → QuoteRecord R J → QuoteEventRecord → Task R J
  store : Call → Bool → QuoteRecord R J → Option QuoteEventRecord → Task R J
  analyze : QuoteRecord R J → Task R J
  store_start : QuoteRecord R J → QuoteEventRecord → Task R J
  await_reply : QuoteRecord R J → Task R J
  store_finish : QuoteRecord R J → QuoteEventRecord → Task R J

-- What the outside gives a step: `now_rfc3339` and the reply of Gemini.
pub record Input (J : Type 0) : Type 0 where
  pub now : Result ApiError Text
  pub reply : Result GeminiError J

-- The answer of a handler, to whom it goes first.
abbrev pub Answer : Type 0 → Type 0 → Type 0
Answer R J = Text × Result ApiError (QuoteRecord R J)

pub record Outcome (R J : Type 0) : Type 0 where
  pub memory : Memory R J
  pub next : Option (Task R J)
  pub answer : Option (Answer R J)

module _ {R J : Type 0} where
  abbrev pub proceed : Memory R J → Task R J → Outcome R J
  proceed memory task = record { memory = memory; next = some task; answer = none }

  abbrev pub finish : Memory R J → Outcome R J
  finish memory = record { memory = memory; next = none; answer = none }

  abbrev pub reply_with :
      Memory R J → Call → Result ApiError (QuoteRecord R J) → Option (Task R J) → Outcome R J
  reply_with memory c result next = record {
    memory = memory;
    next = next;
    answer = some (c.subject, result);
  }

  -- A record that an operation led to is stored again, without an event.
  unfoldable pub replay : Memory R J → Call → Bool → Result ApiError (QuoteRecord R J) → Outcome R J
  replay memory c is_retry (ok r) = proceed memory (store c is_retry r none)
  replay memory c is_retry (err e) = reply_with memory c (err e) none

  unfoldable pub create_new :
      Config → Memory R J → Call → R → ℕ → Result ApiError Text → Outcome R J
  unfolding new_record
  create_new config memory c request new_id (err e) = reply_with memory c (err e) none
  create_new config memory c request new_id (ok timestamp) =
      let r = new_record config c.subject request new_id timestamp in
      proceed (count_event memory) (create_record c request r (memory_event memory r))

  unfoldable pub retry_with : Memory R J → Call → Result ApiError (QuoteRecord R J) → Outcome R J
  retry_with memory c (ok r) =
      proceed (count_event memory) (retry_record c r (memory_event memory r))
  retry_with memory c (err e) = reply_with memory c (err e) none

  -- From the insertion of the record on. Only a record with an event is analyzed.
  unfoldable pub store_and_spawn :
      Config → Memory R J → Call → Bool → QuoteRecord R J → Option QuoteEventRecord → Outcome R J
  store_and_spawn config memory c is_retry r none = reply_with (store_quote r memory) c (ok r) none
  store_and_spawn config memory c false r (some event) =
      reply_with (publish (some event) (store_quote r memory)) c (ok r) (some (analyze r))
  store_and_spawn config memory c true r (some event) =
      let stored = publish (some event) (store_quote r memory) in
      if markdown_unavailable config
      then reply_with stored c (err context_unavailable) none
      else reply_with stored c (ok r) (some (analyze r))

  -- An `update_quote_state` of the worker, whose record is stored by the given task; where it returns
  -- false, the worker ends, as it would behind its last update.
  unfoldable pub after_count :
      (QuoteRecord R J → QuoteEventRecord → Task R J)
      → Memory R J × Option (QuoteRecord R J × QuoteEventRecord)
      → Outcome R J
  after_count task (memory, none) = finish memory
  after_count task (memory, some (r, event)) = proceed memory (task r event)

  unfoldable pub run_task : Eq R → Config → Memory R J → Input J → Task R J → Outcome R J
  unfolding replay create_new retry_with store_and_spawn after_count create_existing retry_existing
      retry_new count_update finish_record
  run_task same config memory input (create_call c request new_id) =
      proceed memory
        (create_found c request new_id (lookup operation_eq (operation_key c) memory.operations))
  run_task same config memory input (create_found c request new_id (some operation)) =
      replay memory c false (create_existing same memory request operation)
  run_task same config memory input (create_found c request new_id none) =
      create_new config memory c request new_id input.now
  run_task same config memory input (create_record c request r event) =
      proceed (store_operation c (create r.quote_id request) memory) (store c false r (some event))
  run_task same config memory input (retry_call c quote_id) =
      proceed memory
        (retry_found c quote_id (lookup operation_eq (operation_key c) memory.operations))
  run_task same config memory input (retry_found c quote_id (some operation)) =
      replay memory c true (retry_existing memory c.subject quote_id operation)
  run_task same config memory input (retry_found c quote_id none) =
      retry_with memory c (retry_new memory c.subject quote_id input.now)
  run_task same config memory input (retry_record c r event) =
      proceed (store_operation c (retry r.quote_id) memory) (store c true r (some event))
  run_task same config memory input (store c is_retry r event) =
      store_and_spawn config memory c is_retry r event
  run_task same config memory input (analyze r) =
      after_count store_start (count_update input.now (start_record r) memory)
  run_task same config memory input (store_start r event) =
      proceed (store_update r event memory) (await_reply r)
  run_task same config memory input (await_reply r) =
      after_count store_finish (count_update input.now (finish_record config r input.reply) memory)
  run_task same config memory input (store_finish r event) = finish (store_update r event memory)

-- The server: what quotes share, the windows of the submission quota, the free permits, the tasks
-- that have not ended, and the answers given so far.
pub record System (R J : Type 0) : Type 0 where
  pub memory : Memory R J
  pub windows : SubmissionWindows
  pub permits : ℕ
  pub tasks : List (Task R J)
  pub answers : List (Answer R J)

-- What may happen: an authenticated call with a key (and a parsed request) arrives, at an instant
-- in nanoseconds; or a task runs a step.
pub data Event (R J : Type 0) : Type 0 where
  create_arrives : ℕ → Call → R → ℕ → Event R J
  retry_arrives : ℕ → Call → ℕ → Event R J
  runs : ℕ → Input J → Event R J

abbrev pub start : {R J : Type 0} → System R J
start = record {
  memory = record { quotes = []; operations = []; next_event_sequence = 1; events = [] };
  windows = default;
  permits = analysis_max_concurrency;
  tasks = [];
  answers = [];
}

-- The task at an index, and the others
abbrev pub pick : {A : Type 0} → ℕ → List A → Option (A × List A)
pick index [] = none
pick zero (x ∷ xs) = some (x, xs)
pick (suc index) (x ∷ xs) = elim (pick index xs) [ none ↦ none | some (y, ys) ↦ some (y, x ∷ ys) ]

abbrev pub to_list : {A : Type 0} → Option A → List A
to_list none = []
to_list (some a) = a ∷ []

module _ {R J : Type 0} where
  abbrev pub refuse : Call → ApiError → System R J → System R J
  refuse c e system = record system { answers = system.answers ++ (c.subject, err e) ∷ [] }

  -- The quota, where a permit was free
  unfoldable pub admit_within :
      Call → Task R J → System R J → SubmissionWindows × Result RateLimited (Unit {0}) → System R J
  admit_within c task system (windows, err limit) =
      refuse c (rate_limited limit) (record system { windows = windows })
  admit_within c task system (windows, ok u) = record system {
    windows = windows;
    permits = system.permits - 1;
    tasks = system.tasks ++ task ∷ [];
  }

  unfoldable pub admit : ℕ → Call → Task R J → System R J → System R J
  unfolding admit_within check_submission
  admit now c task system =
      if system.permits == 0
      then refuse c (service_unavailable "analysis_capacity_reached") system
      else admit_within c task system (check_submission now c.subject system.windows)

  -- A task without a next one gives its permit back.
  abbrev pub settle : List (Task R J) → Outcome R J → System R J → System R J
  settle others outcome system = record system {
    memory = outcome.memory;
    permits = elim outcome.next [ none ↦ system.permits + 1 | some task ↦ system.permits ];
    tasks = others ++ to_list outcome.next;
    answers = system.answers ++ to_list outcome.answer;
  }

  unfoldable pub run_at :
      Eq R → Config → Input J → System R J → Option (Task R J × List (Task R J)) → System R J
  unfolding run_task
  run_at same config input system none = system
  run_at same config input system (some (task, others)) =
      settle others (run_task same config system.memory input task) system

  unfoldable pub step : Eq R → Config → System R J → Event R J → System R J
  unfolding admit run_at
  step same config system (create_arrives now c request new_id) =
      admit now c (create_call c request new_id) system
  step same config system (retry_arrives now c quote_id) =
      admit now c (retry_call c quote_id) system
  step same config system (runs index input) =
      run_at same config input system (pick index system.tasks)

  unfoldable pub run : Eq R → Config → System R J → List (Event R J) → System R J
  unfolding step
  run same config system [] = system
  run same config system (e ∷ events) = run same config (step same config system e) events
