-- ===== src/Quotes/Calls.antt =====
-- One call about quotes, or one analysis, whose steps run back to back.
use canonical_api_server_rs.Prelude.{
  ℕ, zero, suc, ◌≡◌, refl, ◌∙◌, ap, false, Option, none, some, Text, Result, ok, err, Eq, lookup,
}
use canonical_api_server_rs.Http.{ApiError}
use canonical_api_server_rs.Quotes.{
  QuoteRecord, MemoryOperation, create, Call, operation_key, Memory, Config, operation_eq,
  new_record, count_event, memory_event, create_existing, store_quote, store_operation,
  publish_event,
}
use canonical_api_server_rs.Quotes.Tasks.{
  Task, create_call, create_found, analyze, Input, Outcome, replay, create_new, store_and_spawn,
  Answer, run_task, reply_with,
}

module _ {R J : Type 0} (same : Eq R) (config : Config) where
  -- The steps of a handler, which ends where it answers
  unfoldable pub serve :
      ℕ → Input J → Memory R J → Option (Answer R J) → Option (Task R J) → Outcome R J
  unfolding run_task
  serve (suc n) input memory none (some task) =
      let o = run_task same config memory input task in serve n input o.memory o.answer o.next
  serve _ input memory answer next = record { memory = memory; next = next; answer = answer }

  -- A call, whose handler has at most 4 steps
  abbrev pub handle : Memory R J → Input J → Task R J → Outcome R J
  handle memory input task = serve 4 input memory none (some task)

  abbrev pub serve_on : ℕ → Input J → Outcome R J → Outcome R J
  serve_on n input o = serve n input o.memory o.answer o.next

  -- A worker's next steps, with what the outside gives them
  unfoldable pub continue : ℕ → Input J → Outcome R J → Outcome R J
  unfolding run_task
  continue zero input o = o
  continue (suc n) input o = elim o.next [
    | none ↦ o
    | some task ↦ continue n input (run_task same config o.memory input task)
  ]

  -- The worker up to the call of Gemini, and from its reply on: two updates of two steps each
  unfoldable pub analyze_quote : Memory R J → Input J → Input J → QuoteRecord R J → Memory R J
  unfolding continue
  analyze_quote memory first second r =
      let started =
        continue 2 first (record { memory = memory; next = some (analyze r); answer = none }) in
      (continue 2 second started).memory

  -- The outcome under a key that has an operation
  abbrev pub found : Memory R J → Call → Result ApiError (QuoteRecord R J) → Outcome R J
  found m c (ok r) = reply_with (store_quote r m) c (ok r) none
  found m c (err e) = reply_with m c (err e) none

  replayed :
      (m : Memory R J) (input : Input J) (c : Call) (x : Result ApiError (QuoteRecord R J))
      → serve_on 2 input (replay m c false x) ≡ found m c x
  unfolding serve run_task replay store_and_spawn
  replayed m input c (ok r) = refl
  replayed m input c (err e) = refl

  -- A call under a key that has an operation is answered with what that operation leads to.
  pub handle-finds :
      (m : Memory R J) (input : Input J) (c : Call) (request : R) (new_id : ℕ)
      (o : MemoryOperation R) (x : Result ApiError (QuoteRecord R J))
      → lookup operation_eq (operation_key c) m.operations ≡ some o
      → create_existing same m request o ≡ x
      → handle m input (create_call c request new_id) ≡ found m c x
  unfolding serve run_task
  handle-finds m input c request new_id o x h k =
      ap (λ operation. serve 3 input m none (some (create_found c request new_id operation))) h
      ∙ (ap (λ y. serve_on 2 input (replay m c false y)) k ∙ replayed m input c x)

  unfoldable pub created : Memory R J → Call → R → ℕ → Text → Outcome R J
  created m c request new_id at =
      let r = new_record config c.subject request new_id at in
      reply_with
        (publish_event (memory_event m r)
          (store_quote r (store_operation c (create new_id request) (count_event m))))
        c (ok r) (some (analyze r))

  pub handle-creates :
      (m : Memory R J) (input : Input J) (c : Call) (request : R) (new_id : ℕ) (at : Text)
      → lookup operation_eq (operation_key c) m.operations ≡ none
      → input.now ≡ ok at
      → handle m input (create_call c request new_id) ≡ created m c request new_id at
  unfolding serve run_task create_new store_and_spawn new_record created
  handle-creates m input c request new_id at h k =
      ap (λ o. serve 3 input m none (some (create_found c request new_id o))) h
      ∙ ap (λ now. serve_on 2 input (create_new config m c request new_id now)) k
