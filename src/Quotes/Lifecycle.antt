-- ===== src/Quotes/Lifecycle.antt =====
-- The life of a quote: from its creation over its analysis to the answer of a repeated call.
use canonical_api_server_rs.Prelude.{
  ℕ, ◌≡◌, refl, sym, ap, none, some, List, [], ◌∷◌, ◌++◌, Text, Result, ok, Eq, lookup, insert,
  lookup-insert, ==_iff, subst,
}
use canonical_api_server_rs.Gemini.{GeminiError}
use canonical_api_server_rs.Quotes.{
  QuoteRecord, create, Call, operation_key, Memory, Config, quote_eq, operation_eq, new_record,
  count_event, memory_event, count_update, start_record, finish_record, store_quote, publish_event,
}
use canonical_api_server_rs.Quotes.Records.{finish_record-same, create_existing-same}
use canonical_api_server_rs.Quotes.Tasks.{
  create_call, analyze, Input, after_count, run_task, reply_with,
}
use canonical_api_server_rs.Quotes.Calls.{
  handle, analyze_quote, created, handle-creates, continue, handle-finds,
}

module _ {R J : Type 0} where
  abbrev at_instant : QuoteRecord R J → Text → QuoteRecord R J
  at_instant r timestamp = record r { updated_at = timestamp }

  -- The record behind the worker's first step, and the one behind its last
  abbrev pub started_record : QuoteRecord R J → Text → QuoteRecord R J
  started_record r at = at_instant (start_record r) at

  abbrev pub finished_record :
      Config → QuoteRecord R J → Text → Text → Result GeminiError J → QuoteRecord R J
  finished_record config r at done reply =
      at_instant (finish_record config (started_record r at) reply) done

  lookup-store :
      (quotes : List (ℕ × QuoteRecord R J)) (r s : QuoteRecord R J)
      → s.quote_id ≡ r.quote_id
      → lookup quote_eq r.quote_id (insert quote_eq s.quote_id s quotes) ≡ some s
  lookup-store quotes r s h =
      rw (lookup-insert quote_eq s.quote_id r.quote_id s quotes, (==_iff s.quote_id r.quote_id).1 h)
        refl

module _ {R J : Type 0} (same : Eq R) (config : Config) where
  analyze_quote-eq :
      (m : Memory R J) (first second : Input J) (r : QuoteRecord R J) (at done : Text)
      → first.now ≡ ok at
      → second.now ≡ ok done
      → analyze_quote same config m first second r ≡ (
          let started = started_record r at in
          let finished = finished_record config r at done second.reply in
          let m1 = publish_event (memory_event m started) (store_quote started (count_event m)) in
          publish_event (memory_event m1 finished) (store_quote finished (count_event m1)))
  unfolding analyze_quote continue run_task after_count count_update
  analyze_quote-eq m first second r at done h k = rw (h, k) refl

  -- Where the instants can be formatted, the worker stores the quote as completed with its analysis
  -- or as failed with its error code, tells of it by two events in order, the first one `analyzing`,
  -- and leaves the operations alone, whatever the reply and whatever the memory.
  pub analyze_quote-IsFinished :
      (m : Memory R J) (first second : Input J) (r : QuoteRecord R J) (at done : Text)
      → first.now ≡ ok at
      → second.now ≡ ok done
      → let after = analyze_quote same config m first second r in
        let started = started_record r at in
        let finished = finished_record config r at done second.reply in
        (lookup quote_eq r.quote_id after.quotes ≡ some finished)
        × (after.operations ≡ m.operations)
        × (after.events
            ≡ m.events ++ memory_event m started ∷ memory_event (count_event m) finished ∷ [])
  analyze_quote-IsFinished m first second r at done h k =
      let named = (finish_record-same config (started_record r at) second.reply).0 in
      rw (analyze_quote-eq m first second r at done h k) (
        lookup-store _ r (finished_record config r at done second.reply) named,
        refl,
        append_snoc m.events _ _,
      )
    where
      append_snoc :
          {A : Type 0} (xs : List A) (x y : A) → (xs ++ x ∷ []) ++ y ∷ [] ≡ xs ++ x ∷ y ∷ []
      append_snoc [] x y = refl
      append_snoc (z ∷ xs) x y = ap (◌∷◌ z) (append_snoc xs x y)

  created-eq :
      (m : Memory R J) (input : Input J) (c : Call) (request : R) (new_id : ℕ) (at : Text)
      → lookup operation_eq (operation_key c) m.operations ≡ none
      → input.now ≡ ok at
      → let r = new_record config c.subject request new_id at in
        let o = handle same config m input (create_call c request new_id) in
        (o.answer ≡ some (c.subject, ok r))
        × (o.next ≡ some (analyze r))
        × (lookup operation_eq (operation_key c) o.memory.operations ≡ some (create new_id request))
  unfolding created
  created-eq m input c request new_id at h k =
      let fresh =
        lookup-insert operation_eq (operation_key c) (operation_key c) (create new_id request)
          m.operations in
      rw (handle-creates same config m input c request new_id at h k) (
        refl,
        refl,
        rw (fresh, (operation_eq.beq_iff (operation_key c) (operation_key c)).1 refl) refl,
      )

  -- A `create_quote` under a new key, its analysis and then the same call again, with whatever new
  -- UUID: the first answer is the queued quote, the second is the same quote as the analysis left
  -- it, and the second call starts no analysis, publishes no event and adds no quote of its UUID.
  pub create-once :
      (m : Memory R J) (input first second again : Input J) (c : Call) (request : R)
      (new_id other_id : ℕ) (at started done : Text)
      → lookup operation_eq (operation_key c) m.operations ≡ none
      → input.now ≡ ok at
      → first.now ≡ ok started
      → second.now ≡ ok done
      → let r = new_record config c.subject request new_id at in
        let o = handle same config m input (create_call c request new_id) in
        let later = analyze_quote same config o.memory first second r in
        let finished = finished_record config r started done second.reply in
        let p = handle same config later again (create_call c request other_id) in
        (o.answer ≡ some (c.subject, ok r))
        × (o.next ≡ some (analyze r))
        × (p ≡ reply_with (store_quote finished later) c (ok finished) none)
  unfolding new_record
  create-once m input first second again c request new_id other_id at started done h k a b =
      let r = new_record config c.subject request new_id at in
      let o = handle same config m input (create_call c request new_id) in
      let (answered, spawned, kept) = created-eq m input c request new_id at h k in
      let (stored, operations, events) =
        analyze_quote-IsFinished o.memory first second r started done a b in
      let later = analyze_quote same config o.memory first second r in
      let operation =
        subst (λ ops. lookup operation_eq (operation_key c) ops ≡ some (create new_id request))
          (sym operations) kept in
      let finished = finished_record config r started done second.reply in
      let replays =
        handle-finds same config later again c request other_id (create new_id request)
          (ok finished) operation
          (create_existing-same same later request new_id finished stored) in
      (answered, spawned, replays)
