-- ===== src/Quotes/Retries.antt =====
-- `retry_quote` of src/lib.rs, its steps back to back.
use canonical_api_server_rs.Prelude.{ℕ, ◌≡◌, ◌≢◌, none, some, Text, codes, ok, err, lookup}
use canonical_api_server_rs.Http.{conflict, not_found}
use canonical_api_server_rs.Quotes.{
  QuoteRecord, retry, Call, Memory, quote_eq, count_event, memory_event, requeue, store_quote,
  store_operation, publish_event,
}
use canonical_api_server_rs.Quotes.Tasks.{analyze, Outcome, reply_with}

module _ {R J : Type 0} where
  -- A failed quote goes back into the queue.
  pub requeued : Memory R J → Call → QuoteRecord R J → Outcome R J
  requeued m c r =
      reply_with
        (publish_event (memory_event m r)
          (store_quote r (store_operation c (retry r.quote_id) (count_event m))))
        c (ok r) (some (analyze r))

  -- The outcomes of a retry under a new key
  pub data IsRetried (m : Memory R J) (c : Call) (id : ℕ) (at : Text) (o : Outcome R J)
      : Type 0 where
    accepted :
        (old : QuoteRecord R J)
        → lookup quote_eq id m.quotes ≡ some old
        → old.owner_subject ≡ c.subject
        → old.status ≡ codes "failed"
        → o ≡ requeued m c (requeue old at)
        → IsRetried m c id at o
    unknown :
        ((r : QuoteRecord R J) → lookup quote_eq id m.quotes ≡ some r → r.owner_subject ≢ c.subject)
        → o ≡ reply_with m c (err not_found) none
        → IsRetried m c id at o
    settled :
        (old : QuoteRecord R J)
        → lookup quote_eq id m.quotes ≡ some old
        → old.owner_subject ≡ c.subject
        → old.status ≢ codes "failed"
        → o ≡ reply_with m c (err (conflict "conflict")) none
        → IsRetried m c id at o
