-- ===== src/Quotes/Invariant.antt =====
-- What holds of the memory and the tasks of quotes at every moment, part by part. Every UUID is
-- issued for one subject: `owner_of` says for which.
use canonical_api_server_rs.Prelude.{
  ℕ, ◌≡◌, refl, sym, ◌∙◌, ap, inl, inr, Bool, true, false, Option, none, some, [], ◌∷◌, Text,
  Result, ok, err, IfSome, IfSome-eq-some, IfSome-insert, lookup, Eq, Bool-cases, All, All-append,
  subst,
}
use canonical_api_server_rs.Http.{ApiError}
use canonical_api_server_rs.Gemini.{GeminiError}
use canonical_api_server_rs.Quotes.{
  QuoteRecord, QuoteEventRecord, MemoryOperation, assessment, create, retry, Call, operation_key,
  Memory, Config, markdown_unavailable, quote_eq, operation_eq, new_record, find_quote, count_event,
  create_existing, retry_new, requeue, count_update, store_update, start_record, finish_record,
  store_quote, store_operation, publish_event,
}
use canonical_api_server_rs.Quotes.Records.{
  IsCoherent, queued, analyzing, IsCoherent-update, finish_record-IsCoherent, finish_record-same,
  find_quote_iff, create_existing-eq-ok, retry_new-eq-ok,
}
use canonical_api_server_rs.Quotes.Tasks.{
  Task, create_call, create_found, create_record, retry_call, retry_found, retry_record, store,
  analyze, store_start, await_reply, store_finish, Answer, Outcome, replay, create_new, retry_with,
  store_and_spawn, after_count, System, to_list,
}

abbrev pub IsOperation : {R : Type 0} → (ℕ → Text) → Text × Text → MemoryOperation R → Type 0
IsOperation owner_of (subject, key) (create id request) = owner_of id ≡ subject
IsOperation owner_of (subject, key) (retry id) = owner_of id ≡ subject
IsOperation owner_of (subject, key) (assessment id) = Unit

abbrev pub IsEvent : (ℕ → Text) → QuoteEventRecord → Type 0
IsEvent owner_of e = e.owner_subject ≡ owner_of e.quote_id

module _ {R J : Type 0} (owner_of : ℕ → Text) where
  pub record IsRecord (r : QuoteRecord R J) : Type 0 where
    pub coherent : IsCoherent r
    pub owned : r.owner_subject ≡ owner_of r.quote_id

  -- A record in an answer is coherent, and it belongs to the subject that is answered.
  abbrev pub IsAnswer : Answer R J → Type 0
  IsAnswer (subject, ok r) = IsRecord r × (r.owner_subject ≡ subject)
  IsAnswer (subject, err e) = Unit

  abbrev pub IsQuote : ℕ → QuoteRecord R J → Type 0
  IsQuote id r = IsRecord r × (r.quote_id ≡ id)

  pub record IsMemory (memory : Memory R J) : Type 0 where
    pub quotes : (id : ℕ) → IfSome (IsQuote id) (lookup quote_eq id memory.quotes)
    pub operations :
        (k : Text × Text)
        → IfSome (IsOperation owner_of k) (lookup operation_eq k memory.operations)
    pub events : All (IsEvent owner_of) memory.events

  abbrev pub IsTask : Task R J → Type 0
  IsTask (create_call c request id) = owner_of id ≡ c.subject
  IsTask (create_found c request id o) =
      (owner_of id ≡ c.subject) × IfSome (IsOperation owner_of (operation_key c)) o
  IsTask (create_record c request r e) =
      IsRecord r × (r.owner_subject ≡ c.subject) × IsEvent owner_of e
  IsTask (retry_call c id) = Unit
  IsTask (retry_found c id o) = Unit
  IsTask (retry_record c r e) = IsRecord r × (r.owner_subject ≡ c.subject) × IsEvent owner_of e
  IsTask (store c is_retry r e) =
      IsRecord r × (r.owner_subject ≡ c.subject) × IfSome (IsEvent owner_of) e
  IsTask (analyze r) = IsRecord r
  IsTask (store_start r e) = IsRecord r × (r.analysis ≡ none) × IsEvent owner_of e
  IsTask (await_reply r) = IsRecord r × (r.analysis ≡ none)
  IsTask (store_finish r e) = IsRecord r × IsEvent owner_of e

  pub record IsOutcome (o : Outcome R J) : Type 0 where
    pub memory : IsMemory o.memory
    pub next : All IsTask (to_list o.next)
    pub answer : All IsAnswer (to_list o.answer)

  pub record IsSystem (s : System R J) : Type 0 where
    pub memory : IsMemory s.memory
    pub tasks : All IsTask s.tasks
    pub answers : All IsAnswer s.answers

  -- What the parts of a step keep
  store_quote-IsMemory :
      (r : QuoteRecord R J) (m : Memory R J) → IsRecord r → IsMemory m → IsMemory (store_quote r m)
  store_quote-IsMemory r m p h = record {
    quotes = IfSome-insert quote_eq IsQuote r.quote_id r m.quotes (p, refl) h.quotes;
    operations = h.operations;
    events = h.events;
  }

  pub store_operation-IsMemory :
      (c : Call) (o : MemoryOperation R) (m : Memory R J)
      → IsOperation owner_of (operation_key c) o
      → IsMemory m
      → IsMemory (store_operation c o m)
  store_operation-IsMemory c o m p h = record {
    quotes = h.quotes;
    operations =
        IfSome-insert operation_eq (IsOperation owner_of) (operation_key c) o m.operations p
          h.operations;
    events = h.events;
  }

  count_event-IsMemory : (m : Memory R J) → IsMemory m → IsMemory (count_event m)
  count_event-IsMemory m h = record {
    quotes = h.quotes;
    operations = h.operations;
    events = h.events;
  }

  publish_event-IsMemory :
      (e : QuoteEventRecord) (m : Memory R J)
      → IsEvent owner_of e
      → IsMemory m
      → IsMemory (publish_event e m)
  publish_event-IsMemory e m p h = record {
    quotes = h.quotes;
    operations = h.operations;
    events = All-append (IsEvent owner_of) m.events (e ∷ []) h.events (p, tt);
  }

  pub replay-IsOutcome :
      (m : Memory R J) (c : Call) (is_retry : Bool) (result : Result ApiError (QuoteRecord R J))
      → IsMemory m
      → ((r : QuoteRecord R J) → result ≡ ok r → IsRecord r × (r.owner_subject ≡ c.subject))
      → IsOutcome (replay m c is_retry result)
  unfolding replay
  replay-IsOutcome m c is_retry (ok r) h k =
      let (p, q) = k r refl in record { memory = h; next = ((p, q, tt), tt); answer = tt }
  replay-IsOutcome m c is_retry (err e) h k = record { memory = h; next = tt; answer = (tt, tt) }

  -- A found quote is the subject's own.
  pub find_quote-IsRecord :
      (m : Memory R J) (id : ℕ) (subject : Text) (r : QuoteRecord R J)
      → IsMemory m
      → find_quote m id subject ≡ ok r
      → IsRecord r × (r.owner_subject ≡ subject)
  find_quote-IsRecord m id subject r h e =
      let (found, own) = (find_quote_iff m id subject r).0 e in
      ((IfSome-eq-some (IsQuote id) _ (h.quotes id) found).0, own)

  pub create_existing-IsRecord :
      (same : Eq R) (m : Memory R J) (c : Call) (request : R) (o : MemoryOperation R)
      (r : QuoteRecord R J)
      → IsMemory m
      → IsOperation owner_of (operation_key c) o
      → create_existing same m request o ≡ ok r
      → IsRecord r × (r.owner_subject ≡ c.subject)
  create_existing-IsRecord same m c request o r h p e =
      let (id, is_create, found) = create_existing-eq-ok same m request o e in
      let (good, named) = IfSome-eq-some (IsQuote id) _ (h.quotes id) found in
      let mine : owner_of id ≡ c.subject =
        subst (IsOperation owner_of (operation_key c)) is_create p in
      (good, good.owned ∙ ap owner_of named ∙ mine)

  pub create_new-IsOutcome :
      (config : Config) (m : Memory R J) (c : Call) (request : R) (id : ℕ)
      (now : Result ApiError Text)
      → IsMemory m
      → owner_of id ≡ c.subject
      → IsOutcome (create_new config m c request id now)
  unfolding create_new new_record
  create_new-IsOutcome config m c request id (err e) h p = record {
    memory = h;
    next = tt;
    answer = (tt, tt);
  }
  create_new-IsOutcome config m c request id (ok at) h p = record {
    memory = count_event-IsMemory m h;
    next = ((record { coherent = queued refl refl refl; owned = sym p }, refl, sym p), tt);
    answer = tt;
  }

  pub retry_with-IsOutcome :
      (m : Memory R J) (c : Call) (result : Result ApiError (QuoteRecord R J))
      → IsMemory m
      → ((r : QuoteRecord R J) → result ≡ ok r → IsRecord r × (r.owner_subject ≡ c.subject))
      → IsOutcome (retry_with m c result)
  unfolding retry_with
  retry_with-IsOutcome m c (ok r) h k =
      let (p, q) = k r refl in
      record { memory = count_event-IsMemory m h; next = ((p, q, p.owned), tt); answer = tt }
  retry_with-IsOutcome m c (err e) h k = record { memory = h; next = tt; answer = (tt, tt) }

  requeue-IsRecord :
      (old r : QuoteRecord R J) (at : Text) → IsRecord old → r ≡ requeue old at → IsRecord r
  requeue-IsRecord old r at p e =
      subst IsRecord (sym e) (record { coherent = queued refl refl refl; owned = p.owned })

  pub retry_new-IsRecord :
      (m : Memory R J) (c : Call) (id : ℕ) (now : Result ApiError Text) (r : QuoteRecord R J)
      → IsMemory m
      → retry_new m c.subject id now ≡ ok r
      → IsRecord r × (r.owner_subject ≡ c.subject)
  retry_new-IsRecord m c id now r h e =
      let (old, at, found, is_failed, is_now, requeued) = retry_new-eq-ok m c.subject id now e in
      let (p, own) = find_quote-IsRecord m id c.subject old h found in
      (
        requeue-IsRecord old r at p requeued,
        ap (λ (q : QuoteRecord R J). q.owner_subject) requeued ∙ own,
      )

  pub store_and_spawn-IsOutcome :
      (config : Config) (m : Memory R J) (c : Call) (is_retry : Bool) (r : QuoteRecord R J)
      (e : Option QuoteEventRecord)
      → IsMemory m
      → IsRecord r
      → r.owner_subject ≡ c.subject
      → IfSome (IsEvent owner_of) e
      → IsOutcome (store_and_spawn config m c is_retry r e)
  unfolding store_and_spawn
  store_and_spawn-IsOutcome config m c is_retry r none h p q k = record {
    memory = store_quote-IsMemory r m p h;
    next = tt;
    answer = ((p, q), tt);
  }
  store_and_spawn-IsOutcome config m c false r (some e) h p q k = record {
    memory = publish_event-IsMemory e (store_quote r m) k (store_quote-IsMemory r m p h);
    next = (p, tt);
    answer = ((p, q), tt);
  }
  store_and_spawn-IsOutcome config m c true r (some e) h p q k =
      let stored = publish_event-IsMemory e (store_quote r m) k (store_quote-IsMemory r m p h) in
      elim (Bool-cases (markdown_unavailable config)) [
        | inl x ↦ rw x (record { memory = stored; next = tt; answer = (tt, tt) })
        | inr x ↦ rw x (record { memory = stored; next = (p, tt); answer = ((p, q), tt) })
      ]

  pub store_update-IsMemory :
      (r : QuoteRecord R J) (e : QuoteEventRecord) (m : Memory R J)
      → IsMemory m
      → IsRecord r
      → IsEvent owner_of e
      → IsMemory (store_update r e m)
  store_update-IsMemory r e m h p k =
      publish_event-IsMemory e (store_quote r m) k (store_quote-IsMemory r m p h)

  IsRecord-update :
      (r : QuoteRecord R J) (at : Text) → IsRecord r → IsRecord (record r { updated_at = at })
  IsRecord-update r at p = record { coherent = IsCoherent-update r at p.coherent; owned = p.owned }

  -- `update_quote_state` is to store a record that is coherent but for its instant.
  pub analyze-IsOutcome :
      (now : Result ApiError Text) (r : QuoteRecord R J) (m : Memory R J)
      → IsMemory m
      → IsRecord r
      → IsOutcome (after_count store_start (count_update now (start_record r) m))
  unfolding after_count count_update
  analyze-IsOutcome (err e) r m h p = record { memory = h; next = tt; answer = tt }
  analyze-IsOutcome (ok at) r m h p =
      let q : IsRecord (start_record r) = record {
        coherent = analyzing refl refl refl;
        owned = p.owned;
      } in
      record {
        memory = count_event-IsMemory m h;
        next = ((IsRecord-update (start_record r) at q, refl, p.owned), tt);
        answer = tt;
      }

  pub finish-IsOutcome :
      (now : Result ApiError Text) (r : QuoteRecord R J) (m : Memory R J)
      → IsMemory m
      → IsRecord r
      → IsOutcome (after_count store_finish (count_update now r m))
  unfolding after_count count_update
  finish-IsOutcome (err e) r m h p = record { memory = h; next = tt; answer = tt }
  finish-IsOutcome (ok at) r m h p = record {
    memory = count_event-IsMemory m h;
    next = ((IsRecord-update r at p, p.owned), tt);
    answer = tt;
  }

  pub finish_record-IsRecord :
      (config : Config) (r : QuoteRecord R J) (reply : Result GeminiError J)
      → IsRecord r
      → r.analysis ≡ none
      → IsRecord (finish_record config r reply)
  finish_record-IsRecord config r reply p e =
      let (named, own) = finish_record-same config r reply in
      record {
        coherent = finish_record-IsCoherent config r reply e;
        owned = own ∙ p.owned ∙ ap owner_of (sym named);
      }
