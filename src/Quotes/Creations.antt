-- ===== src/Quotes/Creations.antt =====
-- `create_quote` of src/lib.rs, its steps back to back: what it leaves in the memory.
use canonical_api_server_rs.Prelude.{
  ℕ, ◌≡◌, refl, sym, ◌∙◌, ap, ◌≢◌, inl, inr, none, some, [], ◌∷◌, ◌++◌, Text, codes, if◌then◌else◌,
  ok, err, Eq, lookup, lookup-insert, IfSome, IfSome-eq-some, Option-cases, Bool-cases, ==_iff,
  ◌==◌, subst,
}
use canonical_api_server_rs.Http.{idempotency_reused, storage_unavailable}
use canonical_api_server_rs.Quotes.{
  QuoteRecord, MemoryOperation, assessment, create, retry, Call, operation_key, Memory, Config,
  quote_eq, operation_eq, new_record, memory_event, create_existing, store_quote,
}
use canonical_api_server_rs.Quotes.Tasks.{create_call, analyze, Input, Outcome}
use canonical_api_server_rs.Quotes.Calls.{handle, created, handle-creates, handle-finds}

module _ {R J : Type 0} where
  -- A quote is stored under its own UUID.
  abbrev pub HasOwnIds : Memory R J → Type 0
  HasOwnIds m =
      (id : ℕ) → IfSome (λ (r : QuoteRecord R J). r.quote_id ≡ id) (lookup quote_eq id m.quotes)

  -- The two memories hold the same quotes, operations and events.
  pub record IsSame (m n : Memory R J) : Type 0 where
    pub quotes : (id : ℕ) → lookup quote_eq id n.quotes ≡ lookup quote_eq id m.quotes
    pub operations : n.operations ≡ m.operations
    pub events : n.events ≡ m.events
    pub sequence : n.next_event_sequence ≡ m.next_event_sequence

  -- The record of a quote that was just created
  pub record IsNew (c : Call) (asked : R) (id : ℕ) (at : Text) (r : QuoteRecord R J) : Type 0 where
    pub quote_id : r.quote_id ≡ id
    pub owner_subject : r.owner_subject ≡ c.subject
    pub status : r.status ≡ codes "queued"
    pub analysis : r.analysis ≡ none
    pub error_code : r.error_code ≡ none
    pub request : r.request ≡ asked
    pub created_at : r.created_at ≡ at
    pub updated_at : r.updated_at ≡ at

  -- What is new behind the creation of a quote: the quote, the operation and one event
  pub record IsAdded (m n : Memory R J) (c : Call) (request : R) (r : QuoteRecord R J)
      : Type 0 where
    pub quotes :
        (id : ℕ)
        → lookup quote_eq id n.quotes
          ≡ (if r.quote_id == id then some r else lookup quote_eq id m.quotes)
    pub operations :
        (k : Text × Text)
        → lookup operation_eq k n.operations ≡ (
            if operation_eq.beq (operation_key c) k
            then some (create r.quote_id request)
            else lookup operation_eq k m.operations)
    pub events : n.events ≡ m.events ++ memory_event m r ∷ []

  pub data IsCreated (m : Memory R J) (c : Call) (request : R) (id : ℕ) (at : Text)
      (o : Outcome R J) : Type 0 where
    new :
        (r : QuoteRecord R J)
        → lookup operation_eq (operation_key c) m.operations ≡ none
        → IsNew c request id at r
        → IsAdded m o.memory c request r
        → o.answer ≡ some (c.subject, ok r)
        → o.next ≡ some (analyze r)
        → IsCreated m c request id at o
    repeated :
        (old : ℕ) (r : QuoteRecord R J)
        → lookup operation_eq (operation_key c) m.operations ≡ some (create old request)
        → lookup quote_eq old m.quotes ≡ some r
        → IsSame m o.memory
        → o.answer ≡ some (c.subject, ok r)
        → o.next ≡ none
        → IsCreated m c request id at o
    lost :
        (old : ℕ)
        → lookup operation_eq (operation_key c) m.operations ≡ some (create old request)
        → lookup quote_eq old m.quotes ≡ none
        → IsSame m o.memory
        → o.answer ≡ some (c.subject, err storage_unavailable)
        → o.next ≡ none
        → IsCreated m c request id at o
    reused :
        (operation : MemoryOperation R)
        → lookup operation_eq (operation_key c) m.operations ≡ some operation
        → ((old : ℕ) → operation ≢ create old request)
        → IsSame m o.memory
        → o.answer ≡ some (c.subject, err idempotency_reused)
        → o.next ≡ none
        → IsCreated m c request id at o

  IsSame-refl : (m : Memory R J) → IsSame m m
  IsSame-refl m = record { quotes = λ id. refl; operations = refl; events = refl; sequence = refl }

  -- A record that is stored again where it was
  store_quote-IsSame :
      (m : Memory R J) (id : ℕ) (r : QuoteRecord R J)
      → HasOwnIds m
      → lookup quote_eq id m.quotes ≡ some r
      → IsSame m (store_quote r m)
  store_quote-IsSame m id r h e =
      let named : r.quote_id ≡ id =
        IfSome-eq-some (λ (s : QuoteRecord R J). s.quote_id ≡ id) _ (h id) e in
      record {
        quotes = λ i.
            lookup-insert quote_eq r.quote_id i r m.quotes ∙ elim (Bool-cases (r.quote_id == i)) [
              | inl k ↦
                  let here = sym named ∙ (==_iff r.quote_id i).0 k in
                  rw k (sym e ∙ ap (λ j. lookup quote_eq j m.quotes) here)
              | inr k ↦ rw k refl
            ];
        operations = refl;
        events = refl;
        sequence = refl;
      }

  -- The operations that are no creation for the same request
  data Precedent (same : Eq R) (m : Memory R J) (request : R) (o : MemoryOperation R) : Type 0 where
    leads :
        (old : ℕ) (r : QuoteRecord R J)
        → o ≡ create old request
        → lookup quote_eq old m.quotes ≡ some r
        → create_existing same m request o ≡ ok r
        → Precedent same m request o
    misses :
        (old : ℕ)
        → o ≡ create old request
        → lookup quote_eq old m.quotes ≡ none
        → create_existing same m request o ≡ err storage_unavailable
        → Precedent same m request o
    differs :
        ((old : ℕ) → o ≢ create old request)
        → create_existing same m request o ≡ err idempotency_reused
        → Precedent same m request o

  create_existing-cases :
      (same : Eq R) (m : Memory R J) (request : R) (o : MemoryOperation R)
      → Precedent same m request o
  unfolding create_existing
  create_existing-cases same m request (assessment id) = differs (λ old e. cc) refl
  create_existing-cases same m request (retry id) = differs (λ old e. cc) refl
  create_existing-cases same m request (create id existing) =
      elim (Bool-cases (same.beq existing request)) [
        | inl e ↦
            let equal = ap (create id) ((same.beq_iff existing request).0 e) in
            elim (Option-cases (lookup quote_eq id m.quotes)) [
              | inl n ↦ misses id equal n (rw (e, n) refl)
              | inr (r, n) ↦ leads id r equal n (rw (e, n) refl)
            ]
        | inr e ↦
            differs
              (λ old k.
                let q : existing ≡ request = cc in cc (e, (same.beq_iff existing request).1 q))
              (rw e refl)
      ]

module _ {R J : Type 0} (same : Eq R) (config : Config) where
  created-IsCreated :
      (m : Memory R J) (c : Call) (request : R) (id : ℕ) (at : Text)
      → lookup operation_eq (operation_key c) m.operations ≡ none
      → IsCreated m c request id at (created same config m c request id at)
  unfolding created new_record
  created-IsCreated m c request id at h =
      new (new_record config c.subject request id at) h
        (record {
          quote_id = refl;
          owner_subject = refl;
          status = refl;
          analysis = refl;
          error_code = refl;
          request = refl;
          created_at = refl;
          updated_at = refl;
        })
        (record {
          quotes = λ i. lookup-insert quote_eq id i _ m.quotes;
          operations = λ k. lookup-insert operation_eq (operation_key c) k _ m.operations;
          events = refl;
        })
        refl refl

  -- A `create_quote` at an instant that can be formatted has one of four outcomes, told apart by
  -- what the memory holds under its key; if every quote is stored under its own UUID. Without an
  -- operation there, the queued quote is stored and answered, with its operation and one event, and
  -- its analysis begins. With the creation of a quote for the same request, that quote is answered
  -- as it is now, or `storage_unavailable` if there is none. With any other operation,
  -- `idempotency_key_reused` is answered. In the last three cases quotes, operations and events
  -- stay as they are, and no analysis begins.
  pub handle-IsCreated :
      (m : Memory R J) (input : Input J) (c : Call) (request : R) (id : ℕ) (at : Text)
      → HasOwnIds m
      → input.now ≡ ok at
      → IsCreated m c request id at (handle same config m input (create_call c request id))
  handle-IsCreated m input c request id at own h =
      elim (Option-cases (lookup operation_eq (operation_key c) m.operations)) [
        | inl n ↦
            subst (IsCreated m c request id at)
              (sym (handle-creates same config m input c request id at n h))
              (created-IsCreated m c request id at n)
        | inr (o, n) ↦ found_operation o n (create_existing-cases same m request o)
      ]
    where
      found_operation :
          (o : MemoryOperation R)
          → lookup operation_eq (operation_key c) m.operations ≡ some o
          → Precedent same m request o
          → IsCreated m c request id at (handle same config m input (create_call c request id))
      found_operation o n (leads old r e k x) =
          subst (IsCreated m c request id at)
            (sym (handle-finds same config m input c request id o (ok r) n x))
            (repeated old r (n ∙ ap some e) k (store_quote-IsSame m old r own k) refl refl)
      found_operation o n (misses old e k x) =
          subst (IsCreated m c request id at)
            (sym (handle-finds same config m input c request id o _ n x))
            (lost old (n ∙ ap some e) k (IsSame-refl m) refl refl)
      found_operation o n (differs k x) =
          subst (IsCreated m c request id at)
            (sym (handle-finds same config m input c request id o _ n x))
            (reused o n k (IsSame-refl m) refl refl)
