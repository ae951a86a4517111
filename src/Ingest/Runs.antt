-- ===== src/Ingest/Runs.antt =====
-- Sequences of calls of the memory store of src/readiness_observation_ingest.rs.
use canonical_api_server_rs.Prelude.{
  ◌≡◌, ◌⊎◌, refl, sym, ap, ◌∙◌, inl, inr, true, false, List, [], ◌∷◌, Option, none, some, Text,
  text_eq, text_eq_refl, Result, ok, ℤ, pos, int_eq, Bool-cases, arith,
}
use canonical_api_server_rs.Ingest.{
  IngestError, ObservationEvent, VerifiedTransport, ReceiptIdentity, StorageOutcome, MemoryStore,
  EventKey, event_eq, event_key, empty_store, store_memory,
}
use canonical_api_server_rs.Ingest.Ledger.{
  Entry, Ledger, find_entry, receipt_of, enter, entry_of, store_ledger, Tracks, empty_store-Tracks,
  store_memory-refines,
}

-- The arguments of one call
pub record Submission : Type 0 where
  pub transport : VerifiedTransport
  pub event : ObservationEvent
  pub payload_sha256 : Text
  pub candidate : ReceiptIdentity

abbrev pub Answer : Type 0
Answer = Result IngestError StorageOutcome

abbrev pub enters : Submission → Ledger → Ledger × Answer
enters x log = store_ledger x.transport x.event x.payload_sha256 x.candidate log

unfoldable pub ledger_answers : List Submission → Ledger → List Answer
ledger_answers [] log = []
ledger_answers (x ∷ xs) log = (enters x log).1 ∷ ledger_answers xs (enters x log).0

unfoldable pub ledger_after : List Submission → Ledger → Ledger
ledger_after [] log = log
ledger_after (x ∷ xs) log = ledger_after xs (enters x log).0

module _ (record_digest : Text → Text → Text → ℤ → Text) where
  abbrev pub stores : Submission → MemoryStore → MemoryStore × Answer
  stores x memory =
      store_memory record_digest x.transport x.event x.payload_sha256 x.candidate memory

  unfoldable pub store_answers : List Submission → MemoryStore → List Answer
  store_answers [] memory = []
  store_answers (x ∷ xs) memory = (stores x memory).1 ∷ store_answers xs (stores x memory).0

  unfoldable pub store_after : List Submission → MemoryStore → MemoryStore
  store_after [] memory = memory
  store_after (x ∷ xs) memory = store_after xs (stores x memory).0

  refines :
      (x : Submission) (log : Ledger) (memory : MemoryStore)
      → Tracks record_digest log memory
      → Tracks record_digest (enters x log).0 (stores x memory).0
        × ((stores x memory).1 ≡ (enters x log).1)
  refines x log memory t =
      store_memory-refines record_digest x.transport x.event x.payload_sha256 x.candidate log memory
        t

  answers-eq :
      (xs : List Submission) (log : Ledger) (memory : MemoryStore)
      → Tracks record_digest log memory
      → store_answers xs memory ≡ ledger_answers xs log
  unfolding store_answers ledger_answers
  answers-eq [] log memory t = refl
  answers-eq (x ∷ xs) log memory t =
      let (t', e) =
        store_memory-refines record_digest x.transport x.event x.payload_sha256 x.candidate log
          memory t in
      rw (e, answers-eq xs (enters x log).0 (stores x memory).0 t') refl

  after-Tracks :
      (xs : List Submission) (log : Ledger) (memory : MemoryStore)
      → Tracks record_digest log memory
      → Tracks record_digest (ledger_after xs log) (store_after xs memory)
  unfolding store_after ledger_after
  after-Tracks [] log memory t = t
  after-Tracks (x ∷ xs) log memory t =
      after-Tracks xs (enters x log).0 (stores x memory).0
        (store_memory-refines record_digest x.transport x.event x.payload_sha256 x.candidate log
          memory t).0

  -- Over every sequence of calls on the empty memory store, the answers are those of the ledger to
  -- which entries are only added: a known event is answered from its entry, or refused as a
  -- conflict if its payload or its sequence differs, and a new one is accepted only as the next of
  -- its stream and while there are fewer than 10,000 entries.
  pub store_answers-refines :
      (xs : List Submission) → store_answers xs empty_store ≡ ledger_answers xs []
  store_answers-refines xs = answers-eq xs [] empty_store (empty_store-Tracks record_digest)

  -- After every sequence of calls on the empty memory store: the store's records are those of the
  -- ledger, the cursor of every stream has the number of the stream's entries and the hash chain
  -- over them, and there are as many keys in its order as entries, at most 10,000.
  pub store_after-Tracks :
      (xs : List Submission)
      → Tracks record_digest (ledger_after xs []) (store_after xs empty_store)
  store_after-Tracks xs = after-Tracks xs [] empty_store (empty_store-Tracks record_digest)

-- The two ways to a receipt
Grants : ObservationEvent → Entry → Ledger → Option Entry → Ledger → StorageOutcome → Type 0
Grants event new log none log' o =
    (log' ≡ new ∷ log)
    × (int_eq event.source_sequence (pos new.sequence) ≡ true)
    × (o ≡ receipt_of false new)
Grants event new log (some e) log' o =
    (log' ≡ log)
    × (text_eq e.payload_sha256 new.payload_sha256 ≡ true)
    × (int_eq (pos e.sequence) event.source_sequence ≡ true)
    × (o ≡ receipt_of true e)

enter-Grants :
    (event : ObservationEvent) (new : Entry) (log : Ledger) (known : Option Entry)
    (o : StorageOutcome)
    → (enter event new log known).1 ≡ ok o
    → Grants event new log known (enter event new log known).0 o
unfolding Grants
enter-Grants event new log none o h = ground arith
enter-Grants event new log (some e) o h = ground arith

enter-cases :
    (event : ObservationEvent) (new : Entry) (log : Ledger) (known : Option Entry)
    → ((enter event new log known).0 ≡ log)
      ⊎ (known ≡ none) × ((enter event new log known).0 ≡ new ∷ log)
enter-cases event new log none = ground arith
enter-cases event new log (some e) = ground arith

-- Entries stay where they are.
find_entry-cons :
    (new : Entry) (log : Ledger) (k : EventKey) (e : Entry)
    → find_entry new.key log ≡ none
    → find_entry k log ≡ some e
    → find_entry k (new ∷ log) ≡ some e
unfolding find_entry
find_entry-cons new log k e absent h = elim (Bool-cases (event_eq.beq new.key k)) [
  | inl same ↦ let equal = (event_eq.beq_iff new.key k).0 same in cc
  | inr other ↦ rw other h
]

enter-keeps :
    (event : ObservationEvent) (new : Entry) (log : Ledger) (k : EventKey) (e : Entry)
    → find_entry k log ≡ some e
    → find_entry k (enter event new log (find_entry new.key log)).0 ≡ some e
enter-keeps event new log k e h = elim (enter-cases event new log (find_entry new.key log)) [
  | inl same ↦ ap (find_entry k) same ∙ h
  | inr (absent, added) ↦ ap (find_entry k) added ∙ find_entry-cons new log k e absent h
]

enters-keeps :
    (x : Submission) (log : Ledger) (k : EventKey) (e : Entry)
    → find_entry k log ≡ some e
    → find_entry k (enters x log).0 ≡ some e
unfolding store_ledger
enters-keeps x log k e h =
    enter-keeps x.event (entry_of x.transport x.event x.payload_sha256 x.candidate log) log k e h

ledger_after-keeps :
    (xs : List Submission) (log : Ledger) (k : EventKey) (e : Entry)
    → find_entry k log ≡ some e
    → find_entry k (ledger_after xs log) ≡ some e
unfolding ledger_after
ledger_after-keeps [] log k e h = h
ledger_after-keeps (x ∷ xs) log k e h =
    ledger_after-keeps xs (enters x log).0 k e (enters-keeps x log k e h)

-- What the ledger holds once a call has been answered with a receipt
pub record IsEntered (x : Submission) (o : StorageOutcome) (log : Ledger) : Type 0 where
  pub entry : Entry
  pub found : find_entry (event_key x.transport x.event) log ≡ some entry
  pub same_payload : text_eq entry.payload_sha256 x.payload_sha256 ≡ true
  pub same_sequence : int_eq (pos entry.sequence) x.event.source_sequence ≡ true
  pub same_receipt : o.receipt_id ≡ entry.receipt_id
  pub same_time : o.received_at ≡ entry.received_at

find_entry-head : (new : Entry) (log : Ledger) → find_entry new.key (new ∷ log) ≡ some new
unfolding find_entry
find_entry-head new log = rw ((event_eq.beq_iff new.key new.key).1 refl) refl

int_eq-sym : (a b : ℤ) → int_eq a b ≡ true → int_eq b a ≡ true
int_eq-sym a b h = ground (arith, h)

Grants-IsEntered :
    (x : Submission) (log log' : Ledger) (known : Option Entry) (o : StorageOutcome)
    → find_entry (event_key x.transport x.event) log ≡ known
    → Grants x.event
        (entry_of x.transport x.event x.payload_sha256 x.candidate log)
        log
        known
        log'
        o
    → IsEntered x o log'
unfolding Grants
Grants-IsEntered x log log' none o f (same, sequence, receipt) =
    let new = entry_of x.transport x.event x.payload_sha256 x.candidate log in
    record {
      entry = new;
      found = ap (find_entry new.key) same ∙ find_entry-head new log;
      same_payload = text_eq_refl x.payload_sha256;
      same_sequence = int_eq-sym x.event.source_sequence _ sequence;
      same_receipt = ap (λ r. r.receipt_id) receipt;
      same_time = ap (λ r. r.received_at) receipt;
    }
Grants-IsEntered x log log' (some e) o f (same, payload, sequence, receipt) = record {
  entry = e;
  found = ap (find_entry (event_key x.transport x.event)) same ∙ f;
  same_payload = payload;
  same_sequence = sequence;
  same_receipt = ap (λ r. r.receipt_id) receipt;
  same_time = ap (λ r. r.received_at) receipt;
}

enters-IsEntered :
    (x : Submission) (log : Ledger) (o : StorageOutcome)
    → (enters x log).1 ≡ ok o
    → IsEntered x o (enters x log).0
unfolding store_ledger
enters-IsEntered x log o h =
    let new = entry_of x.transport x.event x.payload_sha256 x.candidate log in
    Grants-IsEntered x log (enters x log).0 (find_entry new.key log) o refl
      (enter-Grants x.event new log (find_entry new.key log) o h)

ledger_after-IsEntered :
    (later : List Submission) (x : Submission) (o : StorageOutcome) (log : Ledger)
    → IsEntered x o log
    → IsEntered x o (ledger_after later log)
ledger_after-IsEntered later x o log h = record {
  entry = h.entry;
  found = ledger_after-keeps later log (event_key x.transport x.event) h.entry h.found;
  same_payload = h.same_payload;
  same_sequence = h.same_sequence;
  same_receipt = h.same_receipt;
  same_time = h.same_time;
}

enters-again :
    (x : Submission) (candidate : ReceiptIdentity) (o : StorageOutcome) (log : Ledger)
    → IsEntered x o log
    → (enters (record x { candidate = candidate }) log).1 ≡ ok (record o { duplicate = true })
unfolding store_ledger
enters-again x candidate o log h =
    rw (h.found, h.same_payload, h.same_sequence, h.same_receipt, h.same_time) refl

module _ (record_digest : Text → Text → Text → ℤ → Text) where
  -- If a call on the store is answered with a receipt, after any calls before it from the empty
  -- store on, then the same call with any other candidate receipt, after any calls that follow, is
  -- answered with the first receipt again, marked as a duplicate.
  pub stores_replays :
      (before : List Submission) (x : Submission) (later : List Submission)
      (candidate : ReceiptIdentity) (o : StorageOutcome)
      → (stores record_digest x (store_after record_digest before empty_store)).1 ≡ ok o
      → (stores record_digest
          (record x { candidate = candidate })
          (store_after record_digest later
            (stores record_digest x (store_after record_digest before empty_store)).0)).1
        ≡ ok (record o { duplicate = true })
  stores_replays before x later candidate o h =
      let log = ledger_after before [] in
      let (t, e) =
        refines record_digest x log (store_after record_digest before empty_store)
          (store_after-Tracks record_digest before) in
      let entered = enters-IsEntered x log o (sym e ∙ h) in
      let kept = ledger_after-IsEntered later x o (enters x log).0 entered in
      (refines record_digest (record x { candidate = candidate })
        (ledger_after later (enters x log).0) _
        (after-Tracks record_digest later (enters x log).0 _ t)).1
      ∙ enters-again x candidate o (ledger_after later (enters x log).0) kept
