-- ===== src/Ingest/Ledger.antt =====
-- The memory store of src/readiness_observation_ingest.rs against its description: a list of what
-- was accepted, to which entries are only added.
use canonical_api_server_rs.Prelude.{
  ℕ, suc, ◌≤◌, ◌<◌, ◌≡◌, refl, sym, ap, subst, ◌∙◌, inl, inr, Bool, true, false, not, ◌&&◌, List,
  [], ◌∷◌, Option, none, some, Text, text_eq, length, leb, if◌then◌else◌, Result, ok, err, lookup,
  lookup-insert, length-append, ℤ, pos, int_eq, checked_inc, Bool-cases, Option-cases, arith,
}
use canonical_api_server_rs.Ingest.{
  IngestError, event_conflict, sequence_conflict, storage_unavailable, ObservationEvent,
  VerifiedTransport, ReceiptIdentity, StorageOutcome, MemoryRecord, StreamCursor, MemoryStore,
  EventKey, StreamKey, event_eq, stream_eq, event_key, stream_key, memory_capacity,
  zero_record_digest, empty_store, cursor_or_start, replay, append, store_next, store_expected,
  store_or_replay, store_memory,
}

pub record Entry : Type 0 where
  pub key : EventKey
  -- The position in the stream, from 1 on
  pub sequence : ℕ
  pub payload_sha256 : Text
  pub receipt_id : Text
  pub received_at : Text

-- Newest first
abbrev pub Ledger : Type 0
Ledger = List Entry

unfoldable pub find_entry : EventKey → Ledger → Option Entry
find_entry k [] = none
find_entry k (e ∷ log) =
    let rest = find_entry k log in if event_eq.beq e.key k then some e else rest

-- How many entries a stream has
unfoldable pub stream_length : StreamKey → Ledger → ℕ
stream_length s [] = 0
stream_length s (e ∷ log) =
    let rest = stream_length s log in if stream_eq.beq e.key.0 s then suc rest else rest

abbrev pub receipt_of : Bool → Entry → StorageOutcome
receipt_of duplicate e = record {
  duplicate = duplicate;
  receipt_id = e.receipt_id;
  received_at = e.received_at;
}

-- An event that the ledger has is answered from it; a new one must be the next of its stream and
-- find room.
abbrev pub enter :
    ObservationEvent → Entry → Ledger → Option Entry → Ledger × Result IngestError StorageOutcome
enter event new log (some e) =
    if text_eq e.payload_sha256 new.payload_sha256 && int_eq (pos e.sequence) event.source_sequence
    then (log, ok (receipt_of true e))
    else (log, err event_conflict)
enter event new log none =
    if not (int_eq event.source_sequence (pos new.sequence))
    then (log, err sequence_conflict)
    else (if leb memory_capacity (length log)
        then (log, err storage_unavailable)
        else (new ∷ log, ok (receipt_of false new)))

abbrev pub entry_of : VerifiedTransport → ObservationEvent → Text → ReceiptIdentity → Ledger → Entry
entry_of transport event payload_sha256 candidate log = record {
  key = event_key transport event;
  sequence = suc (stream_length (stream_key transport event) log);
  payload_sha256 = payload_sha256;
  receipt_id = candidate.receipt_id;
  received_at = candidate.received_at;
}

unfoldable pub store_ledger :
    VerifiedTransport
    → ObservationEvent
    → Text
    → ReceiptIdentity
    → Ledger
    → Ledger × Result IngestError StorageOutcome
store_ledger transport event payload_sha256 candidate log =
    enter event (entry_of transport event payload_sha256 candidate log) log
      (find_entry (event_key transport event) log)

abbrev record_of : Option Entry → Option MemoryRecord
record_of none = none
record_of (some e) = some (record {
  source_sequence = pos e.sequence;
  payload_sha256 = e.payload_sha256;
  receipt_id = e.receipt_id;
  received_at = e.received_at;
})

stream_length-le : (s : StreamKey) (log : Ledger) → stream_length s log ≤ length log
unfolding stream_length
stream_length-le s [] = omega arith
stream_length-le s (e ∷ log) = ground (arith, stream_length-le s log)

module _ (record_digest : Text → Text → Text → ℤ → Text) where
  -- The hash chain over a stream's entries
  unfoldable pub stream_digest : StreamKey → Ledger → Text
  stream_digest s [] = zero_record_digest
  stream_digest s (e ∷ log) =
      let rest = stream_digest s log in
      if stream_eq.beq e.key.0 s
      then record_digest rest e.payload_sha256 e.key.1 (pos (suc (stream_length s log)))
      else rest

  pub record Tracks (log : Ledger) (memory : MemoryStore) : Type 0 where
    pub events : (k : EventKey) → lookup event_eq k memory.events ≡ record_of (find_entry k log)
    pub streams :
        (s : StreamKey)
        → cursor_or_start (lookup stream_eq s memory.streams) ≡ record {
          source_sequence = pos (stream_length s log);
          record_sha256 = stream_digest s log;
        }
    pub order : length memory.order ≡ length log
    pub bounded : length log ≤ memory_capacity

  pub empty_store-Tracks : Tracks [] empty_store
  unfolding empty_store find_entry stream_length stream_digest
  empty_store-Tracks = record {
    events = λ k. refl;
    streams = λ s. refl;
    order = refl;
    bounded = omega arith;
  }

  next-cursor :
      (len : StreamKey → ℕ) (digest : StreamKey → Text) {key s : StreamKey} (payload id : Text)
      {x : ℤ} {y : Text}
      → key ≡ s
      → x ≡ pos (suc (len key))
      → y ≡ digest key
      → ◌≡◌ {A = StreamCursor}
          (record { source_sequence = x; record_sha256 = record_digest y payload id x })
          (record {
            source_sequence = pos (suc (len s));
            record_sha256 = record_digest (digest s) payload id (pos (suc (len s)));
          })
  next-cursor len digest payload id same x y = rw (x, y, same) refl

  append-Tracks :
      (transport : VerifiedTransport) (event : ObservationEvent) (payload : Text)
      (candidate : ReceiptIdentity) (log : Ledger) (memory : MemoryStore)
      → Tracks log memory
      → event.source_sequence ≡ pos (suc (stream_length (stream_key transport event) log))
      → length log < memory_capacity
      → Tracks (entry_of transport event payload candidate log ∷ log) (
          append record_digest transport event payload candidate
            (cursor_or_start (lookup stream_eq (stream_key transport event) memory.streams))
            memory)
  unfolding append find_entry stream_length stream_digest
  append-Tracks transport event payload candidate log memory t next room = record {
    events = λ k.
        lookup-insert event_eq (event_key transport event) k _ memory.events
        ∙ ground (arith, t.events k, next);
    streams = λ s.
        ap cursor_or_start (lookup-insert stream_eq (stream_key transport event) s _ memory.streams)
        ∙ elim (Bool-cases (stream_eq.beq (stream_key transport event) s)) [
          | inl e ↦
              let same = (stream_eq.beq_iff (stream_key transport event) s).0 e in
              let digest =
                ap (λ (c : StreamCursor). c.record_sha256)
                  (t.streams (stream_key transport event)) in
              rw e (
                next-cursor (λ r. stream_length r log) (λ r. stream_digest r log) payload
                  event.event_id same next digest)
          | inr e ↦ rw e (t.streams s)
        ];
    order = omega (arith, length-append memory.order (event_key transport event ∷ []), t.order);
    bounded = omega (arith, room);
  }

  checked_inc-stream :
      (s : StreamKey) (log : Ledger)
      → length log ≤ memory_capacity
      → checked_inc (pos (stream_length s log)) ≡ some (pos (suc (stream_length s log)))
  checked_inc-stream s log h = ground (arith, stream_length-le s log, h)

  abbrev pub Agree :
      Ledger × Result IngestError StorageOutcome
      → MemoryStore × Result IngestError StorageOutcome
      → Type 0
  Agree l m = Tracks l.0 m.0 × (m.1 ≡ l.1)

  int_eq-eq : (a : ℤ) (n : ℕ) → int_eq a (pos n) ≡ true → a ≡ pos n
  int_eq-eq a n h = ground arith

  store_expected-refines :
      (transport : VerifiedTransport) (event : ObservationEvent) (payload : Text)
      (candidate : ReceiptIdentity) (log : Ledger) (memory : MemoryStore)
      → Tracks log memory
      → Agree (enter event (entry_of transport event payload candidate log) log none) (
          store_expected record_digest transport event payload candidate
            (cursor_or_start (lookup stream_eq (stream_key transport event) memory.streams))
            memory
            (some (pos (suc (stream_length (stream_key transport event) log)))))
  unfolding store_expected
  store_expected-refines transport event payload candidate log memory t =
      elim (Bool-cases (
        int_eq event.source_sequence
          (pos (suc (stream_length (stream_key transport event) log))))) [
            | inr e ↦ rw e (t, refl)
            | inl e ↦ elim (Bool-cases (leb memory_capacity (length log))) [
              | inl full ↦ rw (e, t.order, full) (t, refl)
              | inr room ↦
                  rw (e, t.order, room)
                    (
                      append-Tracks transport event payload candidate log memory t
                          (int_eq-eq event.source_sequence _ e) (ground (arith, room)),
                      refl,
                    )
            ]
          ]

  store_next-refines :
      (transport : VerifiedTransport) (event : ObservationEvent) (payload : Text)
      (candidate : ReceiptIdentity) (log : Ledger) (memory : MemoryStore)
      → Tracks log memory
      → Agree (enter event (entry_of transport event payload candidate log) log none) (
          store_next record_digest transport event payload candidate
            (cursor_or_start (lookup stream_eq (stream_key transport event) memory.streams))
            memory)
  unfolding store_next
  store_next-refines transport event payload candidate log memory t =
      let key = stream_key transport event in
      let next =
        ap (λ (c : StreamCursor). checked_inc c.source_sequence) (t.streams key)
        ∙ checked_inc-stream key log t.bounded in
      subst
        (λ p. Agree (enter event (entry_of transport event payload candidate log) log none) (
          store_expected record_digest transport event payload candidate
            (cursor_or_start (lookup stream_eq key memory.streams)) memory p))
        (sym next) (store_expected-refines transport event payload candidate log memory t)

  -- One call from corresponding states: the same answer, and the states correspond again.
  pub store_memory-refines :
      (transport : VerifiedTransport) (event : ObservationEvent) (payload : Text)
      (candidate : ReceiptIdentity) (log : Ledger) (memory : MemoryStore)
      → Tracks log memory
      → Agree
          (store_ledger transport event payload candidate log)
          (store_memory record_digest transport event payload candidate memory)
  unfolding store_memory store_ledger store_or_replay replay
  store_memory-refines transport event payload candidate log memory t =
      elim (Option-cases (find_entry (event_key transport event) log)) [
        | inl e ↦
            rw (t.events (event_key transport event), e)
              (store_next-refines transport event payload candidate log memory t)
        | inr (entry, e) ↦
            rw (t.events (event_key transport event), e)
              (elim (Bool-cases (
                text_eq entry.payload_sha256 payload
                && int_eq (pos entry.sequence) event.source_sequence)) [
                  | inl k ↦ rw k (t, refl)
                  | inr k ↦ rw k (t, refl)
                ])
      ]
