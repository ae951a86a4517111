-- ===== src/DataPlane/Receipts.antt =====
-- The receipts of asynchronous operations in src/web_data_plane.rs. `Meta` is the type of the
-- metadata map, which no operation reads.
use canonical_api_server_rs.Prelude.{
  ℕ, ◌+◌, ◌≤◌, ◌≡◌, refl, ◌⊎◌, inl, inr, ◌↔◌, Bool, true, false, List, [], ◌∷◌, min, Result, ok,
  err, ◌>>=◌, >>=-eq-ok, Text, arith, if◌then◌else◌,
}
use canonical_api_server_rs.DataPlane.{
  AsyncStatus, pending, published, processing, succeeded, failed, dead_letter, DataPlaneError,
  invalid_status_transition,
}

unfoldable pub can_transition_to : AsyncStatus → AsyncStatus → Bool
can_transition_to pending published = true
can_transition_to published processing = true
can_transition_to processing succeeded = true
can_transition_to processing failed = true
can_transition_to failed published = true
can_transition_to failed dead_letter = true
can_transition_to _ _ = false

pub record AsyncReceipt (Meta : Type 0) : Type 0 where
  pub operation_id : Text
  pub dedupe_key : Text
  pub status : AsyncStatus
  pub attempt : ℕ
  pub metadata : Meta

abbrev pub u16_max : ℕ
u16_max = 65535

-- `u16::from(next == AsyncStatus::Processing)`
abbrev pub is_processing : AsyncStatus → ℕ
is_processing processing = 1
is_processing _ = 0

module _ {Meta : Type 0} where
  unfoldable pub transition :
      AsyncReceipt Meta → AsyncStatus → Result DataPlaneError (AsyncReceipt Meta)
  unfolding can_transition_to
  transition r next =
      if can_transition_to r.status next
      then ok (record r { status = next; attempt = min (r.attempt + is_processing next) u16_max })
      else err (invalid_status_transition r.status next)

  -- One transition after another, up to the first refusal
  unfoldable pub follow :
      AsyncReceipt Meta → List AsyncStatus → Result DataPlaneError (AsyncReceipt Meta)
  follow r [] = ok r
  follow r (s ∷ ss) = do r' ← transition r s; follow r' ss

-- How often an operation is taken up in a history
unfoldable pub attempts : List AsyncStatus → ℕ
attempts [] = 0
attempts (s ∷ ss) = is_processing s + attempts ss

abbrev pub IsFinal : AsyncStatus → Type 0
IsFinal s = (s ≡ succeeded) ⊎ (s ≡ dead_letter)

-- A status has no successor exactly when it is `succeeded` or `dead_letter`.
pub IsFinal-iff :
    (s : AsyncStatus) → ((next : AsyncStatus) → can_transition_to s next ≡ false) ↔ IsFinal s
unfolding can_transition_to
IsFinal-iff pending = (λ h. cc (h published), λ f. ground arith)
IsFinal-iff published = (λ h. cc (h processing), λ f. ground arith)
IsFinal-iff processing = (λ h. cc (h failed), λ f. ground arith)
IsFinal-iff failed = (λ h. cc (h dead_letter), λ f. ground arith)
IsFinal-iff succeeded = (λ h. inl refl, λ f next. refl)
IsFinal-iff dead_letter = (λ h. inr refl, λ f next. refl)

-- What a history of accepted transitions leaves behind.
pub record IsAfter {Meta : Type 0} (r : AsyncReceipt Meta) (ss : List AsyncStatus)
    (t : AsyncReceipt Meta) : Type 0 where
  pub same_operation : t.operation_id ≡ r.operation_id
  pub same_key : t.dedupe_key ≡ r.dedupe_key
  pub same_metadata : t.metadata ≡ r.metadata
  pub counted : t.attempt ≡ min (r.attempt + attempts ss) u16_max

module _ {Meta : Type 0} where
  -- If a receipt within the counter's range follows a history without a refusal, its operation,
  -- deduplication key and metadata are unchanged, and its attempts have grown by the number of
  -- times that the history enters `processing`, up to the counter's maximum.
  pub follow-IsAfter :
      (r t : AsyncReceipt Meta) (ss : List AsyncStatus)
      → r.attempt ≤ u16_max
      → follow r ss ≡ ok t
      → IsAfter r ss t
  unfolding follow transition attempts
  follow-IsAfter r t [] h e = ground arith
  follow-IsAfter r t (s ∷ ss) h e =
      let (r', first, rest) = >>=-eq-ok (transition r s) _ e in
      let ih = follow-IsAfter r' t ss (ground arith) rest in
      record {
        same_operation = ground (arith, ih.same_operation);
        same_key = ground (arith, ih.same_key);
        same_metadata = ground (arith, ih.same_metadata);
        counted = ground (arith, ih.counted);
      }

  -- What a status says about the attempts of a receipt that began as pending
  abbrev HasRun : AsyncReceipt Meta → Type 0
  HasRun r = (r.status ≡ pending) ⊎ (r.status ≡ published) ⊎ (1 ≤ r.attempt)

  transition-HasRun :
      (r t : AsyncReceipt Meta) (s : AsyncStatus) → HasRun r → transition r s ≡ ok t → HasRun t
  unfolding transition
  transition-HasRun r t s h e = ground arith

  follow-HasRun :
      (r t : AsyncReceipt Meta) (ss : List AsyncStatus) → HasRun r → follow r ss ≡ ok t → HasRun t
  unfolding follow
  follow-HasRun r t [] h e = ground arith
  follow-HasRun r t (s ∷ ss) h e =
      let (r', first, rest) = >>=-eq-ok (transition r s) _ e in
      follow-HasRun r' t ss (transition-HasRun r r' s h first) rest

  -- A receipt that began as pending has been taken up at least once when it is final.
  pub follow-IsFinal :
      (r t : AsyncReceipt Meta) (ss : List AsyncStatus)
      → r.status ≡ pending
      → follow r ss ≡ ok t
      → IsFinal t.status
      → 1 ≤ t.attempt
  follow-IsFinal r t ss h e f = ground (arith, follow-HasRun r t ss (inl h) e)
