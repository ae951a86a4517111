-- ===== src/Quotes/Records.antt =====
-- What the fields of a quote record say together, and whose it is.
use canonical_api_server_rs.Prelude.{
  ℕ, ◌≡◌, refl, sym, ap, inl, inr, ◌↔◌, Bool, true, false, not, none, some, Text, codes, text_eq,
  text_eq_iff, String, Result, ok, err, lookup, Eq, Bool-cases, keep_if-eq-some, ok_or-eq-ok,
  >>=-eq-ok, >>-eq-ok, fail_if-eq-ok, ok_injective, ◌==◌, arith,
}
use canonical_api_server_rs.Http.{ApiError, not_found, storage_unavailable, conflict}
use canonical_api_server_rs.Gemini.{GeminiError, error_code}
use canonical_api_server_rs.Quotes.{
  QuoteRecord, MemoryOperation, assessment, create, retry, Memory, Config, quote_eq, find_quote,
  create_existing, retry_existing, retry_new, requeue, finish_record,
}

-- The status says which of the analysis and the error code there is.
pub data IsCoherent {R J : Type 0} (r : QuoteRecord R J) : Type 0 where
  queued : r.status ≡ codes "queued" → r.analysis ≡ none → r.error_code ≡ none → IsCoherent r
  analyzing : r.status ≡ codes "analyzing" → r.analysis ≡ none → r.error_code ≡ none → IsCoherent r
  completed :
      (analysis : J)
      → r.status ≡ codes "completed"
      → r.analysis ≡ some analysis
      → r.error_code ≡ none
      → IsCoherent r
  failed :
      (code : String)
      → r.status ≡ codes "failed"
      → r.analysis ≡ none
      → r.error_code ≡ some code
      → IsCoherent r

module _ {R J : Type 0} where
  -- `updated_at` plays no part.
  pub IsCoherent-update :
      (r : QuoteRecord R J) (at : Text) → IsCoherent r → IsCoherent (record r { updated_at = at })
  IsCoherent-update r at (queued s a e) = queued s a e
  IsCoherent-update r at (analyzing s a e) = analyzing s a e
  IsCoherent-update r at (completed x s a e) = completed x s a e
  IsCoherent-update r at (failed x s a e) = failed x s a e

  pub finish_record-IsCoherent :
      (config : Config) (r : QuoteRecord R J) (reply : Result GeminiError J)
      → r.analysis ≡ none
      → IsCoherent (finish_record config r reply)
  unfolding finish_record
  finish_record-IsCoherent config r (ok analysis) h = elim (Bool-cases config.gemini_configured) [
    | inl e ↦ rw e (completed analysis refl refl refl)
    | inr e ↦ rw e (failed "gemini_not_configured" refl h refl)
  ]
  finish_record-IsCoherent config r (err e) h = elim (Bool-cases config.gemini_configured) [
    | inl c ↦ rw c (failed (error_code e) refl refl refl)
    | inr c ↦ rw c (failed "gemini_not_configured" refl h refl)
  ]

  -- Nothing but the outcome changes.
  pub finish_record-same :
      (config : Config) (r : QuoteRecord R J) (reply : Result GeminiError J)
      → ((finish_record config r reply).quote_id ≡ r.quote_id)
        × ((finish_record config r reply).owner_subject ≡ r.owner_subject)
  unfolding finish_record
  finish_record-same config r (ok analysis) = ground arith
  finish_record-same config r (err e) = ground arith

  -- A quote is found exactly for the subject that owns it.
  pub find_quote_iff :
      (memory : Memory R J) (id : ℕ) (subject : Text) (r : QuoteRecord R J)
      → (find_quote memory id subject ≡ ok r)
        ↔ ((lookup quote_eq id memory.quotes ≡ some r) × (r.owner_subject ≡ subject))
  unfolding find_quote
  find_quote_iff memory id subject r =
      let own = λ (q : QuoteRecord R J). text_eq q.owner_subject subject in
      let found = lookup quote_eq id memory.quotes in
      (
        λ h.
            let (e, t) = (keep_if-eq-some own found r).0 (ok_or-eq-ok _ not_found h) in
            (e, (text_eq_iff r.owner_subject subject).0 t),
        λ (e, t).
            rw ((keep_if-eq-some own found r).1 (e, (text_eq_iff r.owner_subject subject).1 t))
              refl,
      )

  pub retry_existing-eq-ok :
      (memory : Memory R J) (subject : Text) (id : ℕ) (o : MemoryOperation R) {r : QuoteRecord R J}
      → retry_existing memory subject id o ≡ ok r
      → find_quote memory id subject ≡ ok r
  unfolding retry_existing
  retry_existing-eq-ok memory subject id (retry existing) h = elim (Bool-cases (existing == id)) [
    | inl e ↦ rw (e, retry_existing) at h
    | inr e ↦ cc (rw (e, retry_existing) at h)
  ]
  retry_existing-eq-ok memory subject id (create existing q) h = cc
  retry_existing-eq-ok memory subject id (assessment existing) h = cc

  pub create_existing-eq-ok :
      (same : Eq R) (memory : Memory R J) (request : R) (o : MemoryOperation R)
      {r : QuoteRecord R J}
      → create_existing same memory request o ≡ ok r
      → (id : ℕ) × (o ≡ create id request) × (lookup quote_eq id memory.quotes ≡ some r)
  unfolding create_existing
  create_existing-eq-ok same memory request (create id existing) h =
      elim (Bool-cases (same.beq existing request)) [
        | inl e ↦
            let equal = (same.beq_iff existing request).0 e in
            let found = rw (e, create_existing) at h in
            (id, ap (create id) equal, ok_or-eq-ok _ storage_unavailable found)
        | inr e ↦ cc (rw (e, create_existing) at h)
      ]
  create_existing-eq-ok same memory request (retry id) h = cc
  create_existing-eq-ok same memory request (assessment id) h = cc

  pub create_existing-same :
      (same : Eq R) (memory : Memory R J) (request : R) (id : ℕ) (r : QuoteRecord R J)
      → lookup quote_eq id memory.quotes ≡ some r
      → create_existing same memory request (create id request) ≡ ok r
  unfolding create_existing
  create_existing-same same memory request id r h =
      rw ((same.beq_iff request request).1 refl, h) refl

  pub retry_new-eq-ok :
      (memory : Memory R J) (subject : Text) (id : ℕ) (now : Result ApiError Text)
      {r : QuoteRecord R J}
      → retry_new memory subject id now ≡ ok r
      → (old : QuoteRecord R J) × (at : Text) × (find_quote memory id subject ≡ ok old)
        × (old.status ≡ codes "failed")
        × (now ≡ ok at)
        × (r ≡ requeue old at)
  unfolding retry_new
  retry_new-eq-ok memory subject id now h =
      let (old, found, h1) = >>=-eq-ok (find_quote memory id subject) _ h in
      let (is_failed, h2) = >>-eq-ok _ _ h1 in
      let (at, e, h3) = >>=-eq-ok now _ h2 in
      let unequal =
        fail_if-eq-ok (not (text_eq old.status (codes "failed"))) (conflict "conflict") is_failed in
      (
        old,
        at,
        found,
        (text_eq_iff old.status (codes "failed")).0 (not-eq-false _ unequal),
        e,
        sym (ok_injective h3),
      )
    where
      not-eq-false : (b : Bool) → not b ≡ false → b ≡ true
      not-eq-false true e = refl
      not-eq-false false e = cc
