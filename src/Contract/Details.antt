-- ===== src/Contract/Details.antt =====
-- What the owner of a quote is shown, record by record.
use canonical_api_server_rs.Prelude.{
  ◌≡◌, refl, sym, ◌++◌, inl, inr, ◌⊎◌, false, Option, none, some, Text, codes, String, Result, ok,
  err, ap, bind_option, ok_or, subst, text_eq, if◌then◌else◌, ◌>>=◌,
}
use canonical_api_server_rs.Http.{ApiError}
use canonical_api_server_rs.Gemini.Analysis.{Json}
use canonical_api_server_rs.Quotes.{QuoteRecord}
use canonical_api_server_rs.Quotes.Records.{IsCoherent, queued, analyzing, completed, failed}
use canonical_api_server_rs.Contract.{
  Wire, QuoteEstimate, quote_estimate, estimate_of, map_some, invalid_analysis, is_completed,
}
use canonical_api_server_rs.Contract.Responses.{
  Status, queued_status, analyzing_status, ready_status, failed_status, QuoteDetail, detail_status,
  quote_detail, quote_failure_problem, events_url,
}

module _ {R J : Type 0} (json : Json J) (wire : Wire R) where
  -- The fields that every status shows as they are stored
  pub record IsAbout (r : QuoteRecord R J) (d : QuoteDetail R) : Type 0 where
    pub quote_id : d.quote_id ≡ wire.uuid_text r.quote_id
    pub request : d.request ≡ r.request
    pub events_url :
        d.events_url ≡ codes "/api/v1/quotes/" ++ wire.uuid_text r.quote_id ++ codes "/events"
    pub created_at : d.created_at ≡ r.created_at
    pub updated_at : d.updated_at ≡ r.updated_at

  pub data IsShown (r : QuoteRecord R J) : Result ApiError (QuoteDetail R) → Type 0 where
    waiting :
        {d : QuoteDetail R}
        → r.status ≡ codes "queued"
        → IsAbout r d
        → d.status ≡ queued_status
        → d.estimate ≡ none
        → d.problem ≡ none
        → IsShown r (ok d)
    running :
        {d : QuoteDetail R}
        → r.status ≡ codes "analyzing"
        → IsAbout r d
        → d.status ≡ analyzing_status
        → d.estimate ≡ none
        → d.problem ≡ none
        → IsShown r (ok d)
    ready :
        {d : QuoteDetail R} (analysis : J) (e : QuoteEstimate)
        → r.status ≡ codes "completed"
        → r.analysis ≡ some analysis
        → quote_estimate json wire r ≡ ok (some e)
        → IsAbout r d
        → d.status ≡ ready_status
        → d.estimate ≡ some e
        → d.problem ≡ none
        → IsShown r (ok d)
    failure :
        {d : QuoteDetail R} (code : String)
        → r.status ≡ codes "failed"
        → r.error_code ≡ some code
        → IsAbout r d
        → d.status ≡ failed_status
        → d.estimate ≡ none
        → d.problem ≡ some (codes "analysis_failed")
        → IsShown r (ok d)
    hidden :
        {error : ApiError} (analysis : J)
        → r.status ≡ codes "completed"
        → r.analysis ≡ some analysis
        → quote_estimate json wire r ≡ err error
        → IsShown r (err error)

  map_some-cases :
      (x : Result ApiError QuoteEstimate)
      → ((e : QuoteEstimate) × (map_some json x ≡ ok (some e)))
        ⊎ ((f : ApiError) × (map_some json x ≡ err f))
  map_some-cases (ok e) = inl (e, refl)
  map_some-cases (err f) = inr (f, refl)

  object-cases :
      (r : QuoteRecord R J) (o : Option (Text → Option J))
      → let x : Result ApiError (Option QuoteEstimate) =
          ok_or o invalid_analysis >>= λ object. map_some json (estimate_of json wire r object) in
        ((e : QuoteEstimate) × (x ≡ ok (some e))) ⊎ ((f : ApiError) × (x ≡ err f))
  object-cases r none = inr (invalid_analysis, refl)
  object-cases r (some object) = map_some-cases (estimate_of json wire r object)

  estimate-cases :
      (r : QuoteRecord R J)
      → r.status ≡ codes "completed"
      → ((e : QuoteEstimate) × (quote_estimate json wire r ≡ ok (some e)))
        ⊎ ((f : ApiError) × (quote_estimate json wire r ≡ err f))
  unfolding quote_estimate
  estimate-cases r h = rw h (object-cases r (bind_option r.analysis json.as_object))

  no_estimate :
      (r : QuoteRecord R J) → is_completed r.status ≡ false → quote_estimate json wire r ≡ ok none
  unfolding quote_estimate
  no_estimate r h = rw h refl

  detail_of : QuoteRecord R J → Status → Option QuoteEstimate → QuoteDetail R
  detail_of r status estimate = record {
    quote_id = wire.uuid_text r.quote_id;
    status = status;
    request = r.request;
    events_url = events_url json wire r.quote_id;
    created_at = r.created_at;
    updated_at = r.updated_at;
    estimate = estimate;
    problem = quote_failure_problem r;
  }

  detail_of-IsAbout :
      (r : QuoteRecord R J) (status : Status) (estimate : Option QuoteEstimate)
      → IsAbout r (detail_of r status estimate)
  unfolding detail_of
  detail_of-IsAbout r status estimate = record {
    quote_id = refl;
    request = refl;
    events_url = refl;
    created_at = refl;
    updated_at = refl;
  }

  detail-eq :
      (r : QuoteRecord R J) (status : Status) (x : Result ApiError (Option QuoteEstimate))
      → detail_status r.status ≡ ok status
      → quote_estimate json wire r ≡ x
      → quote_detail json wire r ≡ (x >>= λ estimate. ok (detail_of r status estimate))
  unfolding quote_detail detail_of
  detail-eq r status x h k = rw (h, k) refl

  problem_of : Text → Option Text
  problem_of status =
      if text_eq status (codes "failed") then some (codes "analysis_failed") else none

  -- Whatever a coherent record holds, its owner is shown its id, request and instants with the
  -- status that belongs to the record's: a queued or analyzing quote as such, without an estimate
  -- and a problem; a completed one as ready, with its estimate; a failed one as failed, with its
  -- problem. Only a completed quote whose analysis cannot be shown is answered with an error.
  pub quote_detail-IsShown :
      (r : QuoteRecord R J) → IsCoherent r → IsShown r (quote_detail json wire r)
  unfolding detail_status detail_of problem_of
  quote_detail-IsShown r (queued s a e) =
      subst (IsShown r)
        (sym (
          detail-eq r queued_status (ok none) (ap detail_status s)
            (no_estimate r (ap is_completed s))))
        (waiting s (detail_of-IsAbout r queued_status none) refl refl (ap problem_of s))
  quote_detail-IsShown r (analyzing s a e) =
      subst (IsShown r)
        (sym (
          detail-eq r analyzing_status (ok none) (ap detail_status s)
            (no_estimate r (ap is_completed s))))
        (running s (detail_of-IsAbout r analyzing_status none) refl refl (ap problem_of s))
  quote_detail-IsShown r (completed analysis s a e) = elim (estimate-cases r s) [
    | inl (shown, k) ↦
        subst (IsShown r) (sym (detail-eq r ready_status (ok (some shown)) (ap detail_status s) k))
          (ready analysis shown s a k (detail_of-IsAbout r ready_status (some shown)) refl refl
            (ap problem_of s))
    | inr (f, k) ↦
        subst (IsShown r) (sym (detail-eq r ready_status (err f) (ap detail_status s) k))
          (hidden analysis s a k)
  ]
  quote_detail-IsShown r (failed code s a e) =
      subst (IsShown r)
        (sym (
          detail-eq r failed_status (ok none) (ap detail_status s)
            (no_estimate r (ap is_completed s))))
        (failure code s e (detail_of-IsAbout r failed_status none) refl refl (ap problem_of s))
