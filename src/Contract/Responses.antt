-- ===== src/Contract/Responses.antt =====
-- The answers and events that src/contract.rs makes of a quote record. The random request id of a
-- problem and the fixed texts of messages are left out.
use canonical_api_server_rs.Prelude.{
  ℕ, ltb, Bool, true, false, List, [], ◌∷◌, ◌++◌, Option, none, some, Text, codes, text_eq,
  if◌then◌else◌, length, take, Result, ok, err, ◌>>=◌,
}
use canonical_api_server_rs.Http.{ApiError}
use canonical_api_server_rs.Gemini.Analysis.{Json}
use canonical_api_server_rs.Quotes.{QuoteRecord, QuoteEventRecord}
use canonical_api_server_rs.Contract.{
  Wire, QuoteEstimate, invalid_stored_status, quote_estimate, is_completed,
}

-- `QuoteDetailStatus`, `QuoteSubmissionResponseStatus` and `QuoteSummaryStatus` have these values.
pub data Status : Type 0 where
  queued_status analyzing_status ready_status failed_status : Status

-- `QuoteStatusEventStage`
pub data Stage : Type 0 where
  queued_stage loading_context_stage analyzing_stage validating_stage ready_stage failed_stage :
      Stage

unfoldable pub submission_status : Text → Status
submission_status status =
    if text_eq status (codes "analyzing")
    then analyzing_status
    else (if is_completed status
        then ready_status
        else (if text_eq status (codes "failed") then failed_status else queued_status))

-- `detail_status`, and the same match in `quote_summary`
unfoldable pub detail_status : Text → Result ApiError Status
detail_status status =
    if text_eq status (codes "queued")
    then ok queued_status
    else (if text_eq status (codes "analyzing")
        then ok analyzing_status
        else (if is_completed status
            then ok ready_status
            else (if text_eq status (codes "failed")
                then ok failed_status
                else err invalid_stored_status)))

unfoldable pub event_stage : Text → Result ApiError Stage
event_stage status =
    if text_eq status (codes "queued")
    then ok queued_stage
    else (if text_eq status (codes "loading_context")
        then ok loading_context_stage
        else (if text_eq status (codes "analyzing")
            then ok analyzing_stage
            else (if text_eq status (codes "validating")
                then ok validating_stage
                else (if is_completed status
                    then ok ready_stage
                    else (if text_eq status (codes "failed")
                        then ok failed_stage
                        else err invalid_stored_status)))))

abbrev pub is_terminal : Stage → Bool
is_terminal ready_stage = true
is_terminal failed_stage = true
is_terminal _ = false

-- The code of the problem
abbrev pub quote_failure_problem : {R J : Type 0} → QuoteRecord R J → Option Text
quote_failure_problem r =
    if text_eq r.status (codes "failed") then some (codes "analysis_failed") else none

pub record QuoteSubmissionResponse : Type 0 where
  pub quote_id : Text
  pub status : Status
  pub stream_url : Text
  pub created_at : Text

pub record QuoteRetryResponse : Type 0 where
  pub quote_id : Text
  pub status : Status
  pub stream_url : Text
  pub updated_at : Text

pub record QuoteDetail (R : Type 0) : Type 0 where
  pub quote_id : Text
  pub status : Status
  pub request : R
  pub events_url : Text
  pub created_at : Text
  pub updated_at : Text
  pub estimate : Option QuoteEstimate
  pub problem : Option Text

pub record QuoteSummary : Type 0 where
  pub quote_id : Text
  pub status : Status
  pub organization_name : Text
  pub frameworks : List Text
  pub created_at : Text
  pub updated_at : Text
  pub estimate : Option QuoteEstimate

pub record QuoteListResponse : Type 0 where
  pub quotes : List QuoteSummary
  pub next_cursor : Option Text

-- The sequence number stays a number: the source prints it.
pub record QuoteStatusEvent : Type 0 where
  pub quote_id : Text
  pub sequence : ℕ
  pub stage : Stage
  pub terminal : Bool
  pub estimate : Option QuoteEstimate
  pub occurred_at : Text
  pub problem : Option Text

-- `Vec::last`
abbrev pub last? {ℓ} : {A : Type ℓ} → List A → Option A
last? [] = none
last? (x ∷ xs) = elim (last? xs) [ none ↦ some x | some y ↦ some y ]

module _ {R J : Type 0} (json : Json J) (wire : Wire R) where
  abbrev pub events_url : ℕ → Text
  events_url quote_id = codes "/api/v1/quotes/" ++ wire.uuid_text quote_id ++ codes "/events"

  unfoldable pub quote_submission_response : QuoteRecord R J → QuoteSubmissionResponse
  unfolding submission_status
  quote_submission_response r = record {
    quote_id = wire.uuid_text r.quote_id;
    status = submission_status r.status;
    stream_url = events_url r.quote_id;
    created_at = r.created_at;
  }

  unfoldable pub quote_retry_response : QuoteRecord R J → QuoteRetryResponse
  quote_retry_response r = record {
    quote_id = wire.uuid_text r.quote_id;
    status = queued_status;
    stream_url = events_url r.quote_id;
    updated_at = r.updated_at;
  }

  unfoldable pub quote_detail : QuoteRecord R J → Result ApiError (QuoteDetail R)
  unfolding detail_status quote_estimate
  quote_detail r = do
    status ← detail_status r.status
    estimate ← quote_estimate json wire r
    ok (record {
      quote_id = wire.uuid_text r.quote_id;
      status = status;
      request = r.request;
      events_url = events_url r.quote_id;
      created_at = r.created_at;
      updated_at = r.updated_at;
      estimate = estimate;
      problem = quote_failure_problem r;
    })

  unfoldable pub quote_summary : QuoteRecord R J → Result ApiError QuoteSummary
  unfolding detail_status quote_estimate
  quote_summary r = do
    status ← detail_status r.status
    estimate ← quote_estimate json wire r
    ok (record {
      quote_id = wire.uuid_text r.quote_id;
      status = status;
      organization_name = wire.organization_name r.request;
      frameworks = wire.frameworks r.request;
      created_at = r.created_at;
      updated_at = r.updated_at;
      estimate = estimate;
    })

  -- `collect` into a `Result`: the first error wins.
  unfoldable pub summaries : List (QuoteRecord R J) → Result ApiError (List QuoteSummary)
  unfolding quote_summary
  summaries [] = ok []
  summaries (r ∷ rs) = do summary ← quote_summary r; rest ← summaries rs; ok (summary ∷ rest)

  abbrev pub id_text : Option (QuoteRecord R J) → Option Text
  id_text none = none
  id_text (some r) = some (wire.uuid_text r.quote_id)

  unfoldable pub quote_list_response :
      List (QuoteRecord R J) → ℕ → Result ApiError QuoteListResponse
  unfolding summaries
  quote_list_response records limit =
      let kept = if ltb limit (length records) then take limit records else records in
      let next_cursor = if ltb limit (length records) then id_text (last? kept) else none in
      summaries kept >>= λ quotes. ok (record { quotes = quotes; next_cursor = next_cursor })

  unfoldable pub quote_status_event :
      QuoteEventRecord → QuoteRecord R J → Result ApiError QuoteStatusEvent
  unfolding event_stage quote_estimate
  quote_status_event event r = do
    stage ← event_stage event.status
    estimate ← quote_estimate json wire r
    ok (record {
      quote_id = wire.uuid_text r.quote_id;
      sequence = event.sequence;
      stage = stage;
      terminal = is_terminal stage;
      estimate = estimate;
      occurred_at = event.occurred_at;
      problem = quote_failure_problem r;
    })
