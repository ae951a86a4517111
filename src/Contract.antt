-- ===== src/Contract.antt =====
-- src/contract.rs: the estimate that a completed quote shows. Of a JSON value the model has the four
-- accessors of `serde_json` that the source calls. An `i64` of an estimate is made from a `u64`, so
-- it is a natural number here. The request type of `canonical_lib` is a parameter, with the fields
-- that the source reads, and so is the text of a UUID.
pub mod Responses
pub mod Requests
pub mod Bounds
pub mod Analyses
pub mod Details
pub mod Listing
mod Tests
use canonical_api_server_rs.Prelude.{
  ℕ, ◌*◌, ◌^◌, ◌-◌, Bool, true, false, not, ◌&&◌, ◌||◌, List, [], ◌∷◌, ◌++◌, Option, none, some,
  Text, codes, text_eq, trim, is_empty, ltb, leb, if◌then◌else◌, bind_option, keep_if, any, all,
  take, i64_max, Result, ok, err, ok_or, fail_if, ◌>>=◌, ◌>>◌,
}
use canonical_api_server_rs.Http.{ApiError, storage_unavailable}
use canonical_api_server_rs.Gemini.Analysis.{Json, string_field, u64_field, array_field}
use canonical_api_server_rs.Quotes.{QuoteRecord}

-- What the source reads of a `QuoteRequest`, and `Uuid::to_string`
pub record Wire (R : Type 0) : Type 0 where
  pub organization_name : R → Text
  pub frameworks : R → List Text
  pub uuid_text : ℕ → Text

-- `invalid_analysis` and `invalid_stored_status`: 503 `storage_unavailable`
abbrev pub invalid_analysis : ApiError
invalid_analysis = storage_unavailable

abbrev pub invalid_stored_status : ApiError
invalid_stored_status = storage_unavailable

pub record QuoteEstimate : Type 0 where
  pub quote_id : Text
  pub status : Text
  pub currency : Text
  pub lower_bound_cents : ℕ
  pub upper_bound_cents : ℕ
  pub duration_weeks_low : ℕ
  pub duration_weeks_high : ℕ
  pub confidence : Text
  pub summary : Text
  pub assumptions : List Text
  pub gaps : List Text
  pub next_steps : List Text
  pub frameworks : List Text
  pub model : Text
  pub context_version : Text
  pub created_at : Text

abbrev pub u64_max : ℕ
u64_max = 2 ^ 64 - 1

unfoldable pub cents : ℕ → Result ApiError ℕ
cents value =
    if leb (value * 100) u64_max && leb (value * 100) i64_max
    then ok (value * 100)
    else err invalid_analysis

abbrev pub is_completed : Text → Bool
is_completed status = text_eq status (codes "completed") || text_eq status (codes "ready")

abbrev pub is_nonempty : Text → Bool
is_nonempty value = not (is_empty value)

module _ {J : Type 0} (json : Json J) where
  unfoldable pub required_u64 : (Text → Option J) → Text → Result ApiError ℕ
  required_u64 object field = ok_or (u64_field json object field) invalid_analysis

  unfoldable pub integer : (Text → Option J) → Text → Result ApiError ℕ
  unfolding required_u64
  integer object field = do
    value ← required_u64 object field
    fail_if (ltb i64_max value) invalid_analysis
    ok value

  unfoldable pub required_string : (Text → Option J) → Text → Result ApiError Text
  required_string object field =
      ok_or (keep_if is_nonempty (string_field json object field)) invalid_analysis

  unfoldable pub strings_of : List J → Result ApiError (List Text)
  strings_of [] = ok []
  strings_of (item ∷ items) = do
    text ← ok_or (keep_if is_nonempty (json.as_str item)) invalid_analysis
    texts ← strings_of items
    ok (text ∷ texts)

  unfoldable pub strings : Option J → Result ApiError (List Text)
  unfolding strings_of
  strings value = do
    items ← ok_or (bind_option value json.as_array) invalid_analysis
    strings_of items

  -- The closure over `services`
  abbrev pub next_step_from : Text → Text → Option Text
  next_step_from phase scope =
      if is_nonempty phase && is_nonempty scope then some (phase ++ codes ": " ++ scope) else none

  unfoldable pub next_step : J → Option Text
  next_step service = bind_option (json.as_object service) λ object.
      bind_option (string_field json object (codes "phase")) λ phase.
        bind_option (string_field json object (codes "scope"))
          λ scope. next_step_from (trim phase) (trim scope)

  abbrev pub filter_map : {A B : Type 0} → (A → Option B) → List A → List B
  filter_map f [] = []
  filter_map f (x ∷ xs) =
      let rest = filter_map f xs in elim (f x) [ none ↦ rest | some y ↦ y ∷ rest ]

  abbrev pub or_review : List Text → List Text
  or_review [] = codes "Review the preliminary estimate with Canonical." ∷ []
  or_review (step ∷ steps) = step ∷ steps

  unfoldable pub next_steps : List J → List Text
  unfolding next_step
  next_steps services = or_review (take 25 (filter_map next_step services))

  unfoldable pub aggregate_confidence : List J → Text
  aggregate_confidence services =
      let confidence =
        filter_map
          (λ service.
            bind_option (json.as_object service)
              λ object. string_field json object (codes "confidence"))
          services in
      if any (λ value. text_eq value (codes "low")) confidence
      then codes "low"
      else (if not (is_empty confidence) && all (λ value. text_eq value (codes "high")) confidence
          then codes "high"
          else codes "medium")

  -- The estimate, from the object of the analysis on
  unfoldable pub estimate_of :
      {R : Type 0} → Wire R → QuoteRecord R J → (Text → Option J) → Result ApiError QuoteEstimate
  unfolding required_u64 integer required_string strings next_steps aggregate_confidence cents
  estimate_of wire r object = do
    fee_low ← required_u64 object (codes "estimated_total_fee_low")
    fee_high ← required_u64 object (codes "estimated_total_fee_high")
    lower_bound_cents ← cents fee_low
    upper_bound_cents ← cents fee_high
    duration_weeks_low ← integer object (codes "estimated_total_weeks_low")
    duration_weeks_high ← integer object (codes "estimated_total_weeks_high")
    fail_if
        (ltb upper_bound_cents lower_bound_cents
          || ltb duration_weeks_low 1
          || ltb duration_weeks_high duration_weeks_low)
        invalid_analysis
    services ← ok_or (array_field json object (codes "recommended_services")) invalid_analysis
    risks ← strings (object (codes "risks"))
    missing ← strings (object (codes "missing_information"))
    currency ← required_string object (codes "currency")
    summary ← required_string object (codes "summary")
    assumptions ← strings (object (codes "assumptions"))
    ok (record {
      quote_id = wire.uuid_text r.quote_id;
      status = codes "ready";
      currency = currency;
      lower_bound_cents = lower_bound_cents;
      upper_bound_cents = upper_bound_cents;
      duration_weeks_low = duration_weeks_low;
      duration_weeks_high = duration_weeks_high;
      confidence = aggregate_confidence services;
      summary = summary;
      assumptions = assumptions;
      gaps = take 50 (risks ++ missing);
      next_steps = next_steps services;
      frameworks = wire.frameworks r.request;
      model = r.gemini_model;
      context_version =
          codes "context-record:"
          ++ wire.uuid_text r.context_record_id
          ++ codes "@"
          ++ r.created_at;
      created_at = r.updated_at;
    })

  abbrev pub map_some : Result ApiError QuoteEstimate → Result ApiError (Option QuoteEstimate)
  map_some (ok e) = ok (some e)
  map_some (err e) = err e

  unfoldable pub quote_estimate :
      {R : Type 0} → Wire R → QuoteRecord R J → Result ApiError (Option QuoteEstimate)
  unfolding estimate_of
  quote_estimate wire r = if not (is_completed r.status) then ok none else (do
    object ← ok_or (bind_option r.analysis json.as_object) invalid_analysis
    map_some (estimate_of wire r object))
