-- ===== src/Contract/Tests.antt =====
-- The contract at concrete quotes.
use canonical_api_server_rs.Prelude.{
  ℕ, ◌≡◌, refl, ◌↔◌, true, List, [], ◌∷◌, ◌++◌, Option, none, some, Text, codes, ok, err, lookup,
  map, bind_option,
}
use canonical_api_server_rs.Http.{text_key}
use canonical_api_server_rs.Gemini.Analysis.{Json, validate_analysis}
use canonical_api_server_rs.Quotes.{QuoteRecord, Memory}
use canonical_api_server_rs.Quotes.Records.{completed}
use canonical_api_server_rs.Contract.{
  Wire, QuoteEstimate, quote_estimate, is_completed, invalid_analysis,
}
use canonical_api_server_rs.Contract.Bounds.{IsWithinBounds, quote_estimate-IsWithinBounds}
use canonical_api_server_rs.Contract.Analyses.{IsShowable, quote_estimate_iff}
use canonical_api_server_rs.Contract.Responses.{quote_detail}
use canonical_api_server_rs.Contract.Details.{IsShown, quote_detail-IsShown}

-- A small JSON
data Leaf : Type 0 where
  text : Text → Leaf
  number : ℕ → Leaf
  texts : List Text → Leaf

data Value : Type 0 where
  leaf : Leaf → Value
  object : List (Text × Leaf) → Value

abbrev map_leaf : Option Leaf → Option Value
map_leaf none = none
map_leaf (some l) = some (leaf l)

abbrev object_of : Value → Option (Text → Option Value)
object_of (object fields) = some (λ field. map_leaf (lookup text_key field fields))
object_of _ = none

abbrev text_of : Value → Option Text
text_of (leaf (text t)) = some t
text_of _ = none

abbrev number_of : Value → Option ℕ
number_of (leaf (number n)) = some n
number_of _ = none

abbrev text_leaf : Text → Value
text_leaf t = leaf (text t)

abbrev array_of : Value → Option (List Value)
array_of (leaf (texts ts)) = some (map text_leaf ts)
array_of _ = none

abbrev values : Json Value
values = record { as_object = object_of; as_str = text_of; as_u64 = number_of; as_array = array_of }

-- A UUID is written as one code point.
abbrev one_code : ℕ → Text
one_code id = id ∷ []

abbrev read_code : Text → Option ℕ
read_code (c ∷ []) = some c
read_code _ = none

abbrev wire : Wire Text
wire = record { organization_name = λ r. r; frameworks = λ r. []; uuid_text = one_code }

abbrev fields : List (Text × Leaf)
fields =
    (codes "summary", text (codes "s"))
    ∷ (codes "currency", text (codes "USD"))
    ∷ (codes "disclaimer", text (codes "d"))
    ∷ (codes "estimated_total_fee_low", number 10)
    ∷ (codes "estimated_total_fee_high", number 20)
    ∷ (codes "estimated_total_weeks_low", number 1)
    ∷ (codes "estimated_total_weeks_high", number 2)
    ∷ (codes "recommended_services", texts [])
    ∷ (codes "assumptions", texts (codes "a" ∷ []))
    ∷ (codes "risks", texts [])
    ∷ (codes "missing_information", texts (codes "m" ∷ []))
    ∷ []

abbrev quote_of : ℕ → Value → QuoteRecord Text Value
quote_of id analysis = record {
  analysis = some analysis;
  context_record_id = 0;
  error_code = none;
  gemini_model = codes "g";
  owner_subject = codes "ann";
  persistence = codes "memory-only";
  quote_id = id;
  request = codes "r";
  status = codes "completed";
  created_at = codes "t";
  updated_at = codes "u";
}

abbrev finished : QuoteRecord Text Value
finished = quote_of 7 (object fields)

-- An empty risk passes `validate_analysis`, and then the quote cannot be shown.
abbrev blank_risk : Value
blank_risk = object ((codes "risks", texts ([] ∷ [])) ∷ fields)

accepted_and_hidden :
    (validate_analysis values blank_risk ≡ ok tt)
    × (quote_estimate values wire (quote_of 7 blank_risk) ≡ err invalid_analysis)
unfolding validate_analysis quote_estimate
accepted_and_hidden = (refl, refl)

quote_estimate_iff_example :
    ((e : QuoteEstimate) × (quote_estimate values wire finished ≡ ok (some e)))
    ↔ IsShowable values (λ field. map_leaf (lookup text_key field fields))
unfolding validate_analysis
quote_estimate_iff_example =
    quote_estimate_iff values wire finished (object fields)
      (λ field. map_leaf (lookup text_key field fields)) refl refl refl refl

abbrev estimate : QuoteEstimate
estimate = record {
  quote_id = one_code 7;
  status = codes "ready";
  currency = codes "USD";
  lower_bound_cents = 1000;
  upper_bound_cents = 2000;
  duration_weeks_low = 1;
  duration_weeks_high = 2;
  confidence = codes "medium";
  summary = codes "s";
  assumptions = codes "a" ∷ [];
  gaps = codes "m" ∷ [];
  next_steps = codes "Review the preliminary estimate with Canonical." ∷ [];
  frameworks = [];
  model = codes "g";
  context_version = codes "context-record:" ++ one_code 0 ++ codes "@t";
  created_at = codes "u";
}

quote_estimate-IsWithinBounds_example :
    (found : Text → Option Value) × (is_completed finished.status ≡ true)
    × (bind_option finished.analysis values.as_object ≡ some found)
    × IsWithinBounds values found estimate
unfolding quote_estimate
quote_estimate-IsWithinBounds_example =
    quote_estimate-IsWithinBounds values wire finished estimate refl

quote_detail-IsShown_example : IsShown values wire finished (quote_detail values wire finished)
quote_detail-IsShown_example =
    quote_detail-IsShown values wire finished (completed (object fields) refl refl refl)

abbrev two_quotes : Memory Text Value
two_quotes = record {
  quotes = (7, finished) ∷ (9, quote_of 9 (object fields)) ∷ [];
  operations = [];
  next_event_sequence = 1;
  events = [];
}
