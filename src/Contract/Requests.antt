-- ===== src/Contract/Requests.antt =====
-- `parse_quote_request` of src/contract.rs. `serde_json::from_value` and `validate_quote_request` are
-- parameters, as is the request type.
use canonical_api_server_rs.Prelude.{
  Bool, not, List, [], ◌∷◌, Option, none, some, Text, codes, text_eq, trim, any, Result, ok, ok_or,
  fail_if, ◌>>=◌, ◌>>◌,
}
use canonical_api_server_rs.Http.{ApiError, bad_request}
use canonical_api_server_rs.Gemini.Analysis.{Json}
use canonical_api_server_rs.Quotes.{Config, context_unavailable, markdown_unavailable}

-- `Map::keys`, `from_value`, `is_accepted` of the validation, and the field `context_key`
pub record WireContract (R J : Type 0) : Type 0 where
  pub keys : J → List Text
  pub from_value : J → Option R
  pub is_accepted : R → Bool
  pub context_key : R → Option Text
  pub with_context_key : Text → R → R

pub record AcceptedQuoteRequest (R : Type 0) : Type 0 where
  pub application_markdown : Text
  pub wire : R

-- REQUEST_FIELDS
abbrev pub request_fields : List Text
request_fields =
    codes "organizationName"
    ∷ codes "contactName"
    ∷ codes "contactEmail"
    ∷ codes "website"
    ∷ codes "employeeCount"
    ∷ codes "annualRevenueBand"
    ∷ codes "frameworks"
    ∷ codes "currentStage"
    ∷ codes "infrastructure"
    ∷ codes "dataSensitivity"
    ∷ codes "targetDate"
    ∷ codes "hasSecurityProgram"
    ∷ codes "hasPolicies"
    ∷ codes "hasRiskAssessment"
    ∷ codes "hasIncidentResponsePlan"
    ∷ codes "hasVendorManagement"
    ∷ codes "notes"
    ∷ codes "contextKey"
    ∷ codes "answersVersion"
    ∷ []

abbrev pub is_unknown : Text → Bool
is_unknown field = not (any (text_eq field) request_fields)

abbrev pub invalid_request : ApiError
invalid_request = bad_request "invalid_request"

module _ {R J : Type 0} (json : Json J) (contract : WireContract R J) where
  abbrev pub default_context_key : R → R
  default_context_key wire = elim (contract.context_key wire) [
    | none ↦ contract.with_context_key (codes "quote-analysis") wire
    | some key ↦ wire
  ]

  unfoldable pub parse_quote_request : Config → J → Result ApiError (AcceptedQuoteRequest R)
  parse_quote_request config payload = do
    object ← ok_or (json.as_object payload) invalid_request
    fail_if (any is_unknown (contract.keys payload)) invalid_request
    wire ← ok_or (contract.from_value payload) invalid_request
    fail_if (not (contract.is_accepted wire)) invalid_request
    fail_if (markdown_unavailable config) context_unavailable
    ok (record {
      application_markdown = trim config.application_context_markdown;
      wire = default_context_key wire;
    })
