-- ===== src/Frameworks.antt =====
-- src/frameworks.rs: the catalog of readiness frameworks and `parse_assessment_request`. Of a JSON
-- value the model has the accessors of `serde_json` that the source calls.
pub mod Catalog
pub mod Requests
mod Tests
use canonical_api_server_rs.Prelude.{
  ℕ, Bool, not, ◌&&◌, List, [], ◌∷◌, ◌++◌, Option, none, some, Text, codes, text_eq, trim, is_empty,
  byte_length, length, leb, if◌then◌else◌, keep_if, bind_option, find, any, is_some, Result, ok,
  ok_or, fail_if, ◌>>=◌, ◌>>◌,
}
use canonical_api_server_rs.Http.{ApiError, bad_request}
use canonical_api_server_rs.Auth.{map_trim}
use canonical_api_server_rs.Gemini.Analysis.{Json, string_field, array_field}
use canonical_api_server_rs.Assessments.{Submission}
use canonical_api_server_rs.Frameworks.Catalog.{FrameworkDescriptor, catalog}

-- `Map::keys` and `JsonValue::is_null`
pub record JsonView (J : Type 0) : Type 0 where
  pub keys : J → List Text
  pub is_null : J → Bool

-- MAX_ASSESSMENT_ORGANIZATION_BYTES
abbrev pub max_organization_bytes : ℕ
max_organization_bytes = 200

-- MAX_ASSESSMENT_NOTES_BYTES
abbrev pub max_notes_bytes : ℕ
max_notes_bytes = 2000

-- ASSESSMENT_FIELDS
abbrev pub assessment_fields : List Text
assessment_fields = codes "frameworkIds" ∷ codes "notes" ∷ codes "organization" ∷ []

unfoldable pub find_framework : Text → Option FrameworkDescriptor
find_framework framework_id = find (λ descriptor. text_eq descriptor.id framework_id) catalog

-- Every refusal has this code.
abbrev pub bad_assessment : ApiError
bad_assessment = bad_request "invalid_request"

abbrev pub is_known : Text → Bool
is_known framework_id = is_some (find_framework framework_id)

abbrev pub is_unknown_field : Text → Bool
is_unknown_field field = not (any (text_eq field) assessment_fields)

abbrev pub has_count : {J : Type 0} → List J → Bool
has_count ids = not (is_empty ids) && leb (length ids) (length catalog)

abbrev pub fits_organization : Text → Bool
fits_organization organization =
    not (is_empty organization) && leb (byte_length organization) max_organization_bytes

abbrev pub fits_notes : Text → Bool
fits_notes notes = leb (byte_length notes) max_notes_bytes

module _ {J : Type 0} (json : Json J) (view : JsonView J) where
  -- The loop over `supplied_ids`
  unfoldable pub collect_ids : List J → List Text → Result ApiError (List Text)
  collect_ids [] framework_ids = ok framework_ids
  collect_ids (supplied ∷ rest) framework_ids = do
    framework_id ← ok_or (keep_if is_known (json.as_str supplied)) bad_assessment
    fail_if (any (text_eq framework_id) framework_ids) bad_assessment
    collect_ids rest (framework_ids ++ framework_id ∷ [])

  unfoldable pub read_notes : Option J → Result ApiError (Option Text)
  read_notes none = ok none
  read_notes (some value) =
      if view.is_null value
      then ok none
      else ok_or (keep_if fits_notes (json.as_str value)) bad_assessment >>= λ notes.
          ok (some notes)

  unfoldable pub parse_assessment_request : J → Result ApiError Submission
  unfolding collect_ids read_notes
  parse_assessment_request payload = do
    object ← ok_or (json.as_object payload) bad_assessment
    fail_if (any is_unknown_field (view.keys payload)) bad_assessment
    supplied_ids ←
        ok_or (keep_if has_count (array_field json object (codes "frameworkIds"))) bad_assessment
    framework_ids ← collect_ids supplied_ids []
    organization ←
        ok_or
          (keep_if fits_organization (map_trim (string_field json object (codes "organization"))))
          bad_assessment
    notes ← read_notes (object (codes "notes"))
    ok (record { framework_ids = framework_ids; notes = notes; organization = organization })
