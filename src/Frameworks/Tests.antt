-- ===== src/Frameworks/Tests.antt =====
-- The assessment requests of src/frameworks.rs at concrete payloads.
use canonical_api_server_rs.Prelude.{
  trim, byte_length, ◌≡◌, refl, Bool, true, false, List, [], ◌∷◌, Option, none, some, Text, codes,
  err, All, lookup, map, length,
}
use canonical_api_server_rs.Http.{text_key}
use canonical_api_server_rs.Gemini.Analysis.{Json}
use canonical_api_server_rs.Assessments.{Submission}
use canonical_api_server_rs.Frameworks.Catalog.{catalog}
use canonical_api_server_rs.Frameworks.{
  JsonView, find_framework, bad_assessment, parse_assessment_request,
}
use canonical_api_server_rs.Frameworks.Requests.{
  HasDistinctTexts, IsField, IsRequested, parse_assessment_request-IsRequested,
}

data Leaf : Type 0 where
  null : Leaf
  text : Text → Leaf
  texts : List Text → Leaf

data Value : Type 0 where
  leaf : Leaf → Value
  object : List (Text × Leaf) → Value

abbrev map_leaf : Option Leaf → Option Value
map_leaf none = none
map_leaf (some l) = some (leaf l)

abbrev object_of : Value → Option (Text → Option Value)
object_of (object fields) = some (λ field. map_leaf (lookup text_key field fields))
object_of _ = none

abbrev text_of : Value → Option Text
text_of (leaf (text t)) = some t
text_of _ = none

abbrev array_of : Value → Option (List Value)
array_of (leaf (texts ts)) = some (map (λ t. leaf (text t)) ts)
array_of _ = none

abbrev values : Json Value
values = record { as_object = object_of; as_str = text_of; as_u64 = λ v. none; as_array = array_of }

abbrev keys_of : Value → List Text
keys_of (object fields) = map (λ f. f.0) fields
keys_of _ = []

abbrev null_of : Value → Bool
null_of (leaf null) = true
null_of _ = false

abbrev view : JsonView Value
view = record { keys = keys_of; is_null = null_of }

abbrev payload_with : List Text → Value
payload_with ids = object (
    (codes "frameworkIds", texts ids)
    ∷ (codes "organization", text (codes " Example "))
    ∷ (codes "notes", null)
    ∷ [])

abbrev two_ids : List Text
two_ids = codes "soc2-tsc" ∷ codes "nist-csf-2.0" ∷ []

abbrev submission : Submission
submission = record { framework_ids = two_ids; notes = none; organization = codes "Example" }

repeated_id :
    parse_assessment_request values view (payload_with (codes "soc2-tsc" ∷ codes "soc2-tsc" ∷ []))
    ≡ err bad_assessment
unfolding parse_assessment_request find_framework catalog
repeated_id = refl

unknown_id :
    parse_assessment_request values view (payload_with (codes "soc2" ∷ [])) ≡ err bad_assessment
unfolding parse_assessment_request find_framework catalog
unknown_id = refl

catalog-HasDistinctTexts : HasDistinctTexts (map (λ d. d.id) catalog) × (length catalog ≡ 15)
unfolding catalog
catalog-HasDistinctTexts = search tt depth 40

parse_assessment_request-IsRequested_example :
    (found : Text → Option Value) × (values.as_object (payload_with two_ids) ≡ some found)
    × All IsField (view.keys (payload_with two_ids))
    × IsRequested values view found submission
unfolding parse_assessment_request find_framework catalog trim byte_length
parse_assessment_request-IsRequested_example =
    parse_assessment_request-IsRequested values view (payload_with two_ids) submission refl
