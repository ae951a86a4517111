-- ===== src/Gemini/Analysis.antt =====
-- What src/gemini.rs accepts as an analysis, and how it finds the text of one in a response. JSON
-- values are `serde_json`'s: the model takes the four accessors that the source calls.
use canonical_api_server_rs.Prelude.{
  ℕ, ◌≤◌, ◌≡◌, refl, ◌≢◌, ◌↔◌, Bool, true, not, ◌&&◌, ◌||◌, List, [], ◌∷◌, ◌++◌, Option, none, some,
  Text, codes, trim, strip_prefix, strip_suffix, is_empty, ltb, ◌==◌, bind_option, is_some_and,
  is_some, find, all, All, Result, ok, ◌>>=◌, ◌>>◌, ok_or, fail_if, >>=-eq-ok, >>-eq-ok,
  ok_or-eq-ok, arith, OnlyErr, >>=-OnlyErr, ok_or-OnlyErr, fail_if-OnlyErr,
}
use canonical_api_server_rs.Gemini.{GeminiError, invalid_analysis}

-- `JsonValue::as_object` followed by `Map::get`, `as_str`, `as_u64` and `as_array`
pub record Json (J : Type 0) : Type 0 where
  pub as_object : J → Option (Text → Option J)
  pub as_str : J → Option Text
  pub as_u64 : J → Option ℕ
  pub as_array : J → Option (List J)

-- The names that the loops of `validate_analysis` run over
abbrev pub text_fields : List Text
text_fields = codes "summary" ∷ codes "currency" ∷ codes "disclaimer" ∷ []

abbrev pub u64_fields : List Text
u64_fields =
    codes "estimated_total_fee_low"
    ∷ codes "estimated_total_fee_high"
    ∷ codes "estimated_total_weeks_low"
    ∷ codes "estimated_total_weeks_high"
    ∷ []

abbrev pub array_fields : List Text
array_fields =
    codes "recommended_services"
    ∷ codes "assumptions"
    ∷ codes "risks"
    ∷ codes "missing_information"
    ∷ []

module _ {J : Type 0} (json : Json J) where
  abbrev pub string_field : (Text → Option J) → Text → Option Text
  string_field object field = bind_option (object field) json.as_str

  abbrev pub u64_field : (Text → Option J) → Text → Option ℕ
  u64_field object field = bind_option (object field) json.as_u64

  abbrev pub array_field : (Text → Option J) → Text → Option (List J)
  array_field object field = bind_option (object field) json.as_array

  -- `!…is_none_or(str::is_empty)`
  abbrev pub has_text : (Text → Option J) → Text → Bool
  has_text object field = is_some_and (λ t. not (is_empty t)) (string_field object field)

  -- The three loops over field names
  check_fields : (Text → Option J) → Result GeminiError (Unit {0})
  check_fields object = do
    fail_if (not (all (has_text object) text_fields)) invalid_analysis
    fail_if (not (all (λ f. is_some (u64_field object f)) u64_fields)) invalid_analysis
    fail_if (not (all (λ f. is_some (array_field object f)) array_fields)) invalid_analysis

  unfoldable pub validate_analysis : J → Result GeminiError (Unit {0})
  unfolding check_fields
  validate_analysis analysis = do
    object ← ok_or (json.as_object analysis) invalid_analysis
    check_fields object
    fee_low ← ok_or (u64_field object (codes "estimated_total_fee_low")) invalid_analysis
    fee_high ← ok_or (u64_field object (codes "estimated_total_fee_high")) invalid_analysis
    weeks_low ← ok_or (u64_field object (codes "estimated_total_weeks_low")) invalid_analysis
    weeks_high ← ok_or (u64_field object (codes "estimated_total_weeks_high")) invalid_analysis
    fail_if (ltb fee_high fee_low || weeks_low == 0 || ltb weeks_high weeks_low) invalid_analysis

pub record Part : Type 0 where
  pub text : Option Text
  pub thought : Bool

-- A candidate is its `content`, and a content is its `parts`.
abbrev pub Candidate : Type 0
Candidate = Option (List Part)

abbrev pub is_answer : Part → Bool
is_answer part = not part.thought && is_some_and (λ t. not (is_empty t)) part.text

-- `filter_map` and `flat_map` over the candidates
unfoldable pub parts_of : List Candidate → List Part
parts_of [] = []
parts_of (none ∷ candidates) = parts_of candidates
parts_of (some parts ∷ candidates) = parts ++ parts_of candidates

unfoldable pub extract_text : List Candidate → Option Text
unfolding parts_of
extract_text candidates = bind_option (find is_answer (parts_of candidates)) (λ part. part.text)

-- `unwrap_or`
abbrev pub unwrap_or : Option Text → Text → Text
unwrap_or none t = t
unwrap_or (some s) t = s

abbrev pub or_else : Option Text → Option Text → Option Text
or_else none o = o
or_else (some s) o = some s

unfoldable pub strip_json_fence : Text → Text
strip_json_fence value =
    let body = trim (
      unwrap_or (or_else (strip_prefix (codes "```json") value) (strip_prefix (codes "```") value))
        value) in
    trim (unwrap_or (strip_suffix (codes "```") body) body)

-- An analysis that a quote may be built from.
pub record IsAnalysis {J : Type 0} (json : Json J) (analysis : J) : Type 0 where
  pub object : Text → Option J
  pub is_object : json.as_object analysis ≡ some object
  pub texts : All (λ f. (t : Text) × (string_field json object f ≡ some t) × (t ≢ [])) text_fields
  pub lists : All (λ f. (js : List J) × (array_field json object f ≡ some js)) array_fields
  pub fee_low : ℕ
  pub fee_high : ℕ
  pub weeks_low : ℕ
  pub weeks_high : ℕ
  pub fees :
      (u64_field json object (codes "estimated_total_fee_low") ≡ some fee_low)
      × (u64_field json object (codes "estimated_total_fee_high") ≡ some fee_high)
      × (fee_low ≤ fee_high)
  pub weeks :
      (u64_field json object (codes "estimated_total_weeks_low") ≡ some weeks_low)
      × (u64_field json object (codes "estimated_total_weeks_high") ≡ some weeks_high)
      × (1 ≤ weeks_low)
      × (weeks_low ≤ weeks_high)

nonempty :
    (o : Option Text)
    → (is_some_and (λ t. not (is_empty t)) o ≡ true) ↔ ((t : Text) × (o ≡ some t) × (t ≢ []))
nonempty none = ground arith
nonempty (some []) = ground arith
nonempty (some (c ∷ t)) = ((λ h. (c ∷ t, refl, λ e. cc)), λ h. refl)

has_text-eq-true :
    {J : Type 0} (json : Json J) (object : Text → Option J) (field : Text)
    → (has_text json object field ≡ true)
      ↔ ((t : Text) × (string_field json object field ≡ some t) × (t ≢ []))
has_text-eq-true json object field = nonempty (string_field json object field)

is_some-eq-true : {A : Type 0} (o : Option A) → (is_some o ≡ true) ↔ ((a : A) × (o ≡ some a))
is_some-eq-true none = ground arith
is_some-eq-true (some a) = ((λ h. (a, refl)), λ h. refl)

all-All :
    {A : Type 0} (p : A → Bool) (P : A → Type 0)
    → ((a : A) → (p a ≡ true) ↔ P a)
    → (xs : List A) → (all p xs ≡ true) ↔ All P xs
all-All p P f [] = ground arith
all-All p P f (x ∷ xs) = ground (arith, f x, all-All p P f xs)

check_fields-texts :
    {J : Type 0} (json : Json J) (object : Text → Option J)
    → (check_fields json object ≡ ok tt) ↔ (
        (all (has_text json object) text_fields ≡ true)
        × (all (λ f. is_some (u64_field json object f)) u64_fields ≡ true)
        × (all (λ f. is_some (array_field json object f)) array_fields ≡ true))
unfolding check_fields
check_fields-texts json object = ground arith

validate_analysis-IsAnalysis :
    {J : Type 0} (json : Json J) (analysis : J)
    → validate_analysis json analysis ≡ ok tt
    → IsAnalysis json analysis
unfolding validate_analysis
validate_analysis-IsAnalysis json analysis h =
    let (object, o, h1) = >>=-eq-ok _ _ h in
    let (checked, h2) = >>-eq-ok _ _ h1 in
    let (fee_low, fl, h3) = >>=-eq-ok _ _ h2 in
    let (fee_high, fh, h4) = >>=-eq-ok _ _ h3 in
    let (weeks_low, wl, h5) = >>=-eq-ok _ _ h4 in
    let (weeks_high, wh, h6) = >>=-eq-ok _ _ h5 in
    let (texts, numbers, lists) = (check_fields-texts json object).0 checked in
    record {
      object = object;
      is_object = ok_or-eq-ok _ _ o;
      texts = (all-All _ _ (has_text-eq-true json object) text_fields).0 texts;
      lists = (all-All _ _ (λ f. is_some-eq-true (array_field json object f)) array_fields).0 lists;
      fee_low = fee_low;
      fee_high = fee_high;
      weeks_low = weeks_low;
      weeks_high = weeks_high;
      fees = (ok_or-eq-ok _ _ fl, ok_or-eq-ok _ _ fh, ground arith);
      weeks = (ok_or-eq-ok _ _ wl, ok_or-eq-ok _ _ wh, ground arith, ground arith);
    }

validate_analysis_complete :
    {J : Type 0} (json : Json J) (analysis : J)
    → IsAnalysis json analysis
    → validate_analysis json analysis ≡ ok tt
unfolding validate_analysis
validate_analysis_complete json analysis h =
    let (fl, fh, fees) = h.fees in
    let (wl, wh, positive, weeks) = h.weeks in
    let checked = (check_fields-texts json h.object).1 (
      (all-All _ _ (has_text-eq-true json h.object) text_fields).1 h.texts,
      rw (fl, fh, wl, wh) refl,
      (all-All _ _ (λ f. is_some-eq-true (array_field json h.object f)) array_fields).1 h.lists,
    ) in
    rw (h.is_object, checked, fl, fh, wl, wh) (ground arith)

pub validate_analysis-OnlyErr :
    {J : Type 0} (json : Json J) (P : GeminiError → Type 0) (analysis : J)
    → P invalid_analysis
    → OnlyErr P (validate_analysis json analysis)
unfolding validate_analysis check_fields
validate_analysis-OnlyErr json P analysis p =
    search (>>=-OnlyErr P, ok_or-OnlyErr P, fail_if-OnlyErr P, p) depth 30

-- The analyses that pass are exactly the JSON objects with a nonempty text in `summary`, `currency`
-- and `disclaimer`, an array in each of the four list fields, and unsigned fees and weeks whose low
-- ends are at most their high ends, with at least one week.
pub validate_analysis_iff :
    {J : Type 0} (json : Json J) (analysis : J)
    → (validate_analysis json analysis ≡ ok tt) ↔ IsAnalysis json analysis
validate_analysis_iff json analysis =
    (validate_analysis-IsAnalysis json analysis, validate_analysis_complete json analysis)
