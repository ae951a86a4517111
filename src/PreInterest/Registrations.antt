-- ===== src/PreInterest/Registrations.antt =====
-- `validate_registration` and `accepted_response` of src/pre_interest.rs.
pub mod Interests
pub mod Checks
use canonical_api_server_rs.Prelude.{
  ℕ, Bool, true, false, not, List, [], ◌∷◌, Option, none, some, Text, codes, text_eq, trim,
  is_empty, length, ltb, ◌==◌, if◌then◌else◌, is_some, Result, ok, err, ok_or, fail_if, ◌>>=◌, ◌>>◌,
}
use canonical_api_server_rs.PreInterest.{
  PartyType, individual, organization, InterestArea, interest_rank, RegistrationHost,
  ValidationError, duplicate_interest, empty_interest_set, invalid_consent_revision,
  invalid_consented_at, invalid_display_name, invalid_marketing_consent_revision,
  invalid_organization_name, organization_name_forbidden, organization_name_required,
  party_host_mismatch, registration_consent_required, source_host_mismatch, too_many_interests,
  unexpected_marketing_consent_revision, parse_host, host_party_type, party_type_eq, Url,
  normalize_email, normalize_human_text, normalize_website_url, is_portable_identifier,
  normalize_locale, normalize_referral,
}
use canonical_api_server_rs.PreInterest.Timestamps.{is_rfc3339}

pub record PreInterestRegistrationRequest : Type 0 where
  pub request_id : ℕ
  pub email : Text
  pub party_type : PartyType
  pub organization_name : Option Text
  pub interest_areas : List InterestArea
  pub consent_revision : Text
  pub consented_at : Text
  pub source_host : Text
  pub locale : Option Text
  pub referral_code : Option Text
  pub display_name : Option Text
  pub website_url : Option Text
  pub registration_consent : Bool
  pub marketing_consent : Bool
  pub marketing_consent_revision : Option Text

pub record ValidatedPreInterestRegistration : Type 0 where
  pub request_id : ℕ
  pub email : Text
  pub party_type : PartyType
  pub organization_name : Option Text
  pub interest_areas : List InterestArea
  pub consent_revision : Text
  pub consented_at : Text
  pub source_host : RegistrationHost
  pub locale : Option Text
  pub referral_code : Option Text
  pub display_name : Option Text
  pub website_url : Option Text
  pub registration_consent : Bool
  pub marketing_consent : Bool
  pub marketing_consent_revision : Option Text

-- MAX_ORGANIZATION_CHARS, MAX_DISPLAY_NAME_CHARS, MAX_INTERESTS, MAX_CONSENT_REVISION_BYTES and
-- MAX_MARKETING_CONSENT_REVISION_BYTES
abbrev pub max_organization_chars : ℕ
max_organization_chars = 200

abbrev pub max_display_name_chars : ℕ
max_display_name_chars = 120

abbrev pub max_interests : ℕ
max_interests = 9

abbrev pub max_consent_revision_bytes : ℕ
max_consent_revision_bytes = 64

-- `option.map(f).transpose()`
abbrev pub transpose :
    (Text → Result ValidationError Text) → Option Text → Result ValidationError (Option Text)
transpose f none = ok none
transpose f (some value) = f value >>= λ normalized. ok (some normalized)

unfoldable pub validate_organization :
    PartyType → Option Text → Result ValidationError (Option Text)
unfolding normalize_human_text
validate_organization individual name =
    fail_if (is_some name) organization_name_forbidden >> ok none
validate_organization organization name = do
  value ← ok_or name organization_name_required
  normalized ← normalize_human_text value max_organization_chars invalid_organization_name
  ok (some normalized)

-- A `BTreeSet`: increasing, each once
unfoldable pub insert_interest : InterestArea → List InterestArea → List InterestArea
insert_interest a [] = a ∷ []
insert_interest a (b ∷ bs) =
    let rest = insert_interest a bs in
    if interest_rank a == interest_rank b
    then b ∷ bs
    else (if ltb (interest_rank a) (interest_rank b) then a ∷ b ∷ bs else b ∷ rest)

unfoldable pub interest_set : List InterestArea → List InterestArea
unfolding insert_interest
interest_set [] = []
interest_set (a ∷ as') = insert_interest a (interest_set as')

unfoldable pub validate_interests : List InterestArea → Result ValidationError (List InterestArea)
unfolding interest_set
validate_interests areas = do
  fail_if (is_empty areas) empty_interest_set
  fail_if (ltb max_interests (length areas)) too_many_interests
  fail_if (not (length (interest_set areas) == length areas)) duplicate_interest
  ok (interest_set areas)

unfoldable pub validate_marketing : Bool → Option Text → Result ValidationError (Option Text)
validate_marketing true (some value) =
    if not (is_portable_identifier (trim value) max_consent_revision_bytes)
    then err invalid_marketing_consent_revision
    else ok (some (trim value))
validate_marketing true none = err invalid_marketing_consent_revision
validate_marketing false (some value) = err unexpected_marketing_consent_revision
validate_marketing false none = ok none

unfoldable pub validate_registration :
    (Text → Option Url)
    → PreInterestRegistrationRequest
    → Text
    → Result ValidationError ValidatedPreInterestRegistration
unfolding validate_organization validate_interests validate_marketing
validate_registration parse_url request verified_host = do
  source_host ← parse_host verified_host
  fail_if (not (text_eq request.source_host verified_host)) source_host_mismatch
  fail_if (not (party_type_eq request.party_type (host_party_type source_host))) party_host_mismatch
  fail_if (not request.registration_consent) registration_consent_required
  email ← normalize_email request.email
  organization_name ← validate_organization request.party_type request.organization_name
  display_name ←
      transpose (λ value. normalize_human_text value max_display_name_chars invalid_display_name)
        request.display_name
  website_url ← transpose (normalize_website_url parse_url) request.website_url
  interest_areas ← validate_interests request.interest_areas
  fail_if (not (is_portable_identifier (trim request.consent_revision) max_consent_revision_bytes))
      invalid_consent_revision
  fail_if (not (is_rfc3339 (trim request.consented_at))) invalid_consented_at
  locale ← transpose normalize_locale request.locale
  referral_code ← transpose normalize_referral request.referral_code
  marketing_consent_revision ←
      validate_marketing request.marketing_consent request.marketing_consent_revision
  ok (record {
    request_id = request.request_id;
    email = email;
    party_type = request.party_type;
    organization_name = organization_name;
    interest_areas = interest_areas;
    consent_revision = trim request.consent_revision;
    consented_at = trim request.consented_at;
    source_host = source_host;
    locale = locale;
    referral_code = referral_code;
    display_name = display_name;
    website_url = website_url;
    registration_consent = true;
    marketing_consent = request.marketing_consent;
    marketing_consent_revision = marketing_consent_revision;
  })

pub record PreInterestRegistrationResponse : Type 0 where
  pub receipt_id : ℕ
  pub status : Text
  pub accepted_at : Text
  pub next_step_url : Text

unfoldable pub accepted_response :
    ℕ → Text → PartyType → Result ValidationError PreInterestRegistrationResponse
unfolding is_rfc3339
accepted_response receipt_id accepted_at party_type = do
  fail_if (not (is_rfc3339 accepted_at)) invalid_consented_at
  ok (record {
    receipt_id = receipt_id;
    status = codes "accepted";
    accepted_at = accepted_at;
    next_step_url = codes "https://user.canonical.plus/u/quote";
  })
