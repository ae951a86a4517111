-- ===== src/PreInterest/Tests.antt =====
-- Pre-interest registration at a concrete request.
use canonical_api_server_rs.Prelude.{
  ◌≡◌, refl, true, false, [], ◌∷◌, Option, none, some, Text, codes, trim, byte_length,
  to_ascii_lowercase, ok, err,
}
use canonical_api_server_rs.PreInterest.{
  individual, readiness_assessment, soc2, user, Url, normalize_email, duplicate_interest,
  parse_host, host_party_type, normalize_website_url, normalize_locale, normalize_referral,
  is_portable_identifier,
}
use canonical_api_server_rs.PreInterest.Emails.{normalize_email-IsCanonical}
use canonical_api_server_rs.PreInterest.Timestamps.{is_rfc3339}
use canonical_api_server_rs.PreInterest.Registrations.{
  PreInterestRegistrationRequest, ValidatedPreInterestRegistration, validate_registration,
}
use canonical_api_server_rs.PreInterest.Registrations.Checks.{
  IsRegistered, validate_registration-IsRegistered,
}
use canonical_api_server_rs.PreInterest.Digests.{fingerprint_bytes}
use canonical_api_server_rs.PreInterest.Digests.Fingerprints.{
  IsEncodable, IsSameContent, fingerprint_bytes-injective,
}

abbrev parse_url : Text → Option Url
parse_url text = some (record {
  scheme = codes "https";
  host_str = some (codes "example.com");
  username = [];
  password = none;
  fragment = none;
  text = text;
})

abbrev individual_request : PreInterestRegistrationRequest
individual_request = record {
  request_id = 7;
  email = codes " Person@EXAMPLE.COM ";
  party_type = individual;
  organization_name = none;
  interest_areas = soc2 ∷ readiness_assessment ∷ [];
  consent_revision = codes "pre-interest-v1";
  consented_at = codes "2026-09-01T15:30:00Z";
  source_host = codes "user.canonical.plus";
  locale = some (codes "en-US");
  referral_code = some (codes "launch-2026");
  display_name = some (codes "  Person   Name  ");
  website_url = some (codes "https://example.com/security?source=interest");
  registration_consent = true;
  marketing_consent = false;
  marketing_consent_revision = none;
}

abbrev registration : ValidatedPreInterestRegistration
registration = record {
  request_id = 7;
  email = codes "person@example.com";
  party_type = individual;
  organization_name = none;
  interest_areas = readiness_assessment ∷ soc2 ∷ [];
  consent_revision = codes "pre-interest-v1";
  consented_at = codes "2026-09-01T15:30:00Z";
  source_host = user;
  locale = some (codes "en-US");
  referral_code = some (codes "launch-2026");
  display_name = some (codes "Person Name");
  website_url = some (codes "https://example.com/security?source=interest");
  registration_consent = true;
  marketing_consent = false;
  marketing_consent_revision = none;
}

validated :
    validate_registration parse_url individual_request (codes "user.canonical.plus")
    ≡ ok registration
unfolding validate_registration trim byte_length parse_host host_party_type normalize_email
    normalize_website_url is_portable_identifier is_rfc3339 normalize_locale normalize_referral
validated = refl

doubled :
    validate_registration parse_url
      (record individual_request { interest_areas = soc2 ∷ soc2 ∷ [] })
      (codes "user.canonical.plus")
    ≡ err duplicate_interest
unfolding validate_registration trim byte_length parse_host host_party_type normalize_email
    normalize_website_url is_portable_identifier is_rfc3339 normalize_locale normalize_referral
doubled = refl

fractions :
    (is_rfc3339 (codes "2026-09-01T15:30:00.250+02:00") ≡ true)
    × (is_rfc3339 (codes "2026-09-01T15:30:00.Z") ≡ false)
    × (is_rfc3339 (codes "2026-13-01T15:30:00Z") ≡ false)
unfolding is_rfc3339 byte_length
fractions = (refl, refl, refl)

validate_registration-IsRegistered_example :
    IsRegistered individual_request (codes "user.canonical.plus") registration
validate_registration-IsRegistered_example =
    validate_registration-IsRegistered parse_url individual_request (codes "user.canonical.plus")
      registration validated

normalize_email-IsCanonical_example :
    (normalize_email (to_ascii_lowercase (codes " A@B.co")) ≡ normalize_email (codes " A@B.co"))
    × ((e : Text) → normalize_email (codes " A@B.co") ≡ ok e → normalize_email e ≡ ok e)
normalize_email-IsCanonical_example = normalize_email-IsCanonical (codes " A@B.co")

encodable : IsEncodable registration
encodable = record {
  email = refl;
  organization_name = tt;
  revision = (refl, refl);
  consented_at = (refl, refl);
  locale = refl;
  referral_code = refl;
  display_name = refl;
  website_url = refl;
  marketing = tt;
}

fingerprint_bytes-injective_example :
    IsSameContent registration (record registration { request_id = 8 })
unfolding fingerprint_bytes
fingerprint_bytes-injective_example =
    fingerprint_bytes-injective registration (record registration { request_id = 8 }) encodable
      (record {
        email = refl;
        organization_name = tt;
        revision = (refl, refl);
        consented_at = (refl, refl);
        locale = refl;
        referral_code = refl;
        display_name = refl;
        website_url = refl;
        marketing = tt;
      })
      refl
