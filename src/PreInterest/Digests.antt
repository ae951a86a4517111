-- ===== src/PreInterest/Digests.antt =====
-- The keyed digests of src/pre_interest.rs. HMAC-SHA-256 is a parameter: a function of the key and of
-- all the bytes that the MAC was updated with.
pub mod Encodings
pub mod Fingerprints
use canonical_api_server_rs.Prelude.{
  ℕ, ◌+◌, ◌*◌, ◌/◌, ◌%◌, Bool, true, false, List, [], ◌∷◌, ◌++◌, Option, none, some, Text, codes,
  length, ltb, if◌then◌else◌, Result, ok, err, fail_if, ◌>>=◌, ◌>>◌,
}
use canonical_api_server_rs.PreInterest.{
  PartyType, individual, organization, InterestArea, interest_text, host_text,
}
use canonical_api_server_rs.PreInterest.Registrations.{ValidatedPreInterestRegistration}

-- `str::as_bytes`: the UTF-8 encoding
unfoldable pub utf8_char : ℕ → List ℕ
utf8_char c =
    if ltb c 0x80
    then c ∷ []
    else (if ltb c 0x800
        then (0xc0 + c / 64) ∷ (0x80 + c % 64) ∷ []
        else (if ltb c 0x10000
            then (0xe0 + c / 4096) ∷ (0x80 + c / 64 % 64) ∷ (0x80 + c % 64) ∷ []
            else (0xf0 + c / 262144)
              ∷ (0x80 + c / 4096 % 64)
              ∷ (0x80 + c / 64 % 64)
              ∷ (0x80 + c % 64)
              ∷ []))

unfoldable pub as_bytes : Text → List ℕ
unfolding utf8_char
as_bytes [] = []
as_bytes (c ∷ s) = utf8_char c ++ as_bytes s

pub data DerivationKeyError : Type 0 where
  derivation_key_error : DerivationKeyError

-- MIN_DERIVATION_KEY_BYTES
abbrev pub min_derivation_key_bytes : ℕ
min_derivation_key_bytes = 32

-- EMAIL_ALIAS_CONTEXT and REQUEST_FINGERPRINT_CONTEXT
abbrev pub email_alias_context : List ℕ
email_alias_context = codes "canonical.pre-interest.email-alias.v1" ++ 0 ∷ []

abbrev pub request_fingerprint_context : List ℕ
request_fingerprint_context = codes "canonical.pre-interest.request-fingerprint.v1" ++ 0 ∷ []

-- What `update_field` and `update_optional` add to the MAC
unfoldable pub field_bytes : Text → List ℕ
unfolding as_bytes
field_bytes value = as_bytes value ++ 0 ∷ []

unfoldable pub optional_bytes : Option Text → List ℕ
unfolding field_bytes
optional_bytes (some value) = 1 ∷ field_bytes value
optional_bytes none = 0 ∷ 0 ∷ []

unfoldable pub interest_bytes : List InterestArea → List ℕ
unfolding field_bytes interest_text
interest_bytes [] = []
interest_bytes (a ∷ areas) = field_bytes (interest_text a) ++ interest_bytes areas

unfoldable pub party_type_name : PartyType → Text
party_type_name individual = codes "individual"
party_type_name organization = codes "organization"

unfoldable pub boolean_name : Bool → Text
boolean_name true = codes "true"
boolean_name false = codes "false"

-- The bytes of a request's fingerprint behind the context
unfoldable pub fingerprint_bytes : ValidatedPreInterestRegistration → List ℕ
unfolding field_bytes optional_bytes interest_bytes party_type_name boolean_name host_text
fingerprint_bytes v =
    field_bytes v.email
    ++ (field_bytes (party_type_name v.party_type)
        ++ (optional_bytes v.organization_name
            ++ (interest_bytes v.interest_areas
                ++ (field_bytes v.consent_revision
                    ++ (field_bytes v.consented_at
                        ++ (field_bytes (host_text v.source_host)
                            ++ (optional_bytes v.locale
                                ++ (optional_bytes v.referral_code
                                    ++ (optional_bytes v.display_name
                                        ++ (optional_bytes v.website_url
                                            ++ (field_bytes (boolean_name v.registration_consent)
                                                ++ (field_bytes (boolean_name v.marketing_consent)
                                                    ++ optional_bytes
                                                        v.marketing_consent_revision))))))))))))

module _ (hmac : List ℕ → List ℕ → List ℕ) where
  -- `new_mac`, the updates and `finish_mac`
  abbrev pub digest : List ℕ → List ℕ → Result DerivationKeyError (List ℕ)
  digest key bytes =
      fail_if (ltb (length key) min_derivation_key_bytes) derivation_key_error
      >> ok (hmac key bytes)

  unfoldable pub derive_email_alias : List ℕ → Text → Result DerivationKeyError (List ℕ)
  unfolding field_bytes
  derive_email_alias key email = digest key (email_alias_context ++ field_bytes email)

  unfoldable pub derive_request_fingerprint :
      List ℕ → ValidatedPreInterestRegistration → Result DerivationKeyError (List ℕ)
  unfolding fingerprint_bytes
  derive_request_fingerprint key v = digest key (request_fingerprint_context ++ fingerprint_bytes v)
