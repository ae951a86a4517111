-- ===== src/PreInterest/Registrations/Checks.antt =====
-- What a validated registration is.
use canonical_api_server_rs.Prelude.{
  ◌≡◌, refl, sym, ap, subst, inl, inr, Bool, true, false, not, Option, none, some, Text, text_eq,
  text_eq_iff, trim, is_some, Result, ok, ok_or, fail_if, IfSome, >>=-eq-ok, >>-eq-ok,
  fail_if-eq-ok, ok_injective, Bool-cases,
}
use canonical_api_server_rs.PreInterest.{
  PartyType, individual, organization, RegistrationHost, user, organization_host, ValidationError,
  parse_host, host_text, host_party_type, party_type_eq, Url, normalize_email, normalize_human_text,
  normalize_website_url, is_portable_identifier, normalize_locale, normalize_referral,
  organization_name_forbidden, source_host_mismatch, party_host_mismatch,
  registration_consent_required, invalid_display_name, invalid_consent_revision,
  invalid_consented_at, organization_name_required, invalid_organization_name,
}
use canonical_api_server_rs.PreInterest.Names.{IsName, normalize_human_text-IsName}
use canonical_api_server_rs.PreInterest.Timestamps.{is_rfc3339}
use canonical_api_server_rs.PreInterest.Registrations.{
  PreInterestRegistrationRequest, ValidatedPreInterestRegistration, transpose,
  validate_organization, validate_interests, validate_marketing, validate_registration,
  max_organization_chars, max_display_name_chars, max_consent_revision_bytes,
}
use canonical_api_server_rs.PreInterest.Registrations.Interests.{
  IsInterestSet, validate_interests-IsInterestSet,
}

not-eq-false : (b : Bool) → not b ≡ false → b ≡ true
not-eq-false true h = refl
not-eq-false false h = cc

-- `parse` and `as_str` of a host
parse_host-eq-ok :
    (value : Text) (host : RegistrationHost) → parse_host value ≡ ok host → host_text host ≡ value
unfolding parse_host host_text
parse_host-eq-ok value host h = elim (Bool-cases (text_eq value (host_text user))) [
  | inl e ↦
      let same : user ≡ host = ok_injective (rw (e, parse_host) at h) in
      subst (λ x. host_text x ≡ value) same (sym ((text_eq_iff value _).0 e))
  | inr e ↦ elim (Bool-cases (text_eq value (host_text organization_host))) [
    | inl f ↦
        let same : organization_host ≡ host = ok_injective (rw (e, f, parse_host) at h) in
        subst (λ x. host_text x ≡ value) same (sym ((text_eq_iff value _).0 f))
    | inr f ↦ cc (rw (e, f, parse_host) at h)
  ]
]

party_type_eq-eq-true : (a b : PartyType) → party_type_eq a b ≡ true → a ≡ b
party_type_eq-eq-true individual individual h = refl
party_type_eq-eq-true organization organization h = refl
party_type_eq-eq-true individual organization h = cc
party_type_eq-eq-true organization individual h = cc

-- An organization has a name, and an individual has none.
abbrev pub OrganizationFits : PartyType → Option Text → Type 0
OrganizationFits individual name = name ≡ none
OrganizationFits organization name = (n : Text) × (name ≡ some n) × IsName 200 n

validate_organization-Fits :
    (party : PartyType) (name kept : Option Text)
    → validate_organization party name ≡ ok kept
    → OrganizationFits party kept
unfolding validate_organization
validate_organization-Fits individual name kept h =
    let (none_given, h1) = >>-eq-ok (fail_if (is_some name) organization_name_forbidden) _ h in
    sym (ok_injective h1)
validate_organization-Fits organization name kept h =
    let (value, given, h1) = >>=-eq-ok (ok_or name organization_name_required) _ h in
    let (n, e, h2) =
      >>=-eq-ok (normalize_human_text value max_organization_chars invalid_organization_name) _
        h1 in
    (n, sym (ok_injective h2), normalize_human_text-IsName value 200 invalid_organization_name n e)

transpose-IfSome :
    (f : Text → Result ValidationError Text) (P : Text → Type 0) (o kept : Option Text)
    → ((t n : Text) → f t ≡ ok n → P n)
    → transpose f o ≡ ok kept
    → IfSome P kept
transpose-IfSome f P none kept p h = subst (IfSome P) (ok_injective h) tt
transpose-IfSome f P (some t) kept p h =
    let (n, e, h1) = >>=-eq-ok (f t) _ h in subst (IfSome P) (ok_injective h1) (p t n e)

-- A marketing consent has a revision, and only a consent has one.
validate_marketing-is_some :
    (consent : Bool) (revision kept : Option Text)
    → validate_marketing consent revision ≡ ok kept
    → is_some kept ≡ consent
unfolding validate_marketing
validate_marketing-is_some true (some value) kept h =
    elim (Bool-cases (is_portable_identifier (trim value) max_consent_revision_bytes)) [
      | inl e ↦ ap is_some (sym (ok_injective (rw (e, validate_marketing) at h)))
      | inr e ↦ cc (rw (e, validate_marketing) at h)
    ]
validate_marketing-is_some true none kept h = cc
validate_marketing-is_some false (some value) kept h = cc
validate_marketing-is_some false none kept h = ap is_some (sym (ok_injective h))

pub record IsRegistered (request : PreInterestRegistrationRequest) (verified_host : Text)
    (v : ValidatedPreInterestRegistration) : Type 0 where
  pub host : (host_text v.source_host ≡ verified_host) × (request.source_host ≡ verified_host)
  pub party : (v.party_type ≡ request.party_type) × (v.party_type ≡ host_party_type v.source_host)
  pub consents :
      (request.registration_consent ≡ true)
      × (v.registration_consent ≡ true)
      × (v.marketing_consent ≡ request.marketing_consent)
      × (is_some v.marketing_consent_revision ≡ v.marketing_consent)
  pub email : normalize_email request.email ≡ ok v.email
  pub organization_name : OrganizationFits v.party_type v.organization_name
  pub display_name : IfSome (IsName 120) v.display_name
  pub interests : IsInterestSet request.interest_areas v.interest_areas
  pub revision :
      (v.consent_revision ≡ trim request.consent_revision)
      × (is_portable_identifier v.consent_revision 64 ≡ true)
  pub consented_at :
      (v.consented_at ≡ trim request.consented_at) × (is_rfc3339 v.consented_at ≡ true)

-- A registration that is validated comes from the verified host, which its request names and whose
-- party type it has; it was consented to, and has a marketing revision exactly if marketing was;
-- its e-mail address is the normal form of the request's; an organization, and only that, has a
-- name; names are not empty, hold no control character and are at most 200 and 120 characters long;
-- its interests are those of the request, 1 to 9, sorted and each once; its revision is a portable
-- identifier of at most 64 bytes, and its timestamp is one.
pub validate_registration-IsRegistered :
    (parse_url : Text → Option Url) (request : PreInterestRegistrationRequest)
    (verified_host : Text) (v : ValidatedPreInterestRegistration)
    → validate_registration parse_url request verified_host ≡ ok v
    → IsRegistered request verified_host v
unfolding validate_registration
validate_registration-IsRegistered parse_url request verified_host v h =
    let (host, a, h1) = >>=-eq-ok (parse_host verified_host) _ h in
    let (b, h2) =
      >>-eq-ok (fail_if (not (text_eq request.source_host verified_host)) source_host_mismatch) _
        h1 in
    let (c, h3) =
      >>-eq-ok
        (fail_if (not (party_type_eq request.party_type (host_party_type host)))
          party_host_mismatch)
        _ h2 in
    let (d, h4) =
      >>-eq-ok (fail_if (not request.registration_consent) registration_consent_required) _ h3 in
    let (email, e, h5) = >>=-eq-ok (normalize_email request.email) _ h4 in
    let (name, f, h6) =
      >>=-eq-ok (validate_organization request.party_type request.organization_name) _ h5 in
    let (display, g, h7) =
      >>=-eq-ok
        (transpose (λ value. normalize_human_text value max_display_name_chars invalid_display_name)
          request.display_name)
        _ h6 in
    let (website, i, h8) =
      >>=-eq-ok (transpose (normalize_website_url parse_url) request.website_url) _ h7 in
    let (interests, j, h9) = >>=-eq-ok (validate_interests request.interest_areas) _ h8 in
    let (k, h10) =
      >>-eq-ok
        (fail_if
          (not (is_portable_identifier (trim request.consent_revision) max_consent_revision_bytes))
          invalid_consent_revision)
        _ h9 in
    let (l, h11) =
      >>-eq-ok (fail_if (not (is_rfc3339 (trim request.consented_at))) invalid_consented_at) _
        h10 in
    let (locale, m, h12) = >>=-eq-ok (transpose normalize_locale request.locale) _ h11 in
    let (referral, n, h13) = >>=-eq-ok (transpose normalize_referral request.referral_code) _ h12 in
    let (marketing, o, h14) =
      >>=-eq-ok (validate_marketing request.marketing_consent request.marketing_consent_revision) _
        h13 in
    let same_host = (text_eq_iff request.source_host verified_host).0 (
      not-eq-false _
        (fail_if-eq-ok (not (text_eq request.source_host verified_host)) source_host_mismatch b)) in
    let same_party = party_type_eq-eq-true request.party_type (host_party_type host) (
      not-eq-false _ (
        fail_if-eq-ok (not (party_type_eq request.party_type (host_party_type host)))
          party_host_mismatch c)) in
    subst (IsRegistered request verified_host) (ok_injective h14) (record {
      host = (parse_host-eq-ok verified_host host a, same_host);
      party = (refl, same_party);
      consents = (
        not-eq-false _
            (fail_if-eq-ok (not request.registration_consent) registration_consent_required d),
        refl,
        refl,
        validate_marketing-is_some request.marketing_consent request.marketing_consent_revision
            marketing o,
      );
      email = e;
      organization_name =
          validate_organization-Fits request.party_type request.organization_name name f;
      display_name =
          transpose-IfSome _ (IsName 120) request.display_name display
            (λ t r. normalize_human_text-IsName t 120 invalid_display_name r) g;
      interests = validate_interests-IsInterestSet request.interest_areas interests j;
      revision = (
        refl,
        not-eq-false _ (
            fail_if-eq-ok
              (not
                (is_portable_identifier (trim request.consent_revision) max_consent_revision_bytes))
              invalid_consent_revision k),
      );
      consented_at = (
        refl,
        not-eq-false _
            (fail_if-eq-ok (not (is_rfc3339 (trim request.consented_at))) invalid_consented_at l),
      );
    })
