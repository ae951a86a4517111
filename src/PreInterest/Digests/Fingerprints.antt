-- ===== src/PreInterest/Digests/Fingerprints.antt =====
-- What the fingerprint of a request covers.
use canonical_api_server_rs.Prelude.{
  ℕ, ◌≡◌, refl, sym, ◌∙◌, ap, ◌≢◌, Bool, true, false, List, [], ◌∷◌, ◌++◌, Option, some, Text,
  IfSome, find, length, text_eq, arith, some_injective,
}
use mathlib.Core.List.{append_assoc, append-nil}
use canonical_api_server_rs.PreInterest.{
  PartyType, individual, organization, InterestArea, readiness_assessment, soc2, iso_27001, hipaa,
  pci_dss_4, fedramp, nist, gdpr, cmmc, interest_text, RegistrationHost, user, organization_host,
  host_text,
}
use canonical_api_server_rs.PreInterest.Registrations.{ValidatedPreInterestRegistration}
use canonical_api_server_rs.PreInterest.Digests.{
  field_bytes, optional_bytes, interest_bytes, party_type_name, boolean_name, fingerprint_bytes,
}
use canonical_api_server_rs.PreInterest.Digests.Encodings.{
  IsNulFree, has_colon, field_bytes-injective, optional_bytes-injective,
}

-- The fixed names hold neither the code point 0 nor a colon, and differ.
interest_text-plain :
    (a : InterestArea) → IsNulFree (interest_text a) × (has_colon (interest_text a) ≡ false)
unfolding interest_text
interest_text-plain readiness_assessment = (refl, refl)
interest_text-plain soc2 = (refl, refl)
interest_text-plain iso_27001 = (refl, refl)
interest_text-plain hipaa = (refl, refl)
interest_text-plain pci_dss_4 = (refl, refl)
interest_text-plain fedramp = (refl, refl)
interest_text-plain nist = (refl, refl)
interest_text-plain gdpr = (refl, refl)
interest_text-plain cmmc = (refl, refl)

interest_of : Text → Option InterestArea
unfolding interest_text
interest_of t =
    find (λ a. text_eq (interest_text a) t)
      (readiness_assessment ∷ soc2 ∷ iso_27001 ∷ hipaa ∷ pci_dss_4 ∷ fedramp ∷ nist ∷ gdpr ∷ cmmc
        ∷ [])

interest_of-interest_text : (a : InterestArea) → interest_of (interest_text a) ≡ some a
unfolding interest_text interest_of
interest_of-interest_text readiness_assessment = refl
interest_of-interest_text soc2 = refl
interest_of-interest_text iso_27001 = refl
interest_of-interest_text hipaa = refl
interest_of-interest_text pci_dss_4 = refl
interest_of-interest_text fedramp = refl
interest_of-interest_text nist = refl
interest_of-interest_text gdpr = refl
interest_of-interest_text cmmc = refl

interest_text-injective : (a b : InterestArea) → interest_text a ≡ interest_text b → a ≡ b
interest_text-injective a b h =
    some_injective
      (sym (interest_of-interest_text a) ∙ (ap interest_of h ∙ interest_of-interest_text b))

colon_apart : (s t : Text) → has_colon s ≡ false → has_colon t ≡ true → s ≢ t
colon_apart s t h k e = cc

-- The interests end where the field behind the next one holds a colon: the revision holds none, and
-- the timestamp behind it does.
no_interest :
    (o : InterestArea) (others : List InterestArea) (revision revision' at at' : Text)
    (x y : List ℕ)
    → IsNulFree revision × (has_colon revision ≡ false)
    → IsNulFree revision' × (has_colon revision' ≡ false)
    → IsNulFree at × (has_colon at ≡ true)
    → field_bytes revision ++ (field_bytes at ++ x)
      ≢ interest_bytes (o ∷ others) ++ (field_bytes revision' ++ (field_bytes at' ++ y))
unfolding interest_bytes
no_interest o [] r r' t t' x y (a, b) (a', b') (c, d) h =
    let (p, q) = interest_text-plain o in
    let (same, rest) =
      field_bytes-injective r (interest_text o) _ _ a p
        (h ∙ append_assoc (field_bytes (interest_text o)) [] _) in
    let (times, behind) = field_bytes-injective t r' x _ c a' rest in
    colon_apart r' t b' d (sym times)
no_interest o (u ∷ others) r r' t t' x y (a, b) (a', b') (c, d) h =
    let (p, q) = interest_text-plain o in
    let (p', q') = interest_text-plain u in
    let (same, rest) =
      field_bytes-injective r (interest_text o) _ _ a p
        (h ∙ append_assoc (field_bytes (interest_text o)) (interest_bytes (u ∷ others)) _) in
    let (times, behind) =
      field_bytes-injective t (interest_text u) x _ c p'
        (rest ∙ append_assoc (field_bytes (interest_text u)) (interest_bytes others) _) in
    colon_apart (interest_text u) t q' d (sym times)

interest_bytes-injective :
    (areas others : List InterestArea) (revision revision' at at' : Text) (x y : List ℕ)
    → IsNulFree revision × (has_colon revision ≡ false)
    → IsNulFree revision' × (has_colon revision' ≡ false)
    → IsNulFree at × (has_colon at ≡ true)
    → IsNulFree at' × (has_colon at' ≡ true)
    → interest_bytes areas ++ (field_bytes revision ++ (field_bytes at ++ x))
      ≡ interest_bytes others ++ (field_bytes revision' ++ (field_bytes at' ++ y))
    → (areas ≡ others) × (revision ≡ revision') × (at ≡ at') × (x ≡ y)
unfolding interest_bytes
interest_bytes-injective [] [] r r' t t' x y (a, b) (a', b') (c, d) (c', d') h =
    let (same, rest) = field_bytes-injective r r' _ _ a a' h in
    let (times, behind) = field_bytes-injective t t' x y c c' rest in (refl, same, times, behind)
interest_bytes-injective [] (o ∷ others) r r' t t' x y a b c d h =
    absurd (no_interest o others r r' t t' x y a b c h)
interest_bytes-injective (o ∷ areas) [] r r' t t' x y a b c d h =
    absurd (no_interest o areas r' r t' t y x b a d (sym h))
interest_bytes-injective (o ∷ areas) (u ∷ others) r r' t t' x y a b c d h =
    let (same, rest) =
      field_bytes-injective (interest_text o) (interest_text u) _ _ (interest_text-plain o).0
        (interest_text-plain u).0
        (sym (append_assoc (field_bytes (interest_text o)) (interest_bytes areas) _)
          ∙ (h ∙ append_assoc (field_bytes (interest_text u)) (interest_bytes others) _)) in
    let (tails, revisions, times, behind) =
      interest_bytes-injective areas others r r' t t' x y a b c d rest in
    (cc (interest_text-injective o u same, tails), revisions, times, behind)

host_name :
    (h g : RegistrationHost) → IsNulFree (host_text h) × ((host_text h ≡ host_text g) → h ≡ g)
unfolding host_text
host_name user user = (refl, λ e. refl)
host_name user organization_host = (refl, λ e. cc)
host_name organization_host user = (refl, λ e. cc)
host_name organization_host organization_host = (refl, λ e. refl)

party_name :
    (p q : PartyType)
    → IsNulFree (party_type_name p) × ((party_type_name p ≡ party_type_name q) → p ≡ q)
unfolding party_type_name
party_name individual individual = (refl, λ e. refl)
party_name individual organization = (refl, λ e. absurd (omega (arith, ap length e)))
party_name organization individual = (refl, λ e. absurd (omega (arith, ap length e)))
party_name organization organization = (refl, λ e. refl)

consent_name :
    (p q : Bool) → IsNulFree (boolean_name p) × ((boolean_name p ≡ boolean_name q) → p ≡ q)
unfolding boolean_name
consent_name true true = (refl, λ e. refl)
consent_name true false = (refl, λ e. cc)
consent_name false true = (refl, λ e. cc)
consent_name false false = (refl, λ e. refl)

-- No text holds the code point 0; the timestamp holds a colon, and the revision does not.
pub record IsEncodable (v : ValidatedPreInterestRegistration) : Type 0 where
  pub email : IsNulFree v.email
  pub organization_name : IfSome IsNulFree v.organization_name
  pub revision : IsNulFree v.consent_revision × (has_colon v.consent_revision ≡ false)
  pub consented_at : IsNulFree v.consented_at × (has_colon v.consented_at ≡ true)
  pub locale : IfSome IsNulFree v.locale
  pub referral_code : IfSome IsNulFree v.referral_code
  pub display_name : IfSome IsNulFree v.display_name
  pub website_url : IfSome IsNulFree v.website_url
  pub marketing : IfSome IsNulFree v.marketing_consent_revision

-- Two registrations that agree in all but the id of the request
pub record IsSameContent (v w : ValidatedPreInterestRegistration) : Type 0 where
  pub email : v.email ≡ w.email
  pub party_type : v.party_type ≡ w.party_type
  pub organization_name : v.organization_name ≡ w.organization_name
  pub interest_areas : v.interest_areas ≡ w.interest_areas
  pub consent_revision : v.consent_revision ≡ w.consent_revision
  pub consented_at : v.consented_at ≡ w.consented_at
  pub source_host : v.source_host ≡ w.source_host
  pub locale : v.locale ≡ w.locale
  pub referral_code : v.referral_code ≡ w.referral_code
  pub display_name : v.display_name ≡ w.display_name
  pub website_url : v.website_url ≡ w.website_url
  pub registration_consent : v.registration_consent ≡ w.registration_consent
  pub marketing_consent : v.marketing_consent ≡ w.marketing_consent
  pub marketing_consent_revision : v.marketing_consent_revision ≡ w.marketing_consent_revision

-- The bytes of the fingerprint tell any two registrations apart that differ in more than the id of
-- the request: no two lists of fields run into the same bytes, the list of interests included, as
-- long as no text holds the code point 0, the timestamps hold a colon and the revisions do not.
pub fingerprint_bytes-injective :
    (v w : ValidatedPreInterestRegistration)
    → IsEncodable v
    → IsEncodable w
    → fingerprint_bytes v ≡ fingerprint_bytes w
    → IsSameContent v w
unfolding fingerprint_bytes
fingerprint_bytes-injective v w a b h =
    let (e1, h1) = field_bytes-injective v.email w.email _ _ a.email b.email h in
    let (plain_party, party) = party_name v.party_type w.party_type in
    let (e2, h2) =
      field_bytes-injective (party_type_name v.party_type) (party_type_name w.party_type) _ _
        plain_party (party_name w.party_type v.party_type).0 h1 in
    let (e3, h3) =
      optional_bytes-injective v.organization_name w.organization_name _ _ a.organization_name
        b.organization_name h2 in
    let (e4, e5, e6, h4) =
      interest_bytes-injective v.interest_areas w.interest_areas v.consent_revision
        w.consent_revision v.consented_at w.consented_at _ _ a.revision b.revision a.consented_at
        b.consented_at h3 in
    let (plain_host, host) = host_name v.source_host w.source_host in
    let (e7, h5) =
      field_bytes-injective (host_text v.source_host) (host_text w.source_host) _ _ plain_host
        (host_name w.source_host v.source_host).0 h4 in
    let (e8, h6) = optional_bytes-injective v.locale w.locale _ _ a.locale b.locale h5 in
    let (e9, h7) =
      optional_bytes-injective v.referral_code w.referral_code _ _ a.referral_code b.referral_code
        h6 in
    let (e10, h8) =
      optional_bytes-injective v.display_name w.display_name _ _ a.display_name b.display_name h7 in
    let (e11, h9) =
      optional_bytes-injective v.website_url w.website_url _ _ a.website_url b.website_url h8 in
    let (plain_consent, consent) = consent_name v.registration_consent w.registration_consent in
    let (e12, h10) =
      field_bytes-injective (boolean_name v.registration_consent)
        (boolean_name w.registration_consent) _ _ plain_consent
        (consent_name w.registration_consent v.registration_consent).0 h9 in
    let (plain_marketing, marketing) = consent_name v.marketing_consent w.marketing_consent in
    let (e13, h11) =
      field_bytes-injective (boolean_name v.marketing_consent) (boolean_name w.marketing_consent) _
        _ plain_marketing (consent_name w.marketing_consent v.marketing_consent).0 h10 in
    let (e14, h12) =
      optional_bytes-injective v.marketing_consent_revision w.marketing_consent_revision [] []
        a.marketing b.marketing
        (append-nil (optional_bytes v.marketing_consent_revision)
          ∙ (h11 ∙ sym (append-nil (optional_bytes w.marketing_consent_revision)))) in
    record {
      email = e1;
      party_type = party e2;
      organization_name = e3;
      interest_areas = e4;
      consent_revision = e5;
      consented_at = e6;
      source_host = host e7;
      locale = e8;
      referral_code = e9;
      display_name = e10;
      website_url = e11;
      registration_consent = consent e12;
      marketing_consent = marketing e13;
      marketing_consent_revision = e14;
    }
