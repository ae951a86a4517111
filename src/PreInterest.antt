-- ===== src/PreInterest.antt =====
-- Pre-interest registration of src/pre_interest.rs: a request, the checks of its fields, and the
-- validated registration. UUIDs are numbers. `Url::parse` is a parameter, with what the source reads
-- of a URL. `SensitiveText` differs from a text only in how it is printed.
mod Letters
pub mod Emails
pub mod Names
pub mod Timestamps
pub mod Registrations
pub mod Digests
mod Tests
use canonical_api_server_rs.Prelude.{
  ℕ, ◌+◌, ◌*◌, ◌-◌, Bool, true, false, not, ◌&&◌, ◌||◌, List, [], ◌∷◌, ◌++◌, Option, none, some,
  Text, codes, text_eq, trim, byte_length, is_empty, is_control, is_whitespace,
  is_ascii_alphanumeric, is_ascii_alphabetic, to_ascii_lowercase, starts_with, ends_with,
  contains_text, length, any, all, ltb, leb, ◌==◌, if◌then◌else◌, head?, is_some, is_some_and,
  Result, ok, err, ok_or, fail_if, ◌>>=◌, ◌>>◌,
}

pub data PartyType : Type 0 where
  individual organization : PartyType

pub data InterestArea : Type 0 where
  readiness_assessment soc2 iso_27001 hipaa pci_dss_4 fedramp nist gdpr cmmc : InterestArea

-- `InterestArea::as_str`
unfoldable pub interest_text : InterestArea → Text
interest_text readiness_assessment = codes "readiness_assessment"
interest_text soc2 = codes "soc2"
interest_text iso_27001 = codes "iso_27001"
interest_text hipaa = codes "hipaa"
interest_text pci_dss_4 = codes "pci_dss_4"
interest_text fedramp = codes "fedramp"
interest_text nist = codes "nist"
interest_text gdpr = codes "gdpr"
interest_text cmmc = codes "cmmc"

-- The derived order of `InterestArea`: that of its constructors
abbrev pub interest_rank : InterestArea → ℕ
interest_rank readiness_assessment = 0
interest_rank soc2 = 1
interest_rank iso_27001 = 2
interest_rank hipaa = 3
interest_rank pci_dss_4 = 4
interest_rank fedramp = 5
interest_rank nist = 6
interest_rank gdpr = 7
interest_rank cmmc = 8

pub data RegistrationHost : Type 0 where
  user organization_host : RegistrationHost

pub data ValidationError : Type 0 where
  duplicate_interest empty_interest_set invalid_consent_revision invalid_consented_at
        invalid_display_name invalid_email invalid_locale invalid_marketing_consent_revision
        invalid_organization_name invalid_referral_code invalid_source_host invalid_website_url
        organization_name_forbidden organization_name_required party_host_mismatch
        registration_consent_required source_host_mismatch too_many_interests
        unexpected_marketing_consent_revision :
      ValidationError

-- `RegistrationHost::parse`, `as_str` and `party_type`
unfoldable pub parse_host : Text → Result ValidationError RegistrationHost
parse_host value =
    if text_eq value (codes "user.canonical.plus")
    then ok user
    else (if text_eq value (codes "org.canonical.plus")
        then ok organization_host
        else err invalid_source_host)

unfoldable pub host_text : RegistrationHost → Text
host_text user = codes "user.canonical.plus"
host_text organization_host = codes "org.canonical.plus"

unfoldable pub host_party_type : RegistrationHost → PartyType
host_party_type user = individual
host_party_type organization_host = organization

abbrev pub party_type_eq : PartyType → PartyType → Bool
party_type_eq individual individual = true
party_type_eq organization organization = true
party_type_eq _ _ = false

-- `split_once` at a character: the parts before and behind its first occurrence
unfoldable pub split_once : ℕ → Text → Option (Text × Text)
split_once c [] = none
split_once c (d ∷ s) =
    if d == c
    then some ([], s)
    else elim (split_once c s) [ none ↦ none | some (a, b) ↦ some (d ∷ a, b) ]

abbrev pub cons_first : ℕ → List Text → List Text
cons_first d [] = (d ∷ []) ∷ []
cons_first d (s ∷ ss) = (d ∷ s) ∷ ss

-- `split` at a character: never empty
unfoldable pub split : ℕ → Text → List Text
split c [] = [] ∷ []
split c (d ∷ s) = let rest = split c s in if d == c then [] ∷ rest else cons_first d rest

abbrev pub contains_char : ℕ → Text → Bool
contains_char c = any (λ d. d == c)

unfoldable pub valid_domain_label : Text → Bool
valid_domain_label label =
    not (is_empty label)
    && not (starts_with (codes "-") label)
    && not (ends_with (codes "-") label)
    && all (λ byte. is_ascii_alphanumeric byte || byte == b'-') label

-- MAX_EMAIL_BYTES
abbrev pub max_email_bytes : ℕ
max_email_bytes = 320

abbrev pub bad_email_text : Text → Bool
bad_email_text trimmed =
    is_empty trimmed
    || ltb max_email_bytes (byte_length trimmed)
    || not (all (λ c. ltb c 128) trimmed)
    || any (λ c. is_control c || is_whitespace c) trimmed

abbrev pub bad_email_parts : Text → Text → Bool
bad_email_parts local domain =
    is_empty local
    || is_empty domain
    || contains_char b'@' domain
    || starts_with (codes ".") local
    || ends_with (codes ".") local
    || contains_text local (codes "..")
    || not (contains_char b'.' domain)
    || not (all valid_domain_label (split b'.' domain))

unfoldable pub normalize_email : Text → Result ValidationError Text
unfolding split_once split valid_domain_label
normalize_email value = do
  let trimmed = trim value
  fail_if (bad_email_text trimmed) invalid_email
  (local, domain) ← ok_or (split_once b'@' trimmed) invalid_email
  fail_if (bad_email_parts local domain) invalid_email
  ok (to_ascii_lowercase local ++ codes "@" ++ to_ascii_lowercase domain)

-- `split_whitespace`: the runs of other characters. The first part is the word under way.
abbrev pub push_word : Text → List Text → List Text
push_word [] words = words
push_word (c ∷ word) words = (c ∷ word) ∷ words

unfoldable pub words_from : Text → Text → List Text
words_from word [] = push_word word []
words_from word (c ∷ s) =
    let broken = words_from [] s in
    let longer = words_from (word ++ c ∷ []) s in
    if is_whitespace c then push_word word broken else longer

unfoldable pub join_words : List Text → Text
join_words [] = []
join_words (w ∷ []) = w
join_words (w ∷ v ∷ ws) = w ++ codes " " ++ join_words (v ∷ ws)

unfoldable pub normalize_human_text : Text → ℕ → ValidationError → Result ValidationError Text
unfolding words_from join_words
normalize_human_text value max_chars error = do
  fail_if (any is_control value) error
  let normalized = join_words (words_from [] value)
  fail_if (is_empty normalized || ltb max_chars (length normalized)) error
  ok normalized

-- What the source reads of a `Url`, and `to_string`
pub record Url : Type 0 where
  pub scheme : Text
  pub host_str : Option Text
  pub username : Text
  pub password : Option Text
  pub fragment : Option Text
  pub text : Text

-- MAX_WEBSITE_URL_BYTES
abbrev pub max_website_url_bytes : ℕ
max_website_url_bytes = 2048

abbrev pub bad_url_text : Text → Bool
bad_url_text normalized =
    is_empty normalized
    || ltb max_website_url_bytes (byte_length normalized)
    || any is_control normalized
    || any is_whitespace normalized

abbrev pub bad_url : Url → Bool
bad_url parsed =
    not (text_eq parsed.scheme (codes "https"))
    || not (is_some parsed.host_str)
    || not (is_empty parsed.username)
    || is_some parsed.password
    || is_some parsed.fragment

unfoldable pub normalize_website_url : (Text → Option Url) → Text → Result ValidationError Text
normalize_website_url parse value = do
  let normalized = trim value
  fail_if (bad_url_text normalized) invalid_website_url
  parsed ← ok_or (parse normalized) invalid_website_url
  fail_if (bad_url parsed) invalid_website_url
  ok parsed.text

unfoldable pub is_portable_identifier : Text → ℕ → Bool
is_portable_identifier value max_bytes =
    leb (byte_length value) max_bytes
    && is_some_and is_ascii_alphanumeric (head? value)
    && all (λ byte. is_ascii_alphanumeric byte || byte == b'.' || byte == b'_' || byte == b'-')
        value

-- The language, and each further segment
abbrev pub is_language : Text → Bool
is_language language =
    leb 2 (byte_length language) && leb (byte_length language) 3 && all is_ascii_alphabetic language

abbrev pub is_subtag : Text → Bool
is_subtag segment =
    leb 2 (byte_length segment) && leb (byte_length segment) 8 && all is_ascii_alphanumeric segment

unfoldable pub is_locale : Text → Bool
unfolding split
is_locale value = elim (split b'-' value) [
  | [] ↦ false
  | language ∷ segments ↦ is_language language && all is_subtag segments
]

-- MAX_LOCALE_BYTES and MAX_REFERRAL_BYTES
abbrev pub max_locale_bytes : ℕ
max_locale_bytes = 35

abbrev pub max_referral_bytes : ℕ
max_referral_bytes = 64

unfoldable pub normalize_locale : Text → Result ValidationError Text
unfolding is_locale
normalize_locale value = do
  let normalized = trim value
  fail_if
      (ltb (byte_length normalized) 2
        || ltb max_locale_bytes (byte_length normalized)
        || not (is_locale normalized))
      invalid_locale
  ok normalized

unfoldable pub normalize_referral : Text → Result ValidationError Text
unfolding is_portable_identifier
normalize_referral value = do
  let normalized = trim value
  fail_if (not (is_portable_identifier normalized max_referral_bytes)) invalid_referral_code
  ok normalized
