-- ===== src/DataPlane/Requests.antt =====
-- The request and response envelopes of src/web_data_plane.rs. `Value` is the type of JSON values,
-- and `to_vec` is `serde_json::to_vec`, which may fail.
use canonical_api_server_rs.Prelude.{
  ℕ, ◌≤◌, ◌≡◌, refl, ◌≢◌, ◌↔◌, Bool, true, false, not, ◌||◌, List, [], ◌∷◌, Option, none, some,
  Text, codes, text_eq, text_eq_iff, ltb, any, byte_length, trim, is_control, contains_text, ◌==◌,
  Result, ok, fail_if, ok_or, ◌>>=◌, ◌>>◌, >>=-eq-ok, >>-eq-ok, ok_or-eq-ok, length, arith,
}
use canonical_api_server_rs.DataPlane.{
  Field, dedupe_key, DataPlaneError, contract, audience, direct_database_write, serialization,
  request_too_large, response_too_large, max_request_bytes, max_response_bytes,
  max_dedupe_key_bytes, validate_identifier, validate_resource, validate_dedupe_key,
}

pub data WebApiMode : Type 0 where
  direct_read_only_database stateless_http stateful_mtls_tcp jet_stream_async : WebApiMode

pub data DataOperation : Type 0 where
  read write : DataOperation

abbrev pub web_api_contract : Text
web_api_contract = codes "canonical-cloud/web-api/v1"

abbrev pub api_audience : Text
api_audience = codes "canonical-plus-api"

pub record WebApiRequest (Value : Type 0) : Type 0 where
  pub contract : Text
  pub request_id : Text
  pub tenant_id : Text
  pub subject : Text
  pub audience : Text
  pub operation : DataOperation
  pub resource : Text
  pub payload : Value
  pub dedupe_key : Option Text

pub record WebApiResponse (Value : Type 0) : Type 0 where
  pub contract : Text
  pub request_id : Text
  pub status : ℕ
  pub payload : Value

abbrev writes_directly : WebApiMode → DataOperation → Bool
writes_directly direct_read_only_database write = true
writes_directly _ _ = false

abbrev check_dedupe_key : WebApiMode → Option Text → Result DataPlaneError (Unit {0})
check_dedupe_key jet_stream_async key = validate_dedupe_key key
check_dedupe_key _ key = ok tt

module _ {Value : Type 0} where
  unfoldable pub validate_for :
      (WebApiRequest Value → Option (List ℕ))
      → WebApiRequest Value
      → WebApiMode
      → Result DataPlaneError (Unit {0})
  validate_for to_vec r mode = do
    fail_if (not (text_eq r.contract web_api_contract)) DataPlaneError.contract
    validate_identifier Field.request_id r.request_id 128
    validate_identifier Field.tenant_id r.tenant_id 128
    validate_identifier Field.subject r.subject 255
    fail_if (not (text_eq r.audience api_audience)) DataPlaneError.audience
    validate_resource r.resource
    fail_if (writes_directly mode r.operation) direct_database_write
    check_dedupe_key mode r.dedupe_key
    encoded ← ok_or (to_vec r) serialization
    fail_if (ltb max_request_bytes (length encoded))
        (request_too_large (length encoded) max_request_bytes)

  unfoldable pub encode_bounded :
      (WebApiResponse Value → Option (List ℕ))
      → WebApiResponse Value
      → Result DataPlaneError (List ℕ)
  encode_bounded to_vec r = do
    fail_if (not (text_eq r.contract web_api_contract)) DataPlaneError.contract
    validate_identifier Field.request_id r.request_id 128
    encoded ← ok_or (to_vec r) serialization
    fail_if (ltb max_response_bytes (length encoded))
        (response_too_large (length encoded) max_response_bytes)
    ok encoded

-- An identifier of the contract, without the code's test: not empty, at most `maximum` bytes, with
-- no blanks at its ends and no control character.
pub record IsIdentifier (value : Text) (maximum : ℕ) : Type 0 where
  pub nonempty : value ≢ []
  pub bounded : byte_length value ≤ maximum
  pub trimmed : trim value ≡ value
  pub printable : any is_control value ≡ false

validate_identifier_iff :
    (f : Field) (value : Text) (maximum : ℕ)
    → (validate_identifier f value maximum ≡ ok tt) ↔ IsIdentifier value maximum
unfolding validate_identifier
validate_identifier_iff f [] maximum = ground arith
validate_identifier_iff f (c ∷ s) maximum = ground (arith, text_eq_iff (trim (c ∷ s)) (c ∷ s))

-- A resource path: rooted, at most 256 bytes, with no `..`, no query, no fragment and no control
-- character.
pub record IsResource (value : Text) : Type 0 where
  pub rest : Text
  pub rooted : value ≡ b'/' ∷ rest
  pub bounded : byte_length value ≤ 256
  pub contained : contains_text value (b'.' ∷ b'.' ∷ []) ≡ false
  pub plain : any (λ c. c == b'?' || c == b'#') value ≡ false
  pub printable : any is_control value ≡ false

validate_resource_iff : (value : Text) → (validate_resource value ≡ ok tt) ↔ IsResource value
unfolding validate_resource
validate_resource_iff [] = (λ h. cc, λ r. cc (r.rooted))
validate_resource_iff (c ∷ s) = (
  λ h. record {
    rest = s;
    rooted = ground arith;
    bounded = ground arith;
    contained = ground arith;
    plain = ground arith;
    printable = ground arith;
  },
  λ r. ground arith,
)

-- What each mode requires of the deduplication key
abbrev pub HasKey : WebApiMode → Option Text → Type 0
HasKey jet_stream_async key = (k : Text) × (key ≡ some k) × IsIdentifier k max_dedupe_key_bytes
HasKey _ key = Unit

writes_directly-eq-false :
    (mode : WebApiMode) (o : DataOperation)
    → (mode ≡ direct_read_only_database → o ≡ read)
    → writes_directly mode o ≡ false
writes_directly-eq-false mode o h = ground arith

le→ltb_false : (m n : ℕ) → n ≤ m → ltb m n ≡ false
le→ltb_false m n h = ground arith

check_dedupe_key-HasKey :
    (mode : WebApiMode) (key : Option Text) → check_dedupe_key mode key ≡ ok tt → HasKey mode key
unfolding validate_dedupe_key
check_dedupe_key-HasKey jet_stream_async none h = cc
check_dedupe_key-HasKey jet_stream_async (some k) h =
    (k, refl, (validate_identifier_iff _ k max_dedupe_key_bytes).0 h)
check_dedupe_key-HasKey direct_read_only_database key h = tt
check_dedupe_key-HasKey stateless_http key h = tt
check_dedupe_key-HasKey stateful_mtls_tcp key h = tt

check_dedupe_key_complete :
    (mode : WebApiMode) (key : Option Text) → HasKey mode key → check_dedupe_key mode key ≡ ok tt
unfolding validate_dedupe_key
check_dedupe_key_complete jet_stream_async key (k, e, h) =
    rw e ((validate_identifier_iff dedupe_key k max_dedupe_key_bytes).1 h)
check_dedupe_key_complete direct_read_only_database key h = refl
check_dedupe_key_complete stateless_http key h = refl
check_dedupe_key_complete stateful_mtls_tcp key h = refl

module _ {Value : Type 0} (to_vec : WebApiRequest Value → Option (List ℕ)) where
  pub record IsAdmissible (r : WebApiRequest Value) (mode : WebApiMode) : Type 0 where
    pub contracted : r.contract ≡ web_api_contract
    pub requested : IsIdentifier r.request_id 128
    pub owned : IsIdentifier r.tenant_id 128
    pub authored : IsIdentifier r.subject 255
    pub addressed : r.audience ≡ api_audience
    pub located : IsResource r.resource
    pub reads : mode ≡ direct_read_only_database → r.operation ≡ read
    pub keyed : HasKey mode r.dedupe_key
    pub encoded : List ℕ
    pub encodes : to_vec r ≡ some encoded
    pub fits : length encoded ≤ max_request_bytes

  validate_for-IsAdmissible :
      (r : WebApiRequest Value) (mode : WebApiMode)
      → validate_for to_vec r mode ≡ ok tt
      → IsAdmissible r mode
  unfolding validate_for
  validate_for-IsAdmissible r mode h =
      let (contracted, h1) =
        >>-eq-ok (fail_if (not (text_eq r.contract web_api_contract)) contract) _ h in
      let (requested, h2) = >>-eq-ok (validate_identifier Field.request_id r.request_id 128) _ h1 in
      let (owned, h3) = >>-eq-ok (validate_identifier Field.tenant_id r.tenant_id 128) _ h2 in
      let (authored, h4) = >>-eq-ok (validate_identifier Field.subject r.subject 255) _ h3 in
      let (addressed, h5) =
        >>-eq-ok (fail_if (not (text_eq r.audience api_audience)) audience) _ h4 in
      let (located, h6) = >>-eq-ok (validate_resource r.resource) _ h5 in
      let (reads, h7) =
        >>-eq-ok (fail_if (writes_directly mode r.operation) direct_database_write) _ h6 in
      let (keyed, h8) = >>-eq-ok (check_dedupe_key mode r.dedupe_key) _ h7 in
      let (encoded, encodes, fits) = >>=-eq-ok (ok_or (to_vec r) serialization) _ h8 in
      record {
        contracted = ground (arith, text_eq_iff r.contract web_api_contract);
        requested = (validate_identifier_iff _ r.request_id 128).0 requested;
        owned = (validate_identifier_iff _ r.tenant_id 128).0 owned;
        authored = (validate_identifier_iff _ r.subject 255).0 authored;
        addressed = ground (arith, text_eq_iff r.audience api_audience);
        located = (validate_resource_iff r.resource).0 located;
        reads = ground arith;
        keyed = check_dedupe_key-HasKey mode r.dedupe_key keyed;
        encoded = encoded;
        encodes = ok_or-eq-ok (to_vec r) serialization encodes;
        fits = ground arith;
      }

  validate_for_complete :
      (r : WebApiRequest Value) (mode : WebApiMode)
      → IsAdmissible r mode
      → validate_for to_vec r mode ≡ ok tt
  unfolding validate_for
  validate_for_complete r mode a = rw (
    (validate_resource_iff r.resource).1 a.located,
    (validate_identifier_iff Field.request_id r.request_id 128).1 a.requested,
    (validate_identifier_iff Field.tenant_id r.tenant_id 128).1 a.owned,
    (validate_identifier_iff Field.subject r.subject 255).1 a.authored,
    check_dedupe_key_complete mode r.dedupe_key a.keyed,
    a.encodes,
    a.contracted,
    a.addressed,
    writes_directly-eq-false mode r.operation a.reads,
    le→ltb_false _ _ a.fits,
  )

  -- A request is admitted in a mode exactly when it satisfies the whole contract: its version and
  -- audience, three identifiers, a resource path, no write over the direct database path, a
  -- deduplication key over JetStream, and an encoding of at most 65,536 bytes.
  pub validate_for_iff :
      (r : WebApiRequest Value) (mode : WebApiMode)
      → (validate_for to_vec r mode ≡ ok tt) ↔ IsAdmissible r mode
  validate_for_iff r mode = (validate_for-IsAdmissible r mode, validate_for_complete r mode)

module _ {Value : Type 0} (to_vec : WebApiResponse Value → Option (List ℕ)) where
  -- A response that is encoded carries the contract's version and an identifier, and its bytes are
  -- those of its encoding, at most 262,144 of them.
  pub encode_bounded-le :
      (r : WebApiResponse Value) (bytes : List ℕ)
      → encode_bounded to_vec r ≡ ok bytes
      → (to_vec r ≡ some bytes)
        × (length bytes ≤ max_response_bytes)
        × (r.contract ≡ web_api_contract)
        × IsIdentifier r.request_id 128
  unfolding encode_bounded
  encode_bounded-le r bytes h =
      let (contracted, h1) =
        >>-eq-ok (fail_if (not (text_eq r.contract web_api_contract)) contract) _ h in
      let (requested, h2) = >>-eq-ok (validate_identifier Field.request_id r.request_id 128) _ h1 in
      let (encoded, encodes, h3) = >>=-eq-ok (ok_or (to_vec r) serialization) _ h2 in
      let vec = ok_or-eq-ok (to_vec r) serialization encodes in
      (
        ground arith,
        ground arith,
        ground (arith, text_eq_iff r.contract web_api_contract),
        (validate_identifier_iff _ r.request_id 128).0 requested,
      )
