-- ===== src/Auth/Subjects.antt =====
-- Who an authenticated subject is.
use canonical_api_server_rs.Prelude.{
  ◌≤◌, ◌≡◌, refl, sym, subst, ap, ◌∙◌, ◌≢◌, inl, inr, ◌↔◌, true, false, not, List, [], ◌∷◌, Option,
  none, some, Text, text_eq_iff, text_eq, text_eq_refl, byte_length, trim, all, bind_option,
  is_some, is_some_and, ok, arith, Bool-cases, >>=-eq-ok, keep_if-eq-some, some_injective, >>-eq-ok,
  ok_or-eq-ok, fail_if-eq-ok, OnlyErr, >>=-OnlyErr, ok_or-OnlyErr, fail_if-OnlyErr, if-OnlyErr,
}
use canonical_api_server_rs.Http.{HeaderMap, get, get_text, ApiError, unauthorized}
use canonical_api_server_rs.Auth.{
  AuthState, SharedAuthAuthority, Introspection, valid_subject, subject_test, is_subject_byte,
  is_key_byte, internal_token_header, subject_header, idempotency_header, bearer_of,
  authenticate_bearer, authenticate_proxy, authenticate, required_idempotency_key,
  valid_idempotency_key, map_trim,
}

pub record IsSubject (s : Text) : Type 0 where
  pub nonempty : s ≢ []
  pub bounded : byte_length s ≤ 255
  pub plain : all is_subject_byte s ≡ true

-- The two ways in: the proxy's token and its subject header, or a bearer token that the authority
-- finds active for the audience and the scopes, in a request with neither of the proxy's headers.
pub data IsVouched (headers : HeaderMap) (state : AuthState) (scopes : List Text) (s : Text)
    : Type 0 where
  by_proxy :
      (value : Text)
      → get_text internal_token_header headers ≡ some state.internal_auth_token
      → get_text subject_header headers ≡ some value
      → s ≡ trim value
      → IsVouched headers state scopes s
  by_authority :
      (authority : SharedAuthAuthority) (bearer sub : Text)
      → get_text internal_token_header headers ≡ none
      → get subject_header headers ≡ none
      → state.shared_auth ≡ some authority
      → bearer_of headers ≡ some bearer
      → authority.introspect bearer authority.audience scopes
        ≡ some (record { active = true; sub = some sub })
      → s ≡ trim sub
      → IsVouched headers state scopes s

subject_test-IsSubject : (v : Text) → subject_test v ≡ true → IsSubject v
subject_test-IsSubject [] h = cc
subject_test-IsSubject (c ∷ v) h = record {
  nonempty = λ e. cc;
  bounded = ground (arith, h);
  plain = ground (arith, h);
}

valid_subject-eq-some :
    (value s : Text) → valid_subject value ≡ some s → (s ≡ trim value) × IsSubject s
unfolding valid_subject
valid_subject-eq-some value s h = elim (Bool-cases (subject_test (trim value))) [
  | inl e ↦
      let same : trim value ≡ s = ground (arith, e, h) in
      (sym same, subst IsSubject same (subject_test-IsSubject (trim value) e))
  | inr e ↦ cc (rw (e, valid_subject) at h)
]

bind_option-eq-some :
    {A B : Type 0} (o : Option A) (f : A → Option B) {b : B}
    → bind_option o f ≡ some b
    → (a : A) × (o ≡ some a) × (f a ≡ some b)
bind_option-eq-some none f h = cc
bind_option-eq-some (some a) f h = (a, refl, h)

is_some-eq-false : {A : Type 0} (o : Option A) → is_some o ≡ false → o ≡ none
is_some-eq-false none h = refl
is_some-eq-false (some a) h = cc

active-eq :
    (i : Introspection) (sub : Text)
    → not i.active ≡ false
    → i.sub ≡ some sub
    → i ≡ record { active = true; sub = some sub }
active-eq i sub a b = ground (arith, a, b)

authenticate_bearer-IsVouched :
    (headers : HeaderMap) (state : AuthState) (scopes : List Text) (s : Text)
    → get_text internal_token_header headers ≡ none
    → get subject_header headers ≡ none
    → authenticate_bearer headers state scopes ≡ ok s
    → IsVouched headers state scopes s × IsSubject s
unfolding authenticate_bearer
authenticate_bearer-IsVouched headers state scopes s no_token no_subject h =
    let (bearer, b, h1) = >>=-eq-ok _ _ h in
    let (authority, a, h2) = >>=-eq-ok _ _ h1 in
    let (introspection, i, h3) = >>=-eq-ok _ _ h2 in
    let (active, h4) = >>-eq-ok _ _ h3 in
    let (sub, e, v) = bind_option-eq-some introspection.sub valid_subject (ok_or-eq-ok _ _ h4) in
    let (trimmed, subject) = valid_subject-eq-some sub s v in
    let same =
      active-eq introspection sub (fail_if-eq-ok (not introspection.active) unauthorized active)
        e in
    (
      by_authority authority bearer sub no_token no_subject (ok_or-eq-ok _ _ a) (ok_or-eq-ok _ _ b)
          (ok_or-eq-ok _ _ i ∙ ap some same) trimmed,
      subject,
    )

token_matches :
    (token : Option Text) (expected : Text)
    → not (is_some_and (λ t. text_eq t expected) token) ≡ false
    → token ≡ some expected
token_matches none expected h = cc
token_matches (some t) expected h = ap some ((text_eq_iff t expected).0 (ground (arith, h)))

authenticate_proxy-IsVouched :
    (headers : HeaderMap) (state : AuthState) (scopes : List Text) (s : Text)
    → authenticate_proxy headers state (get_text internal_token_header headers) ≡ ok s
    → IsVouched headers state scopes s × IsSubject s
unfolding authenticate_proxy
authenticate_proxy-IsVouched headers state scopes s h =
    let (matched, h1) = >>-eq-ok _ _ h in
    let (value, e, v) =
      bind_option-eq-some (get_text subject_header headers) valid_subject (ok_or-eq-ok _ _ h1) in
    let (trimmed, subject) = valid_subject-eq-some value s v in
    let token =
      token_matches (get_text internal_token_header headers) state.internal_auth_token
        (fail_if-eq-ok _ unauthorized matched) in
    (by_proxy value token e trimmed, subject)

-- Whoever is authenticated was vouched for by the proxy's secret token, or by the shared authority
-- in a request with no readable proxy token and no subject header, and its name has 1 to 255 bytes,
-- all of them ASCII letters, digits, `-`, `_` and `:`.
pub authenticate-IsVouched :
    (headers : HeaderMap) (state : AuthState) (scopes : List Text) (s : Text)
    → authenticate headers state scopes ≡ ok s
    → IsVouched headers state scopes s × IsSubject s
unfolding authenticate
authenticate-IsVouched headers state scopes s h =
    elim (Bool-cases (is_some (get_text internal_token_header headers))) [
      | inl t ↦ authenticate_proxy-IsVouched headers state scopes s (rw (t, authenticate) at h)
      | inr t ↦ elim (Bool-cases (is_some (get subject_header headers))) [
        | inl u ↦ authenticate_proxy-IsVouched headers state scopes s (rw (t, u, authenticate) at h)
        | inr u ↦
            authenticate_bearer-IsVouched headers state scopes s (is_some-eq-false _ t)
              (is_some-eq-false _ u) (rw (t, u, authenticate) at h)
      ]
    ]

-- A request that carries the proxy's token and a subject header whose trimmed text is a subject is
-- authenticated as that subject, whatever the shared authority says.
pub authenticate_complete :
    (headers : HeaderMap) (state : AuthState) (scopes : List Text) (value s : Text)
    → get_text internal_token_header headers ≡ some state.internal_auth_token
    → get_text subject_header headers ≡ some value
    → valid_subject value ≡ some s
    → authenticate headers state scopes ≡ ok s
unfolding authenticate authenticate_proxy
authenticate_complete headers state scopes value s t u v =
    rw (t, u, v) (ground (arith, text_eq_refl state.internal_auth_token))

abbrev pub IsRefusal : ApiError → Type 0
IsRefusal e = e ≡ unauthorized

-- Every refusal to authenticate is the error 401 `unauthorized`.
pub authenticate-OnlyErr :
    (headers : HeaderMap) (state : AuthState) (scopes : List Text)
    → OnlyErr IsRefusal (authenticate headers state scopes)
unfolding authenticate authenticate_bearer authenticate_proxy
authenticate-OnlyErr headers state scopes =
    search
      (
        if-OnlyErr IsRefusal,
        >>=-OnlyErr IsRefusal,
        ok_or-OnlyErr IsRefusal,
        fail_if-OnlyErr IsRefusal,
      )
      depth 30

pub record IsKey (headers : HeaderMap) (k : Text) : Type 0 where
  pub value : Text
  pub sent : get_text idempotency_header headers ≡ some value
  pub trimmed : k ≡ trim value
  pub long : 8 ≤ byte_length k
  pub short : byte_length k ≤ 128
  pub plain : all is_key_byte k ≡ true

pub map_trim-eq-some :
    (o : Option Text) (k : Text)
    → (map_trim o ≡ some k) ↔ ((value : Text) × (o ≡ some value) × (k ≡ trim value))
map_trim-eq-some none k = ground arith
map_trim-eq-some (some t) k =
    ((λ h. (t, refl, sym (some_injective h))), λ (v, e, h). rw (some_injective e, h) refl)

valid_idempotency_key_iff :
    (k : Text)
    → (valid_idempotency_key k ≡ true)
      ↔ ((8 ≤ byte_length k) × (byte_length k ≤ 128) × (all is_key_byte k ≡ true))
unfolding valid_idempotency_key
valid_idempotency_key_iff k = ground arith

-- The keys that are accepted are exactly the trimmed texts of the header with 8 to 128 bytes, all
-- of them ASCII letters, digits, `.`, `_`, `:`, `/` and `-`.
pub required_idempotency_key_iff :
    (headers : HeaderMap) (k : Text) → (required_idempotency_key headers ≡ ok k) ↔ IsKey headers k
unfolding required_idempotency_key
required_idempotency_key_iff headers k = (
  λ h.
      let (m, v) = (keep_if-eq-some valid_idempotency_key _ k).0 (ok_or-eq-ok _ _ h) in
      let (value, sent, trimmed) = (map_trim-eq-some _ k).0 m in
      let (long, short, plain) = (valid_idempotency_key_iff k).0 v in
      record {
        value = value;
        sent = sent;
        trimmed = trimmed;
        long = long;
        short = short;
        plain = plain;
      },
  λ h.
      let m = (map_trim-eq-some _ k).1 (h.value, h.sent, h.trimmed) in
      let v = (valid_idempotency_key_iff k).1 (h.long, h.short, h.plain) in
      rw ((keep_if-eq-some valid_idempotency_key _ k).1 (m, v)) refl,
)
