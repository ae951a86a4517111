-- ===== src/PreInterest/Emails.antt =====
-- The normal form of an e-mail address in src/pre_interest.rs.
use canonical_api_server_rs.Prelude.{
  ℕ, ◌≡◌, refl, sym, ◌∙◌, ap, subst, inl, inr, Bool, true, false, ◌||◌, [], ◌∷◌, ◌++◌, Option, none,
  some, Text, codes, trim, trim_start, is_empty, is_control, is_whitespace, to_ascii_lower,
  to_ascii_lowercase, any, ltb, ◌==◌, ==_iff, Result, ok, ok_or, fail_if, ◌>>=◌, ◌>>◌, Bool-cases,
  Option-cases, arith, >>=-eq-ok, >>-eq-ok, fail_if-eq-ok, ok_or-eq-ok, ok_injective,
  some_injective,
}
use mathlib.Core.List.{reverse, reverse-cons, reverse-reverse, map-append}
use canonical_api_server_rs.PreInterest.{
  ValidationError, invalid_email, split_once, bad_email_text, bad_email_parts, normalize_email,
}
use canonical_api_server_rs.PreInterest.Letters.{
  lowercase_idem, trim-lower, byte_length-lower, is_empty-lower, starts-dot, ends-dot,
  contains-dots, split-lower, labels-lower, all-lower, any-lower, lower-whitespace, lower-control,
  lower-ascii, lower-dot, lower-at,
}

-- From the trimmed text on
normalize_trimmed : Text → Result ValidationError Text
normalize_trimmed trimmed = do
  fail_if (bad_email_text trimmed) invalid_email
  (local, domain) ← ok_or (split_once b'@' trimmed) invalid_email
  fail_if (bad_email_parts local domain) invalid_email
  ok (to_ascii_lowercase local ++ codes "@" ++ to_ascii_lowercase domain)

normalize_email-eq : (value : Text) → normalize_email value ≡ normalize_trimmed (trim value)
unfolding normalize_email normalize_trimmed
normalize_email-eq value = refl

bad_email_text-lower : (s : Text) → bad_email_text (to_ascii_lowercase s) ≡ bad_email_text s
bad_email_text-lower s =
    rw
      (
        is_empty-lower s,
        byte_length-lower s,
        all-lower (λ c. ltb c 128) s lower-ascii,
        any-lower (λ c. is_control c || is_whitespace c) s
            (λ c. rw (lower-control c, lower-whitespace c) refl),
      )
      refl

bad_email_parts-lower :
    (s t : Text)
    → bad_email_parts (to_ascii_lowercase s) (to_ascii_lowercase t) ≡ bad_email_parts s t
bad_email_parts-lower s t =
    rw
      (
        is_empty-lower s,
        is_empty-lower t,
        any-lower (λ d. d == b'@') t lower-at,
        starts-dot s,
        ends-dot s,
        contains-dots s,
        any-lower (λ d. d == b'.') t lower-dot,
        split-lower t,
        labels-lower _,
      )
      refl

abbrev lower_parts : Option (Text × Text) → Option (Text × Text)
lower_parts none = none
lower_parts (some (s, t)) = some (to_ascii_lowercase s, to_ascii_lowercase t)

split_once-lower :
    (s : Text) → split_once b'@' (to_ascii_lowercase s) ≡ lower_parts (split_once b'@' s)
unfolding split_once
split_once-lower [] = refl
split_once-lower (c ∷ s) = elim (Bool-cases (c == b'@')) [
  | inl e ↦ rw (lower-at c, e) refl
  | inr e ↦ elim (Option-cases (split_once b'@' s)) [
    | inl n ↦ rw (lower-at c, e, split_once-lower s, n) refl
    | inr ((a, b), n) ↦ rw (lower-at c, e, split_once-lower s, n) refl
  ]
]

abbrev from_parts : Option (Text × Text) → Result ValidationError Text
from_parts parts = ok_or parts invalid_email >>= λ (p : Text × Text).
    fail_if (bad_email_parts p.0 p.1) invalid_email
    >> ok (to_ascii_lowercase p.0 ++ codes "@" ++ to_ascii_lowercase p.1)

from_parts-lower : (o : Option (Text × Text)) → from_parts (lower_parts o) ≡ from_parts o
from_parts-lower none = refl
from_parts-lower (some (s, t)) =
    rw (bad_email_parts-lower s t, lowercase_idem s, lowercase_idem t) refl

normalize_trimmed-lower :
    (s : Text) → normalize_trimmed (to_ascii_lowercase s) ≡ normalize_trimmed s
unfolding normalize_trimmed
normalize_trimmed-lower s =
    rw (bad_email_text-lower s, split_once-lower s)
      (ap (λ k. fail_if (bad_email_text s) invalid_email >> k)
        (from_parts-lower (split_once b'@' s)))

pub normalize_email-lower :
    (value : Text) → normalize_email (to_ascii_lowercase value) ≡ normalize_email value
normalize_email-lower value =
    normalize_email-eq (to_ascii_lowercase value)
    ∙ (ap normalize_trimmed (trim-lower value)
        ∙ (normalize_trimmed-lower (trim value) ∙ sym (normalize_email-eq value)))

-- Texts without white space
abbrev is_space_or_control : ℕ → Bool
is_space_or_control c = is_control c || is_whitespace c

any-append :
    (p : ℕ → Bool) (s t : Text) → any p s ≡ false → any p t ≡ false → any p (s ++ t) ≡ false
any-append p [] t h k = k
any-append p (c ∷ s) t h k = ground (arith, h, any-append p s t)

any-reverse : (p : ℕ → Bool) (s : Text) → any p s ≡ false → any p (reverse s) ≡ false
any-reverse p [] h = refl
any-reverse p (c ∷ s) h =
    subst (λ t. any p t ≡ false) (sym (reverse-cons c s))
      (any-append p (reverse s) (c ∷ []) (any-reverse p s (ground (arith, h))) (ground (arith, h)))

trim_start-id : (s : Text) → any is_space_or_control s ≡ false → trim_start s ≡ s
unfolding trim_start
trim_start-id [] h = refl
trim_start-id (c ∷ s) h =
    let solid : is_whitespace c ≡ false = solid_head c (any is_space_or_control s) h in
    rw solid refl
  where
    solid_head : (c : ℕ) (b : Bool) → (is_space_or_control c || b) ≡ false → is_whitespace c ≡ false
    solid_head c b h = first (is_control c) (is_whitespace c) b h
      where
        first : (p q b : Bool) → ((p || q) || b) ≡ false → q ≡ false
        first true q b h = cc
        first false true b h = cc
        first false false b h = refl

trim-id : (s : Text) → any is_space_or_control s ≡ false → trim s ≡ s
unfolding trim
trim-id s h =
    ap (λ t. reverse (trim_start (reverse t))) (trim_start-id s h)
    ∙ (ap reverse (trim_start-id (reverse s) (any-reverse is_space_or_control s h))
        ∙ reverse-reverse s)

split_once-append : (s a b : Text) → split_once b'@' s ≡ some (a, b) → s ≡ a ++ codes "@" ++ b
unfolding split_once
split_once-append [] a b h = cc
split_once-append (c ∷ s) a b h = elim (Bool-cases (c == b'@')) [
  | inl e ↦
      let same : ([], s) ≡ (a, b) = some_injective (rw e at h) in
      let at_sign = (==_iff c b'@').0 e in
      rw at_sign (ap (λ (p : Text × Text). p.0 ++ codes "@" ++ p.1) same)
  | inr e ↦ elim (Option-cases (split_once b'@' s)) [
    | inl n ↦ cc (rw (e, n) at h)
    | inr ((x, y), n) ↦
        let same : (c ∷ x, y) ≡ (a, b) = some_injective (rw (e, n) at h) in
        ap (◌∷◌ c) (split_once-append s x y n)
        ∙ ap (λ (p : Text × Text). p.0 ++ codes "@" ++ p.1) same
  ]
]

not_spaced : (t : Text) → bad_email_text t ≡ false → any is_space_or_control t ≡ false
not_spaced t h = last (is_empty t) _ _ (any is_space_or_control t) h
  where
    last : (p q r s : Bool) → (((p || q) || r) || s) ≡ false → s ≡ false
    last true q r s h = cc
    last false true r s h = cc
    last false false true s h = cc
    last false false false s h = h

normalize_trimmed-eq-ok :
    (t e : Text)
    → normalize_trimmed t ≡ ok e
    → (e ≡ to_ascii_lowercase t) × (any is_space_or_control t ≡ false)
unfolding normalize_trimmed
normalize_trimmed-eq-ok t e h =
    let (plain, h1) = >>-eq-ok (fail_if (bad_email_text t) invalid_email) _ h in
    let ((a, b), parts, h2) = >>=-eq-ok (ok_or (split_once b'@' t) invalid_email) _ h1 in
    let (good, h3) = >>-eq-ok (fail_if (bad_email_parts a b) invalid_email) _ h2 in
    let whole = split_once-append t a b (ok_or-eq-ok _ _ parts) in
    (
      sym (ok_injective h3) ∙ (sym (lower-parts a b) ∙ ap to_ascii_lowercase (sym whole)),
      not_spaced t (fail_if-eq-ok (bad_email_text t) invalid_email plain),
    )
  where
    lower-parts :
        (a b : Text)
        → to_ascii_lowercase (a ++ codes "@" ++ b)
          ≡ to_ascii_lowercase a ++ codes "@" ++ to_ascii_lowercase b
    lower-parts a b =
        map-append to_ascii_lower (a ++ codes "@") b
        ∙ ap (λ s. s ++ to_ascii_lowercase b) (map-append to_ascii_lower a (codes "@"))

-- Two addresses that differ only in the case of ASCII letters have the same normal form, or the
-- same error; and a normal form is the normal form of itself.
pub normalize_email-IsCanonical :
    (value : Text)
    → (normalize_email (to_ascii_lowercase value) ≡ normalize_email value)
      × ((e : Text) → normalize_email value ≡ ok e → normalize_email e ≡ ok e)
normalize_email-IsCanonical value = (
  normalize_email-lower value,
  λ e h.
      let trimmed = sym (normalize_email-eq value) ∙ h in
      let (lower, plain) = normalize_trimmed-eq-ok (trim value) e trimmed in
      let solid : any is_space_or_control e ≡ false =
        subst (λ s. any is_space_or_control s ≡ false) (sym lower)
          (any-lower is_space_or_control (trim value)
              (λ c. rw (lower-control c, lower-whitespace c) refl)
            ∙ plain) in
      normalize_email-eq e
      ∙ (ap normalize_trimmed (trim-id e solid ∙ lower)
          ∙ (normalize_trimmed-lower (trim value) ∙ trimmed)),
)
