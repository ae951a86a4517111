-- ===== src/PreInterest/Digests/Encodings.antt =====
-- That fields and optional fields are read back from the bytes that they add to the MAC.
use canonical_api_server_rs.Prelude.{
  ℕ, ◌≡◌, refl, sym, ◌∙◌, ap, ◌≢◌, inl, inr, Bool, false, List, [], ◌∷◌, ◌++◌, Option, none, some,
  Text, Bool-cases, arith, any, ◌==◌, ==_iff, IfSome,
}
use mathlib.Core.List.{append_assoc}
use canonical_api_server_rs.PreInterest.Digests.{utf8_char, as_bytes, field_bytes, optional_bytes}

-- The first byte tells how many follow.
utf8_char-injective :
    (c d : ℕ) (x y : List ℕ) → utf8_char c ++ x ≡ utf8_char d ++ y → (c ≡ d) × (x ≡ y)
unfolding utf8_char
utf8_char-injective c d x y h = ground (arith, h)

-- Texts without the code point 0, and texts without or with a colon
abbrev pub IsNulFree : Text → Type 0
IsNulFree t = any (λ c. c == 0) t ≡ false

abbrev pub has_colon : Text → Bool
has_colon = any (λ c. c == b':')

nul_first : (x : List ℕ) → utf8_char 0 ++ x ≡ 0 ∷ x
unfolding utf8_char
nul_first x = refl

not_nul : (c : ℕ) (s : Text) → IsNulFree (c ∷ s) → c ≢ 0
not_nul c s h e = cc (rw ((==_iff c 0).1 e) at h)

tail_free : (c : ℕ) (s : Text) → IsNulFree (c ∷ s) → IsNulFree s
tail_free c s h = elim (Bool-cases (c == 0)) [ inl e ↦ cc (rw e at h) | inr e ↦ rw e at h ]

as_bytes-injective :
    (s t : Text) (x y : List ℕ)
    → IsNulFree s
    → IsNulFree t
    → as_bytes s ++ 0 ∷ x ≡ as_bytes t ++ 0 ∷ y
    → (s ≡ t) × (x ≡ y)
unfolding as_bytes
as_bytes-injective [] [] x y p q h = (refl, cc h)
as_bytes-injective [] (d ∷ t) x y p q h =
    let (same, rest) =
      utf8_char-injective 0 d x (as_bytes t ++ 0 ∷ y)
        (nul_first x ∙ (h ∙ append_assoc (utf8_char d) (as_bytes t) (0 ∷ y))) in
    absurd (not_nul d t q (sym same))
as_bytes-injective (c ∷ s) [] x y p q h =
    let (same, rest) =
      utf8_char-injective c 0 (as_bytes s ++ 0 ∷ x) y
        (sym (append_assoc (utf8_char c) (as_bytes s) (0 ∷ x)) ∙ (h ∙ sym (nul_first y))) in
    absurd (not_nul c s p same)
as_bytes-injective (c ∷ s) (d ∷ t) x y p q h =
    let (same, rest) = utf8_char-injective c d (as_bytes s ++ 0 ∷ x) (as_bytes t ++ 0 ∷ y) (
      sym (append_assoc (utf8_char c) (as_bytes s) (0 ∷ x))
      ∙ (h ∙ append_assoc (utf8_char d) (as_bytes t) (0 ∷ y))) in
    let (texts, behind) = as_bytes-injective s t x y (tail_free c s p) (tail_free d t q) rest in
    (cc (same, texts), behind)

-- A field ends at its first byte 0.
pub field_bytes-injective :
    (s t : Text) (x y : List ℕ)
    → IsNulFree s
    → IsNulFree t
    → field_bytes s ++ x ≡ field_bytes t ++ y
    → (s ≡ t) × (x ≡ y)
unfolding field_bytes
field_bytes-injective s t x y p q h =
    as_bytes-injective s t x y p q
      (sym (append_assoc (as_bytes s) (0 ∷ []) x) ∙ (h ∙ append_assoc (as_bytes t) (0 ∷ []) y))

pub optional_bytes-injective :
    (o p : Option Text) (x y : List ℕ)
    → IfSome IsNulFree o
    → IfSome IsNulFree p
    → optional_bytes o ++ x ≡ optional_bytes p ++ y
    → (o ≡ p) × (x ≡ y)
unfolding optional_bytes
optional_bytes-injective none none x y a b h = (refl, cc h)
optional_bytes-injective none (some t) x y a b h = cc
optional_bytes-injective (some s) none x y a b h = cc
optional_bytes-injective (some s) (some t) x y a b h =
    let (same, rest) = field_bytes-injective s t x y a b (cc h) in (ap some same, rest)
