-- ===== src/PreInterest/Letters.antt =====
-- What the checks of src/pre_interest.rs do not see: the case of ASCII letters.
use canonical_api_server_rs.Prelude.{
  ℕ, ◌≡◌, refl, sym, ◌∙◌, ap, inl, inr, Bool, ◌||◌, List, [], ◌∷◌, map, Text, codes, trim,
  trim_start, byte_length, utf8_width, is_empty, is_control, is_whitespace, is_ascii_alphanumeric,
  to_ascii_lower, to_ascii_lowercase, starts_with, ends_with, contains_text, any, all, ltb, ◌==◌,
  Bool-cases, arith,
}
use mathlib.Core.List.{reverse, reverse_aux}
use canonical_api_server_rs.PreInterest.{split, cons_first, valid_domain_label}

-- What an ASCII letter's case does not change
lower_idem : (c : ℕ) → to_ascii_lower (to_ascii_lower c) ≡ to_ascii_lower c
lower_idem c = ground arith

pub lower-whitespace : (c : ℕ) → is_whitespace (to_ascii_lower c) ≡ is_whitespace c
lower-whitespace c = ground arith

pub lower-control : (c : ℕ) → is_control (to_ascii_lower c) ≡ is_control c
lower-control c = ground arith

lower-alphanumeric : (c : ℕ) → is_ascii_alphanumeric (to_ascii_lower c) ≡ is_ascii_alphanumeric c
lower-alphanumeric c = ground arith

lower-width : (c : ℕ) → utf8_width (to_ascii_lower c) ≡ utf8_width c
lower-width c = ground arith

pub lower-ascii : (c : ℕ) → ltb (to_ascii_lower c) 128 ≡ ltb c 128
lower-ascii c = ground arith

pub lower-dot : (c : ℕ) → (to_ascii_lower c == b'.') ≡ (c == b'.')
lower-dot c = ground arith

pub lower-at : (c : ℕ) → (to_ascii_lower c == b'@') ≡ (c == b'@')
lower-at c = ground arith

lower-dash : (c : ℕ) → (to_ascii_lower c == b'-') ≡ (c == b'-')
lower-dash c = ground arith

module _ {A B : Type 0} where
  map-reverse_aux :
      (f : A → B) (xs ys : List A) → map f (reverse_aux xs ys) ≡ reverse_aux (map f xs) (map f ys)
  map-reverse_aux f [] ys = refl
  map-reverse_aux f (x ∷ xs) ys = map-reverse_aux f xs (x ∷ ys)

pub all-lower :
    (p : ℕ → Bool) (s : Text)
    → ((c : ℕ) → p (to_ascii_lower c) ≡ p c)
    → all p (to_ascii_lowercase s) ≡ all p s
all-lower p [] h = refl
all-lower p (c ∷ s) h = rw (h c, all-lower p s h) refl

pub any-lower :
    (p : ℕ → Bool) (s : Text)
    → ((c : ℕ) → p (to_ascii_lower c) ≡ p c)
    → any p (to_ascii_lowercase s) ≡ any p s
any-lower p [] h = refl
any-lower p (c ∷ s) h = rw (h c, any-lower p s h) refl

pub lowercase_idem : (s : Text) → to_ascii_lowercase (to_ascii_lowercase s) ≡ to_ascii_lowercase s
lowercase_idem [] = refl
lowercase_idem (c ∷ s) = rw (lower_idem c, lowercase_idem s) refl

reverse-lower : (s : Text) → reverse (to_ascii_lowercase s) ≡ to_ascii_lowercase (reverse s)
reverse-lower s = sym (map-reverse_aux to_ascii_lower s [])

trim_start-lower :
    (s : Text) → trim_start (to_ascii_lowercase s) ≡ to_ascii_lowercase (trim_start s)
unfolding trim_start
trim_start-lower [] = refl
trim_start-lower (c ∷ s) = elim (Bool-cases (is_whitespace c)) [
  | inl e ↦ rw (lower-whitespace c, e) (trim_start-lower s)
  | inr e ↦ rw (lower-whitespace c, e) refl
]

pub trim-lower : (s : Text) → trim (to_ascii_lowercase s) ≡ to_ascii_lowercase (trim s)
unfolding trim
trim-lower s =
    ap (λ t. reverse (trim_start (reverse t))) (trim_start-lower s)
    ∙ (ap (λ t. reverse (trim_start t)) (reverse-lower (trim_start s))
        ∙ (ap reverse (trim_start-lower (reverse (trim_start s)))
            ∙ reverse-lower (trim_start (reverse (trim_start s)))))

pub byte_length-lower : (s : Text) → byte_length (to_ascii_lowercase s) ≡ byte_length s
unfolding byte_length
byte_length-lower [] = refl
byte_length-lower (c ∷ s) = rw (lower-width c, byte_length-lower s) refl

pub is_empty-lower : (s : Text) → is_empty (to_ascii_lowercase s) ≡ is_empty s
is_empty-lower [] = refl
is_empty-lower (c ∷ s) = refl

-- `.` and `-` are code points that no letter's case has.
pub starts-dot :
    (s : Text) → starts_with (codes ".") (to_ascii_lowercase s) ≡ starts_with (codes ".") s
starts-dot [] = refl
starts-dot (c ∷ s) = ground arith

starts-dash :
    (s : Text) → starts_with (codes "-") (to_ascii_lowercase s) ≡ starts_with (codes "-") s
starts-dash [] = refl
starts-dash (c ∷ s) = ground arith

pub ends-dot : (s : Text) → ends_with (codes ".") (to_ascii_lowercase s) ≡ ends_with (codes ".") s
ends-dot s = ap (starts_with (codes ".")) (reverse-lower s) ∙ starts-dot (reverse s)

ends-dash : (s : Text) → ends_with (codes "-") (to_ascii_lowercase s) ≡ ends_with (codes "-") s
ends-dash s = ap (starts_with (codes "-")) (reverse-lower s) ∙ starts-dash (reverse s)

starts-dots :
    (s : Text) → starts_with (codes "..") (to_ascii_lowercase s) ≡ starts_with (codes "..") s
starts-dots [] = refl
starts-dots (c ∷ []) = ground arith
starts-dots (c ∷ d ∷ s) = ground arith

pub contains-dots :
    (s : Text) → contains_text (to_ascii_lowercase s) (codes "..") ≡ contains_text s (codes "..")
contains-dots [] = refl
contains-dots (c ∷ s) = rw (starts-dots (c ∷ s), contains-dots s) refl

cons_first-lower :
    (c : ℕ) (ss : List Text)
    → cons_first (to_ascii_lower c) (map to_ascii_lowercase ss)
      ≡ map to_ascii_lowercase (cons_first c ss)
cons_first-lower c [] = refl
cons_first-lower c (s ∷ ss) = refl

pub split-lower :
    (s : Text) → split b'.' (to_ascii_lowercase s) ≡ map to_ascii_lowercase (split b'.' s)
unfolding split
split-lower [] = refl
split-lower (c ∷ s) = elim (Bool-cases (c == b'.')) [
  | inl e ↦ rw (lower-dot c, e, split-lower s) refl
  | inr e ↦ rw (lower-dot c, e, split-lower s) (cons_first-lower c (split b'.' s))
]

label-lower : (s : Text) → valid_domain_label (to_ascii_lowercase s) ≡ valid_domain_label s
unfolding valid_domain_label
label-lower s =
    rw
      (
        is_empty-lower s,
        starts-dash s,
        ends-dash s,
        all-lower (λ c. is_ascii_alphanumeric c || c == b'-') s
            (λ c. rw (lower-alphanumeric c, lower-dash c) refl),
      )
      refl

pub labels-lower :
    (ss : List Text)
    → all valid_domain_label (map to_ascii_lowercase ss) ≡ all valid_domain_label ss
labels-lower [] = refl
labels-lower (s ∷ ss) = rw (label-lower s, labels-lower ss) refl
