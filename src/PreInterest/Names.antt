-- ===== src/PreInterest/Names.antt =====
-- The normal form of names in src/pre_interest.rs, and its short identifiers.
use canonical_api_server_rs.Prelude.{
  ℕ, ◌≤◌, ◌≡◌, refl, subst, inl, inr, Bool, true, false, ◌||◌, List, [], ◌∷◌, ◌++◌, Text, codes,
  is_empty, is_control, is_whitespace, any, length, ltb, ok, fail_if, Bool-cases, arith, >>-eq-ok,
  fail_if-eq-ok, ok_injective, All,
}
use canonical_api_server_rs.PreInterest.{
  ValidationError, push_word, words_from, join_words, normalize_human_text,
}

-- A text of 1 to `max` characters, none of them a control character
pub record IsName (max : ℕ) (name : Text) : Type 0 where
  pub nonempty : is_empty name ≡ false
  pub short : length name ≤ max
  pub plain : any is_control name ≡ false

abbrev IsPlain : Text → Type 0
IsPlain s = any is_control s ≡ false

append-IsPlain : (s t : Text) → IsPlain s → IsPlain t → IsPlain (s ++ t)
append-IsPlain [] t h k = k
append-IsPlain (c ∷ s) t h k = elim (Bool-cases (is_control c)) [
  | inl e ↦ cc (rw e at h)
  | inr e ↦ rw e (append-IsPlain s t (rw e at h) k)
]

push_word-IsPlain :
    (word : Text) (words : List Text)
    → IsPlain word
    → All IsPlain words
    → All IsPlain (push_word word words)
push_word-IsPlain [] words h k = k
push_word-IsPlain (c ∷ word) words h k = (h, k)

words_from-IsPlain : (word s : Text) → IsPlain word → IsPlain s → All IsPlain (words_from word s)
unfolding words_from
words_from-IsPlain word [] h k = push_word-IsPlain word [] h tt
words_from-IsPlain word (c ∷ s) h k = elim (Bool-cases (is_control c)) [
  | inl e ↦ cc (rw e at k)
  | inr e ↦
      let rest : IsPlain s = rw e at k in
      let one : IsPlain (c ∷ []) = rw e refl in
      elim (Bool-cases (is_whitespace c)) [
        | inl w ↦
            rw w (push_word-IsPlain word (words_from [] s) h (words_from-IsPlain [] s refl rest))
        | inr w ↦
            rw w (words_from-IsPlain (word ++ c ∷ []) s (append-IsPlain word (c ∷ []) h one) rest)
      ]
]

join_words-IsPlain : (words : List Text) → All IsPlain words → IsPlain (join_words words)
unfolding join_words
join_words-IsPlain [] h = refl
join_words-IsPlain (w ∷ []) (h, k) = h
join_words-IsPlain (w ∷ v ∷ words) (h, k) =
    append-IsPlain (w ++ codes " ") (join_words (v ∷ words)) (append-IsPlain w (codes " ") h refl)
      (join_words-IsPlain (v ∷ words) k)

or-eq-false : (p q : Bool) → (p || q) ≡ false → (p ≡ false) × (q ≡ false)
or-eq-false true q h = cc
or-eq-false false q h = (refl, h)

pub normalize_human_text-IsName :
    (value : Text) (max : ℕ) (error : ValidationError) (name : Text)
    → normalize_human_text value max error ≡ ok name
    → IsName max name
unfolding normalize_human_text
normalize_human_text-IsName value max error name h =
    let normalized = join_words (words_from [] value) in
    let (plain, h1) = >>-eq-ok (fail_if (any is_control value) error) _ h in
    let (sized, h2) =
      >>-eq-ok (fail_if (is_empty normalized || ltb max (length normalized)) error) _ h1 in
    let (full, short) =
      or-eq-false (is_empty normalized) (ltb max (length normalized))
        (fail_if-eq-ok (is_empty normalized || ltb max (length normalized)) error sized) in
    let no_control = fail_if-eq-ok (any is_control value) error plain in
    subst (IsName max) (ok_injective h2) (record {
      nonempty = full;
      short = ground (arith, short);
      plain =
          join_words-IsPlain (words_from [] value) (words_from-IsPlain [] value refl no_control);
    })
