-- ===== src/Frameworks/Requests.antt =====
-- What src/frameworks.rs accepts as a readiness assessment.
use canonical_api_server_rs.Prelude.{
  ◌≤◌, ◌≡◌, refl, sym, ◌∙◌, ap, subst, inl, inr, Bool, true, false, List, [], ◌∷◌, ◌++◌, map,
  Option, none, some, Text, codes, text_eq, trim, is_empty, byte_length, length, keep_if,
  bind_option, find, any, is_some, All, All-append, IfSome, ok, ok_or, fail_if, ◌>>=◌, >>=-eq-ok,
  >>-eq-ok, ok_or-eq-ok, fail_if-eq-ok, keep_if-eq-some, ok_injective, Bool-cases, if◌then◌else◌,
  arith,
}
use canonical_api_server_rs.Auth.{map_trim}
use canonical_api_server_rs.Auth.Subjects.{map_trim-eq-some}
use canonical_api_server_rs.Gemini.Analysis.{Json, string_field, array_field}
use canonical_api_server_rs.Assessments.{Submission}
use canonical_api_server_rs.Frameworks.Catalog.{catalog}
use canonical_api_server_rs.Frameworks.{
  JsonView, assessment_fields, find_framework, is_known, bad_assessment, has_count,
  is_unknown_field, fits_organization, fits_notes, collect_ids, read_notes,
  parse_assessment_request,
}

-- The id of a descriptor of the catalog
abbrev pub IsCataloged : Text → Type 0
IsCataloged framework_id = any (λ d. text_eq d.id framework_id) catalog ≡ true

abbrev pub HasDistinctTexts : List Text → Type 0
HasDistinctTexts [] = Unit
HasDistinctTexts (t ∷ ts) = (any (λ u. text_eq u t) ts ≡ false) × HasDistinctTexts ts

is_some-find : {A : Type 0} (p : A → Bool) (xs : List A) → is_some (find p xs) ≡ any p xs
is_some-find p [] = refl
is_some-find p (x ∷ xs) = ground (arith, is_some-find p xs)

is_known-IsCataloged :
    (framework_id : Text) → is_known framework_id ≡ true → IsCataloged framework_id
unfolding find_framework
is_known-IsCataloged framework_id h = sym (is_some-find _ catalog) ∙ h

any-snoc :
    (p : Text → Bool) (ts : List Text) (t : Text)
    → any p ts ≡ false
    → p t ≡ false
    → any p (ts ++ t ∷ []) ≡ false
any-snoc p [] t h k = ground (arith, k)
any-snoc p (u ∷ ts) t h k = ground (arith, h, k, any-snoc p ts t)

HasDistinctTexts-snoc :
    (ts : List Text) (t : Text)
    → HasDistinctTexts ts
    → any (text_eq t) ts ≡ false
    → HasDistinctTexts (ts ++ t ∷ [])
HasDistinctTexts-snoc [] t h k = (refl, tt)
HasDistinctTexts-snoc (u ∷ ts) t (p, h) k = (
  any-snoc (λ v. text_eq v u) ts t p (ground (arith, k)),
  HasDistinctTexts-snoc ts t h (ground (arith, k)),
)

abbrev pub IsChosen : List Text → Type 0
IsChosen ids = All IsCataloged ids × HasDistinctTexts ids

map-snoc :
    {A B : Type 0} (f : A → B) (xs : List A) (x : A) (ys : List B)
    → map f (xs ++ x ∷ []) ++ ys ≡ map f xs ++ f x ∷ ys
map-snoc f [] x ys = refl
map-snoc f (z ∷ xs) x ys = ap (λ l. f z ∷ l) (map-snoc f xs x ys)

append_nil : {A : Type 0} (xs : List A) → xs ++ [] ≡ xs
append_nil [] = refl
append_nil (x ∷ xs) = ap (λ l. x ∷ l) (append_nil xs)

same_length :
    {A B C : Type 0} (f : A → C) (g : B → C) (xs : List A) (ys : List B)
    → map f xs ≡ map g ys
    → length xs ≡ length ys
same_length f g [] [] h = refl
same_length f g [] (y ∷ ys) h = cc
same_length f g (x ∷ xs) [] h = cc
same_length f g (x ∷ xs) (y ∷ ys) h =
    let tails : map f xs ≡ map g ys = cc in omega (arith, same_length f g xs ys tails)

has_count_bounds :
    {J : Type 0} (items : List J)
    → has_count items ≡ true
    → (1 ≤ length items) × (length items ≤ 15)
unfolding catalog
has_count_bounds [] h = cc
has_count_bounds (item ∷ items) h = (omega arith, ground (arith, h))

abbrev pub IsField : Text → Type 0
IsField field = any (text_eq field) assessment_fields ≡ true

known_fields : (fields : List Text) → any is_unknown_field fields ≡ false → All IsField fields
known_fields [] h = tt
known_fields (f ∷ fields) h = elim (Bool-cases (any (text_eq f) assessment_fields)) [
  | inl e ↦ (e, known_fields fields (ground (arith, h)))
  | inr e ↦ ground (arith, e, h)
]

abbrev trimmed : {J : Type 0} → Json J → (Text → Option J) → Option Text
trimmed json object = map_trim (string_field json object (codes "organization"))

module _ {J : Type 0} (json : Json J) (view : JsonView J) where
  collect_ids-IsChosen :
      (items : List J) (ids kept : List Text)
      → IsChosen ids
      → collect_ids json view items ids ≡ ok kept
      → IsChosen kept × (map some kept ≡ map some ids ++ map json.as_str items)
  unfolding collect_ids
  collect_ids-IsChosen [] ids kept h e =
      (subst IsChosen (ok_injective e) h, ap (map some) (sym (ok_injective e)) ∙ sym (append_nil _))
  collect_ids-IsChosen (item ∷ items) ids kept (known, single) e =
      let (id, e1, rest) =
        >>=-eq-ok (ok_or (keep_if is_known (json.as_str item)) bad_assessment) _ e in
      let (new, e2) = >>-eq-ok (fail_if (any (text_eq id) ids) bad_assessment) _ rest in
      let (text, found) =
        (keep_if-eq-some is_known (json.as_str item) id).0 (ok_or-eq-ok _ bad_assessment e1) in
      let chosen : IsChosen (ids ++ id ∷ []) = (
        All-append IsCataloged ids (id ∷ []) known (is_known-IsCataloged id found, tt),
        HasDistinctTexts-snoc ids id single
            (fail_if-eq-ok (any (text_eq id) ids) bad_assessment new),
      ) in
      let (h, same) = collect_ids-IsChosen items (ids ++ id ∷ []) kept chosen e2 in
      (
        h,
        same
            ∙ map-snoc some ids id (map json.as_str items)
            ∙ ap (λ o. map some ids ++ o ∷ map json.as_str items) (sym text),
      )

  -- No notes, or a text of at most 2000 bytes
  abbrev pub IsNotes : Option J → Option Text → Type 0
  IsNotes value none = IfSome (λ v. view.is_null v ≡ true) value
  IsNotes value (some notes) =
      (bind_option value json.as_str ≡ some notes) × (byte_length notes ≤ 2000)

  IsNotes-present :
      (value : J) (notes : Option Text) (b : Bool)
      → view.is_null value ≡ b
      → (if b
          then ok none
          else ok_or (keep_if fits_notes (json.as_str value)) bad_assessment >>= λ n. ok (some n))
        ≡ ok notes
      → IsNotes (some value) notes
  IsNotes-present value notes true e h = subst (IsNotes (some value)) (ok_injective h) e
  IsNotes-present value notes false e h =
      let (text, h1, h2) =
        >>=-eq-ok (ok_or (keep_if fits_notes (json.as_str value)) bad_assessment) _ h in
      let (found, fits) =
        (keep_if-eq-some fits_notes (json.as_str value) text).0 (ok_or-eq-ok _ bad_assessment h1) in
      subst (IsNotes (some value)) (ok_injective h2) (found, ground (arith, fits))

  read_notes-IsNotes :
      (value : Option J) (notes : Option Text)
      → read_notes json view value ≡ ok notes
      → IsNotes value notes
  unfolding read_notes
  read_notes-IsNotes none notes h = subst (IsNotes none) (ok_injective h) tt
  read_notes-IsNotes (some value) notes h = IsNotes-present value notes (view.is_null value) refl h

  -- What an accepted payload says
  pub record IsRequested (object : Text → Option J) (s : Submission) : Type 0 where
    pub ids :
        (items : List J) × (array_field json object (codes "frameworkIds") ≡ some items)
        × (map some s.framework_ids ≡ map json.as_str items)
    pub one : 1 ≤ length s.framework_ids
    pub few : length s.framework_ids ≤ 15
    pub known : All IsCataloged s.framework_ids
    pub distinct : HasDistinctTexts s.framework_ids
    pub organization :
        (text : Text) × (string_field json object (codes "organization") ≡ some text)
        × (s.organization ≡ trim text)
    pub named : is_empty s.organization ≡ false
    pub short : byte_length s.organization ≤ 200
    pub notes : IsNotes (object (codes "notes")) s.notes

  -- An accepted assessment request is an object whose keys are among the three fields: the
  -- framework ids kept are the texts of `frameworkIds`, 1 to 15 different ids of the catalog; the
  -- organization is the trimmed `organization`, of 1 to 200 bytes; the notes are `notes`, of at
  -- most 2000 bytes, or none, if that field is null or missing.
  pub parse_assessment_request-IsRequested :
      (payload : J) (s : Submission)
      → parse_assessment_request json view payload ≡ ok s
      → (object : Text → Option J) × (json.as_object payload ≡ some object)
        × All IsField (view.keys payload)
        × IsRequested object s
  unfolding parse_assessment_request
  parse_assessment_request-IsRequested payload s h =
      let (object, e1, h1) = >>=-eq-ok (ok_or (json.as_object payload) bad_assessment) _ h in
      let (fields, h2) =
        >>-eq-ok (fail_if (any is_unknown_field (view.keys payload)) bad_assessment) _ h1 in
      let (items, e3, h3) =
        >>=-eq-ok
          (ok_or (keep_if has_count (array_field json object (codes "frameworkIds")))
            bad_assessment)
          _ h2 in
      let (ids, e4, h4) = >>=-eq-ok (collect_ids json view items []) _ h3 in
      let (name, e5, h5) =
        >>=-eq-ok (ok_or (keep_if fits_organization (trimmed json object)) bad_assessment) _ h4 in
      let (notes, e6, h6) = >>=-eq-ok (read_notes json view (object (codes "notes"))) _ h5 in
      let (listed, counted) =
        (keep_if-eq-some has_count _ items).0 (ok_or-eq-ok _ bad_assessment e3) in
      let ((known, distinct), same) = collect_ids-IsChosen items [] ids (tt, tt) e4 in
      let (named, fits) =
        (keep_if-eq-some fits_organization (trimmed json object) name).0
          (ok_or-eq-ok _ bad_assessment e5) in
      let (one, few) = has_count_bounds items counted in
      let long = same_length some json.as_str ids items same in
      let requested : IsRequested object
          (record { framework_ids = ids; notes = notes; organization = name }) =
        record {
          ids = (items, listed, same);
          one = omega (arith, one, long);
          few = omega (arith, few, long);
          known = known;
          distinct = distinct;
          organization = (map_trim-eq-some _ name).0 named;
          named = ground (arith, fits);
          short = ground (arith, fits);
          notes = read_notes-IsNotes (object (codes "notes")) notes e6;
        } in
      (
        object,
        ok_or-eq-ok _ bad_assessment e1,
        known_fields (view.keys payload)
            (fail_if-eq-ok (any is_unknown_field (view.keys payload)) bad_assessment fields),
        subst (IsRequested object) (ok_injective h6) requested,
      )
