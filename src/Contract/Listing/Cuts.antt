-- ===== src/Contract/Listing/Cuts.antt =====
-- Lists of records that are cut into pages.
use canonical_api_server_rs.Prelude.{
  ℕ, ◌≤◌, ◌<◌, zero, suc, ◌≡◌, refl, ◌∙◌, ap, subst, inl, inr, Bool, true, false, List, [], ◌∷◌,
  ◌++◌, none, some, ltb, ◌==◌, ==_iff, length, take, length-take, filter, count, Result, ok, err,
  ◌>>=◌, arith, Bool-cases, Option-cases, some_injective,
}
use canonical_api_server_rs.Http.{ApiError}
use canonical_api_server_rs.Gemini.Analysis.{Json}
use canonical_api_server_rs.Quotes.{QuoteRecord}
use canonical_api_server_rs.Contract.{Wire}
use canonical_api_server_rs.Contract.Responses.{
  QuoteSummary, quote_list_response, quote_summary, summaries, id_text, last?,
}
use canonical_api_server_rs.Contract.Listing.{insert_sorted, sort_newest, after_cursor}

module _ {A : Type 0} where
  pub last?-split : (xs : List A) (z : A) → last? xs ≡ some z → (ys : List A) × (xs ≡ ys ++ z ∷ [])
  last?-split [] z h = cc
  last?-split (x ∷ xs) z h = elim (Option-cases (last? xs)) [
    | inl n ↦ ([], rw (some_injective (rw n at h)) (ap (◌∷◌ z) (empty xs n)))
    | inr (y, n) ↦
        let same : y ≡ z = some_injective (rw n at h) in
        let (ys, e) = last?-split xs y n in
        (x ∷ ys, ap (◌∷◌ x) (subst (λ w. xs ≡ ys ++ w ∷ []) same e))
  ]
    where
      empty : (xs : List A) → last? xs ≡ none → xs ≡ []
      empty [] h = refl
      empty (x ∷ xs) h = elim (Option-cases (last? xs)) [
        | inl n ↦ cc (rw n at h)
        | inr (y, n) ↦ cc (rw n at h)
      ]

  pub last?-some : (xs : List A) → 1 ≤ length xs → (z : A) × (last? xs ≡ some z)
  last?-some [] h = absurd (omega (arith, h))
  last?-some (x ∷ xs) h = elim (Option-cases (last? xs)) [
    | inl n ↦ (x, rw n refl)
    | inr (y, n) ↦ (y, rw n refl)
  ]

  take-take : (n : ℕ) (xs : List A) → take n (take (suc n) xs) ≡ take n xs
  take-take zero xs = refl
  take-take (suc n) [] = refl
  take-take (suc n) (x ∷ xs) = ap (◌∷◌ x) (take-take n xs)

  take-all : (n : ℕ) (xs : List A) → length xs ≤ n → take n xs ≡ xs
  take-all zero [] h = refl
  take-all (suc n) [] h = refl
  take-all zero (x ∷ xs) h = absurd (omega (arith, h))
  take-all (suc n) (x ∷ xs) h = ap (◌∷◌ x) (take-all n xs (omega (arith, h)))

module _ {R J : Type 0} where
  count-insert_sorted :
      (p : QuoteRecord R J → Bool) (r : QuoteRecord R J) (rs : List (QuoteRecord R J))
      → count p (insert_sorted r rs) ≡ count p (r ∷ rs)
  count-insert_sorted p r [] = refl
  count-insert_sorted p r (s ∷ rs) = ground (arith, count-insert_sorted p r rs)

  pub count-sort_newest :
      (p : QuoteRecord R J → Bool) (rs : List (QuoteRecord R J))
      → count p (sort_newest rs) ≡ count p rs
  unfolding sort_newest
  count-sort_newest p [] = refl
  count-sort_newest p (r ∷ rs) =
      count-insert_sorted p r (sort_newest rs) ∙ ground (arith, count-sort_newest p rs)

  pub count-filter-le :
      (p q : QuoteRecord R J → Bool) (rs : List (QuoteRecord R J))
      → count p (filter q rs) ≤ count p rs
  count-filter-le p q [] = omega arith
  count-filter-le p q (r ∷ rs) = ground (arith, count-filter-le p q rs)

  abbrev pub has_id : ℕ → QuoteRecord R J → Bool
  has_id id r = r.quote_id == id

  count-has_id :
      (r : QuoteRecord R J) (xs ys : List (QuoteRecord R J))
      → 1 ≤ count (has_id r.quote_id) (xs ++ r ∷ ys)
  count-has_id r [] ys = ground (arith, ==_iff r.quote_id r.quote_id)
  count-has_id r (x ∷ xs) ys = ground (arith, count-has_id r xs ys)

  -- The cursor of a record leads behind it, if no other record has its UUID.
  pub after_cursor-append :
      (r : QuoteRecord R J) (xs ys : List (QuoteRecord R J))
      → count (has_id r.quote_id) (xs ++ r ∷ ys) ≤ 1
      → after_cursor r.quote_id (xs ++ r ∷ ys) ≡ ys
  unfolding after_cursor
  after_cursor-append r [] ys h = rw ((==_iff r.quote_id r.quote_id).1 refl) refl
  after_cursor-append r (x ∷ xs) ys h = elim (Bool-cases (x.quote_id == r.quote_id)) [
    | inl e ↦ absurd (omega (arith, rw e at h, count-has_id r xs ys))
    | inr e ↦ rw e (after_cursor-append r xs ys (rw e at h))
  ]

module _ {R J : Type 0} (json : Json J) (wire : Wire R) where
  pub summaries-append :
      (xs ys : List (QuoteRecord R J))
      → summaries json wire (xs ++ ys)
        ≡ (summaries json wire xs >>= λ a. summaries json wire ys >>= λ b. ok (a ++ b))
  unfolding summaries
  summaries-append [] ys = right_unit (summaries json wire ys)
    where
      right_unit : (x : Result ApiError (List QuoteSummary)) → x ≡ (x >>= λ b. ok ([] ++ b))
      right_unit (ok a) = refl
      right_unit (err e) = refl
  summaries-append (x ∷ xs) ys =
      rw (summaries-append xs ys)
        (go (quote_summary json wire x) (summaries json wire xs) (summaries json wire ys))
    where
      go :
          (s : Result ApiError QuoteSummary) (a b : Result ApiError (List QuoteSummary))
          → (s >>= λ s'. (a >>= λ a'. b >>= λ b'. ok (a' ++ b')) >>= λ rest. ok (s' ∷ rest))
            ≡ ((s >>= λ s'. a >>= λ rest. ok (s' ∷ rest)) >>= λ a'. b >>= λ b'. ok (a' ++ b'))
      go (err e) a b = refl
      go (ok s') (err e) b = refl
      go (ok s') (ok a') (err e) = refl
      go (ok s') (ok a') (ok b') = refl

  -- A page that is the last one, and one that is not
  pub last_page :
      (rest : List (QuoteRecord R J)) (limit : ℕ)
      → length rest ≤ limit
      → quote_list_response json wire (take (suc limit) rest) limit ≡ (
          summaries json wire rest >>= λ quotes.
          ok (record { quotes = quotes; next_cursor = none }))
  unfolding quote_list_response
  last_page rest limit h =
      let whole = take-all (suc limit) rest (omega (arith, h)) in
      let fits : ltb limit (length rest) ≡ false = ground (arith, h) in rw (whole, fits) refl

  pub full_page :
      (rest : List (QuoteRecord R J)) (limit : ℕ)
      → limit < length rest
      → quote_list_response json wire (take (suc limit) rest) limit ≡ (
          summaries json wire (take limit rest) >>= λ quotes.
          ok
            (record { quotes = quotes; next_cursor = id_text json wire (last? (take limit rest)) }))
  unfolding quote_list_response
  full_page rest limit h =
      let longer : ltb limit (length (take (suc limit) rest)) ≡ true =
        ground (arith, length-take (suc limit) rest, h) in
      rw (longer, take-take limit rest) refl
