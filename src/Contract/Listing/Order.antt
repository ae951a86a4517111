-- ===== src/Contract/Listing/Order.antt =====
-- Which records `list_quotes` of src/lib.rs lists, and in which order.
use canonical_api_server_rs.Prelude.{
  ℕ, ◌≤◌, ◌<◌, ◌≡◌, refl, sym, ◌∙◌, ap, subst, ◌≢◌, ◌↔◌, inl, inr, ◌⊎◌, Bool, true, false, List, [],
  ◌∷◌, map, Text, text_eq, text_eq_iff, ltb, ◌==◌, ==_iff, length, filter, count, count-true, All,
  Bool-cases, arith,
}
use canonical_api_server_rs.Quotes.{QuoteRecord, Memory}
use canonical_api_server_rs.Contract.Listing.{
  text_ltb, comes_after, insert_sorted, sort_newest, value_of, own_quotes,
}
use canonical_api_server_rs.Contract.Listing.Cuts.{count-sort_newest, count-filter-le, has_id}

text_ltb_trans : (s t u : Text) → text_ltb s t ≡ true → text_ltb t u ≡ true → text_ltb s u ≡ true
text_ltb_trans [] [] u h k = cc
text_ltb_trans (c ∷ s) [] u h k = cc
text_ltb_trans s (d ∷ t) [] h k = cc
text_ltb_trans [] (d ∷ t) (e ∷ u) h k = refl
text_ltb_trans (c ∷ s) (d ∷ t) (e ∷ u) h k =
    ground (arith, h, k, ==_iff c d, ==_iff d e, ==_iff c e, text_ltb_trans s t u)

text_ltb-cases : (s t : Text) → (text_ltb s t ≡ true) ⊎ ((s ≡ t) ⊎ (text_ltb t s ≡ true))
text_ltb-cases [] [] = inr (inl refl)
text_ltb-cases [] (d ∷ t) = inl refl
text_ltb-cases (c ∷ s) [] = inr (inr refl)
text_ltb-cases (c ∷ s) (d ∷ t) = elim (text_ltb-cases s t) [
  | inl h ↦ ground (arith, h, ==_iff c d, ==_iff d c)
  | inr (inl h) ↦ elim (Bool-cases (ltb c d)) [
    | inl e ↦ inl (rw e refl)
    | inr e ↦ elim (Bool-cases (ltb d c)) [
      | inl k ↦ inr (inr (rw k refl))
      | inr k ↦
          let same : c ≡ d = ground (arith, e, k) in
          inr (inl (ap (λ x. x ∷ s) same ∙ ap (λ t'. d ∷ t') h))
    ]
  ]
  | inr (inr h) ↦ ground (arith, h, ==_iff c d, ==_iff d c)
]

module _ {R J : Type 0} where
  abbrev pub IsIn : QuoteRecord R J → List (QuoteRecord R J) → Type 0
  IsIn r [] = ⊥
  IsIn r (s ∷ rs) = (r ≡ s) ⊎ IsIn r rs

  -- Created later, or at the same instant with a greater UUID
  abbrev pub IsNewer : QuoteRecord R J → QuoteRecord R J → Type 0
  IsNewer r s =
      (text_ltb s.created_at r.created_at ≡ true)
      ⊎ ((s.created_at ≡ r.created_at) × (s.quote_id < r.quote_id))

  abbrev pub IsNewestFirst : List (QuoteRecord R J) → Type 0
  IsNewestFirst [] = Unit
  IsNewestFirst (r ∷ rs) = All (IsNewer r) rs × IsNewestFirst rs

  -- The records are exactly those of the memory that the subject owns, each once, the newest first.
  pub record IsListing (memory : Memory R J) (subject : Text) (records : List (QuoteRecord R J))
      : Type 0 where
    pub own :
        (r : QuoteRecord R J)
        → IsIn r records ↔ (IsIn r (map value_of memory.quotes) × (r.owner_subject ≡ subject))
    pub ordered : IsNewestFirst records

  IsNewer-trans : (r s t : QuoteRecord R J) → IsNewer r s → IsNewer s t → IsNewer r t
  IsNewer-trans r s t (inl h) (inl k) =
      inl (text_ltb_trans t.created_at s.created_at r.created_at k h)
  IsNewer-trans r s t (inl h) (inr (e, k)) =
      inl (subst (λ at. text_ltb at r.created_at ≡ true) (sym e) h)
  IsNewer-trans r s t (inr (e, h)) (inl k) = inl (subst (λ at. text_ltb t.created_at at ≡ true) e k)
  IsNewer-trans r s t (inr (e, h)) (inr (f, k)) = inr (f ∙ e, omega (arith, h, k))

  comes_after-true : (r s : QuoteRecord R J) → comes_after r s ≡ true → IsNewer s r
  comes_after-true r s h = elim (Bool-cases (text_ltb r.created_at s.created_at)) [
    | inl e ↦ inl e
    | inr e ↦ ground (arith, h, e, text_eq_iff r.created_at s.created_at)
  ]

  comes_after-false :
      (r s : QuoteRecord R J) → comes_after r s ≡ false → s.quote_id ≢ r.quote_id → IsNewer r s
  comes_after-false r s h k = elim (text_ltb-cases s.created_at r.created_at) [
    | inl e ↦ inl e
    | inr (inl e) ↦
        let same = (text_eq_iff r.created_at s.created_at).1 (sym e) in
        inr (e, ground (arith, h, k, same))
    | inr (inr e) ↦ absurd (ground (arith, h, e))
  ]

  All-older :
      (r s : QuoteRecord R J) (rs : List (QuoteRecord R J))
      → IsNewer r s
      → All (IsNewer s) rs
      → All (IsNewer r) rs
  All-older r s [] h k = tt
  All-older r s (t ∷ rs) h (p, k) = (IsNewer-trans r s t h p, All-older r s rs h k)

  insert_sorted-All :
      (P : QuoteRecord R J → Type 0) (r : QuoteRecord R J) (rs : List (QuoteRecord R J))
      → P r
      → All P rs
      → All P (insert_sorted r rs)
  insert_sorted-All P r [] h k = (h, tt)
  insert_sorted-All P r (s ∷ rs) h (p, k) = elim (Bool-cases (comes_after r s)) [
    | inl e ↦ rw e (p, insert_sorted-All P r rs h k)
    | inr e ↦ rw e (h, (p, k))
  ]

  insert_sorted-IsNewestFirst :
      (r : QuoteRecord R J) (rs : List (QuoteRecord R J))
      → IsNewestFirst rs
      → All (λ (s : QuoteRecord R J). s.quote_id ≢ r.quote_id) rs
      → IsNewestFirst (insert_sorted r rs)
  insert_sorted-IsNewestFirst r [] h k = (tt, tt)
  insert_sorted-IsNewestFirst r (s ∷ rs) (newer, h) (other, k) =
      elim (Bool-cases (comes_after r s)) [
        | inl e ↦ rw e (
          insert_sorted-All (IsNewer s) r rs (comes_after-true r s e) newer,
          insert_sorted-IsNewestFirst r rs h k,
        )
        | inr e ↦
            let first = comes_after-false r s e other in
            rw e ((first, All-older r s rs first newer), (newer, h))
      ]

  count-zero :
      (id : ℕ) (rs : List (QuoteRecord R J))
      → count (has_id id) rs ≤ 0
      → All (λ (s : QuoteRecord R J). s.quote_id ≢ id) rs
  count-zero id [] h = tt
  count-zero id (s ∷ rs) h = elim (Bool-cases (s.quote_id == id)) [
    | inl e ↦ absurd (omega (arith, rw e at h))
    | inr e ↦ ((λ same. cc (e, (==_iff s.quote_id id).1 same)), count-zero id rs (rw e at h))
  ]

  sort_newest-IsNewestFirst :
      (rs : List (QuoteRecord R J))
      → ((id : ℕ) → count (has_id id) rs ≤ 1)
      → IsNewestFirst (sort_newest rs)
  unfolding sort_newest
  sort_newest-IsNewestFirst [] h = tt
  sort_newest-IsNewestFirst (r ∷ rs) h =
      let once : count (has_id r.quote_id) rs ≤ 0 =
        ground (arith, h r.quote_id, ==_iff r.quote_id r.quote_id) in
      insert_sorted-IsNewestFirst r (sort_newest rs)
        (sort_newest-IsNewestFirst rs (λ id. ground (arith, h id)))
        (count-zero r.quote_id (sort_newest rs)
          (omega (arith, once, count-sort_newest (has_id r.quote_id) rs)))

  IsIn-insert_sorted :
      (x r : QuoteRecord R J) (rs : List (QuoteRecord R J))
      → IsIn x (insert_sorted r rs) ↔ IsIn x (r ∷ rs)
  IsIn-insert_sorted x r [] = (λ h. h, λ h. h)
  IsIn-insert_sorted x r (s ∷ rs) = elim (Bool-cases (comes_after r s)) [
    | inl e ↦ rw e (ground (arith, IsIn-insert_sorted x r rs))
    | inr e ↦ rw e (λ h. h, λ h. h)
  ]

  IsIn-sort_newest :
      (x : QuoteRecord R J) (rs : List (QuoteRecord R J)) → IsIn x (sort_newest rs) ↔ IsIn x rs
  unfolding sort_newest
  IsIn-sort_newest x [] = (λ h. h, λ h. h)
  IsIn-sort_newest x (r ∷ rs) =
      ground (arith, IsIn-insert_sorted x r (sort_newest rs), IsIn-sort_newest x rs)

  abbrev pub is_own : Text → QuoteRecord R J → Bool
  is_own subject r = text_eq r.owner_subject subject

  not_own :
      (r x : QuoteRecord R J) (subject : Text)
      → is_own subject r ≡ false
      → x ≡ r
      → x.owner_subject ≢ subject
  not_own r x subject e same o =
      let owned = ap (λ (q : QuoteRecord R J). q.owner_subject) (sym same) ∙ o in
      cc (e, (text_eq_iff r.owner_subject subject).1 owned)

  length-filter :
      (p : QuoteRecord R J → Bool) (rs : List (QuoteRecord R J)) → length (filter p rs) ≡ count p rs
  length-filter p [] = refl
  length-filter p (r ∷ rs) = ground (arith, length-filter p rs)

  IsIn-filter :
      (x : QuoteRecord R J) (subject : Text) (rs : List (QuoteRecord R J))
      → IsIn x (filter (is_own subject) rs) ↔ (IsIn x rs × (x.owner_subject ≡ subject))
  IsIn-filter x subject [] = (λ h. absurd h, λ h. absurd h.0)
  IsIn-filter x subject (r ∷ rs) =
      let (to, from) = IsIn-filter x subject rs in
      elim (Bool-cases (is_own subject r)) [
        | inl e ↦
            let mine = (text_eq_iff r.owner_subject subject).0 e in
            rw e (
              λ h. elim h [
                | inl same ↦ (inl same, ap (λ (q : QuoteRecord R J). q.owner_subject) same ∙ mine)
                | inr k ↦ let (i, o) = to k in (inr i, o)
              ],
              λ (h, o). elim h [ inl same ↦ inl same | inr i ↦ inr (from (i, o)) ],
            )
        | inr e ↦ rw e (
          λ h. let (i, o) = to h in (inr i, o),
          λ (h, o). elim h [
            | inl same ↦ absurd (not_own r x subject e same o)
            | inr i ↦ from (i, o)
          ],
        )
      ]

  pub own_quotes-IsListing :
      (memory : Memory R J) (subject : Text)
      → ((id : ℕ) → count (has_id id) (map value_of memory.quotes) ≤ 1)
      → IsListing memory subject (own_quotes memory subject)
  unfolding own_quotes
  own_quotes-IsListing memory subject h =
      let records = map value_of memory.quotes in
      let mine = filter (is_own subject) records in
      record {
        own = λ r.
            let (to, from) = IsIn-sort_newest r mine in
            let (kept, keeps) = IsIn-filter r subject records in
            (λ i. kept (to i), λ i. from (keeps i));
        ordered =
            sort_newest-IsNewestFirst mine
              λ id. omega (arith, h id, count-filter-le (has_id id) (is_own subject) records);
      }

  pub length-own_quotes :
      (memory : Memory R J) (subject : Text)
      → length (own_quotes memory subject) ≡ count (is_own subject) (map value_of memory.quotes)
  unfolding own_quotes
  length-own_quotes memory subject =
      let records = map value_of memory.quotes in
      let mine = filter (is_own subject) records in
      omega (
        arith,
        count-true (sort_newest mine),
        count-sort_newest (λ r. true) mine,
        count-true mine,
        length-filter (is_own subject) records,
      )
