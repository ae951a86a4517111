-- ===== src/PreInterest/Registrations/Interests.antt =====
-- The set of interests that a registration keeps.
use canonical_api_server_rs.Prelude.{
  ℕ, ◌≤◌, ◌<◌, ◌≡◌, refl, sym, ◌∙◌, ap, subst, inl, inr, Bool, true, false, not, ◌||◌, List, [],
  ◌∷◌, length, is_empty, any, ltb, ◌==◌, ==_iff, ok, fail_if, All, Bool-cases, arith, >>-eq-ok,
  fail_if-eq-ok, ok_injective,
}
use canonical_api_server_rs.PreInterest.{
  InterestArea, interest_rank, empty_interest_set, too_many_interests, duplicate_interest,
}
use canonical_api_server_rs.PreInterest.Registrations.{
  insert_interest, interest_set, validate_interests, max_interests,
}

abbrev pub Above : ℕ → InterestArea → Type 0
Above n a = n < interest_rank a

abbrev pub IsIncreasing : List InterestArea → Type 0
IsIncreasing [] = Unit
IsIncreasing (a ∷ areas) = All (Above (interest_rank a)) areas × IsIncreasing areas

abbrev pub member : InterestArea → List InterestArea → Bool
member a = any (λ b. interest_rank a == interest_rank b)

All-weaken :
    (m n : ℕ) (areas : List InterestArea) → m < n → All (Above n) areas → All (Above m) areas
All-weaken m n [] h k = tt
All-weaken m n (a ∷ areas) h (p, k) = (omega (arith, h, p), All-weaken m n areas h k)

insert_interest-Above :
    (n : ℕ) (a : InterestArea) (areas : List InterestArea)
    → n < interest_rank a
    → All (Above n) areas
    → All (Above n) (insert_interest a areas)
unfolding insert_interest
insert_interest-Above n a [] h k = (h, tt)
insert_interest-Above n a (b ∷ areas) h (p, k) =
    elim (Bool-cases (interest_rank a == interest_rank b)) [
      | inl e ↦ rw e (p, k)
      | inr e ↦ elim (Bool-cases (ltb (interest_rank a) (interest_rank b))) [
        | inl l ↦ rw (e, l) (h, (p, k))
        | inr l ↦ rw (e, l) (p, insert_interest-Above n a areas h k)
      ]
    ]

insert_interest-IsIncreasing :
    (a : InterestArea) (areas : List InterestArea)
    → IsIncreasing areas
    → IsIncreasing (insert_interest a areas)
unfolding insert_interest
insert_interest-IsIncreasing a [] h = (tt, tt)
insert_interest-IsIncreasing a (b ∷ areas) (p, h) =
    elim (Bool-cases (interest_rank a == interest_rank b)) [
      | inl e ↦ rw e (p, h)
      | inr e ↦ elim (Bool-cases (ltb (interest_rank a) (interest_rank b))) [
        | inl l ↦
            let less : interest_rank a < interest_rank b = ground (arith, l) in
            rw (e, l) ((less, All-weaken _ (interest_rank b) areas less p), (p, h))
        | inr l ↦
            let more : interest_rank b < interest_rank a =
              ground (arith, e, l, ==_iff (interest_rank a) (interest_rank b)) in
            rw (e, l)
              (
                insert_interest-Above (interest_rank b) a areas more p,
                insert_interest-IsIncreasing a areas h,
              )
      ]
    ]

or_absorb : (p q : Bool) → (p || q) ≡ (p || (p || q))
or_absorb true q = refl
or_absorb false q = refl

or_swap : (p q r : Bool) → (p || (q || r)) ≡ (q || (p || r))
or_swap true true r = refl
or_swap true false r = refl
or_swap false q r = refl

member-insert_interest :
    (x a : InterestArea) (areas : List InterestArea)
    → member x (insert_interest a areas) ≡ member x (a ∷ areas)
unfolding insert_interest
member-insert_interest x a [] = refl
member-insert_interest x a (b ∷ areas) = elim (Bool-cases (interest_rank a == interest_rank b)) [
  | inl e ↦
      let same = (==_iff (interest_rank a) (interest_rank b)).0 e in
      rw e (
        or_absorb (interest_rank x == interest_rank b) (member x areas)
        ∙ ap (λ n. (interest_rank x == n) || member x (b ∷ areas)) (sym same))
  | inr e ↦ elim (Bool-cases (ltb (interest_rank a) (interest_rank b))) [
    | inl l ↦ rw (e, l) refl
    | inr l ↦
        rw (e, l, member-insert_interest x a areas)
          (or_swap (interest_rank x == interest_rank b) (interest_rank x == interest_rank a)
            (member x areas))
  ]
]

pub interest_set-IsIncreasing : (areas : List InterestArea) → IsIncreasing (interest_set areas)
unfolding interest_set
interest_set-IsIncreasing [] = tt
interest_set-IsIncreasing (a ∷ areas) =
    insert_interest-IsIncreasing a (interest_set areas) (interest_set-IsIncreasing areas)

pub member-interest_set :
    (x : InterestArea) (areas : List InterestArea) → member x (interest_set areas) ≡ member x areas
unfolding interest_set
member-interest_set x [] = refl
member-interest_set x (a ∷ areas) =
    rw (member-insert_interest x a (interest_set areas), member-interest_set x areas) refl

-- 1 to 9 different interests, those of the request, in the order of the source
pub record IsInterestSet (requested kept : List InterestArea) : Type 0 where
  pub increasing : IsIncreasing kept
  pub same : (x : InterestArea) → member x kept ≡ member x requested
  pub distinct : length kept ≡ length requested
  pub one : 1 ≤ length kept
  pub few : length kept ≤ 9

not_empty : (areas : List InterestArea) → is_empty areas ≡ false → 1 ≤ length areas
not_empty [] h = cc
not_empty (a ∷ areas) h = omega arith

pub validate_interests-IsInterestSet :
    (areas kept : List InterestArea) → validate_interests areas ≡ ok kept → IsInterestSet areas kept
unfolding validate_interests
validate_interests-IsInterestSet areas kept h =
    let (full, h1) = >>-eq-ok (fail_if (is_empty areas) empty_interest_set) _ h in
    let (small, h2) =
      >>-eq-ok (fail_if (ltb max_interests (length areas)) too_many_interests) _ h1 in
    let (single, h3) =
      >>-eq-ok (fail_if (not (length (interest_set areas) == length areas)) duplicate_interest) _
        h2 in
    let unequal =
      fail_if-eq-ok (not (length (interest_set areas) == length areas)) duplicate_interest single in
    let equal : length (interest_set areas) ≡ length areas =
      ground (arith, unequal, ==_iff (length (interest_set areas)) (length areas)) in
    let one = not_empty areas (fail_if-eq-ok (is_empty areas) empty_interest_set full) in
    let most = fail_if-eq-ok (ltb max_interests (length areas)) too_many_interests small in
    subst (IsInterestSet areas) (ok_injective h3) (record {
      increasing = interest_set-IsIncreasing areas;
      same = λ x. member-interest_set x areas;
      distinct = equal;
      one = omega (arith, one, equal);
      few = ground (arith, most, equal);
    })
