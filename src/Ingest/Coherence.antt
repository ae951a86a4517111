-- ===== src/Ingest/Coherence.antt =====
-- What an event of src/readiness_observation_ingest.rs that passes `validate_event` is like.
use canonical_api_server_rs.Prelude.{
  ◌≤◌, ◌≡◌, sym, subst, ◌↔◌, ◌⊎◌, inl, inr, Bool, true, false, not, ◌||◌, List, [], ◌∷◌, map,
  Option, some, Text, is_positive, All, length, Eq, pair_eq, ok, >>=-eq-ok, >>-eq-ok, ok_or-eq-ok,
  ok_injective, fail_if-eq-ok, arith,
}
use canonical_api_server_rs.Http.{text_key}
use canonical_api_server_rs.DataPlane.{Url}
use canonical_api_server_rs.Ingest.{
  invalid_request, ObservationEvent, ObservationAssertion, EvidenceItem,
}
use canonical_api_server_rs.Ingest.Keys.{OffsetDateTime}
use canonical_api_server_rs.Ingest.Events.{
  holds, bad_event_head, bad_evidence_head, bad_assertion_head, is_later, check_references,
  check_assertions, check_evidence, validate_event,
}

module _ {A : Type 0} where
  abbrev pub IsIn : A → List A → Type 0
  IsIn a [] = ⊥
  IsIn a (x ∷ xs) = (a ≡ x) ⊎ IsIn a xs

  -- No element occurs among `seen` or before itself.
  abbrev pub Fresh : List A → List A → Type 0
  Fresh seen [] = Unit
  Fresh seen (x ∷ xs) = ¬ IsIn x seen × Fresh (x ∷ seen) xs

  abbrev pub IsDistinct : List A → Type 0
  IsDistinct xs = Fresh [] xs

  abbrev pushed : List A → List A → List A
  pushed seen [] = seen
  pushed seen (x ∷ xs) = pushed (x ∷ seen) xs

  pushed-IsIn : (a : A) (seen xs : List A) → IsIn a (pushed seen xs) → IsIn a seen ⊎ IsIn a xs
  pushed-IsIn a seen [] h = inl h
  pushed-IsIn a seen (x ∷ xs) h = elim (pushed-IsIn a (x ∷ seen) xs h) [
    | inl (inl e) ↦ inr (inl e)
    | inl (inr k) ↦ inl k
    | inr k ↦ inr (inr k)
  ]

  holds-IsIn : (e : Eq A) (a : A) (xs : List A) → (holds e a xs ≡ true) ↔ IsIn a xs
  holds-IsIn e a [] = ground arith
  holds-IsIn e a (x ∷ xs) = ground (arith, e.beq_iff a x, holds-IsIn e a xs)

  holds-eq-false : (e : Eq A) (a : A) (xs : List A) → holds e a xs ≡ false → ¬ IsIn a xs
  holds-eq-false e a xs h k = let found = (holds-IsIn e a xs).1 k in cc

neither : {a b : Bool} → (a || not b) ≡ false → (a ≡ false) × (b ≡ true)
neither {a} {b} h = ground (arith, h)

All-mono :
    {A : Type 0} {P Q : A → Type 0} → ((a : A) → P a → Q a) → (xs : List A) → All P xs → All Q xs
All-mono f [] h = tt
All-mono f (x ∷ xs) (p, h) = (f x p, All-mono f xs h)

behind : (id : Text) (ids : List Text) → IsIn id (pushed [] ids) → IsIn id ids
behind id ids k = elim (pushed-IsIn id [] ids k) [ inl z ↦ absurd z | inr z ↦ z ]

-- The references of an assertion
abbrev pub Refers : List Text → ObservationAssertion → Type 0
Refers evidence_ids a = IsDistinct a.evidence_ids × All (λ id. IsIn id evidence_ids) a.evidence_ids

abbrev pub control : ObservationAssertion → Text × Text
control a = (a.framework_id, a.control_id)

check_references-Fresh :
    (evidence_ids seen ids : List Text)
    → check_references evidence_ids seen ids ≡ ok tt
    → Fresh seen ids × All (λ id. IsIn id evidence_ids) ids
unfolding check_references
check_references-Fresh evidence_ids seen [] h = (tt, tt)
check_references-Fresh evidence_ids seen (id ∷ ids) h =
    let (head, tail) = >>-eq-ok _ _ h in
    let test =
      fail_if-eq-ok (holds text_key id seen || not (holds text_key id evidence_ids)) invalid_request
        head in
    let (fresh, found) = check_references-Fresh evidence_ids (id ∷ seen) ids tail in
    (
      (holds-eq-false text_key id seen (neither test).0, fresh),
      ((holds-IsIn text_key id evidence_ids).0 (neither test).1, found),
    )

check_assertions-Fresh :
    (evidence_ids : List Text) (seen : List (Text × Text)) (xs : List ObservationAssertion)
    → check_assertions evidence_ids seen xs ≡ ok tt
    → Fresh seen (map control xs) × All (Refers evidence_ids) xs
unfolding check_assertions
check_assertions-Fresh evidence_ids seen [] h = (tt, tt)
check_assertions-Fresh evidence_ids seen (a ∷ xs) h =
    let (head, h1) = >>-eq-ok _ _ h in
    let (references, tail) = >>-eq-ok _ _ h1 in
    let test = fail_if-eq-ok (bad_assertion_head a seen) invalid_request head in
    let (fresh, found) = check_assertions-Fresh evidence_ids (control a ∷ seen) xs tail in
    (
      (holds-eq-false (pair_eq text_key text_key) (control a) seen (ground (arith, test)), fresh),
      (check_references-Fresh evidence_ids [] a.evidence_ids references, found),
    )

module _ (parse_timestamp : Text → Option OffsetDateTime) (parse_url : Text → Option Url) where
  check_evidence-Fresh :
      (now observed_at : OffsetDateTime) (seen : List Text) (items : List EvidenceItem)
      (ids : List Text)
      → check_evidence parse_timestamp parse_url now observed_at seen items ≡ ok ids
      → Fresh seen (map (λ (i : EvidenceItem). i.evidence_id) items)
        × (ids ≡ pushed seen (map (λ (i : EvidenceItem). i.evidence_id) items))
  unfolding check_evidence
  check_evidence-Fresh now observed_at seen [] ids h = (tt, sym (ok_injective h))
  check_evidence-Fresh now observed_at seen (item ∷ items) ids h =
      let (head, h1) = >>-eq-ok _ _ h in
      let (collected, h2) = >>-eq-ok _ _ h1 in
      let (locator, tail) = >>-eq-ok _ _ h2 in
      let test = fail_if-eq-ok (bad_evidence_head item seen) invalid_request head in
      let (fresh, same) =
        check_evidence-Fresh now observed_at (item.evidence_id ∷ seen) items ids tail in
      ((holds-eq-false text_key item.evidence_id seen (ground (arith, test)), fresh), same)

  -- An event whose parts fit together
  pub record IsCoherent (event : ObservationEvent) (now : OffsetDateTime) : Type 0 where
    pub positive : is_positive event.source_sequence ≡ true
    pub asserting : (1 ≤ length event.assertions) × (length event.assertions ≤ 256)
    pub evidenced : length event.evidence ≤ 256
    pub observed_at : OffsetDateTime
    pub observed : parse_timestamp event.observed_at ≡ some observed_at
    pub not_future : is_later observed_at now ≡ false
    pub distinct_evidence : IsDistinct (map (λ (i : EvidenceItem). i.evidence_id) event.evidence)
    pub distinct_controls : IsDistinct (map control event.assertions)
    pub references :
        All (Refers (map (λ (i : EvidenceItem). i.evidence_id) event.evidence)) event.assertions

  references-cover :
      (ids : List Text) (xs : List ObservationAssertion)
      → All (Refers (pushed [] ids)) xs
      → All (Refers ids) xs
  references-cover ids [] h = tt
  references-cover ids (a ∷ xs) ((distinct, found), hs) = (
    (distinct, All-mono (λ id k. behind id ids k) a.evidence_ids found),
    references-cover ids xs hs,
  )

  -- An event that is valid has a positive sequence, 1 to 256 assertions and at most 256 pieces of
  -- evidence, is not observed more than 300 seconds from now, names no evidence and no control
  -- twice, and each of its assertions refers to evidence of the event, and to none twice.
  pub validate_event-IsCoherent :
      (event : ObservationEvent) (now : OffsetDateTime)
      → validate_event parse_timestamp parse_url event now ≡ ok tt
      → IsCoherent event now
  unfolding validate_event
  validate_event-IsCoherent event now h =
      let (head, h1) = >>-eq-ok _ _ h in
      let (observed_at, o, h2) = >>=-eq-ok _ _ h1 in
      let (skew, h3) = >>-eq-ok _ _ h2 in
      let (ids, e, h4) = >>=-eq-ok _ _ h3 in
      let test = fail_if-eq-ok (bad_event_head event) invalid_request head in
      let (distinct, same) = check_evidence-Fresh now observed_at [] event.evidence ids e in
      let (controls, found) = check_assertions-Fresh ids [] event.assertions h4 in
      record {
        positive = ground (arith, test);
        asserting = (ground (arith, test), ground (arith, test));
        evidenced = ground (arith, test);
        observed_at = observed_at;
        observed = ok_or-eq-ok _ _ o;
        not_future = fail_if-eq-ok (is_later observed_at now) invalid_request skew;
        distinct_evidence = distinct;
        distinct_controls = controls;
        references =
            references-cover _ event.assertions
              (subst (λ i. All (Refers i) event.assertions) same found);
      }
