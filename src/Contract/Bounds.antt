-- ===== src/Contract/Bounds.antt =====
-- What an estimate of src/contract.rs keeps within.
use canonical_api_server_rs.Prelude.{
  ℕ, ◌*◌, ◌≤◌, ◌≡◌, refl, sym, ap, subst, inl, inr, true, false, ◌&&◌, ◌||◌, List, [], ◌∷◌, ◌++◌,
  Option, some, Text, codes, length, take, length-take-le, ltb, leb, i64_max, Result, ok, err,
  bind_option, >>=-eq-ok, >>-eq-ok, fail_if, ok_or, fail_if-eq-ok, ok_or-eq-ok, ok_injective,
  some_injective, Bool-cases, arith,
}
use canonical_api_server_rs.Http.{ApiError}
use canonical_api_server_rs.Gemini.Analysis.{Json, u64_field, array_field}
use canonical_api_server_rs.Quotes.{QuoteRecord}
use canonical_api_server_rs.Contract.{
  Wire, QuoteEstimate, invalid_analysis, u64_max, cents, is_completed, required_u64,
  required_string, integer, next_steps, next_step, filter_map, or_review, estimate_of,
  quote_estimate, map_some, strings,
}

pub cents-eq-ok : (value : ℕ) {c : ℕ} → cents value ≡ ok c → (c ≡ value * 100) × (c ≤ i64_max)
unfolding cents
cents-eq-ok value h = elim (Bool-cases (leb (value * 100) u64_max && leb (value * 100) i64_max)) [
  | inl e ↦ let same = ok_injective (rw (e, cents) at h) in (sym same, ground (arith, e, same))
  | inr e ↦ cc (rw (e, cents) at h)
]

module _ {J : Type 0} (json : Json J) where
  pub integer-eq-ok :
      (object : Text → Option J) (field : Text) {n : ℕ}
      → integer json object field ≡ ok n
      → (u64_field json object field ≡ some n) × (n ≤ i64_max)
  unfolding integer required_u64
  integer-eq-ok object field {n} h =
      let (value, e, h1) = >>=-eq-ok (required_u64 json object field) _ h in
      let (bounded, h2) = >>-eq-ok _ _ h1 in
      let same = ok_injective h2 in
      let small = fail_if-eq-ok (ltb i64_max value) invalid_analysis bounded in
      (
        subst (λ v. u64_field json object field ≡ some v) same (ok_or-eq-ok _ _ e),
        ground (arith, small, same),
      )

  or_review-bounds :
      (steps : List Text)
      → length steps ≤ 25
      → (1 ≤ length (or_review json steps)) × (length (or_review json steps) ≤ 25)
  or_review-bounds [] h = (omega arith, omega arith)
  or_review-bounds (step ∷ steps) h = (omega arith, h)

  next_steps-bounds :
      (services : List J)
      → (1 ≤ length (next_steps json services)) × (length (next_steps json services) ≤ 25)
  unfolding next_steps
  next_steps-bounds services =
      let steps = filter_map json (next_step json) services in
      or_review-bounds (take 25 steps) (length-take-le 25 steps)

  -- The numbers of an estimate, and those of the analysis that it is made from
  pub record IsWithinBounds (object : Text → Option J) (e : QuoteEstimate) : Type 0 where
    pub fee_low : ℕ
    pub fee_high : ℕ
    pub fees :
        (u64_field json object (codes "estimated_total_fee_low") ≡ some fee_low)
        × (u64_field json object (codes "estimated_total_fee_high") ≡ some fee_high)
    pub cents_of :
        (e.lower_bound_cents ≡ fee_low * 100)
        × (e.upper_bound_cents ≡ fee_high * 100)
        × (e.lower_bound_cents ≤ e.upper_bound_cents)
        × (e.upper_bound_cents ≤ i64_max)
    pub weeks_of :
        (u64_field json object (codes "estimated_total_weeks_low") ≡ some e.duration_weeks_low)
        × (u64_field json object (codes "estimated_total_weeks_high") ≡ some e.duration_weeks_high)
    pub weeks :
        (1 ≤ e.duration_weeks_low)
        × (e.duration_weeks_low ≤ e.duration_weeks_high)
        × (e.duration_weeks_high ≤ i64_max)
    pub texts :
        (risks : List Text) × (missing : List Text) × (strings json (object (codes "risks"))
          ≡ ok risks)
        × (strings json (object (codes "missing_information")) ≡ ok missing)
        × (strings json (object (codes "assumptions")) ≡ ok e.assumptions)
        × (e.gaps ≡ take 50 (risks ++ missing))
    pub lists : (1 ≤ length e.next_steps) × (length e.next_steps ≤ 25) × (length e.gaps ≤ 50)

  ordered :
      (low high weeks_low weeks_high : ℕ)
      → (ltb high low || ltb weeks_low 1 || ltb weeks_high weeks_low) ≡ false
      → (low ≤ high) × (1 ≤ weeks_low) × (weeks_low ≤ weeks_high)
  ordered low high weeks_low weeks_high h = ground (arith, h)

  pub estimate_of-IsWithinBounds :
      {R : Type 0} (wire : Wire R) (r : QuoteRecord R J) (object : Text → Option J)
      {e : QuoteEstimate}
      → estimate_of json wire r object ≡ ok e
      → IsWithinBounds object e
  unfolding estimate_of required_u64
  estimate_of-IsWithinBounds wire r object {e} h =
      let (fee_low, fl, h1) =
        >>=-eq-ok (required_u64 json object (codes "estimated_total_fee_low")) _ h in
      let (fee_high, fh, h2) =
        >>=-eq-ok (required_u64 json object (codes "estimated_total_fee_high")) _ h1 in
      let (low, cl, h3) = >>=-eq-ok (cents fee_low) _ h2 in
      let (high, ch, h4) = >>=-eq-ok (cents fee_high) _ h3 in
      let (wl, il, h5) = >>=-eq-ok (integer json object (codes "estimated_total_weeks_low")) _ h4 in
      let (wh, ih, h6) =
        >>=-eq-ok (integer json object (codes "estimated_total_weeks_high")) _ h5 in
      let (checked, h7) =
        >>-eq-ok (fail_if (ltb high low || ltb wl 1 || ltb wh wl) invalid_analysis) _ h6 in
      let (services, s, h8) =
        >>=-eq-ok (ok_or (array_field json object (codes "recommended_services")) invalid_analysis)
          _ h7 in
      let (risks, k, h9) = >>=-eq-ok (strings json (object (codes "risks"))) _ h8 in
      let (missing, m, h10) =
        >>=-eq-ok (strings json (object (codes "missing_information"))) _ h9 in
      let (currency, c, h11) = >>=-eq-ok (required_string json object (codes "currency")) _ h10 in
      let (summary, y, h12) = >>=-eq-ok (required_string json object (codes "summary")) _ h11 in
      let (assumptions, a, h13) = >>=-eq-ok (strings json (object (codes "assumptions"))) _ h12 in
      let (exact_low, small_low) = cents-eq-ok fee_low cl in
      let (exact_high, small_high) = cents-eq-ok fee_high ch in
      let (fees, positive, weeks) =
        ordered low high wl wh
          (fail_if-eq-ok (ltb high low || ltb wl 1 || ltb wh wl) invalid_analysis checked) in
      let (one, most) = next_steps-bounds services in
      subst (IsWithinBounds object) (ok_injective h13) (record {
        fee_low = fee_low;
        fee_high = fee_high;
        fees = (ok_or-eq-ok _ _ fl, ok_or-eq-ok _ _ fh);
        cents_of = (exact_low, exact_high, fees, small_high);
        weeks_of = ((integer-eq-ok object _ il).0, (integer-eq-ok object _ ih).0);
        weeks = (positive, weeks, (integer-eq-ok object _ ih).1);
        texts = (risks, missing, k, m, a, refl);
        lists = (one, most, length-take-le 50 (risks ++ missing));
      })

  map_some-eq-ok :
      (x : Result ApiError QuoteEstimate) {e : QuoteEstimate}
      → map_some json x ≡ ok (some e)
      → x ≡ ok e
  map_some-eq-ok (ok d) h = ap ok (some_injective (ok_injective h))
  map_some-eq-ok (err f) h = cc

  -- An estimate is shown only of a completed quote whose analysis is an object. Its fees are the
  -- analysis's times 100, with no overflow: they are in order and fit an `i64`, as do the weeks,
  -- which are in order and at least one. It has 1 to 25 next steps and at most 50 gaps.
  pub quote_estimate-IsWithinBounds :
      {R : Type 0} (wire : Wire R) (r : QuoteRecord R J) (e : QuoteEstimate)
      → quote_estimate json wire r ≡ ok (some e)
      → (object : Text → Option J) × (is_completed r.status ≡ true)
        × (bind_option r.analysis json.as_object ≡ some object)
        × IsWithinBounds object e
  unfolding quote_estimate
  quote_estimate-IsWithinBounds wire r e h = elim (Bool-cases (is_completed r.status)) [
    | inl c ↦
        let (object, o, h1) = >>=-eq-ok _ _ (rw (c, quote_estimate) at h) in
        (
          object,
          c,
          ok_or-eq-ok _ _ o,
          estimate_of-IsWithinBounds wire r object (map_some-eq-ok _ h1),
        )
    | inr c ↦ cc (rw (c, quote_estimate) at h)
  ]
