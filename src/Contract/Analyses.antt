-- ===== src/Contract/Analyses.antt =====
-- Which of the analyses that src/gemini.rs accepts src/contract.rs can show.
use canonical_api_server_rs.Prelude.{
  ℕ, ◌*◌, ◌≤◌, ◌≡◌, refl, sym, ap, ◌∙◌, subst, ◌≢◌, ◌↔◌, true, false, ◌||◌, List, [], ◌∷◌, Option,
  some, Text, codes, ltb, i64_max, ok, ok_or, keep_if, bind_option, All, >>=-eq-ok, ok_or-eq-ok,
  some_injective, keep_if-eq-some, arith,
}
use canonical_api_server_rs.Gemini.Analysis.{
  Json, string_field, u64_field, array_field, IsAnalysis, validate_analysis, validate_analysis_iff,
}
use canonical_api_server_rs.Quotes.{QuoteRecord}
use canonical_api_server_rs.Contract.{
  Wire, QuoteEstimate, invalid_analysis, cents, is_completed, is_nonempty, required_u64,
  required_string, integer, estimate_of, quote_estimate, strings_of, strings,
}
use canonical_api_server_rs.Contract.Bounds.{IsWithinBounds, quote_estimate-IsWithinBounds}

is_nonempty_iff : (t : Text) → (is_nonempty t ≡ true) ↔ (t ≢ [])
is_nonempty_iff [] = ground arith
is_nonempty_iff (c ∷ t) = ((λ h e. cc), λ h. refl)

cents-ok : (value : ℕ) → value * 100 ≤ i64_max → cents value ≡ ok (value * 100)
unfolding cents
cents-ok value h = ground (arith, h)

-- The lists whose every entry is shown
abbrev pub entry_fields : List Text
entry_fields = codes "risks" ∷ codes "missing_information" ∷ codes "assumptions" ∷ []

module _ {J : Type 0} (json : Json J) where
  -- A nonempty JSON text
  abbrev pub IsEntry : J → Type 0
  IsEntry item = (t : Text) × (json.as_str item ≡ some t) × (t ≢ [])

  strings_of-Entries :
      (items : List J) (ts : List Text) → strings_of json items ≡ ok ts → All IsEntry items
  unfolding strings_of
  strings_of-Entries [] ts h = tt
  strings_of-Entries (item ∷ items) ts h =
      let (t, e, h1) =
        >>=-eq-ok (ok_or (keep_if is_nonempty (json.as_str item)) invalid_analysis) _ h in
      let (rest, k, h2) = >>=-eq-ok (strings_of json items) _ h1 in
      let (found, full) =
        (keep_if-eq-some is_nonempty (json.as_str item) t).0 (ok_or-eq-ok _ _ e) in
      ((t, found, (is_nonempty_iff t).0 full), strings_of-Entries items rest k)

  Entries-strings_of :
      (items : List J) → All IsEntry items → (ts : List Text) × (strings_of json items ≡ ok ts)
  unfolding strings_of
  Entries-strings_of [] h = ([], refl)
  Entries-strings_of (item ∷ items) ((t, e, n), h) =
      let (ts, k) = Entries-strings_of items h in
      let kept =
        (keep_if-eq-some is_nonempty (json.as_str item) t).1 (e, (is_nonempty_iff t).1 n) in
      (t ∷ ts, rw (kept, k) refl)

  -- What the estimate asks beyond `IsAnalysis`
  pub record IsShowable (object : Text → Option J) : Type 0 where
    pub fees :
        (fee : ℕ)
        → u64_field json object (codes "estimated_total_fee_high") ≡ some fee
        → fee * 100 ≤ i64_max
    pub weeks :
        (n : ℕ) → u64_field json object (codes "estimated_total_weeks_high") ≡ some n → n ≤ i64_max
    pub entries :
        All
          (λ field.
            (items : List J) → array_field json object field ≡ some items → All IsEntry items)
          entry_fields

  integer-ok :
      (object : Text → Option J) (field : Text) (n : ℕ)
      → u64_field json object field ≡ some n
      → n ≤ i64_max
      → integer json object field ≡ ok n
  unfolding integer required_u64
  integer-ok object field n e h = rw e (ground (arith, h))

  strings-ok :
      (object : Text → Option J) (field : Text) (items : List J)
      → array_field json object field ≡ some items
      → All IsEntry items
      → (ts : List Text) × (strings json (object field) ≡ ok ts)
  unfolding strings
  strings-ok object field items e h =
      let (ts, k) = Entries-strings_of items h in (ts, rw (e, k) refl)

  strings-Entries :
      (object : Text → Option J) (field : Text) (items : List J) (ts : List Text)
      → array_field json object field ≡ some items
      → strings json (object field) ≡ ok ts
      → All IsEntry items
  unfolding strings
  strings-Entries object field items ts e h = strings_of-Entries items ts (rw (e, strings) at h)

  required_string-ok :
      (object : Text → Option J) (field : Text)
      → (t : Text) × (string_field json object field ≡ some t) × (t ≢ [])
      → (t : Text) × (required_string json object field ≡ ok t)
  unfolding required_string
  required_string-ok object field (t, e, n) =
      let kept =
        (keep_if-eq-some is_nonempty (string_field json object field) t).1
          (e, (is_nonempty_iff t).1 n) in
      (t, rw kept refl)

  in_order :
      (low high weeks_low weeks_high : ℕ)
      → low ≤ high
      → 1 ≤ weeks_low
      → weeks_low ≤ weeks_high
      → (ltb (high * 100) (low * 100) || ltb weeks_low 1 || ltb weeks_high weeks_low) ≡ false
  in_order low high weeks_low weeks_high h k l = ground (arith, h, k, l)

  -- Each part of the estimate of an accepted and showable analysis is there.
  estimate_of-ok :
      {R : Type 0} (wire : Wire R) (r : QuoteRecord R J) (analysis : J)
      (h : IsAnalysis json analysis)
      → IsShowable h.object
      → (e : QuoteEstimate) × (estimate_of json wire r h.object ≡ ok e)
  unfolding estimate_of required_u64
  estimate_of-ok wire r analysis h s =
      let (fl, fh, fees) = h.fees in
      let (wl, wh, positive, weeks) = h.weeks in
      let small_high = s.fees h.fee_high fh in
      let low = cents-ok h.fee_low (omega (arith, fees, small_high)) in
      let high = cents-ok h.fee_high small_high in
      let small_weeks = s.weeks h.weeks_high wh in
      let first = integer-ok h.object _ h.weeks_low wl (omega (arith, weeks, small_weeks)) in
      let last = integer-ok h.object _ h.weeks_high wh small_weeks in
      let ordered = in_order h.fee_low h.fee_high h.weeks_low h.weeks_high fees positive weeks in
      let ((services, x), ((assumed, y), ((risky, z), ((lacking, w), _)))) = h.lists in
      let (k, (l, (m, _))) = s.entries in
      let (risks, risks_ok) = strings-ok h.object _ risky z (k risky z) in
      let (missing, missing_ok) = strings-ok h.object _ lacking w (l lacking w) in
      let (assumptions, assumptions_ok) = strings-ok h.object _ assumed y (m assumed y) in
      let (in_summary, (in_currency, _)) = h.texts in
      let (summary, summary_ok) = required_string-ok h.object _ in_summary in
      let (currency, currency_ok) = required_string-ok h.object _ in_currency in
      rw
        (
          fl, fh, low, high, first, last, ordered, x, risks_ok, missing_ok, currency_ok, summary_ok,
          assumptions_ok,
        )
        (_, refl)

  within-IsShowable :
      (object : Text → Option J) (e : QuoteEstimate)
      → IsWithinBounds json object e
      → IsShowable object
  within-IsShowable object e b =
      let (low, high, ordered, small) = b.cents_of in
      let (positive, weeks, small_weeks) = b.weeks in
      let (risks, missing, risks_ok, missing_ok, assumptions_ok, gaps) = b.texts in
      record {
        fees = λ fee h.
            let same = some_injective (sym b.fees.1 ∙ h) in
            subst (λ n. n * 100 ≤ i64_max) same (subst (λ n. n ≤ i64_max) high small);
        weeks = λ n h. subst (λ k. k ≤ i64_max) (some_injective (sym b.weeks_of.1 ∙ h)) small_weeks;
        entries = (
          (λ items h. strings-Entries object _ items risks h risks_ok),
          (
            (λ items h. strings-Entries object _ items missing h missing_ok),
            ((λ items h. strings-Entries object _ items e.assumptions h assumptions_ok), tt),
          ),
        );
      }

  shown :
      {R : Type 0} (wire : Wire R) (r : QuoteRecord R J) (analysis : J) (object : Text → Option J)
      (e : QuoteEstimate)
      → is_completed r.status ≡ true
      → r.analysis ≡ some analysis
      → json.as_object analysis ≡ some object
      → estimate_of json wire r object ≡ ok e
      → quote_estimate json wire r ≡ ok (some e)
  unfolding quote_estimate
  shown wire r analysis object e c a o h = rw (c, a, o, h) refl

  -- A completed quote whose analysis passed `validate_analysis` can be shown exactly if its higher
  -- fee in cents and its higher number of weeks fit an `i64` and every entry of its risks, missing
  -- information and assumptions is a nonempty text.
  pub quote_estimate_iff :
      {R : Type 0} (wire : Wire R) (r : QuoteRecord R J) (analysis : J) (object : Text → Option J)
      → r.status ≡ codes "completed"
      → r.analysis ≡ some analysis
      → json.as_object analysis ≡ some object
      → validate_analysis json analysis ≡ ok tt
      → ((e : QuoteEstimate) × (quote_estimate json wire r ≡ ok (some e))) ↔ IsShowable object
  quote_estimate_iff wire r analysis object status a o accepted =
      let valid = (validate_analysis_iff json analysis).0 accepted in
      let same : valid.object ≡ object = some_injective (sym valid.is_object ∙ o) in
      let done : is_completed r.status ≡ true = ap is_completed status in
      (
        λ (e, h).
            let (found, c, k, b) = quote_estimate-IsWithinBounds json wire r e h in
            let found_same : found ≡ object =
              some_injective (sym k ∙ (ap (λ x. bind_option x json.as_object) a ∙ o)) in
            subst IsShowable found_same (within-IsShowable found e b),
        λ s.
            let (e, h) = estimate_of-ok wire r analysis valid (subst IsShowable (sym same) s) in
            (e, shown wire r analysis valid.object e done a valid.is_object h),
      )
