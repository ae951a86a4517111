-- ===== src/Admission/Quota.antt =====
-- Whole runs of `check_submission`: the answers are the ledger's, and no window of ten minutes,
-- wherever it starts, holds more accepted submissions than the two limits allow.
use mathlib.Core.List.{append-nil, append_assoc}
use canonical_api_server_rs.Prelude.{
  ℕ, ◌+◌, ◌*◌, ◌≤◌, ◌<◌, Bool, true, false, ◌&&◌, ◌≡◌, refl, sym, ap, ◌∙◌, subst, inl, inr, List,
  [], ◌∷◌, ◌++◌, count, count-append, length, Option-cases, Bool-cases, ltb, leb, Text, text_eq,
  text_eq_iff, All, arith, Result, ok, err,
}
use canonical_api_server_rs.Admission.{
  SubmissionWindows, RateLimited, default, full, nanos_per_second, is_expired, submission_window,
  check_submission, retry_after_seconds, submissions_per_window, submissions_global_per_window,
}
use canonical_api_server_rs.Admission.Ledger.{Entries, live, times, times_of, admit}
use canonical_api_server_rs.Admission.Windows.{All-mono}
use canonical_api_server_rs.Admission.Refinement.{
  Tracks, default-Tracks, times-append, times_of-append, full-none, check_submission-refines,
}

abbrev pub Answer : Type 0
Answer = Result RateLimited (Unit {0})

-- Calls with the instants at which they are made
abbrev pub IsChronological : ℕ → List (ℕ × Text) → Type 0
IsChronological now [] = Unit
IsChronological now ((t, s) ∷ calls) = (now ≤ t) × IsChronological t calls

unfoldable pub answers : List (ℕ × Text) → SubmissionWindows → List Answer
answers [] w = []
answers ((t, s) ∷ calls) w = let (w', a) = check_submission t s w in a ∷ answers calls w'

unfoldable pub admissions : List (ℕ × Text) → Entries → List Answer
admissions [] log = []
admissions ((t, s) ∷ calls) log = let (log', a) = admit t s log in a ∷ admissions calls log'

answers-eq-admissions :
    (now : ℕ) (calls : List (ℕ × Text)) (log : Entries) (w : SubmissionWindows)
    → IsChronological now calls
    → Tracks now log w
    → answers calls w ≡ admissions calls log
unfolding answers admissions
answers-eq-admissions now [] log w c h = refl
answers-eq-admissions now ((t, s) ∷ calls) log w c h =
    let (h', e) = check_submission-refines now t s log w c.0 h in
    rw (e, answers-eq-admissions t calls _ _ c.1 h')

-- From the empty windows on, over every sequence of calls at non-decreasing instants, the server
-- gives exactly the answers, retry times included, of the ledger that remembers every accepted
-- submission and never forgets a subject.
pub answers-refines :
    (calls : List (ℕ × Text))
    → IsChronological 0 calls
    → answers calls default ≡ admissions calls []
answers-refines calls c = answers-eq-admissions 0 calls [] default c default-Tracks

abbrev pub entry_of : Text → ℕ → Answer → Entries
entry_of s t (ok _) = (s, t) ∷ []
entry_of s t (err _) = []

-- The submissions that the server accepts, oldest first
unfoldable pub accepted : List (ℕ × Text) → SubmissionWindows → Entries
accepted [] w = []
accepted ((t, s) ∷ calls) w =
    let (w', a) = check_submission t s w in entry_of s t a ++ accepted calls w'

ledger : List (ℕ × Text) → Entries → Entries
ledger [] log = log
ledger ((t, s) ∷ calls) log = ledger calls (admit t s log).0

admit-entries :
    (now : ℕ) (s : Text) (log : Entries)
    → (admit now s log).0 ≡ log ++ entry_of s now (admit now s log).1
unfolding admit
admit-entries now s log =
    elim (Option-cases (full submissions_global_per_window (live now (times log)))) [
      | inr (t, e) ↦ rw (e, admit) (sym (append-nil log))
      | inl e ↦ elim (Option-cases (full submissions_per_window (live now (times_of s log)))) [
        | inr (t, o) ↦ rw (e, admit) (rw (o, admit) (sym (append-nil log)))
        | inl o ↦ rw (e, admit) (rw (o, admit))
      ]
    ]

accepted-eq-ledger :
    (now : ℕ) (calls : List (ℕ × Text)) (log : Entries) (w : SubmissionWindows)
    → IsChronological now calls
    → Tracks now log w
    → log ++ accepted calls w ≡ ledger calls log
unfolding accepted ledger
accepted-eq-ledger now [] log w c h = append-nil log
accepted-eq-ledger now ((t, s) ∷ calls) log w c h =
    let (h', e) = check_submission-refines now t s log w c.0 h in
    ap (λ a. log ++ (entry_of s t a ++ accepted calls (check_submission t s w).0)) e
    ∙ sym (append_assoc log _ _)
    ∙ ap (λ l. l ++ accepted calls (check_submission t s w).0) (sym (admit-entries t s log))
    ∙ accepted-eq-ledger t calls _ _ c.1 h'

-- The window of ten minutes that begins at `start`
abbrev pub within : ℕ → ℕ → Bool
within start t = leb start t && ltb t (start + submission_window)

count-within-le :
    (start now : ℕ) (ts : List ℕ)
    → within start now ≡ true
    → All (λ u. u ≤ now) ts
    → count (within start) ts ≤ length (live now ts)
count-within-le start now [] e a = omega arith
count-within-le start now (t ∷ ts) e a = ground (arith, count-within-le start now ts e a.1)

count-within-append :
    (limit start now : ℕ) (ts : List ℕ)
    → All (λ u. u ≤ now) ts
    → length (live now ts) < limit
    → count (within start) ts ≤ limit
    → count (within start) (ts ++ now ∷ []) ≤ limit
count-within-append limit start now ts a h k = elim (Bool-cases (within start now)) [
  | inl e ↦ omega (
    arith,
    count-append (within start) ts (now ∷ []),
    count-one start now,
    count-within-le start now ts e a,
  )
  | inr e ↦ omega (arith, count-append (within start) ts (now ∷ []), count-out start now e)
]
  where
    count-one : (start now : ℕ) → count (within start) (now ∷ []) ≤ 1
    count-one start now = ground arith

    count-out : (start now : ℕ) → within start now ≡ false → count (within start) (now ∷ []) ≡ 0
    count-out start now e = rw e

pub record IsWithinQuota (log : Entries) : Type 0 where
  pub own : (s : Text) (start : ℕ) → count (within start) (times_of s log) ≤ submissions_per_window
  pub global : (start : ℕ) → count (within start) (times log) ≤ submissions_global_per_window

All-times_of :
    (P : ℕ → Type 0) (s : Text) (log : Entries) → All P (times log) → All P (times_of s log)
All-times_of P s [] a = tt
All-times_of P s ((j, t) ∷ log) a = elim (Bool-cases (text_eq j s)) [
  | inl e ↦ rw e (a.0, All-times_of P s log a.1)
  | inr e ↦ rw e (All-times_of P s log a.1)
]

append-IsWithinQuota :
    (now : ℕ) (s : Text) (log : Entries)
    → All (λ u. u ≤ now) (times log)
    → length (live now (times log)) < submissions_global_per_window
    → length (live now (times_of s log)) < submissions_per_window
    → IsWithinQuota log
    → IsWithinQuota (log ++ (s, now) ∷ [])
append-IsWithinQuota now s log past g o q = record {
  own = λ j start. elim (Bool-cases (text_eq s j)) [
    | inl e ↦
        rw (times_of-append log s j now, e, ← (text_eq_iff s j).0 e)
          (count-within-append submissions_per_window start now (times_of s log)
            (All-times_of (λ u. u ≤ now) s log past) o (q.own s start))
    | inr e ↦ rw (times_of-append log s j now, e) (q.own j start)
  ];
  global = λ start. rw (times-append log s now) (
      count-within-append submissions_global_per_window start now (times log) past g
        (q.global start));
}

admit-IsWithinQuota :
    (now : ℕ) (s : Text) (log : Entries)
    → All (λ u. u ≤ now) (times log)
    → IsWithinQuota log
    → IsWithinQuota (admit now s log).0
unfolding admit
admit-IsWithinQuota now s log past q =
    elim (Option-cases (full submissions_global_per_window (live now (times log)))) [
      | inr (t, e) ↦ rw (e, admit) q
      | inl e ↦ elim (Option-cases (full submissions_per_window (live now (times_of s log)))) [
        | inr (t, o) ↦ rw (e, admit) (rw (o, admit) q)
        | inl o ↦
            rw (e, admit)
              (rw (o, admit)
                (append-IsWithinQuota now s log past (full-none _ _ (omega arith) e)
                  (full-none _ _ (omega arith) o) q))
      ]
    ]

ledger-IsWithinQuota :
    (now : ℕ) (calls : List (ℕ × Text)) (log : Entries) (w : SubmissionWindows)
    → IsChronological now calls
    → Tracks now log w
    → IsWithinQuota log
    → IsWithinQuota (ledger calls log)
unfolding ledger
ledger-IsWithinQuota now [] log w c h q = q
ledger-IsWithinQuota now ((t, s) ∷ calls) log w c h q =
    ledger-IsWithinQuota t calls _ _ c.1 (check_submission-refines now t s log w c.0 h).0
      (admit-IsWithinQuota t s log (All-mono now t (times log) c.0 h.past) q)

-- Over every sequence of calls at non-decreasing instants from the empty windows on, and for every
-- instant `start`: of the submissions that are accepted in the ten minutes from `start` on, at most
-- 5 are one subject's, and at most 500 are all subjects'.
pub accepted-IsWithinQuota :
    (calls : List (ℕ × Text)) → IsChronological 0 calls → IsWithinQuota (accepted calls default)
accepted-IsWithinQuota calls c =
    subst IsWithinQuota (sym (accepted-eq-ledger 0 calls [] default c default-Tracks)) (
      ledger-IsWithinQuota 0 calls [] default c default-Tracks
        (record { own = λ s start. omega arith; global = λ start. omega arith }))

-- A refused caller that waits as long as the answer says finds the timestamp that refused it
-- expired: for a timestamp of the past that is live, waiting the announced seconds makes it expire,
-- and the announced number lies between 1 and 601.
pub retry_after_seconds_bounds :
    (earliest now : ℕ)
    → earliest ≤ now
    → is_expired now earliest ≡ false
    → (is_expired (now + retry_after_seconds earliest now * nanos_per_second) earliest ≡ true)
      × (1 ≤ retry_after_seconds earliest now)
      × (retry_after_seconds earliest now ≤ 601)
unfolding retry_after_seconds
retry_after_seconds_bounds earliest now past h = ground arith
