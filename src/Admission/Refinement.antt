-- ===== src/Admission/Refinement.antt =====
-- The windows of src/lib.rs implement the ledger: the same answers, call by call and over every run.
use canonical_api_server_rs.Prelude.{
  ℕ, ◌+◌, ◌≤◌, ◌<◌, Bool, true, ◌≡◌, refl, sym, ap, ◌∙◌, subst, inl, inr, List, [], ◌∷◌, ◌++◌, none,
  some, if◌then◌else◌, count, count-append, count-filter, count-true, length, length-append,
  length-filter-le, Bool-cases, Option-cases, Text, text_eq, text_eq_iff, lookup-insert, insert,
  All, All-append, arith, Result, ok,
}
use canonical_api_server_rs.Admission.{
  SubmissionWindows, RateLimited, default, discard_expired, retain_live, subject_eq, stamps_of,
  full, make_room, discard_all, record_submission, check_submission, submissions_per_window,
  submissions_global_per_window,
}
use canonical_api_server_rs.Admission.Ledger.{Entries, live, times, times_of, refusal, admit}
use canonical_api_server_rs.Admission.Windows.{
  IsSorted, All-mono, live-IsSorted, IsSorted-append, discard_expired-eq-live, live-live,
  live-append_now, stamps, IsDistinct, recorded-IsWindow, AreWindows, length-le-stamps,
  retain_live-IsDistinct, retain_live-AreWindows, stamps-retain_live, stamps_of-retain_live,
  insert-IsDistinct, insert-AreWindows, count-stamps-insert_now,
}

-- How windows and ledger correspond after a call at the instant `now`.
pub record Tracks (now : ℕ) (log : Entries) (w : SubmissionWindows) : Type 0 where
  pub ordered : IsSorted (times log)
  pub past : All (λ u. u ≤ now) (times log)
  pub global : w.all_subjects ≡ live now (times log)
  pub own : (s : Text) → stamps_of s w.by_subject ≡ live now (times_of s log)
  pub distinct : IsDistinct w.by_subject
  pub windows : AreWindows now w.by_subject
  pub balanced : (p : ℕ → Bool) → count p w.all_subjects ≡ count p (stamps w.by_subject)
  pub bounded : length w.all_subjects ≤ submissions_global_per_window

pub default-Tracks : Tracks 0 [] default
unfolding default
default-Tracks = record {
  ordered = tt;
  past = tt;
  global = refl;
  own = λ s. refl;
  distinct = tt;
  windows = tt;
  balanced = λ p. refl;
  bounded = omega arith;
}

-- Discarding what has expired keeps the correspondence.
module _ {now later : ℕ} {log : Entries} {w : SubmissionWindows} (h : Tracks now log w)
    (le : now ≤ later) where
  discard_global : discard_expired later w.all_subjects ≡ live later w.all_subjects
  discard_global =
      discard_expired-eq-live later w.all_subjects
        (subst IsSorted (sym h.global) (live-IsSorted now (times log) h.ordered))

  discard_balanced :
      (p : ℕ → Bool)
      → count p (discard_expired later w.all_subjects)
        ≡ count p (stamps (retain_live later w.by_subject))
  discard_balanced p =
      ap (count p) discard_global
      ∙ count-filter p _ w.all_subjects
      ∙ h.balanced _
      ∙ sym (count-filter p _ (stamps w.by_subject))
      ∙ ap (count p) (sym (stamps-retain_live now later w.by_subject h.windows))

  discard_all-Tracks : Tracks later log (discard_all later w)
  unfolding discard_all
  discard_all-Tracks = record {
    ordered = h.ordered;
    past = All-mono now later (times log) le h.past;
    global = discard_global ∙ ap (live later) h.global ∙ live-live now later (times log) le;
    own = λ s.
        stamps_of-retain_live now later s w.by_subject h.distinct h.windows
        ∙ ap (live later) (h.own s)
        ∙ live-live now later (times_of s log) le;
    distinct = retain_live-IsDistinct later w.by_subject h.distinct;
    windows = retain_live-AreWindows now later w.by_subject le h.windows;
    balanced = discard_balanced;
    bounded =
        omega (arith, ap length discard_global, length-filter-le {0} _ w.all_subjects, h.bounded);
  }

-- The map never holds more subjects than there are live submissions, so none is ever evicted.
subjects-le :
    {now : ℕ} {log : Entries} {w : SubmissionWindows}
    → Tracks now log w
    → length w.by_subject ≤ submissions_global_per_window
subjects-le {now} {w} h = omega (
  arith,
  length-le-stamps now w.by_subject h.windows,
  sym (count-true (stamps w.by_subject)) ∙ sym (h.balanced (λ t. true)) ∙ count-true w.all_subjects,
  h.bounded,
)

pub make_room-eq_self :
    {now : ℕ} {log : Entries} {w : SubmissionWindows} (s : Text)
    → Tracks now log w
    → make_room s w.by_subject ≡ w.by_subject
unfolding make_room
make_room-eq_self {w} s h = ground (arith, subjects-le h)

pub times-append :
    (log : Entries) (s : Text) (t : ℕ) → times (log ++ (s, t) ∷ []) ≡ times log ++ t ∷ []
times-append [] s t = refl
times-append ((j, u) ∷ log) s t = ap (◌∷◌ u) (times-append log s t)

pub times_of-append :
    (log : Entries) (s j : Text) (t : ℕ)
    → times_of j (log ++ (s, t) ∷ [])
      ≡ (if text_eq s j then times_of j log ++ t ∷ [] else times_of j log)
times_of-append [] s j t = refl
times_of-append ((i, u) ∷ log) s j t = ground (arith, times_of-append log s j t)

-- Recording an accepted submission keeps it too.
module _ {now : ℕ} {log : Entries} {w : SubmissionWindows} (s : Text) (h : Tracks now log w) where
  recorded : SubmissionWindows
  recorded = record {
    all_subjects = w.all_subjects ++ now ∷ [];
    by_subject = insert subject_eq s (stamps_of s w.by_subject ++ now ∷ []) w.by_subject;
  }

  recorded_own :
      (j : Text)
      → stamps_of j (insert subject_eq s (stamps_of s w.by_subject ++ now ∷ []) w.by_subject)
        ≡ live now (times_of j (log ++ (s, now) ∷ []))
  recorded_own j = elim (Bool-cases (text_eq s j)) [
    | inl e ↦
        rw (lookup-insert subject_eq s j _ w.by_subject, times_of-append log s j now, e)
          (rw (h.own s, live-append_now now (times_of j log))
            (ap (λ k. live now (times_of k log) ++ now ∷ []) ((text_eq_iff s j).0 e)))
    | inr e ↦
        rw (lookup-insert subject_eq s j _ w.by_subject, times_of-append log s j now, e) (h.own j)
  ]

  recorded-Tracks :
      length w.all_subjects < submissions_global_per_window
      → Tracks now (log ++ (s, now) ∷ []) recorded
  unfolding recorded
  recorded-Tracks room = record {
    ordered =
        subst IsSorted (sym (times-append log s now))
          (IsSorted-append (times log) now h.ordered h.past);
    past =
        subst (All (λ u. u ≤ now)) (sym (times-append log s now))
          (All-append (λ u. u ≤ now) (times log) (now ∷ []) h.past (omega arith, tt));
    global =
        ap (λ ts. ts ++ now ∷ []) h.global
        ∙ sym (live-append_now now (times log))
        ∙ ap (live now) (sym (times-append log s now));
    own = recorded_own;
    distinct = insert-IsDistinct s _ w.by_subject h.distinct;
    windows =
        insert-AreWindows now s _ w.by_subject (recorded-IsWindow now s w.by_subject h.windows)
          h.windows;
    balanced = λ p.
        count-append p w.all_subjects (now ∷ [])
        ∙ ap (λ n. n + count p (now ∷ [])) (h.balanced p)
        ∙ sym (count-stamps-insert_now p now s w.by_subject);
    bounded = omega (arith, length-append w.all_subjects (now ∷ []), room);
  }

pub full-none : (limit : ℕ) (ts : List ℕ) → 0 < limit → full limit ts ≡ none → length ts < limit
full-none limit [] h e = h
full-none limit (t ∷ ts) h e = ground arith

-- The ledger's three branches
module _ (now : ℕ) (s : Text) (log : Entries) where
  admit_global :
      (t : ℕ)
      → full submissions_global_per_window (live now (times log)) ≡ some t
      → admit now s log ≡ (log, refusal t now)
  unfolding admit
  admit_global t e = rw (e, admit)

  admit_own :
      (t : ℕ)
      → full submissions_global_per_window (live now (times log)) ≡ none
      → full submissions_per_window (live now (times_of s log)) ≡ some t
      → admit now s log ≡ (log, refusal t now)
  unfolding admit
  admit_own t e o = rw (e, admit) (rw (o, admit))

  admit_accepts :
      full submissions_global_per_window (live now (times log)) ≡ none
      → full submissions_per_window (live now (times_of s log)) ≡ none
      → admit now s log ≡ (log ++ (s, now) ∷ [], ok tt)
  unfolding admit
  admit_accepts e o = rw (e, admit) (rw (o, admit))

-- What the two calls have to agree on
abbrev pub Agree :
    ℕ
    → Entries × Result RateLimited (Unit {0})
    → SubmissionWindows × Result RateLimited (Unit {0})
    → Type 0
Agree now (log, a) (w, b) = Tracks now log w × (b ≡ a)

-- The part of the call behind the global check
record_submission-refines :
    (now : ℕ) (s : Text) (log : Entries) (w : SubmissionWindows)
    → Tracks now log w
    → full submissions_global_per_window w.all_subjects ≡ none
    → Agree now (admit now s log) (record_submission now s w)
unfolding record_submission recorded refusal
record_submission-refines now s log w h room =
    let all_room = ap (full submissions_global_per_window) (sym h.global) ∙ room in
    elim (Option-cases (full submissions_per_window (stamps_of s w.by_subject))) [
      | inl e ↦
          rw
            (admit_accepts now s log all_room
              (ap (full submissions_per_window) (sym (h.own s)) ∙ e))
            (rw (e, record_submission)
              (
                recorded-Tracks s h (full-none submissions_global_per_window _ (omega arith) room),
                refl,
              ))
      | inr (t, e) ↦
          rw (admit_own now s log t all_room (ap (full submissions_per_window) (sym (h.own s)) ∙ e))
            (rw (e, record_submission) (h, refl))
    ]

-- One call: from corresponding states, at a later instant, the answer is the ledger's and the
-- states correspond again.
pub check_submission-refines :
    (now later : ℕ) (s : Text) (log : Entries) (w : SubmissionWindows)
    → now ≤ later
    → Tracks now log w
    → Agree later (admit later s log) (check_submission later s w)
unfolding check_submission refusal
check_submission-refines now later s log w le h =
    let d = discard_all-Tracks h le in
    let live_w = discard_all later w in
    elim (Option-cases (full submissions_global_per_window live_w.all_subjects)) [
      | inl e ↦
          rw (e, check_submission)
            (rw (make_room-eq_self s d) (record_submission-refines later s log live_w d e))
      | inr (t, e) ↦
          rw
            (admit_global later s log t
              (ap (full submissions_global_per_window) (sym d.global) ∙ e))
            (rw (e, check_submission) (d, refl))
    ]
