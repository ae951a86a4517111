-- ===== src/Admission.antt =====
-- The submission quota of `QuoteAdmission` (src/lib.rs). Instants are nanoseconds since a fixed
-- start, and the mutex makes each call of `check_submission` one step from the windows, the current
-- instant and the subject to the new windows and the answer.
pub mod Ledger
mod Windows
pub mod Refinement
pub mod Quota
mod Tests
use canonical_api_server_rs.Prelude.{
  ℕ, ◌+◌, ◌-◌, ◌*◌, ◌/◌, Bool, true, false, not, ◌&&◌, List, [], ◌∷◌, ◌++◌, Option, none, some, ltb,
  leb, if◌then◌else◌, length, head?, Text, text_eq, text_eq_iff, Result, ok, err, Eq, lookup,
  insert, remove, contains_key,
}

abbrev pub nanos_per_second : ℕ
nanos_per_second = 1_000_000_000

-- QUOTE_SUBMISSION_WINDOW
abbrev pub submission_window : ℕ
submission_window = 600 * nanos_per_second

-- QUOTE_SUBMISSIONS_PER_WINDOW
abbrev pub submissions_per_window : ℕ
submissions_per_window = 5

-- QUOTE_SUBMISSIONS_GLOBAL_PER_WINDOW
abbrev pub submissions_global_per_window : ℕ
submissions_global_per_window = 500

-- QUOTE_SUBMISSION_MAX_SUBJECTS
abbrev pub submission_max_subjects : ℕ
submission_max_subjects = 4096

-- Subjects are compared as texts.
abbrev pub subject_eq : Eq Text
subject_eq = record { beq = text_eq; beq_iff = text_eq_iff }

pub record SubmissionWindows : Type 0 where
  pub all_subjects : List ℕ
  pub by_subject : List (Text × List ℕ)

pub record RateLimited : Type 0 where
  pub retry_after_seconds : ℕ

-- `SubmissionWindows::default()`
unfoldable pub default : SubmissionWindows
default = record { all_subjects = []; by_subject = [] }

-- `now.saturating_duration_since(timestamp) >= QUOTE_SUBMISSION_WINDOW`
abbrev pub is_expired : ℕ → ℕ → Bool
is_expired now timestamp = leb submission_window (now - timestamp)

-- Pops the front while it is expired.
unfoldable pub discard_expired : ℕ → List ℕ → List ℕ
discard_expired now [] = []
discard_expired now (t ∷ ts) =
    let rest = discard_expired now ts in if is_expired now t then rest else t ∷ ts

-- `as_secs` drops the fraction of a second.
unfoldable pub retry_after_seconds : ℕ → ℕ → ℕ
retry_after_seconds earliest now = (submission_window - (now - earliest)) / nanos_per_second + 1

pub keep_entry : Text → List ℕ → List (Text × List ℕ) → List (Text × List ℕ)
keep_entry subject [] rest = rest
keep_entry subject (t ∷ ts) rest = (subject, t ∷ ts) ∷ rest

-- The `retain` over `by_subject`
pub retain_live : ℕ → List (Text × List ℕ) → List (Text × List ℕ)
unfolding keep_entry
retain_live now [] = []
retain_live now ((subject, ts) ∷ m) =
    keep_entry subject (discard_expired now ts) (retain_live now m)

-- The order of `Option<&Instant>`, in which `None` comes first
front_leb : Option ℕ → Option ℕ → Bool
front_leb none b = true
front_leb (some a) none = false
front_leb (some a) (some b) = leb a b

-- `min_by_key` keeps the first of several least entries.
min_entry : Text × List ℕ → List (Text × List ℕ) → Text × List ℕ
unfolding front_leb
min_entry best [] = best
min_entry best (e ∷ m) = min_entry (if front_leb (head? best.1) (head? e.1) then best else e) m

evict : List (Text × List ℕ) → List (Text × List ℕ)
unfolding min_entry
evict [] = []
evict (e ∷ m) = remove subject_eq (min_entry e m).0 (e ∷ m)

pub make_room : Text → List (Text × List ℕ) → List (Text × List ℕ)
unfolding evict
make_room subject m =
    if not (contains_key subject_eq subject m) && leb submission_max_subjects (length m)
    then evict m
    else m

-- The front of a window that holds `limit` timestamps or more
abbrev pub full : ℕ → List ℕ → Option ℕ
full limit [] = none
full limit (t ∷ ts) = if leb limit (length (t ∷ ts)) then some t else none

abbrev pub or_empty : Option (List ℕ) → List ℕ
or_empty none = []
or_empty (some ts) = ts

-- `entry(subject).or_default()`
abbrev pub stamps_of : Text → List (Text × List ℕ) → List ℕ
stamps_of subject m = or_empty (lookup subject_eq subject m)

discard_all : ℕ → SubmissionWindows → SubmissionWindows
unfolding discard_expired retain_live
discard_all now w = record {
  all_subjects = discard_expired now w.all_subjects;
  by_subject = retain_live now w.by_subject;
}

-- From the lookup of the subject's own window on
record_submission : ℕ → Text → SubmissionWindows → SubmissionWindows × Result RateLimited (Unit {0})
record_submission now subject w =
    elim (full submissions_per_window (stamps_of subject w.by_subject)) [
      | some earliest ↦ (w, err (record { retry_after_seconds = retry_after_seconds earliest now }))
      | none ↦ (
        record {
          all_subjects = w.all_subjects ++ now ∷ [];
          by_subject =
              insert subject_eq subject (stamps_of subject w.by_subject ++ now ∷ []) w.by_subject;
        },
        ok tt,
      )
    ]

unfoldable pub check_submission :
    ℕ → Text → SubmissionWindows → SubmissionWindows × Result RateLimited (Unit {0})
unfolding discard_all make_room record_submission retry_after_seconds
check_submission now subject w =
    let live = discard_all now w in
    elim (full submissions_global_per_window live.all_subjects) [
      | some earliest ↦
          (live, err (record { retry_after_seconds = retry_after_seconds earliest now }))
      | none ↦
          record_submission now subject
            (record live { by_subject = make_room subject live.by_subject })
    ]
