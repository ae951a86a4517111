-- ===== src/Admission/Ledger.antt =====
-- What the quota promises, stated without windows: a ledger of every accepted submission, and the
-- two limits on its entries that are younger than the window.
use canonical_api_server_rs.Prelude.{
  ℕ, not, List, [], ◌∷◌, ◌++◌, none, some, if◌then◌else◌, filter, Text, text_eq, Result, ok, err,
}
use canonical_api_server_rs.Admission.{
  RateLimited, is_expired, retry_after_seconds, full, submissions_per_window,
  submissions_global_per_window,
}

-- Accepted submissions, oldest first
abbrev pub Entries : Type 0
Entries = List (Text × ℕ)

abbrev pub live : ℕ → List ℕ → List ℕ
live now = filter (λ t. not (is_expired now t))

abbrev pub times : Entries → List ℕ
times [] = []
times ((s, t) ∷ log) = t ∷ times log

abbrev pub times_of : Text → Entries → List ℕ
times_of subject [] = []
times_of subject ((s, t) ∷ log) =
    let rest = times_of subject log in if text_eq s subject then t ∷ rest else rest

unfoldable pub refusal : ℕ → ℕ → Result RateLimited (Unit {0})
refusal earliest now = err (record { retry_after_seconds = retry_after_seconds earliest now })

unfoldable pub admit : ℕ → Text → Entries → Entries × Result RateLimited (Unit {0})
unfolding refusal
admit now subject log = elim (full submissions_global_per_window (live now (times log))) [
  | some earliest ↦ (log, refusal earliest now)
  | none ↦ elim (full submissions_per_window (live now (times_of subject log))) [
    | some earliest ↦ (log, refusal earliest now)
    | none ↦ (log ++ (subject, now) ∷ [], ok tt)
  ]
]
