-- ===== src/Admission/Tests.antt =====
-- Runs of the quota, and its theorems at concrete calls.
use canonical_api_server_rs.Prelude.{
  ℕ, ◌+◌, ◌*◌, ◌≡◌, refl, List, [], ◌∷◌, codes, ok, err, arith, Text,
}
use canonical_api_server_rs.Admission.{default, nanos_per_second, check_submission}
use canonical_api_server_rs.Admission.Quota.{
  IsWithinQuota, answers, admissions, accepted, answers-refines, accepted-IsWithinQuota,
}

abbrev ann : Text
ann = codes "ann"

-- Six calls of one subject in one second, one of another, and the first again when the window ends.
abbrev calls : List (ℕ × Text)
calls =
    (1, ann)
    ∷ (2, ann)
    ∷ (3, ann)
    ∷ (4, ann)
    ∷ (5, ann)
    ∷ (6, ann)
    ∷ (7, codes "bob")
    ∷ (600 * nanos_per_second + 1, ann)
    ∷ []

calls-answers :
    answers calls default
    ≡ ok tt
      ∷ ok tt
      ∷ ok tt
      ∷ ok tt
      ∷ ok tt
      ∷ err (record { retry_after_seconds = 600 })
      ∷ ok tt
      ∷ ok tt
      ∷ []
unfolding answers default check_submission
calls-answers = refl

answers-refines_example : answers calls default ≡ admissions calls []
answers-refines_example = answers-refines calls (omega arith)

accepted-IsWithinQuota_example : IsWithinQuota (accepted calls default)
accepted-IsWithinQuota_example = accepted-IsWithinQuota calls (omega arith)
