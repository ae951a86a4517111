-- ===== src/Assessments/Tests.antt =====
-- The memory of assessments at concrete calls.
use canonical_api_server_rs.Prelude.{
  ◌≡◌, ◌≢◌, refl, List, [], ◌∷◌, none, Text, codes, ok, err, true,
}
use canonical_api_server_rs.Http.{idempotency_reused}
use canonical_api_server_rs.Assessments.{
  Submission, create_assessment, new_assessment, assessment_unavailable, replay_operation,
  find_assessment, add_assessment, make_space,
}
use canonical_api_server_rs.Assessments.Store.{IsSound}
use canonical_api_server_rs.Assessments.Runs.{
  Step, assess, quotes, run, empty_memory, empty-IsSound, run-IsSound, create_assessment-available,
}

abbrev ann : Text
ann = codes "ann"

abbrev key : Text
key = codes "key-00001"

abbrev submission : Submission
submission = record { framework_ids = codes "soc2" ∷ []; notes = none; organization = codes "Acme" }

abbrev steps : List Step
steps = assess ann key submission 7 (ok (codes "now")) ∷ quotes (ann, codes "key-00002") true 8 ∷ []

replayed :
    (create_assessment ann key submission 9 (ok (codes "later")) (run steps empty_memory)).1
    ≡ ok (new_assessment ann key submission 7 (codes "now"))
unfolding create_assessment run add_assessment make_space replay_operation find_assessment
replayed = refl

reused :
    (create_assessment ann
      (codes "key-00002")
      submission
      9
      (ok (codes "later"))
      (run steps empty_memory)).1
    ≡ err idempotency_reused
unfolding create_assessment run add_assessment make_space replay_operation find_assessment
reused = refl

run-IsSound_example : IsSound (run steps empty_memory)
run-IsSound_example = run-IsSound steps empty_memory empty-IsSound

create_assessment-available_example :
    (create_assessment ann key submission 9 (ok (codes "later")) (run steps empty_memory)).1
    ≢ err assessment_unavailable
create_assessment-available_example =
    create_assessment-available steps ann key submission 9 (codes "later")
