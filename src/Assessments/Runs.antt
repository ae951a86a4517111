-- ===== src/Assessments/Runs.antt =====
-- Sequences of calls on the memory of src/lib.rs.
use canonical_api_server_rs.Prelude.{
  ℕ, ◌≡◌, refl, sym, ap, subst, ◌≢◌, inl, inr, Bool, true, false, List, [], ◌∷◌, Option, none, some,
  Text, if◌then◌else◌, Result, ok, err, ok_or, lookup, insert, lookup-insert, Bool-cases, arith,
}
use canonical_api_server_rs.Http.{ApiError, not_found, idempotency_reused}
use canonical_api_server_rs.Assessments.{
  Submission, AssessmentRecord, MemoryOperation, assessment, create, retry, OperationKey,
  operation_eq, Memory, find_assessment, replay_operation, create_new, create_or_replay,
  create_assessment, assessment_unavailable, same_request, or_unavailable,
}
use canonical_api_server_rs.Assessments.Store.{
  Backed, IsSound, find-Stores, create_or_replay-IsSound,
}

-- What changes the memory. The quotes share the operations: theirs stand under keys of their own,
-- or replace what a key had.
pub data Step : Type 0 where
  assess : (subject key : Text) → Submission → (id : ℕ) → (at : Result ApiError Text) → Step
  quotes : OperationKey → (is_retry : Bool) → (quote_id : ℕ) → Step

abbrev pub quote_operation : Bool → ℕ → MemoryOperation
quote_operation true id = retry id
quote_operation false id = create id

unfoldable pub step : Memory → Step → Memory
step memory (assess subject key submission id at) =
    (create_assessment subject key submission id at memory).0
step memory (quotes k is_retry id) = record memory {
  operations = insert operation_eq k (quote_operation is_retry id) memory.operations;
}

unfoldable pub run : List Step → Memory → Memory
unfolding step
run [] memory = memory
run (s ∷ steps) memory = run steps (step memory s)

abbrev pub empty_memory : Memory
empty_memory = record { assessments = []; operations = [] }

pub empty-IsSound : IsSound empty_memory
empty-IsSound = record { bounded = omega arith; backed = λ k. tt }

Backed-quote :
    (rs : List AssessmentRecord) (k : OperationKey) (is_retry : Bool) (id : ℕ)
    → Backed rs k (some (quote_operation is_retry id))
Backed-quote rs k true id = tt
Backed-quote rs k false id = tt

step-IsSound : (memory : Memory) (s : Step) → IsSound memory → IsSound (step memory s)
unfolding step create_assessment
step-IsSound memory (assess subject key submission id at) h =
    create_or_replay-IsSound subject key submission id at memory
      (lookup operation_eq (subject, key) memory.operations) h
step-IsSound memory (quotes k is_retry id) h = record {
  bounded = h.bounded;
  backed = λ j.
      subst (Backed memory.assessments j)
        (sym (lookup-insert operation_eq k j (quote_operation is_retry id) memory.operations))
        (elim (Bool-cases (operation_eq.beq k j)) [
          | inl same ↦ rw same (Backed-quote memory.assessments j is_retry id)
          | inr other ↦ rw other (h.backed j)
        ]);
}

-- Every sequence of calls keeps a sound memory sound: there are at most 1,024 assessments, and
-- every operation that an assessment made has a stored record of its id, its subject and its key.
pub run-IsSound :
    (steps : List Step) (memory : Memory) → IsSound memory → IsSound (run steps memory)
unfolding run
run-IsSound [] memory h = h
run-IsSound (s ∷ steps) memory h = run-IsSound steps (step memory s) (step-IsSound memory s h)

abbrev status_of : Result ApiError AssessmentRecord → ℕ
status_of (ok r) = 201
status_of (err e) = e.status

-- Answers with another status than 503
not_503 :
    (a : Result ApiError AssessmentRecord) → status_of a ≢ 503 → a ≢ err assessment_unavailable
not_503 a h e = h (ap status_of e)

or_unavailable-available :
    (o : Option AssessmentRecord) (r : AssessmentRecord)
    → o ≡ some r
    → status_of (or_unavailable (ok_or o not_found)) ≡ 201
or_unavailable-available none r h = cc
or_unavailable-available (some s) r h = refl

request-available :
    (matches : Bool) (a : Result ApiError AssessmentRecord)
    → status_of a ≡ 201
    → status_of (if matches then a else err idempotency_reused) ≢ 503
request-available true a h = omega (arith, h)
request-available false a h = omega arith

replay_operation-available :
    (subject key : Text) (submission : Submission) (memory : Memory) (o : MemoryOperation)
    → Backed memory.assessments (subject, key) (some o)
    → status_of (replay_operation memory subject submission o) ≢ 503
unfolding replay_operation find_assessment
replay_operation-available subject key submission memory (assessment id existing) h =
    let (r, found) = find-Stores subject key id memory.assessments h in
    request-available (same_request existing submission) _ (or_unavailable-available _ r found)
replay_operation-available subject key submission memory (create id) h = omega arith
replay_operation-available subject key submission memory (retry id) h = omega arith

create_or_replay-available :
    (subject key : Text) (submission : Submission) (id : ℕ) (at : Text) (memory : Memory)
    (o : Option MemoryOperation)
    → Backed memory.assessments (subject, key) o
    → status_of (create_or_replay subject key submission id (ok at) memory o).1 ≢ 503
unfolding create_or_replay create_new
create_or_replay-available subject key submission id at memory none h = omega arith
create_or_replay-available subject key submission id at memory (some o) h =
    replay_operation-available subject key submission memory o h

-- After every sequence of calls on the empty memory, quotes' operations among them, a call whose
-- instant can be formatted is never answered with `storage_unavailable`, whatever its subject, key,
-- submission and new id: the eviction of a record never leaves an operation without one.
pub create_assessment-available :
    (steps : List Step) (subject key : Text) (submission : Submission) (id : ℕ) (at : Text)
    → (create_assessment subject key submission id (ok at) (run steps empty_memory)).1
      ≢ err assessment_unavailable
unfolding create_assessment
create_assessment-available steps subject key submission id at =
    let sound = run-IsSound steps empty_memory empty-IsSound in
    not_503 _ (
      create_or_replay-available subject key submission id at (run steps empty_memory) _
        (sound.backed (subject, key)))
