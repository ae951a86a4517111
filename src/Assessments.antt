-- ===== src/Assessments.antt =====
-- Readiness assessments of src/lib.rs: the memory store behind `create_readiness_assessment`, after
-- authentication, quota and parsing. The write guard on the operations makes a call one step. UUIDs
-- are numbers; a new one is an argument, and so is the formatted instant. Two request objects are
-- the same JSON value exactly if their three members are.
pub mod Store
pub mod Runs
mod Tests
use canonical_api_server_rs.Prelude.{
  ℕ, Bool, true, false, ◌&&◌, List, [], ◌∷◌, ◌++◌, Option, none, some, Text, codes, text_eq, length,
  leb, ◌==◌, if◌then◌else◌, find, filter, Result, ok, err, ok_or, Eq, pair_eq, lookup, insert,
  remove,
}
use mathlib.Core.List.{reverse}
use canonical_api_server_rs.Http.{
  text_key, ApiError, not_found, idempotency_reused, service_unavailable,
}

-- READINESS_ASSESSMENT_CAPACITY
abbrev pub assessment_capacity : ℕ
assessment_capacity = 1024

-- What `parse_assessment_request` returns
pub record Submission : Type 0 where
  pub framework_ids : List Text
  pub notes : Option Text
  pub organization : Text

pub record AssessmentRecord : Type 0 where
  pub framework_ids : List Text
  pub id : ℕ
  pub idempotency_key : Text
  pub notes : Option Text
  pub organization : Text
  pub received_at : Text
  pub status : Text
  pub subject : Text

-- `request_json` of a `Create` is kept out: the assessments never read it.
pub data MemoryOperation : Type 0 where
  assessment : (id : ℕ) → Submission → MemoryOperation
  create retry : (quote_id : ℕ) → MemoryOperation

-- Subject and idempotency key
abbrev pub OperationKey : Type 0
OperationKey = Text × Text

abbrev pub operation_eq : Eq OperationKey
operation_eq = pair_eq text_key text_key

-- `AppState::assessments`, oldest first, and `AppState::idempotency`
pub record Memory : Type 0 where
  pub assessments : List AssessmentRecord
  pub operations : List (OperationKey × MemoryOperation)

abbrev texts_eq : List Text → List Text → Bool
texts_eq [] [] = true
texts_eq [] (t ∷ ts) = false
texts_eq (s ∷ ss) [] = false
texts_eq (s ∷ ss) (t ∷ ts) = text_eq s t && texts_eq ss ts

abbrev notes_eq : Option Text → Option Text → Bool
notes_eq none none = true
notes_eq (some s) (some t) = text_eq s t
notes_eq _ _ = false

abbrev pub same_request : Submission → Submission → Bool
same_request a b =
    texts_eq a.framework_ids b.framework_ids
    && notes_eq a.notes b.notes
    && text_eq a.organization b.organization

abbrev pub assessment_unavailable : ApiError
assessment_unavailable = service_unavailable "storage_unavailable"

unfoldable pub find_assessment : Memory → ℕ → Text → Result ApiError AssessmentRecord
find_assessment memory id subject =
    ok_or
      (find (λ (r : AssessmentRecord). r.id == id && text_eq r.subject subject) memory.assessments)
      not_found

-- `list_readiness_assessments`
unfoldable pub list_assessments : Memory → Text → List AssessmentRecord
list_assessments memory subject =
    filter (λ (r : AssessmentRecord). text_eq r.subject subject) (reverse memory.assessments)

abbrev pub or_unavailable : Result ApiError AssessmentRecord → Result ApiError AssessmentRecord
or_unavailable (ok r) = ok r
or_unavailable (err e) = err assessment_unavailable

-- The operation that the key already has
unfoldable pub replay_operation :
    Memory → Text → Submission → MemoryOperation → Result ApiError AssessmentRecord
unfolding find_assessment
replay_operation memory subject submission (assessment id existing) =
    if same_request existing submission
    then or_unavailable (find_assessment memory id subject)
    else err idempotency_reused
replay_operation memory subject submission (create id) = err idempotency_reused
replay_operation memory subject submission (retry id) = err idempotency_reused

abbrev pub belongs_to : ℕ → Option MemoryOperation → Bool
belongs_to id (some (assessment other request)) = other == id
belongs_to id _ = false

abbrev pub record_key : AssessmentRecord → OperationKey
record_key r = (r.subject, r.idempotency_key)

-- The operation of an evicted record is removed with it.
unfoldable pub forget :
    AssessmentRecord → List (OperationKey × MemoryOperation) → List (OperationKey × MemoryOperation)
forget evicted operations =
    if belongs_to evicted.id (lookup operation_eq (record_key evicted) operations)
    then remove operation_eq (record_key evicted) operations
    else operations

unfoldable pub pop_front : Memory → List AssessmentRecord → Memory
unfolding forget
pop_front memory [] = memory
pop_front memory (evicted ∷ rest) = record {
  assessments = rest;
  operations = forget evicted memory.operations;
}

unfoldable pub make_space : Memory → Memory
unfolding pop_front
make_space memory =
    if leb assessment_capacity (length memory.assessments)
    then pop_front memory memory.assessments
    else memory

unfoldable pub add_assessment : Submission → AssessmentRecord → Memory → Memory
unfolding make_space
add_assessment submission r memory =
    let made = make_space (record memory {
      operations =
          insert operation_eq (record_key r) (assessment r.id submission) memory.operations;
    }) in
    record made { assessments = made.assessments ++ r ∷ [] }

abbrev pub new_assessment : Text → Text → Submission → ℕ → Text → AssessmentRecord
new_assessment subject key submission id received_at = record {
  framework_ids = submission.framework_ids;
  id = id;
  idempotency_key = key;
  notes = submission.notes;
  organization = submission.organization;
  received_at = received_at;
  status = codes "received";
  subject = subject;
}

create_new :
    Text
    → Text
    → Submission
    → ℕ
    → Result ApiError Text
    → Memory
    → Memory × Result ApiError AssessmentRecord
unfolding add_assessment
create_new subject key submission id (err e) memory = (memory, err e)
create_new subject key submission id (ok received_at) memory =
    let r = new_assessment subject key submission id received_at in
    (add_assessment submission r memory, ok r)

pub create_or_replay :
    Text
    → Text
    → Submission
    → ℕ
    → Result ApiError Text
    → Memory
    → Option MemoryOperation
    → Memory × Result ApiError AssessmentRecord
unfolding replay_operation create_new
create_or_replay subject key submission id received_at memory (some operation) =
    (memory, replay_operation memory subject submission operation)
create_or_replay subject key submission id received_at memory none =
    create_new subject key submission id received_at memory

-- `create_readiness_assessment`, from the key on
unfoldable pub create_assessment :
    Text
    → Text
    → Submission
    → ℕ
    → Result ApiError Text
    → Memory
    → Memory × Result ApiError AssessmentRecord
unfolding create_or_replay
create_assessment subject key submission id received_at memory =
    create_or_replay subject key submission id received_at memory
      (lookup operation_eq (subject, key) memory.operations)
