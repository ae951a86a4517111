-- ===== src/Assessments/Store.antt =====
-- What the memory of src/lib.rs keeps of assessments.
use canonical_api_server_rs.Prelude.{
  ℕ, ◌+◌, ◌-◌, ◌≤◌, ◌≡◌, refl, sym, ap, subst, ◌⊎◌, inl, inr, Bool, false, ◌&&◌, List, [], ◌∷◌,
  ◌++◌, Option, none, some, Text, text_eq, text_eq_refl, length, length-append, leb, ◌==◌, find,
  Result, ok, err, lookup, insert, lookup-insert, lookup-remove, Bool-cases, arith,
}
use canonical_api_server_rs.Http.{ApiError}
use canonical_api_server_rs.Assessments.{
  assessment_capacity, Submission, AssessmentRecord, MemoryOperation, assessment, create, retry,
  OperationKey, operation_eq, Memory, belongs_to, record_key, forget, pop_front, make_space,
  add_assessment, new_assessment, create_new, create_or_replay,
}

-- A record with the id and the key is stored.
abbrev pub Stores : OperationKey → ℕ → List AssessmentRecord → Type 0
Stores k id [] = ⊥
Stores k id (r ∷ rs) = (r.id ≡ id) × (record_key r ≡ k) ⊎ Stores k id rs

abbrev pub Backed : List AssessmentRecord → OperationKey → Option MemoryOperation → Type 0
Backed rs k (some (assessment id request)) = Stores k id rs
Backed rs k _ = Unit

pub record IsSound (memory : Memory) : Type 0 where
  pub bounded : length memory.assessments ≤ assessment_capacity
  pub backed :
      (k : OperationKey) → Backed memory.assessments k (lookup operation_eq k memory.operations)

Stores-append :
    (k : OperationKey) (id : ℕ) (rs : List AssessmentRecord) (r : AssessmentRecord)
    → Stores k id rs
    → Stores k id (rs ++ r ∷ [])
Stores-append k id [] r h = absurd h
Stores-append k id (s ∷ rs) r (inl h) = inl h
Stores-append k id (s ∷ rs) r (inr h) = inr (Stores-append k id rs r h)

Stores-last :
    (rs : List AssessmentRecord) (r : AssessmentRecord) → Stores (record_key r) r.id (rs ++ r ∷ [])
Stores-last [] r = inl (refl, refl)
Stores-last (s ∷ rs) r = inr (Stores-last rs r)

pub find-Stores :
    (subject key : Text) (id : ℕ) (rs : List AssessmentRecord)
    → Stores (subject, key) id rs
    → (r : AssessmentRecord) × (find
          (λ (s : AssessmentRecord). s.id == id && text_eq s.subject subject)
          rs
        ≡ some r)
find-Stores subject key id [] h = absurd h
find-Stores subject key id (r ∷ rs) (inl (same, owned)) =
    (r, rw (same, ap (λ k. k.0) owned, text_eq_refl subject) (ground arith))
find-Stores subject key id (r ∷ rs) (inr h) =
    let (s, e) = find-Stores subject key id rs h in
    elim (Bool-cases (r.id == id && text_eq r.subject subject)) [
      | inl b ↦ (r, rw b refl)
      | inr b ↦ (s, rw b e)
    ]

Backed-append :
    (rs : List AssessmentRecord) (r : AssessmentRecord) (k : OperationKey)
    (o : Option MemoryOperation)
    → Backed rs k o
    → Backed (rs ++ r ∷ []) k o
Backed-append rs r k none h = tt
Backed-append rs r k (some (assessment id request)) h = Stores-append k id rs r h
Backed-append rs r k (some (create id)) h = tt
Backed-append rs r k (some (retry id)) h = tt

different : {j k : OperationKey} {b : Bool} → operation_eq.beq j k ≡ false → j ≡ k → b ≡ false
different {j} {k} other e = let same = (operation_eq.beq_iff j k).1 e in cc

unevict :
    (evicted : AssessmentRecord) (rs : List AssessmentRecord) (k : OperationKey)
    (o : Option MemoryOperation)
    → (record_key evicted ≡ k → belongs_to evicted.id o ≡ false)
    → Backed (evicted ∷ rs) k o
    → Backed rs k o
unevict evicted rs k none f h = tt
unevict evicted rs k (some (assessment id request)) f (inl (same, owned)) =
    let other = f owned in absurd (ground (arith, other, same))
unevict evicted rs k (some (assessment id request)) f (inr h) = h
unevict evicted rs k (some (create id)) f h = tt
unevict evicted rs k (some (retry id)) f h = tt

-- The operation of the evicted record is gone, and the records of the others are still there.
forget-Backed :
    (evicted : AssessmentRecord) (rs : List AssessmentRecord)
    (operations : List (OperationKey × MemoryOperation)) (k : OperationKey)
    → Backed (evicted ∷ rs) k (lookup operation_eq k operations)
    → Backed rs k (lookup operation_eq k (forget evicted operations))
unfolding forget
forget-Backed evicted rs operations k h =
    elim (Bool-cases
      (belongs_to evicted.id (lookup operation_eq (record_key evicted) operations))) [
        | inr b ↦ rw b (
            unevict evicted rs k (lookup operation_eq k operations)
              (λ e.
                subst (λ j. belongs_to evicted.id (lookup operation_eq j operations) ≡ false) e b)
              h)
        | inl b ↦ rw b (
            subst (Backed rs k) (sym (lookup-remove operation_eq (record_key evicted) k operations))
              (elim (Bool-cases (operation_eq.beq (record_key evicted) k)) [
                | inl same ↦ rw same tt
                | inr other ↦ rw other (
                    unevict evicted rs k (lookup operation_eq k operations) (λ e. different other e)
                      h)
              ]))
      ]

pop_front-Backed :
    (memory : Memory) (rs : List AssessmentRecord) (r : AssessmentRecord) (k : OperationKey)
    → memory.assessments ≡ rs
    → ((j : OperationKey) → Backed (rs ++ r ∷ []) j (lookup operation_eq j memory.operations))
    → Backed
        ((pop_front memory rs).assessments ++ r ∷ [])
        k
        (lookup operation_eq k (pop_front memory rs).operations)
unfolding pop_front
pop_front-Backed memory [] r k same h =
    subst (λ rs. Backed (rs ++ r ∷ []) k (lookup operation_eq k memory.operations)) (sym same) (h k)
pop_front-Backed memory (evicted ∷ rest) r k same h =
    forget-Backed evicted (rest ++ r ∷ []) memory.operations k (h k)

pop_front-length :
    (memory : Memory) (rs : List AssessmentRecord)
    → memory.assessments ≡ rs
    → length (pop_front memory rs).assessments ≡ length rs - 1
unfolding pop_front
pop_front-length memory [] same = rw same refl
pop_front-length memory (evicted ∷ rest) same = omega arith

make_space-length :
    (memory : Memory)
    → length memory.assessments ≤ assessment_capacity
    → length (make_space memory).assessments + 1 ≤ assessment_capacity
unfolding make_space
make_space-length memory h =
    elim (Bool-cases (leb assessment_capacity (length memory.assessments))) [
      | inl full ↦ rw full (omega (arith, h, pop_front-length memory memory.assessments refl))
      | inr room ↦ rw room (ground (arith, room))
    ]

make_space-Backed :
    (memory : Memory) (r : AssessmentRecord) (k : OperationKey)
    → ((j : OperationKey)
        → Backed (memory.assessments ++ r ∷ []) j (lookup operation_eq j memory.operations))
    → Backed
        ((make_space memory).assessments ++ r ∷ [])
        k
        (lookup operation_eq k (make_space memory).operations)
unfolding make_space
make_space-Backed memory r k h =
    elim (Bool-cases (leb assessment_capacity (length memory.assessments))) [
      | inl full ↦ rw full (pop_front-Backed memory memory.assessments r k refl h)
      | inr room ↦ rw room (h k)
    ]

insert-Backed :
    (memory : Memory) (r : AssessmentRecord) (submission : Submission) (k : OperationKey)
    → IsSound memory
    → Backed (memory.assessments ++ r ∷ []) k (
        lookup operation_eq k
          (insert operation_eq (record_key r) (assessment r.id submission) memory.operations))
insert-Backed memory r submission k sound =
    subst (Backed (memory.assessments ++ r ∷ []) k)
      (sym (
        lookup-insert operation_eq (record_key r) k (assessment r.id submission) memory.operations))
      (elim (Bool-cases (operation_eq.beq (record_key r) k)) [
        | inl same ↦ rw same (
            subst (λ j. Stores j r.id (memory.assessments ++ r ∷ []))
              ((operation_eq.beq_iff (record_key r) k).0 same) (Stores-last memory.assessments r))
        | inr other ↦ rw other (
            Backed-append memory.assessments r k (lookup operation_eq k memory.operations)
              (sound.backed k))
      ])

add_assessment-IsSound :
    (submission : Submission) (r : AssessmentRecord) (memory : Memory)
    → IsSound memory
    → IsSound (add_assessment submission r memory)
unfolding add_assessment
add_assessment-IsSound submission r memory sound =
    let inserted = record memory {
      operations =
          insert operation_eq (record_key r) (assessment r.id submission) memory.operations;
    } in
    record {
      bounded = omega (
        arith,
        length-append (make_space inserted).assessments (r ∷ []),
        make_space-length inserted sound.bounded,
      );
      backed = λ k. make_space-Backed inserted r k (λ j. insert-Backed memory r submission j sound);
    }

pub create_or_replay-IsSound :
    (subject key : Text) (submission : Submission) (id : ℕ) (at : Result ApiError Text)
    (memory : Memory) (o : Option MemoryOperation)
    → IsSound memory
    → IsSound (create_or_replay subject key submission id at memory o).0
unfolding create_or_replay create_new
create_or_replay-IsSound subject key submission id at memory (some o) h = h
create_or_replay-IsSound subject key submission id (err e) memory none h = h
create_or_replay-IsSound subject key submission id (ok at) memory none h =
    add_assessment-IsSound submission (new_assessment subject key submission id at) memory h
