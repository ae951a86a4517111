-- ===== src/Quotes/Progress.antt =====
-- That the tasks of quotes end, and that each call is answered once.
use canonical_api_server_rs.Prelude.{
  ℕ, Text, ◌+◌, ◌-◌, ◌≤◌, ◌<◌, zero, suc, ◌≡◌, refl, inl, inr, Bool, true, false, Option, none,
  some, List, [], ◌∷◌, ◌++◌, length, length-append, Result, ok, err, Eq, Bool-cases, Option-cases,
  some_injective, arith, ap,
}
use canonical_api_server_rs.Http.{ApiError}
use canonical_api_server_rs.Quotes.{
  QuoteRecord, QuoteEventRecord, Call, Config, Memory, markdown_unavailable, retry_new,
}
use canonical_api_server_rs.Quotes.Tasks.{
  Task, create_call, create_found, create_record, retry_call, retry_found, retry_record, store,
  analyze, store_start, await_reply, store_finish, Input, Outcome, replay, create_new, retry_with,
  store_and_spawn, after_count, run_task, System, pick, to_list, run_at,
}

module _ {R J : Type 0} where
  -- The steps that a task and its next ones take at most
  abbrev pub remaining : Task R J → ℕ
  remaining (create_call c request id) = 8
  remaining (create_found c request id o) = 7
  remaining (create_record c request r e) = 6
  remaining (retry_call c id) = 8
  remaining (retry_found c id o) = 7
  remaining (retry_record c r e) = 6
  remaining (store c is_retry r e) = 5
  remaining (analyze r) = 4
  remaining (store_start r e) = 3
  remaining (await_reply r) = 2
  remaining (store_finish r e) = 1

  -- The answers that a task and its next ones owe
  abbrev pub owed : Task R J → ℕ
  owed (analyze r) = 0
  owed (store_start r e) = 0
  owed (await_reply r) = 0
  owed (store_finish r e) = 0
  owed _ = 1

  abbrev pub sum : (Task R J → ℕ) → List (Task R J) → ℕ
  sum f [] = 0
  sum f (task ∷ tasks) = f task + sum f tasks

  pub sum-append :
      (f : Task R J → ℕ) (xs ys : List (Task R J)) → sum f (xs ++ ys) ≡ sum f xs + sum f ys
  sum-append f [] ys = omega arith
  sum-append f (x ∷ xs) ys = omega (arith, sum-append f xs ys)

  pub sum-pick :
      (f : Task R J → ℕ) (index : ℕ) (xs : List (Task R J)) (x : Task R J)
      (others : List (Task R J))
      → pick index xs ≡ some (x, others)
      → sum f xs ≡ f x + sum f others
  sum-pick f index [] x others e = cc
  sum-pick f zero (y ∷ ys) x others e =
      ap (λ (q : Task R J × List (Task R J)). f q.0 + sum f q.1) (some_injective e)
  sum-pick f (suc index) (y ∷ ys) x others e = elim (Option-cases (pick index ys)) [
    | inl n ↦ cc (rw n at e)
    | inr ((z, zs), n) ↦
        let same =
          ap (λ (q : Task R J × List (Task R J)). f q.0 + sum f q.1) (some_injective (rw n at e)) in
        omega (arith, same, sum-pick f index ys z zs n)
  ]

  -- A step brings the task closer to its end, and gives the answers that are no longer owed.
  abbrev pub Progresses : Task R J → Outcome R J → Type 0
  Progresses task o =
      (sum remaining (to_list o.next) < remaining task)
      × (length (to_list o.answer) + sum owed (to_list o.next) ≡ owed task)

  replay-Progresses :
      (m : Memory R J) (c : Call) (is_retry : Bool) (result : Result ApiError (QuoteRecord R J))
      (task : Task R J)
      → 5 < remaining task
      → owed task ≡ 1
      → Progresses task (replay m c is_retry result)
  unfolding replay
  replay-Progresses m c is_retry (ok r) task h k = (omega (arith, h), omega (arith, k))
  replay-Progresses m c is_retry (err e) task h k = (omega (arith, h), omega (arith, k))

  create_new-Progresses :
      (config : Config) (m : Memory R J) (c : Call) (request : R) (id : ℕ)
      (now : Result ApiError Text)
      → Progresses (create_found c request id none) (create_new config m c request id now)
  unfolding create_new
  create_new-Progresses config m c request id (ok at) = (omega arith, omega arith)
  create_new-Progresses config m c request id (err e) = (omega arith, omega arith)

  retry_with-Progresses :
      (m : Memory R J) (c : Call) (id : ℕ) (result : Result ApiError (QuoteRecord R J))
      → Progresses (retry_found c id none) (retry_with m c result)
  unfolding retry_with
  retry_with-Progresses m c id (ok r) = (omega arith, omega arith)
  retry_with-Progresses m c id (err e) = (omega arith, omega arith)

  store_and_spawn-Progresses :
      (config : Config) (m : Memory R J) (c : Call) (is_retry : Bool) (r : QuoteRecord R J)
      (e : Option QuoteEventRecord)
      → Progresses (store c is_retry r e) (store_and_spawn config m c is_retry r e)
  unfolding store_and_spawn
  store_and_spawn-Progresses config m c is_retry r none = (omega arith, omega arith)
  store_and_spawn-Progresses config m c false r (some e) = (omega arith, omega arith)
  store_and_spawn-Progresses config m c true r (some e) =
      elim (Bool-cases (markdown_unavailable config)) [
        | inl x ↦ rw x (omega arith, omega arith)
        | inr x ↦ rw x (omega arith, omega arith)
      ]

  start-Progresses :
      (r : QuoteRecord R J) (counted : Memory R J × Option (QuoteRecord R J × QuoteEventRecord))
      → Progresses (analyze r) (after_count store_start counted)
  unfolding after_count
  start-Progresses r (m, none) = (omega arith, omega arith)
  start-Progresses r (m, some (s, e)) = (omega arith, omega arith)

  finish-Progresses :
      (r : QuoteRecord R J) (counted : Memory R J × Option (QuoteRecord R J × QuoteEventRecord))
      → Progresses (await_reply r) (after_count store_finish counted)
  unfolding after_count
  finish-Progresses r (m, none) = (omega arith, omega arith)
  finish-Progresses r (m, some (s, e)) = (omega arith, omega arith)

  run_task-Progresses :
      (same : Eq R) (config : Config) (m : Memory R J) (input : Input J) (task : Task R J)
      → Progresses task (run_task same config m input task)
  unfolding run_task
  run_task-Progresses same config m input (create_call c request id) = (omega arith, omega arith)
  run_task-Progresses same config m input (create_found c request id (some o)) =
      replay-Progresses m c false _ (create_found c request id (some o)) (omega arith) refl
  run_task-Progresses same config m input (create_found c request id none) =
      create_new-Progresses config m c request id input.now
  run_task-Progresses same config m input (create_record c request r e) = (omega arith, omega arith)
  run_task-Progresses same config m input (retry_call c id) = (omega arith, omega arith)
  run_task-Progresses same config m input (retry_found c id (some o)) =
      replay-Progresses m c true _ (retry_found c id (some o)) (omega arith) refl
  run_task-Progresses same config m input (retry_found c id none) =
      retry_with-Progresses m c id (retry_new m c.subject id input.now)
  run_task-Progresses same config m input (retry_record c r e) = (omega arith, omega arith)
  run_task-Progresses same config m input (store c is_retry r e) =
      store_and_spawn-Progresses config m c is_retry r e
  run_task-Progresses same config m input (analyze r) = start-Progresses r _
  run_task-Progresses same config m input (store_start r e) = (omega arith, omega arith)
  run_task-Progresses same config m input (await_reply r) = finish-Progresses r _
  run_task-Progresses same config m input (store_finish r e) = (omega arith, omega arith)

  -- The answers given and those owed
  abbrev pub answers_of : System R J → ℕ
  answers_of system = length system.answers + sum owed system.tasks

  pub run_at-Progresses :
      (same : Eq R) (config : Config) (input : Input J) (s : System R J) (index : ℕ)
      → (answers_of (run_at same config input s (pick index s.tasks)) ≡ answers_of s)
        × (sum remaining (run_at same config input s (pick index s.tasks)).tasks
            ≤ sum remaining s.tasks - length (to_list (pick index s.tasks)))
  unfolding run_at
  run_at-Progresses same config input s index = elim (Option-cases (pick index s.tasks)) [
    | inl n ↦ rw n (refl, omega arith)
    | inr ((task, others), n) ↦
        let o = run_task same config s.memory input task in
        let (less, paid) = run_task-Progresses same config s.memory input task in
        let owed_before = sum-pick owed index s.tasks task others n in
        let remaining_before = sum-pick remaining index s.tasks task others n in
        let owed_after = sum-append owed others (to_list o.next) in
        let remaining_after = sum-append remaining others (to_list o.next) in
        let answered = length-append s.answers (to_list o.answer) in
        rw n (
          omega (arith, paid, owed_before, owed_after, answered),
          omega (arith, less, remaining_before, remaining_after),
        )
  ]
