-- ===== src/Quotes/Termination.antt =====
-- That every call about quotes is answered, once, and that the server comes to rest.
use canonical_api_server_rs.Prelude.{
  ℕ, ◌+◌, ◌-◌, ◌≤◌, suc, ◌≡◌, refl, inl, inr, List, [], ◌∷◌, length, length-append, Result, ok, err,
  Eq, Bool-cases, arith, ap, ◌==◌,
}
use canonical_api_server_rs.Admission.{SubmissionWindows, RateLimited, check_submission}
use canonical_api_server_rs.Quotes.{Call, Config}
use canonical_api_server_rs.Quotes.Tasks.{
  Task, create_call, create_found, create_record, retry_call, retry_found, retry_record, store,
  analyze, store_start, await_reply, store_finish, Input, System, Event, create_arrives,
  retry_arrives, runs, start, pick, to_list, admit_within, admit, step, run,
  analysis_max_concurrency,
}
use canonical_api_server_rs.Quotes.Permits.{run-permits_from}
use canonical_api_server_rs.Quotes.Progress.{
  remaining, owed, sum, sum-append, answers_of, run_at-Progresses,
}

module _ {R J : Type 0} where
  -- Calls that arrived
  abbrev pub calls : List (Event R J) → ℕ
  calls [] = 0
  calls (create_arrives now c request id ∷ events) = suc (calls events)
  calls (retry_arrives now c id ∷ events) = suc (calls events)
  calls (runs index input ∷ events) = calls events

  admit_within-answers :
      (c : Call) (task : Task R J) (s : System R J)
      (answer : SubmissionWindows × Result RateLimited (Unit {0}))
      → owed task ≡ 1
      → answers_of (admit_within c task s answer) ≡ suc (answers_of s)
  unfolding admit_within
  admit_within-answers c task s (windows, err limit) h =
      omega (arith, length-append s.answers ((c.subject, err _) ∷ []))
  admit_within-answers c task s (windows, ok u) h =
      omega (arith, h, sum-append owed s.tasks (task ∷ []))

  admit-answers :
      (now : ℕ) (c : Call) (task : Task R J) (s : System R J)
      → owed task ≡ 1
      → answers_of (admit now c task s) ≡ suc (answers_of s)
  unfolding admit
  admit-answers now c task s h = elim (Bool-cases (s.permits == 0)) [
    | inl e ↦ rw e (omega (arith, length-append s.answers ((c.subject, err _) ∷ [])))
    | inr e ↦ rw e (admit_within-answers c task s (check_submission now c.subject s.windows) h)
  ]

module _ {R J : Type 0} (same : Eq R) (config : Config) where
  step-answers :
      (s : System R J) (e : Event R J)
      → answers_of (step same config s e) ≡ answers_of s + calls (e ∷ [])
  unfolding step
  step-answers s (create_arrives now c request id) =
      omega (arith, admit-answers now c (create_call c request id) s refl)
  step-answers s (retry_arrives now c id) =
      omega (arith, admit-answers now c (retry_call c id) s refl)
  step-answers s (runs index input) = omega (arith, (run_at-Progresses same config input s index).0)

  calls-cons :
      (e : Event R J) (events : List (Event R J))
      → calls (e ∷ events) ≡ calls (e ∷ []) + calls events
  calls-cons (create_arrives now c request id) events = omega arith
  calls-cons (retry_arrives now c id) events = omega arith
  calls-cons (runs index input) events = omega arith

  run-answers :
      (s : System R J) (events : List (Event R J))
      → answers_of (run same config s events) ≡ answers_of s + calls events
  unfolding run
  run-answers s [] = omega arith
  run-answers s (e ∷ events) =
      omega
        (arith, step-answers s e, calls-cons e events, run-answers (step same config s e) events)

  -- The first task runs again and again.
  abbrev pub drain : List (Input J) → List (Event R J)
  drain [] = []
  drain (input ∷ inputs) = runs 0 input ∷ drain inputs

  calls-drain : (inputs : List (Input J)) → calls (drain inputs) ≡ 0
  calls-drain [] = refl
  calls-drain (input ∷ inputs) = calls-drain inputs

  remaining-positive : (task : Task R J) → 1 ≤ remaining task
  remaining-positive (create_call c request id) = omega arith
  remaining-positive (create_found c request id o) = omega arith
  remaining-positive (create_record c request r e) = omega arith
  remaining-positive (retry_call c id) = omega arith
  remaining-positive (retry_found c id o) = omega arith
  remaining-positive (retry_record c r e) = omega arith
  remaining-positive (store c is_retry r e) = omega arith
  remaining-positive (analyze r) = omega arith
  remaining-positive (store_start r e) = omega arith
  remaining-positive (await_reply r) = omega arith
  remaining-positive (store_finish r e) = omega arith

  sum-eq-zero : (tasks : List (Task R J)) → sum remaining tasks ≤ 0 → tasks ≡ []
  sum-eq-zero [] h = refl
  sum-eq-zero (task ∷ tasks) h = absurd (omega (arith, h, remaining-positive task))

  first-le :
      (tasks : List (Task R J))
      → sum remaining tasks - length (to_list (pick 0 tasks)) ≤ sum remaining tasks - 1
  first-le [] = omega arith
  first-le (task ∷ tasks) = omega arith

  run-drain :
      (inputs : List (Input J)) (s : System R J)
      → sum remaining s.tasks ≤ length inputs
      → (run same config s (drain inputs)).tasks ≡ []
  unfolding run step
  run-drain [] s h = sum-eq-zero s.tasks h
  run-drain (input ∷ inputs) s h =
      let less = (run_at-Progresses same config input s 0).1 in
      run-drain inputs (step same config s (runs 0 input))
        (omega (arith, h, less, first-le s.tasks))

  -- From the empty server on, after whatever calls and steps in whatever order: when no more calls
  -- arrive and the first task runs as many steps as the tasks may take together (at most 8 each),
  -- whatever instants and replies they get, no task is left, all 4 permits are free, and every call
  -- that arrived has got exactly one answer.
  pub run-terminates :
      (events : List (Event R J)) (inputs : List (Input J))
      → sum remaining (run same config start events).tasks ≤ length inputs
      → let system = run same config (run same config start events) (drain inputs) in
        (system.tasks ≡ [])
        × (system.permits ≡ analysis_max_concurrency)
        × (length system.answers ≡ calls events)
  run-terminates events inputs h =
      let before = run same config start events in
      let after = run same config before (drain inputs) in
      let empty = run-drain inputs before h in
      let no_tasks = ap length empty in
      let none_owed = ap (sum owed) empty in
      (
        empty,
        omega (
          arith,
          no_tasks,
          run-permits_from same config before (drain inputs),
          run-permits_from same config start events,
        ),
        omega (
          arith,
          none_owed,
          run-answers before (drain inputs),
          run-answers start events,
          calls-drain inputs,
        ),
      )
