-- ===== src/Quotes/Ownership.antt =====
-- Whose quotes a subject sees, whatever the order in which the tasks of the server run. Every UUID
-- is issued for one subject: `owner_of` says for which.
use canonical_api_server_rs.Prelude.{
  ℕ, ◌≡◌, sym, ◌∙◌, inl, inr, true, false, none, some, List, [], ◌∷◌, zero, suc, Text, Result, ok,
  err, Eq, Bool-cases, Option-cases, some_injective, All, All-append, subst, ◌==◌,
}
use canonical_api_server_rs.Http.{ApiError}
use canonical_api_server_rs.Admission.{SubmissionWindows, RateLimited}
use canonical_api_server_rs.Quotes.{
  create, retry, Call, operation_key, Memory, Config, finish_record,
}
use canonical_api_server_rs.Quotes.Records.{retry_existing-eq-ok}
use canonical_api_server_rs.Quotes.Tasks.{
  Task, create_call, create_found, create_record, retry_call, retry_found, retry_record, store,
  analyze, store_start, await_reply, store_finish, Input, run_task, System, Event, create_arrives,
  retry_arrives, runs, start, pick, admit_within, refuse, admit, run_at, step, run,
}
use canonical_api_server_rs.Quotes.Invariant.{
  IsAnswer, IsMemory, IsTask, IsOutcome, IsSystem, store_operation-IsMemory, replay-IsOutcome,
  find_quote-IsRecord, create_existing-IsRecord, create_new-IsOutcome, retry_with-IsOutcome,
  retry_new-IsRecord, store_and_spawn-IsOutcome, store_update-IsMemory, analyze-IsOutcome,
  finish-IsOutcome, finish_record-IsRecord,
}

module _ {R J : Type 0} (owner_of : ℕ → Text) where
  run_task-IsOutcome :
      (same : Eq R) (config : Config) (m : Memory R J) (input : Input J) (task : Task R J)
      → IsMemory owner_of m
      → IsTask owner_of task
      → IsOutcome owner_of (run_task same config m input task)
  unfolding run_task
  run_task-IsOutcome same config m input (create_call c request id) h p = record {
    memory = h;
    next = ((p, h.operations (operation_key c)), tt);
    answer = tt;
  }
  run_task-IsOutcome same config m input (create_found c request id (some o)) h (p, q) =
      replay-IsOutcome owner_of m c false _ h
        (λ r. create_existing-IsRecord owner_of same m c request o r h q)
  run_task-IsOutcome same config m input (create_found c request id none) h (p, q) =
      create_new-IsOutcome owner_of config m c request id input.now h p
  run_task-IsOutcome same config m input (create_record c request r e) h (p, q, k) = record {
    memory = store_operation-IsMemory owner_of c (create r.quote_id request) m (sym p.owned ∙ q) h;
    next = ((p, q, k), tt);
    answer = tt;
  }
  run_task-IsOutcome same config m input (retry_call c id) h p = record {
    memory = h;
    next = (tt, tt);
    answer = tt;
  }
  run_task-IsOutcome same config m input (retry_found c id (some o)) h p =
      replay-IsOutcome owner_of m c true _ h (λ r e.
        find_quote-IsRecord owner_of m id c.subject r h (retry_existing-eq-ok m c.subject id o e))
  run_task-IsOutcome same config m input (retry_found c id none) h p =
      retry_with-IsOutcome owner_of m c _ h (λ r. retry_new-IsRecord owner_of m c id input.now r h)
  run_task-IsOutcome same config m input (retry_record c r e) h (p, q, k) = record {
    memory = store_operation-IsMemory owner_of c (retry r.quote_id) m (sym p.owned ∙ q) h;
    next = ((p, q, k), tt);
    answer = tt;
  }
  run_task-IsOutcome same config m input (store c is_retry r e) h (p, q, k) =
      store_and_spawn-IsOutcome owner_of config m c is_retry r e h p q k
  run_task-IsOutcome same config m input (analyze r) h p =
      analyze-IsOutcome owner_of input.now r m h p
  run_task-IsOutcome same config m input (store_start r e) h (p, q, k) = record {
    memory = store_update-IsMemory owner_of r e m h p k;
    next = ((p, q), tt);
    answer = tt;
  }
  run_task-IsOutcome same config m input (await_reply r) h (p, e) =
      finish-IsOutcome owner_of input.now (finish_record config r input.reply) m h
        (finish_record-IsRecord owner_of config r input.reply p e)
  run_task-IsOutcome same config m input (store_finish r e) h (p, k) = record {
    memory = store_update-IsMemory owner_of r e m h p k;
    next = tt;
    answer = tt;
  }

  pick-IsTask :
      (index : ℕ) (tasks : List (Task R J)) (task : Task R J) (others : List (Task R J))
      → All (IsTask owner_of) tasks
      → pick index tasks ≡ some (task, others)
      → IsTask owner_of task × All (IsTask owner_of) others
  pick-IsTask index [] task others h e = cc
  pick-IsTask zero (x ∷ xs) task others (p, h) e =
      let same : (x, xs) ≡ (task, others) = some_injective e in
      subst (λ (q : Task R J × List (Task R J)). IsTask owner_of q.0 × All (IsTask owner_of) q.1)
        same (p, h)
  pick-IsTask (suc index) (x ∷ xs) task others (p, h) e = elim (Option-cases (pick index xs)) [
    | inl n ↦ cc (rw n at e)
    | inr ((y, ys), n) ↦
        let (q, k) = pick-IsTask index xs y ys h n in
        let same : (y, x ∷ ys) ≡ (task, others) = some_injective (rw n at e) in
        subst (λ (q : Task R J × List (Task R J)). IsTask owner_of q.0 × All (IsTask owner_of) q.1)
          same (q, (p, k))
  ]

  refuse-IsSystem :
      (c : Call) (e : ApiError) (s : System R J)
      → IsSystem owner_of s
      → IsSystem owner_of (refuse c e s)
  refuse-IsSystem c e s h = record {
    memory = h.memory;
    tasks = h.tasks;
    answers = All-append (IsAnswer owner_of) s.answers _ h.answers (tt, tt);
  }

  admit_within-IsSystem :
      (c : Call) (task : Task R J) (s : System R J)
      (answer : SubmissionWindows × Result RateLimited (Unit {0}))
      → IsSystem owner_of s
      → IsTask owner_of task
      → IsSystem owner_of (admit_within c task s answer)
  unfolding admit_within
  admit_within-IsSystem c task s (windows, err limit) h p = record {
    memory = h.memory;
    tasks = h.tasks;
    answers = All-append (IsAnswer owner_of) s.answers _ h.answers (tt, tt);
  }
  admit_within-IsSystem c task s (windows, ok u) h p = record {
    memory = h.memory;
    tasks = All-append (IsTask owner_of) s.tasks _ h.tasks (p, tt);
    answers = h.answers;
  }

  admit-IsSystem :
      (now : ℕ) (c : Call) (task : Task R J) (s : System R J)
      → IsSystem owner_of s
      → IsTask owner_of task
      → IsSystem owner_of (admit now c task s)
  unfolding admit
  admit-IsSystem now c task s h p = elim (Bool-cases (s.permits == 0)) [
    | inl e ↦ rw e (refuse-IsSystem c _ s h)
    | inr e ↦ rw e (admit_within-IsSystem c task s _ h p)
  ]

  run_at-IsSystem :
      (same : Eq R) (config : Config) (input : Input J) (s : System R J) (index : ℕ)
      → IsSystem owner_of s
      → IsSystem owner_of (run_at same config input s (pick index s.tasks))
  unfolding run_at
  run_at-IsSystem same config input s index h = elim (Option-cases (pick index s.tasks)) [
    | inl n ↦ rw n h
    | inr ((task, others), n) ↦
        let (p, k) = pick-IsTask index s.tasks task others h.tasks n in
        let o = run_task-IsOutcome same config s.memory input task h.memory p in
        rw n (record {
          memory = o.memory;
          tasks = All-append (IsTask owner_of) others _ k o.next;
          answers = All-append (IsAnswer owner_of) s.answers _ h.answers o.answer;
        })
  ]

-- The UUID that a call brings along is issued for the subject of the call.
abbrev pub IsIssued : {R J : Type 0} → (ℕ → Text) → Event R J → Type 0
IsIssued owner_of (create_arrives now c request id) = owner_of id ≡ c.subject
IsIssued owner_of _ = Unit

module _ {R J : Type 0} (owner_of : ℕ → Text) (same : Eq R) (config : Config) where
  step-IsSystem :
      (s : System R J) (e : Event R J)
      → IsSystem owner_of s
      → IsIssued owner_of e
      → IsSystem owner_of (step same config s e)
  unfolding step
  step-IsSystem s (create_arrives now c request id) h p =
      admit-IsSystem owner_of now c (create_call c request id) s h p
  step-IsSystem s (retry_arrives now c id) h p =
      admit-IsSystem owner_of now c (retry_call c id) s h tt
  step-IsSystem s (runs index input) h p = run_at-IsSystem owner_of same config input s index h

  run-IsSystem :
      (s : System R J) (events : List (Event R J))
      → IsSystem owner_of s
      → All (IsIssued owner_of) events
      → IsSystem owner_of (run same config s events)
  unfolding run
  run-IsSystem s [] h p = h
  run-IsSystem s (e ∷ events) h (p, k) =
      run-IsSystem (step same config s e) events (step-IsSystem s e h p) k

  -- From the empty server on, whatever calls arrive and in whatever order the handlers and the
  -- workers run their steps: if no UUID is issued for two subjects, then every answered, stored or
  -- published record belongs to the subject its UUID was issued for, every answer holds a record of
  -- the subject that called, and the status of a record says which of the analysis and the error
  -- code it has.
  pub run-IsOwn :
      (events : List (Event R J))
      → All (IsIssued owner_of) events
      → IsSystem owner_of (run same config start events)
  run-IsOwn events h =
      run-IsSystem start events
        (record {
          memory = record { quotes = λ id. tt; operations = λ k. tt; events = tt };
          tasks = tt;
          answers = tt;
        })
        h
