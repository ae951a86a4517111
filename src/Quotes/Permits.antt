-- ===== src/Quotes/Permits.antt =====
-- How many quotes are worked on at once.
use canonical_api_server_rs.Prelude.{
  ℕ, ◌+◌, ◌≤◌, zero, suc, ◌≡◌, refl, inl, inr, false, some, List, [], ◌∷◌, length, length-append,
  Result, ok, err, Eq, Bool-cases, Option-cases, some_injective, arith, ap, ◌==◌, ==_iff,
}
use canonical_api_server_rs.Admission.{SubmissionWindows, RateLimited, check_submission}
use canonical_api_server_rs.Quotes.{Call, Config}
use canonical_api_server_rs.Quotes.Tasks.{
  Task, create_call, retry_call, Outcome, run_task, System, Event, create_arrives, retry_arrives,
  runs, start, pick, admit_within, admit, settle, run_at, step, run, analysis_max_concurrency,
}

-- The permits that are free, and those that the tasks hold
abbrev pub permits_of : {R J : Type 0} → System R J → ℕ
permits_of system = system.permits + length system.tasks

length-pick :
    {A : Type 0} (index : ℕ) (xs : List A) (x : A) (others : List A)
    → pick index xs ≡ some (x, others)
    → length xs ≡ suc (length others)
length-pick index [] x others e = cc
length-pick zero (y ∷ ys) x others e = ap (λ (q : _ × List _). suc (length q.1)) (some_injective e)
length-pick (suc index) (y ∷ ys) x others e = elim (Option-cases (pick index ys)) [
  | inl n ↦ cc (rw n at e)
  | inr ((z, zs), n) ↦
      let same = ap (λ (q : _ × List _). length q.1) (some_injective (rw n at e)) in
      omega (arith, same, length-pick index ys z zs n)
]

module _ {R J : Type 0} where
  settle-permits :
      (s : System R J) (others : List (Task R J)) (o : Outcome R J)
      → length s.tasks ≡ suc (length others)
      → permits_of (settle others o s) ≡ permits_of s
  settle-permits s others o h = elim (Option-cases o.next) [
    | inl n ↦ rw n (omega (arith, h, length-append others []))
    | inr (task, n) ↦ rw n (omega (arith, h, length-append others (task ∷ [])))
  ]

  admit_within-permits :
      (c : Call) (task : Task R J) (s : System R J)
      (answer : SubmissionWindows × Result RateLimited (Unit {0}))
      → (s.permits == 0) ≡ false
      → permits_of (admit_within c task s answer) ≡ permits_of s
  unfolding admit_within
  admit_within-permits c task s (windows, err limit) h = refl
  admit_within-permits c task s (windows, ok u) h =
      ground (arith, h, ==_iff s.permits 0, length-append s.tasks (task ∷ []))

  admit-permits :
      (now : ℕ) (c : Call) (task : Task R J) (s : System R J)
      → permits_of (admit now c task s) ≡ permits_of s
  unfolding admit
  admit-permits now c task s = elim (Bool-cases (s.permits == 0)) [
    | inl e ↦ rw e refl
    | inr e ↦ rw e (admit_within-permits c task s (check_submission now c.subject s.windows) e)
  ]

  step-permits :
      (same : Eq R) (config : Config) (s : System R J) (e : Event R J)
      → permits_of (step same config s e) ≡ permits_of s
  unfolding step run_at
  step-permits same config s (create_arrives now c request id) =
      admit-permits now c (create_call c request id) s
  step-permits same config s (retry_arrives now c id) = admit-permits now c (retry_call c id) s
  step-permits same config s (runs index input) = elim (Option-cases (pick index s.tasks)) [
    | inl n ↦ rw n refl
    | inr ((task, others), n) ↦ rw n (
        settle-permits s others (run_task same config s.memory input task)
          (length-pick index s.tasks task others n))
  ]

  pub run-permits_from :
      (same : Eq R) (config : Config) (s : System R J) (events : List (Event R J))
      → permits_of (run same config s events) ≡ permits_of s
  unfolding run
  run-permits_from same config s [] = refl
  run-permits_from same config s (e ∷ events) = omega (
    arith,
    step-permits same config s e,
    run-permits_from same config (step same config s e) events,
  )

  -- From the empty server on, whatever arrives and in whatever order the tasks run, the free
  -- permits and the calls and analyses under way make up 4: no permit is lost on any path, refusals
  -- and failures included, and never are more than 4 calls and analyses under way.
  pub run-permits :
      (same : Eq R) (config : Config) (events : List (Event R J))
      → let system = run same config start events in
        (system.permits + length system.tasks ≡ analysis_max_concurrency)
        × (length system.tasks ≤ analysis_max_concurrency)
  run-permits same config events =
      let kept = run-permits_from same config start events in
      (omega (arith, kept), omega (arith, kept))
