-- ===== src/Gemini/Circuit.antt =====
-- When the circuit breaker refuses, over any interleaving of concurrent calls.
use canonical_api_server_rs.Prelude.{
  ℕ, ◌+◌, ◌≤◌, ◌<◌, ◌≡◌, refl, ◌↔◌, ◌⊎◌, List, [], ◌∷◌, map, none, some, length, min, arith, ltb,
  err, Option-cases, Bool-cases, inl, inr,
}
use canonical_api_server_rs.Gemini.{
  CircuitState, closed, before_request, record_success, record_failure, circuit_open,
  circuit_failure_threshold, circuit_open_for, failures_max,
}

-- What the calls do to the circuit, in the order in which they hold its mutex. Between the first
-- step of a call and its last step those of other calls may stand; a call whose error is not
-- operational has no last step.
pub data Step : Type 0 where
  asks succeeds fails : (now : ℕ) → Step

abbrev pub instant : Step → ℕ
instant (asks now) = now
instant (succeeds now) = now
instant (fails now) = now

unfoldable pub step : CircuitState → Step → CircuitState
step c (asks now) = (before_request now c).0
step c (succeeds now) = record_success c
step c (fails now) = record_failure now c

-- The state after the steps, newest first
unfoldable pub after : List Step → CircuitState → CircuitState
unfolding step
after [] c = c
after (s ∷ earlier) c = step (after earlier c) s

-- The instants of the failures since the last success, newest first
unfoldable pub failures_in_a_row : List Step → List ℕ
failures_in_a_row [] = []
failures_in_a_row (asks now ∷ earlier) = failures_in_a_row earlier
failures_in_a_row (succeeds now ∷ earlier) = []
failures_in_a_row (fails now ∷ earlier) = now ∷ failures_in_a_row earlier

pub record IsTracked (steps : List Step) (c : CircuitState) : Type 0 where
  pub counted : c.failures ≤ length (failures_in_a_row steps)
  pub opened :
      (t : ℕ)
      → c.open_until ≡ some t
      → (f : ℕ) × (earlier : List ℕ) × (failures_in_a_row steps ≡ f ∷ earlier)
        × (t ≡ f + circuit_open_for)
  pub trips : (c.open_until ≡ none) ↔ (c.failures < circuit_failure_threshold)

before_request_state :
    (c : CircuitState) (now : ℕ)
    → ((before_request now c).0 ≡ c) ⊎ ((before_request now c).0 ≡ closed)
unfolding before_request closed
before_request_state c now = elim (Option-cases c.open_until) [
  | inl e ↦ inl (ground arith)
  | inr (t, e) ↦ elim (Bool-cases (ltb now t)) [
    | inl early ↦ inl (ground arith)
    | inr late ↦ inr (ground arith)
  ]
]

asks-IsTracked :
    (steps : List Step) (c : CircuitState) (now : ℕ)
    → IsTracked steps c
    → IsTracked (asks now ∷ steps) (before_request now c).0
unfolding failures_in_a_row closed
asks-IsTracked steps c now h = elim (before_request_state c now) [
  | inl e ↦ rw e record { counted = h.counted; opened = h.opened; trips = h.trips }
  | inr e ↦ rw e (ground arith)
]

fails-IsTracked :
    (steps : List Step) (c : CircuitState) (now : ℕ)
    → IsTracked steps c
    → IsTracked (fails now ∷ steps) (record_failure now c)
unfolding record_failure failures_in_a_row
fails-IsTracked steps c now h = record {
  counted = omega (arith, h.counted);
  opened = λ t k. (now, failures_in_a_row steps, refl, ground (arith, h.trips));
  trips = ground (arith, h.trips);
}

step-IsTracked :
    (steps : List Step) (c : CircuitState) (s : Step)
    → IsTracked steps c
    → IsTracked (s ∷ steps) (step c s)
unfolding step record_success failures_in_a_row
step-IsTracked steps c (asks now) h = asks-IsTracked steps c now h
step-IsTracked steps c (succeeds now) h = ground arith
step-IsTracked steps c (fails now) h = fails-IsTracked steps c now h

after-IsTracked : (steps : List Step) → IsTracked steps (after steps closed)
unfolding after closed failures_in_a_row
after-IsTracked [] = ground arith
after-IsTracked (s ∷ steps) = step-IsTracked steps (after steps closed) s (after-IsTracked steps)

-- After every interleaving of the circuit steps of concurrent calls from a closed circuit on, a
-- call is refused by the breaker only if at least five failures have been recorded since the last
-- success, and the newest of them less than 30 seconds ago.
pub refuses-trips :
    (steps : List Step) (now : ℕ)
    → (before_request now (after steps closed)).1 ≡ err circuit_open
    → (f : ℕ) × (earlier : List ℕ) × (failures_in_a_row steps ≡ f ∷ earlier)
      × (circuit_failure_threshold ≤ length (failures_in_a_row steps))
      × (now < f + circuit_open_for)
unfolding before_request
refuses-trips steps now h =
    let tracked = after-IsTracked steps in
    elim (Option-cases (after steps closed).open_until) [
      | inl e ↦ ground arith
      | inr (t, e) ↦ ground (arith, tracked.opened t)
    ]

fails-counted :
    (c : CircuitState) (fs : List ℕ)
    → min (length fs) failures_max ≤ (after (map fails fs) c).failures
unfolding after record_failure
fails-counted c [] = omega arith
fails-counted c (f ∷ fs) = ground (arith, fails-counted c fs)

record_failure-open :
    (c : CircuitState) (f now : ℕ)
    → 4 ≤ c.failures
    → ((before_request now (record_failure f c)).1 ≡ err circuit_open)
      ↔ (now < f + circuit_open_for)
unfolding before_request record_failure
record_failure-open c f now h = ground arith

-- Whatever has happened before, at least five failures with no call between them, the newest at
-- `f`, make the breaker refuse every call before 30 seconds from then, and no later one.
pub failures_trip :
    (c : CircuitState) (f : ℕ) (fs : List ℕ) (now : ℕ)
    → circuit_failure_threshold ≤ length (f ∷ fs)
    → ((before_request now (after (map fails (f ∷ fs)) c)).1 ≡ err circuit_open)
      ↔ (now < f + circuit_open_for)
unfolding after
failures_trip c f fs now h =
    record_failure-open (after (map fails fs) c) f now (omega (arith, fails-counted c fs))
