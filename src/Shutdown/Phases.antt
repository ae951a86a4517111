-- ===== src/Shutdown/Phases.antt =====
-- The reducer of src/shutdown.rs by itself.
use canonical_api_server_rs.Prelude.{ℕ, ◌≤◌, ◌≡◌, ◌≢◌, ◌⊎◌, ◌↔◌, true, some, arith}
use canonical_api_server_rs.Shutdown.{
  Phase, running, draining, forcing, stopped, Event, sig_int, eof, drain_failed, Action,
  start_graceful, force, State, is_signal, reduce,
}

abbrev pub rank : Phase → ℕ
rank running = 0
rank draining = 1
rank forcing = 2
rank stopped = 3

-- A step from `s` to `t` with the action `a`.
pub record IsForward (s t : State) (a : Action) : Type 0 where
  pub forward : rank s.phase ≤ rank t.phase
  pub starts : (a ≡ start_graceful) ↔ ((s.phase ≡ running) × (t.phase ≡ draining))
  pub forces : (a ≡ force) ↔ ((s.phase ≢ forcing) × (t.phase ≡ forcing))
  pub keeps : a ≡ Action.none → t ≡ s
  pub same_tty : t.tty ≡ s.tty

-- A step of the reducer never moves to an earlier phase and keeps the terminal flag; it starts the
-- graceful shutdown exactly when a running server drains, forces exactly when a server begins to be
-- forced, and with no action the state is unchanged.
pub reduce-IsForward : (s : State) (e : Event) → IsForward s (reduce s e).0 (reduce s e).1
unfolding reduce
reduce-IsForward s e = ground arith

-- Which events act: a running server drains on the two signals and is forced by a failed drain; a
-- draining server is forced by every event but an end of input, and by that one only at a terminal
-- whose drain began with SIGINT; a server that is forced or stopped ignores every event.
pub reduce-acts_iff :
    (s : State) (e : Event)
    → ((reduce s e).1 ≢ Action.none) ↔ (
        ((s.phase ≡ running) × ((is_signal e ≡ true) ⊎ (e ≡ drain_failed)))
        ⊎ ((s.phase ≡ draining) × ((e ≢ eof) ⊎ ((s.tty ≡ true) × (s.trigger ≡ some sig_int)))))
unfolding reduce
reduce-acts_iff s e = ground arith
