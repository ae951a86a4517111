-- ===== src/Shutdown/Loop.antt =====
-- The loop of `serve_with_events`, over every sequence of inputs from its start.
use canonical_api_server_rs.Prelude.{
  ℕ, ◌+◌, ◌-◌, ◌≤◌, ◌≡◌, refl, ◌≢◌, ◌↔◌, true, false, Option, some, arith, List, [], ◌∷◌,
  if◌then◌else◌,
}
use canonical_api_server_rs.Shutdown.{
  Phase, running, draining, forcing, stopped, Event, sig_int, is_signal, Config, Server, Input,
  event, channel_closed, start, receive, finish, finished, graceful, forced, returned,
}

unfoldable pub run : Config → Server → List Input → Server
run c v [] = v
run c v (i ∷ is) = run c (receive c v i) is

-- What holds of the loop's variables between two rounds.
pub record Inv (v : Server) : Type 0 where
  pub not_stopped : v.state.phase ≢ stopped
  -- While the server runs nothing has been asked of it.
  pub untouched :
      v.state.phase ≡ running
      → (v.listener_closed ≡ false)
        × (v.connections_dropped ≡ false)
        × (v.deadline_armed ≡ false)
        × (v.state.signal_count ≡ 0)
        × (v.state.forced_by ≡ Option.none)
        × (v.events_open ≡ true)
        × (v.eof_watcher_armed ≡ false)
  -- A draining server has closed its listener, dropped nothing, and its deadline is running.
  pub drains :
      v.state.phase ≡ draining
      → (v.listener_closed ≡ true)
        × (v.connections_dropped ≡ false)
        × (v.deadline_armed ≡ true)
        × (v.state.signal_count ≡ 1)
        × (v.state.forced_by ≡ Option.none)
        × (v.events_open ≡ true)
  -- A forced server has dropped its connections, its deadline is cancelled and the cause is known.
  pub forces :
      v.state.phase ≡ forcing
      → (v.connections_dropped ≡ true)
        × (v.deadline_armed ≡ false)
        × (v.state.forced_by ≢ Option.none)
        × (v.state.signal_count ≤ 2)
  -- The watcher of the terminal's end of input runs only at a terminal after SIGINT.
  pub watches : v.eof_watcher_armed ≡ true → (v.state.tty ≡ true) × (v.state.trigger ≡ some sig_int)

start-Inv : (c : Config) → Inv (start c)
unfolding start
start-Inv c = ground arith

receive-Inv : (c : Config) (v : Server) (i : Input) → Inv v → Inv (receive c v i)
unfolding receive
receive-Inv c v i h = ground arith

run-Inv : (c : Config) (v : Server) (is : List Input) → Inv v → Inv (run c v is)
unfolding run
run-Inv c v [] h = h
run-Inv c v (i ∷ is) h = run-Inv c (receive c v i) is (receive-Inv c v i h)

-- After every sequence of inputs the server is not stopped; while it runs nothing has been asked of
-- it; while it drains its listener is closed, no connection is dropped and its deadline is armed;
-- once it is forced its connections are dropped, its deadline is cancelled and the cause is known;
-- and the watcher of the end of input is armed only at a terminal after SIGINT.
pub run-start-Inv : (c : Config) (is : List Input) → Inv (run c (start c) is)
run-start-Inv c is = run-Inv c (start c) is (start-Inv c)

-- What the loop returns when the server future ends without an error, from given variables.
pub record IsHonest (v : Server) : Type 0 where
  pub stops : (finish v finished).0.state.phase ≡ stopped
  pub cancels : (finish v finished).0.deadline_armed ≡ false
  pub spared : ((finish v finished).1 ≡ returned graceful) ↔ (v.connections_dropped ≡ false)
  pub cause :
      (e : Event) → ((finish v finished).1 ≡ returned (forced e)) ↔ (v.state.forced_by ≡ some e)

finish-IsHonest : (v : Server) → Inv v → IsHonest v
unfolding finish
finish-IsHonest v h = record {
  stops = refl;
  cancels = refl;
  spared = ground arith;
  cause = λ e. ground arith;
}

-- After every sequence of inputs, if the server future then ends without an error, the loop returns
-- in the phase `stopped` with the deadline cancelled; it returns `graceful` exactly when no
-- connection was dropped, and `forced e` exactly when `e` is the recorded cause.
pub run-IsHonest : (c : Config) (is : List Input) → IsHonest (run c (start c) is)
run-IsHonest c is = finish-IsHonest _ (run-start-Inv c is)

-- How many signals stand in a sequence
unfoldable pub signals : List Input → ℕ
signals [] = 0
signals (event e ∷ is) = (if is_signal e then 1 else 0) + signals is
signals (channel_closed ∷ is) = signals is

-- The signals that are enough to force a server
abbrev needed : Phase → ℕ
needed running = 2
needed draining = 1
needed forcing = 0
needed stopped = 0

receive-needed :
    (c : Config) (v : Server) (i : Input)
    → Inv v
    → needed (receive c v i).state.phase ≤ needed v.state.phase - signals (i ∷ [])
unfolding receive signals
receive-needed c v i h = ground arith

run-forces :
    (c : Config) (v : Server) (is : List Input)
    → Inv v
    → needed v.state.phase ≤ signals is
    → (run c v is).state.phase ≡ forcing
unfolding run signals
run-forces c v [] h n = ground (arith, h.not_stopped)
run-forces c v (event e ∷ is) h n =
    run-forces c (receive c v (event e)) is (receive-Inv c v (event e) h)
      (ground (arith, receive-needed c v (event e) h))
run-forces c v (channel_closed ∷ is) h n =
    run-forces c (receive c v channel_closed) is (receive-Inv c v channel_closed h)
      (ground (arith, receive-needed c v channel_closed h))

-- Two signals, of either kind and with any other inputs before, between and after them, always end
-- in the forced phase, with the connections dropped.
pub two_signals_force :
    (c : Config) (is : List Input)
    → 2 ≤ signals is
    → ((run c (start c) is).state.phase ≡ forcing)
      × ((run c (start c) is).connections_dropped ≡ true)
unfolding start
two_signals_force c is h =
    let e = run-forces c (start c) is (start-Inv c) h in (e, ((run-start-Inv c is).forces e).0)
