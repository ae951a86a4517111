-- ===== src/Shutdown.antt =====
-- The shutdown reducer and server loop of src/shutdown.rs. The loop is a step function over what
-- `select!` delivers: an input event, the closing of the event channel, or the end of the server
-- future. Logging is left out. `u32` counters saturate.
pub mod Phases
pub mod Loop
mod Tests
use canonical_api_server_rs.Prelude.{
  ℕ, ◌+◌, ◌-◌, Bool, true, false, not, ◌&&◌, ◌||◌, Option, some, min, if◌then◌else◌,
}

pub data Phase : Type 0 where
  running draining forcing stopped : Phase

pub data Event : Type 0 where
  sig_int sig_term eof deadline drain_failed : Event

pub data Action : Type 0 where
  none start_graceful force : Action

pub record State : Type 0 where
  pub phase : Phase
  pub tty : Bool
  pub trigger : Option Event
  pub signal_count : ℕ
  pub forced_by : Option Event

abbrev pub u32_max : ℕ
u32_max = 4294967295

-- `State::new`
unfoldable pub new : Bool → State
new tty = record {
  phase = running;
  tty = tty;
  trigger = Option.none;
  signal_count = 0;
  forced_by = Option.none;
}

abbrev pub is_signal : Event → Bool
is_signal sig_int = true
is_signal sig_term = true
is_signal _ = false

abbrev pub saturating_inc : ℕ → ℕ
saturating_inc n = min (n + 1) u32_max

abbrev pub is_sig_int : Option Event → Bool
is_sig_int (some sig_int) = true
is_sig_int _ = false

reduce_running : State → Event → State × Action
reduce_running s eof = (s, none)
reduce_running s deadline = (s, none)
reduce_running s drain_failed = (
  record s { phase = forcing; trigger = some drain_failed; forced_by = some drain_failed },
  force,
)
reduce_running s sig_int = (
  record s {
    phase = draining;
    trigger = some sig_int;
    signal_count = saturating_inc s.signal_count;
  },
  start_graceful,
)
reduce_running s sig_term = (
  record s {
    phase = draining;
    trigger = some sig_term;
    signal_count = saturating_inc s.signal_count;
  },
  start_graceful,
)

-- `let force = …` of the draining phase
abbrev pub forces : State → Event → Bool
forces s eof = s.tty && is_sig_int s.trigger
forces s _ = true

reduce_draining : State → Event → State × Action
reduce_draining s e =
    if forces s e
    then (
      record s {
        phase = forcing;
        forced_by = some e;
        signal_count = if is_signal e then saturating_inc s.signal_count else s.signal_count;
      },
      force,
    )
    else (s, none)

reduce_in : Phase → State → Event → State × Action
unfolding reduce_running reduce_draining
reduce_in running s e = reduce_running s e
reduce_in draining s e = reduce_draining s e
reduce_in forcing s e = (s, none)
reduce_in stopped s e = (s, none)

unfoldable pub reduce : State → Event → State × Action
unfolding reduce_in
reduce s e = reduce_in s.phase s e

pub data Outcome : Type 0 where
  graceful : Outcome
  forced : Event → Outcome

pub record Config : Type 0 where
  pub tty : Bool
  pub watch_stdin_eof : Bool

-- The variables of `serve_with_events`, with the calls on the server's handle that it has made.
pub record Server : Type 0 where
  pub state : State
  -- `deadline_task.is_some()`: the timer runs
  pub deadline_armed : Bool
  pub eof_watcher_armed : Bool
  pub events_open : Bool
  -- `handle.graceful_shutdown(None)` and `handle.shutdown()`
  pub listener_closed : Bool
  pub connections_dropped : Bool

-- What `select!` delivers. A closed channel yields `None` once; the branch is then disabled.
pub data Input : Type 0 where
  event : Event → Input
  channel_closed : Input

-- What the server future ends with
pub data Served : Type 0 where
  finished : Served
  failed : Served

pub data Reply : Type 0 where
  returned : Outcome → Reply
  io_error : Reply

unfoldable pub start : Config → Server
unfolding new
start c = record {
  state = new c.tty;
  deadline_armed = false;
  eof_watcher_armed = false;
  events_open = true;
  listener_closed = false;
  connections_dropped = false;
}

abbrev arms_watcher : Config → State → Event → Bool
arms_watcher c s sig_int = s.tty && c.watch_stdin_eof
arms_watcher c s _ = false

-- The `match action`
act : Config → Server → Event → Action → Server
act c v e none = v
act c v e start_graceful = record v {
  eof_watcher_armed = v.eof_watcher_armed || arms_watcher c v.state e;
  listener_closed = true;
  deadline_armed = true;
}
act c v e force = record v { deadline_armed = false; connections_dropped = true }

handle_event : Config → Server → Event → Server
unfolding act reduce
handle_event c v e =
    let (next, action) = reduce v.state e in act c (record v { state = next }) e action

-- One round of the loop on the branch `events_rx.recv(), if events_open`
unfoldable pub receive : Config → Server → Input → Server
unfolding handle_event
receive c v i = elim i [
  | event e ↦ if v.events_open then handle_event c v e else v
  | channel_closed ↦
      if v.events_open then handle_event c (record v { events_open = false }) drain_failed else v
]

abbrev outcome_of : Option Event → Outcome
outcome_of Option.none = graceful
outcome_of (some e) = forced e

-- The branch `result = &mut server`, which ends the loop
unfoldable pub finish : Server → Served → Server × Reply
unfolding reduce
finish v finished = (
  record v { deadline_armed = false; state = record (v.state) { phase = stopped } },
  returned (outcome_of v.state.forced_by),
)
finish v failed =
    let (next, action) = reduce v.state drain_failed in
    (
      record v {
        deadline_armed = false;
        state = next;
        connections_dropped = v.connections_dropped || elim action [ force ↦ true | _ ↦ false ];
      },
      io_error,
    )
