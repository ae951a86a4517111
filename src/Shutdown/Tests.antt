-- ===== src/Shutdown/Tests.antt =====
-- Shutdowns, and the theorems at concrete inputs.
use canonical_api_server_rs.Prelude.{◌≡◌, refl, true, List, [], ◌∷◌, arith}
use canonical_api_server_rs.Shutdown.{
  forcing, sig_int, sig_term, eof, deadline, Config, Input, event, channel_closed, start, receive,
  finish, finished, graceful, forced, returned,
}
use canonical_api_server_rs.Shutdown.Loop.{
  Inv, run, run-start-Inv, IsHonest, run-IsHonest, signals, two_signals_force,
}

abbrev terminal : Config
terminal = record { tty = true; watch_stdin_eof = true }

-- Ctrl-C, then Ctrl-D
abbrev interactive : List Input
interactive = event eof ∷ event sig_int ∷ event eof ∷ event deadline ∷ []

interactive_forces :
    ((finish (run terminal (start terminal) interactive) finished).1 ≡ returned (forced eof))
    × ((finish (run terminal (start terminal) (event sig_term ∷ event eof ∷ [])) finished).1
        ≡ returned graceful)
unfolding run start receive finish
interactive_forces = (refl, refl)

run-start-Inv_example : Inv (run terminal (start terminal) interactive)
run-start-Inv_example = run-start-Inv terminal interactive

run-IsHonest_example : IsHonest (run terminal (start terminal) interactive)
run-IsHonest_example = run-IsHonest terminal interactive

two_signals_force_example :
    ((run terminal
        (start terminal)
        (event sig_int ∷ channel_closed ∷ event sig_term ∷ [])).state.phase
      ≡ forcing)
    × ((run terminal
          (start terminal)
          (event sig_int ∷ channel_closed ∷ event sig_term ∷ [])).connections_dropped
        ≡ true)
unfolding signals
two_signals_force_example =
    two_signals_force terminal (event sig_int ∷ channel_closed ∷ event sig_term ∷ []) (omega arith)
