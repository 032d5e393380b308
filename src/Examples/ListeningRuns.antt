-- ===== src/Examples/ListeningRuns.antt =====
-- The theorems on the accepting thread and the destructor, applied.
use synledger_core.Examples.{all_well}
use synledger_core.Examples.NetworkRuns.{protocol}
use synledger_core.Network.Listening.{
  go_on, has_socket, call_accept, accepted, refused, set_flag, close_socket, handled, stop, here,
  own_step, other_step, Run, in_accept, at_flag, ended, Listener, start_listening,
}
use synledger_core.Network.Listening.Balance.{
  times_in, listening, handle_incoming_connections-open_after,
}
use synledger_core.Network.Listening.Destructor.{
  DestructorRun, alive, after_step, thread_step, sets_flag, closes, joins, destroyed, at_shutdown,
  at_close, handler_step, Stage, DestructorStep, destructor-open_after,
}
use synledger_core.Network.Listening.Returning.{destructor-returns}
use synledger_core.Network.Peers.{P2PProtocol}
use synledger_core.Network.Sockets.{setup_listen_socket, open_fd, close_fd}
use synledger_core.Network.Sockets.Closing.{open_after}
use synledger_core.Prelude.{
  nat_eq, ok, ◌≡◌, refl, some, [], ◌++◌, ◌+◌, ◌≤◌, ◌⊎◌, true, ◌∷◌, text_key,
}
use synledger_core.Prelude.Int.{pos, negsuc}

listening_test : (setup_listen_socket all_well protocol).0 ≡ ok tt
unfolding setup_listen_socket
listening_test = refl

abbrev made : P2PProtocol
made = (setup_listen_socket all_well protocol).1

-- A connection is accepted on socket 5, the thread waits in `accept` again, `shutdown` runs, and the
-- connection is handled.
abbrev stopping : Listener
stopping = record (start_listening made) {
  protocol = record made { stop_flag = true };
  place = in_accept (pos 3);
  handlers = pos 5 ∷ [];
  log = open_fd (pos 5) ∷ [];
}

stopping-Run : Run (start_listening made) 7 stopping
unfolding setup_listen_socket start_listening
stopping-Run =
    other_step
      (own_step
        (own_step
          (own_step
            (own_step
              (own_step
                (own_step (own_step here (go_on {s = start_listening made} refl refl))
                  (has_socket refl refl))
                (call_accept refl))
              (accepted (pos 3) (pos 5) refl refl refl))
            (go_on refl refl))
          (has_socket refl refl))
        (call_accept refl))
      set_flag

abbrev closed : Listener
closed = record stopping {
  protocol = record made { stop_flag = true; listen_socket = negsuc 0 };
  place = ended;
  handlers = [];
  log = open_fd (pos 5) ∷ (close_fd (pos 3) ∷ (close_fd (pos 5) ∷ []));
}

closed-Run : Run stopping 2 closed
unfolding setup_listen_socket
closed-Run =
    other_step
      (own_step
        (own_step (other_step here (close_socket {s = stopping} refl refl)) (refused (pos 3) refl))
        (stop refl refl))
      (handled [] [] (pos 5) refl)

handle_incoming_connections-open_after_example :
    open_after (pos 5) 0 ((setup_listen_socket all_well protocol).2 ++ stopping.log)
    ≡ some (listening (pos 5) stopping.protocol.listen_socket + times_in (pos 5) stopping.handlers)
handle_incoming_connections-open_after_example =
    handle_incoming_connections-open_after all_well protocol (pos 5) 7 stopping listening_test
      stopping-Run

-- The destructor returns while the connection on socket 5 is still being handled.
abbrev left_behind : Listener
left_behind = record (start_listening made) {
  protocol = record made { stop_flag = true; listen_socket = negsuc 0 };
  place = ended;
  handlers = pos 5 ∷ [];
  log = open_fd (pos 5) ∷ (close_fd (pos 3) ∷ []);
}

left_behind-DestructorRun : DestructorRun (start_listening made) at_shutdown 8 left_behind destroyed
unfolding setup_listen_socket start_listening
left_behind-DestructorRun =
    after_step
      (after_step
        (after_step
          (after_step
            (after_step
              (after_step
                (after_step
                  (after_step alive (thread_step (go_on {s = start_listening made} refl refl)))
                  (thread_step (has_socket refl refl)))
                (thread_step (call_accept refl)))
              (thread_step (accepted (pos 3) (pos 5) refl refl refl)))
            sets_flag)
          (thread_step (stop refl refl)))
        (closes refl))
      (joins refl)

destructor-open_after_example :
    (left_behind.place ≡ ended)
    × (open_after (pos 5) 0 ((setup_listen_socket all_well protocol).2 ++ left_behind.log)
        ≡ some (times_in (pos 5) left_behind.handlers))
destructor-open_after_example =
    destructor-open_after all_well protocol (pos 5) 8 left_behind listening_test
      left_behind-DestructorRun

-- From the flag on: the thread stops, the socket is closed, and the handler is done.
abbrev flagged : Listener
flagged = record left_behind {
  protocol = record made { stop_flag = true };
  place = at_flag;
  log = open_fd (pos 5) ∷ [];
}

abbrev all_done : Listener
all_done = record left_behind {
  handlers = [];
  log = open_fd (pos 5) ∷ (close_fd (pos 3) ∷ (close_fd (pos 5) ∷ []));
}

all_done-DestructorRun : DestructorRun flagged at_close 4 all_done destroyed
unfolding setup_listen_socket
all_done-DestructorRun =
    after_step
      (after_step
        (after_step (after_step alive (thread_step (stop {s = flagged} refl refl))) (closes refl))
        (joins refl))
      (handler_step [] [] (pos 5) refl)

destructor-returns_example :
    (4 ≤ 11)
    × ((destroyed ≡ destroyed)
        ⊎ ((new : Listener) × (g' : Stage) × DestructorStep all_done destroyed new g'))
destructor-returns_example =
    destructor-returns 4 flagged all_done destroyed refl all_done-DestructorRun
