-- ===== src/Network/Listening.antt =====
-- The accepting thread of `class P2PProtocol` (`handle_incoming_connections`), beside the threads that it
-- detaches and the thread that calls `shutdown`. A step reads or writes a shared field once, but the close
-- of the listening socket and the reset of its number, next to each other in `shutdown`, are one step.
pub mod Balance
pub mod Ending
pub mod Destructor
pub mod Returning
use synledger_core.Network.Peers.{P2PProtocol}
use synledger_core.Network.Sockets.{Call, open_fd, close_fd, failed}
use synledger_core.Prelude.{ℕ, suc, ◌≡◌, true, false, List, [], ◌∷◌, ◌++◌}
use synledger_core.Prelude.Int.{ℤ, negsuc}

-- Where the thread is: before the test of the flag, before that of the socket, before `accept`, in
-- `accept` on a socket, or at its end.
pub data Place : Type 0 where
  at_flag : Place
  at_socket : Place
  at_accept : Place
  in_accept : ℤ → Place
  ended : Place

-- `handlers` are the sockets whose `handle_peer_connection` has not closed them yet.
pub record Listener : Type 0 where
  pub protocol : P2PProtocol
  pub place : Place
  pub handlers : List ℤ
  pub log : List Call

-- What `initialize` starts, on a protocol whose listening socket is set up.
unfoldable pub start_listening : P2PProtocol → Listener
start_listening s = record { protocol = s; place = at_flag; handlers = []; log = [] }

-- The steps of the accepting thread. `accept` answers with a new socket, or fails; on a socket that is
-- closed it fails.
pub data ThreadStep : Listener → Listener → Type 0 where
  go_on :
      {s : Listener}
      → s.place ≡ at_flag
      → s.protocol.stop_flag ≡ false
      → ThreadStep s (record s { place = at_socket })
  stop :
      {s : Listener}
      → s.place ≡ at_flag
      → s.protocol.stop_flag ≡ true
      → ThreadStep s (record s { place = ended })
  has_socket :
      {s : Listener}
      → s.place ≡ at_socket
      → failed s.protocol.listen_socket ≡ false
      → ThreadStep s (record s { place = at_accept })
  no_socket :
      {s : Listener}
      → s.place ≡ at_socket
      → failed s.protocol.listen_socket ≡ true
      → ThreadStep s (record s { place = ended })
  call_accept :
      {s : Listener}
      → s.place ≡ at_accept
      → ThreadStep s (record s { place = in_accept s.protocol.listen_socket })
  accepted :
      (socket client : ℤ) {s : Listener}
      → s.place ≡ in_accept socket
      → failed socket ≡ false
      → failed client ≡ false
      → ThreadStep s (record s {
        place = at_flag;
        handlers = client ∷ s.handlers;
        log = s.log ++ (open_fd client ∷ []);
      })
  refused :
      (socket : ℤ) {s : Listener}
      → s.place ≡ in_accept socket
      → ThreadStep s (record s { place = at_flag })

-- A handler closes its socket, whatever it has read; `shutdown` sets the flag, and closes the socket.
pub data OtherStep : Listener → Listener → Type 0 where
  handled :
      (before after : List ℤ) (client : ℤ) {s : Listener}
      → s.handlers ≡ before ++ (client ∷ after)
      → OtherStep s (record s { handlers = before ++ after; log = s.log ++ (close_fd client ∷ []) })
  set_flag :
      {s : Listener}
      → OtherStep s (record s { protocol = record (s.protocol) { stop_flag = true } })
  close_socket :
      {s : Listener}
      → s.protocol.stop_flag ≡ true
      → failed s.protocol.listen_socket ≡ false
      → OtherStep s (record s {
        protocol = record (s.protocol) { listen_socket = negsuc 0 };
        log = s.log ++ (close_fd s.protocol.listen_socket ∷ []);
      })

-- Steps in any order, and how many of them are the accepting thread's.
pub data Run (start : Listener) : ℕ → Listener → Type 0 where
  here : Run start 0 start
  own_step : {k : ℕ} {s new : Listener} → Run start k s → ThreadStep s new → Run start (suc k) new
  other_step : {k : ℕ} {s new : Listener} → Run start k s → OtherStep s new → Run start k new
