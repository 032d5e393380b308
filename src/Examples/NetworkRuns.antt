-- ===== src/Examples/NetworkRuns.antt =====
-- The theorems on peers and messages, applied.
use synledger_core.Examples.{all_well}
use synledger_core.Locks.{
  at_start, goes_on, enters, looks, acts, leaves, starts_reading, stops_reading, Execution, System,
  all_waiting,
}
use synledger_core.Network.Messages.{
  bytes, handle_peer_connection, printed_of, handle_peer_connection-printed_of,
}
use synledger_core.Network.Peers.{P2PProtocol, new_protocol, get_active_peers, get_peer_address}
use synledger_core.Network.Peers.Concurrent.{add_peer_program, Execution-add_peers}
use synledger_core.Network.Sockets.{Answers, setup_listen_socket, close_fd}
use synledger_core.Prelude.{
  nat_eq, ok, codes, ◌≡◌, refl, ◌≢◌, some, [], ◌∷◌, arith, count, text_key, contains, insert, Text,
  ℕ, inl, none,
}
use synledger_core.Prelude.Bag.{bag}
use synledger_core.Prelude.Int.{pos, negsuc}

abbrev pub protocol : P2PProtocol
protocol = new_protocol 1 (codes "127.0.0.1")

-- The port is taken.
abbrev no_port : Answers
no_port = record all_well { bind = negsuc 0 }

no_port_test : (setup_listen_socket no_port protocol).0 ≢ ok tt
unfolding setup_listen_socket
no_port_test h = cc h

-- "hello" arrives in a buffer of 1,024 bytes.
handle_peer_connection-printed_of_example :
    handle_peer_connection (bytes (codes "hello")) (pos 5)
    ≡ (some (printed_of (bytes (codes "hello"))), close_fd (pos 5) ∷ [])
handle_peer_connection-printed_of_example =
    handle_peer_connection-printed_of (bytes (codes "hello")) (pos 5) (omega arith)

-- Two threads add peer 2 under different addresses; the second enters first, and its peer is read before
-- the other call, which finds it there.
abbrev here_first : ℕ × Text
here_first = (2, codes "10.0.0.2")

abbrev here_last : ℕ × Text
here_last = (2, codes "10.0.0.9")

abbrev with_peer : P2PProtocol
with_peer = record protocol { peers = 2 ∷ []; peer_addresses = (2, codes "10.0.0.9") ∷ [] }

abbrev both_added : System P2PProtocol (Unit {0}) (ℕ × Text)
both_added = record {
  shared = with_peer;
  waiting = [];
  inside = none;
  readers = 0;
  entered = here_last ∷ (here_first ∷ []);
  answers = tt ∷ (tt ∷ []);
}

both_added-Execution :
    Execution add_peer_program (all_waiting protocol (here_first ∷ (here_last ∷ []))) both_added
unfolding add_peer_program contains insert
both_added-Execution =
    goes_on
      (goes_on
        (goes_on
          (goes_on
            (goes_on
              (goes_on
                (goes_on
                  (goes_on
                    (goes_on
                      (goes_on at_start (enters (here_first ∷ []) [] here_last refl refl refl))
                      (looks _ refl))
                    (acts _ _ refl))
                  (acts _ _ refl))
                (leaves tt refl))
              (starts_reading refl))
            (stops_reading 0 refl))
          (enters [] [] here_first refl refl refl))
        (looks _ refl))
      (leaves tt refl)

Execution-add_peers_example :
    (count 2 (get_active_peers with_peer) ≡ 1)
    × (get_peer_address 2 with_peer ≡ codes "10.0.0.9")
    × (bag (2 ∷ (2 ∷ [])) ≡ bag (2 ∷ (2 ∷ [])))
Execution-add_peers_example =
    Execution-add_peers 1 (codes "127.0.0.1") (here_first ∷ (here_last ∷ [])) 2 both_added-Execution
      (inl refl)
