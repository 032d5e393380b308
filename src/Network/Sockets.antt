-- ===== src/Network/Sockets.antt =====
-- The socket calls of `class P2PProtocol` (src/network/p2p_protocol.cpp). What the operating system
-- answers is an argument, and the sockets that the methods open and close are logged.
pub mod Closing
use synledger_core.Network.Peers.{P2PProtocol}
use synledger_core.Prelude.{
  nat_eq, text_key, lookup, runtime_error, Result, ok, err, if◌then◌else◌, Text, codes, ℕ, Bool,
  true, not, none, some, List, [], ◌∷◌,
}
use synledger_core.Prelude.Int.{ℤ, pos, negsuc, ltb_ℤ, leb_ℤ}

-- The answers of the calls that a method makes, in `int`s.
pub record Answers : Type 0 where
  pub socket : ℤ
  pub setsockopt : ℤ
  pub bind : ℤ
  pub listen : ℤ
  pub connect : ℤ
  pub send : ℤ
  -- `inet_pton(AF_INET, address, …)`.
  pub inet_pton : Text → ℤ

pub data Call : Type 0 where
  open_fd : ℤ → Call
  close_fd : ℤ → Call

abbrev pub failed : ℤ → Bool
failed answer = ltb_ℤ answer (pos 0)

-- `setup_listen_socket`: the result, the state, and the log. The port plays no part in the control flow.
unfoldable pub setup_listen_socket :
    Answers → P2PProtocol → Result (Unit {0}) × P2PProtocol × List Call
setup_listen_socket os s =
    let fd = os.socket in
    let made : P2PProtocol = record s { listen_socket = fd } in
    if failed fd
    then (err (runtime_error (codes "Failed to create socket")), made, [])
    else if failed os.setsockopt
    then (
      err (runtime_error (codes "Failed to set socket options")),
      made,
      open_fd fd ∷ (close_fd fd ∷ []),
    )
    else if failed os.bind
    then (
      err (runtime_error (codes "Failed to bind socket")),
      made,
      open_fd fd ∷ (close_fd fd ∷ []),
    )
    else if failed os.listen
    then (
      err (runtime_error (codes "Failed to listen on socket")),
      made,
      open_fd fd ∷ (close_fd fd ∷ []),
    )
    else (ok tt, made, open_fd fd ∷ [])

-- `shutdown`, which the destructor calls.
unfoldable pub shutdown : P2PProtocol → P2PProtocol × List Call
shutdown s =
    let stopped : P2PProtocol = record s { stop_flag = true } in
    if not (failed s.listen_socket)
    then (record stopped { listen_socket = negsuc 0 }, close_fd s.listen_socket ∷ [])
    else (stopped, [])

-- `send_message`: the result and the log.
unfoldable pub send_message : Answers → ℕ → P2PProtocol → Result (Unit {0}) × List Call
send_message os peer_node_id s = elim (lookup peer_node_id s.peer_addresses) [
  | none ↦ (err (runtime_error (codes "Peer address not found")), [])
  | some peer_address ↦
      let sock = os.socket in
      if leb_ℤ (os.inet_pton peer_address) (pos 0)
      then (err (runtime_error (codes "Invalid peer address")), [])
      else if failed sock
      then (err (runtime_error (codes "Failed to create socket")), [])
      else if failed os.connect
      then (
        err (runtime_error (codes "Failed to connect to peer")),
        open_fd sock ∷ (close_fd sock ∷ []),
      )
      else if failed os.send
      then (
        err (runtime_error (codes "Failed to send message to peer")),
        open_fd sock ∷ (close_fd sock ∷ []),
      )
      else (ok tt, open_fd sock ∷ (close_fd sock ∷ []))
]
