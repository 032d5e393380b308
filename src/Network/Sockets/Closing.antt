-- ===== src/Network/Sockets/Closing.antt =====
-- Which sockets the methods leave open, and which they close twice.
use native.Mathlib.Numerals.{add-one}
use synledger_core.Network.Peers.{P2PProtocol}
use synledger_core.Network.Sockets.{
  Answers, Call, open_fd, close_fd, failed, setup_listen_socket, shutdown, send_message,
}
use synledger_core.Prelude.{
  ok, if◌then◌else◌, ℕ, zero, suc, ◌+◌, ◌≡◌, ◌≢◌, true, false, Option, none, some, List, [], ◌∷◌,
  ◌++◌, arith,
}
use synledger_core.Prelude.Int.{ℤ, eqb_ℤ, eqb_ℤ-refl}

-- How many sockets of a number are open after a log, starting from `n`; `none` once one is closed that
-- is not open.
abbrev pub open_after : ℤ → ℕ → List Call → Option ℕ
open_after fd n [] = some n
open_after fd n (open_fd other ∷ log) = open_after fd (if eqb_ℤ other fd then n + 1 else n) log
open_after fd n (close_fd other ∷ log) = elim (eqb_ℤ other fd) [
  | false ↦ open_after fd n log
  | true ↦ elim n [ zero ↦ none | suc k ↦ open_after fd k log ]
]

-- On every path, errors included, sending a message leaves the same sockets open as before, and
-- closes none that is not open.
pub send_message-open_after :
    (os : Answers) (k : ℕ) (s : P2PProtocol) (fd : ℤ) (n : ℕ)
    → open_after fd n (send_message os k s).1 ≡ some n
unfolding send_message
send_message-open_after os k s fd n = ground (arith, add-one n)

-- A listening socket that is set up is closed by `shutdown`, which then has nothing left to close.
pub setup_listen_socket-shutdown :
    (os : Answers) (s : P2PProtocol) (fd : ℤ) (n : ℕ)
    → (setup_listen_socket os s).0 ≡ ok tt
    → let (_, made, log) = setup_listen_socket os s in
      let (stopped, log') = shutdown made in
      (open_after fd n (log ++ log') ≡ some n) × ((shutdown stopped).1 ≡ [])
unfolding setup_listen_socket shutdown
setup_listen_socket-shutdown os s fd n h = ground (arith, add-one n)

-- Where a later call fails, `setup_listen_socket` closes the socket but keeps its number, and the
-- destructor's `shutdown` closes it again.
pub setup_listen_socket-closes_twice :
    (os : Answers) (s : P2PProtocol)
    → failed os.socket ≡ false
    → (setup_listen_socket os s).0 ≢ ok tt
    → let (_, made, log) = setup_listen_socket os s in
      open_after os.socket 0 (log ++ (shutdown made).1) ≡ none
unfolding setup_listen_socket shutdown
setup_listen_socket-closes_twice os s opened refused = ground (arith, eqb_ℤ-refl os.socket)
