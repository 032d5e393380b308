-- ===== src/Network/Listening/Balance.antt =====
-- The sockets that are open while the accepting thread, the handlers and `shutdown` run.
use synledger_core.Network.Listening.{
  go_on, stop, has_socket, no_socket, call_accept, accepted, refused, handled, set_flag,
  close_socket, here, own_step, other_step, Listener, ThreadStep, OtherStep, Run, start_listening,
}
use synledger_core.Network.Peers.{P2PProtocol}
use synledger_core.Network.Sockets.{Call, open_fd, close_fd, failed, Answers, setup_listen_socket}
use synledger_core.Network.Sockets.Closing.{open_after}
use synledger_core.Prelude.{
  if◌then◌else◌, ℕ, ◌+◌, ◌≡◌, some, List, [], ◌∷◌, ◌++◌, arith, zero, suc, ◌∙◌, ap, ok,
}
use synledger_core.Prelude.Int.{ℤ, eqb_ℤ}

-- How often a socket is listed.
abbrev pub times_in : ℤ → List ℤ → ℕ
times_in fd [] = 0
times_in fd (x ∷ xs) = (if eqb_ℤ x fd then 1 else 0) + times_in fd xs

times_in-append :
    (fd : ℤ) (xs ys : List ℤ) → times_in fd (xs ++ ys) ≡ times_in fd xs + times_in fd ys
times_in-append fd [] ys = omega arith
times_in-append fd (x ∷ xs) ys = omega (arith, times_in-append fd xs ys)

-- One for the listening socket, if there is one.
abbrev pub listening : ℤ → ℤ → ℕ
listening fd socket = if failed socket then 0 else if eqb_ℤ socket fd then 1 else 0

-- What a log leaves open is what the rest of it starts from.
open_after-append :
    (fd : ℤ) (n m : ℕ) (log rest : List Call)
    → open_after fd n log ≡ some m
    → open_after fd n (log ++ rest) ≡ open_after fd m rest
open_after-append fd n m [] rest h = cc h
open_after-append fd n m (open_fd other_fd ∷ log) rest h =
    open_after-append fd (if eqb_ℤ other_fd fd then n + 1 else n) m log rest h
open_after-append fd zero m (close_fd other_fd ∷ log) rest h =
    grind (arith, open_after-append fd zero m log rest)
open_after-append fd (suc n) m (close_fd other_fd ∷ log) rest h =
    grind (arith, open_after-append fd (suc n) m log rest, open_after-append fd n m log rest)

open_after-open_fd :
    (fd client : ℤ) (n m : ℕ) (log : List Call)
    → open_after fd n log ≡ some m
    → open_after fd n (log ++ (open_fd client ∷ [])) ≡ some (times_in fd (client ∷ []) + m)
open_after-open_fd fd client n m log h =
    open_after-append fd n m log (open_fd client ∷ []) h ∙ ground arith

open_after-close_fd :
    (fd client : ℤ) (n k m : ℕ) (log : List Call)
    → open_after fd n log ≡ some k
    → k ≡ times_in fd (client ∷ []) + m
    → open_after fd n (log ++ (close_fd client ∷ [])) ≡ some m
open_after-close_fd fd client n k m log h e =
    open_after-append fd n k log (close_fd client ∷ []) h ∙ rw e (ground arith)

-- The open sockets are the listening one and those that are being handled.
abbrev pub IsBalanced : ℤ → ℕ → Listener → Type 0
IsBalanced fd n s =
    open_after fd n s.log ≡ some (listening fd s.protocol.listen_socket + times_in fd s.handlers)

ThreadStep-IsBalanced :
    (fd : ℤ) (n : ℕ) {s new : Listener} → ThreadStep s new → IsBalanced fd n s → IsBalanced fd n new
ThreadStep-IsBalanced fd n (go_on e k) h = h
ThreadStep-IsBalanced fd n (stop e k) h = h
ThreadStep-IsBalanced fd n (has_socket e k) h = h
ThreadStep-IsBalanced fd n (no_socket e k) h = h
ThreadStep-IsBalanced fd n (call_accept e) h = h
ThreadStep-IsBalanced fd n {s} (accepted socket client e k l) h =
    open_after-open_fd fd client n _ s.log h ∙ ap some (omega arith)
ThreadStep-IsBalanced fd n (refused socket e) h = h

OtherStep-IsBalanced :
    (fd : ℤ) (n : ℕ) {s new : Listener} → OtherStep s new → IsBalanced fd n s → IsBalanced fd n new
OtherStep-IsBalanced fd n {s} (handled before after client e) h =
    open_after-close_fd fd client n _ _ s.log h (
      rw e (
        omega (arith, times_in-append fd before (client ∷ after), times_in-append fd before after)))
OtherStep-IsBalanced fd n set_flag h = h
OtherStep-IsBalanced fd n {s} (close_socket k l) h =
    open_after-close_fd fd s.protocol.listen_socket n _ _ s.log h (rw l (omega arith))

Run-IsBalanced :
    {start s : Listener} {k : ℕ} (fd : ℤ) (n : ℕ)
    → Run start k s
    → IsBalanced fd n start
    → IsBalanced fd n s
Run-IsBalanced fd n here h = h
Run-IsBalanced fd n (own_step r st) h = ThreadStep-IsBalanced fd n st (Run-IsBalanced fd n r h)
Run-IsBalanced fd n (other_step r st) h = OtherStep-IsBalanced fd n st (Run-IsBalanced fd n r h)

setup_listen_socket-open_after :
    (os : Answers) (s : P2PProtocol) (fd : ℤ)
    → let (answer, made, log) = setup_listen_socket os s in
      answer ≡ ok tt → open_after fd 0 log ≡ some (listening fd made.listen_socket)
unfolding setup_listen_socket
setup_listen_socket-open_after os s fd h = ground arith

-- From an `initialize` that succeeds on, in any interleaving of the accepting thread, the handlers and
-- `shutdown`, no socket is closed that is not open, and the sockets left open are the listening one, unless
-- it is shut down, and those that are being handled.
pub handle_incoming_connections-open_after :
    (os : Answers) (s : P2PProtocol) (fd : ℤ) (k : ℕ) (last : Listener)
    → let (answer, made, log) = setup_listen_socket os s in
      answer ≡ ok tt
      → Run (start_listening made) k last
      → open_after fd 0 (log ++ last.log)
        ≡ some (listening fd last.protocol.listen_socket + times_in fd last.handlers)
unfolding start_listening
handle_incoming_connections-open_after os s fd k last h r =
    let (answer, made, log) = setup_listen_socket os s in
    open_after-append fd 0 (listening fd made.listen_socket) log last.log
      (setup_listen_socket-open_after os s fd h)
    ∙ Run-IsBalanced fd (listening fd made.listen_socket) r (ap some (omega arith))
