-- ===== src/Network/Listening/Destructor.antt =====
-- `P2PProtocol::~P2PProtocol` beside the accepting thread and the handlers: `shutdown`, then the wait for
-- the accepting thread. The handlers are detached, and nobody waits for them.
use synledger_core.Network.Listening.{
  go_on, stop, has_socket, no_socket, call_accept, accepted, refused, handled, set_flag,
  close_socket, here, own_step, other_step, Listener, ThreadStep, Run, start_listening, ended,
}
use synledger_core.Network.Listening.Balance.{times_in, handle_incoming_connections-open_after}
use synledger_core.Network.Listening.Ending.{can_go_on}
use synledger_core.Network.Peers.{P2PProtocol}
use synledger_core.Network.Sockets.{Call, Answers, close_fd, failed, setup_listen_socket}
use synledger_core.Network.Sockets.Closing.{open_after}
use synledger_core.Prelude.{
  ok, ◌≡◌, ℕ, suc, refl, ap, ◌∙◌, ◌⊎◌, true, false, some, List, [], ◌∷◌, ◌++◌, arith, Bool-cases,
  inl, inr,
}
use synledger_core.Prelude.Int.{ℤ, negsuc}

-- Where the destructor is: before the flag is set, before the socket is closed, before the join, or done.
pub data Stage : Type 0 where
  at_shutdown : Stage
  at_close : Stage
  at_join : Stage
  destroyed : Stage

-- A step of the accepting thread, of a handler, or of the destructor.
pub data DestructorStep : Listener → Stage → Listener → Stage → Type 0 where
  thread_step : {s new : Listener} {g : Stage} → ThreadStep s new → DestructorStep s g new g
  handler_step :
      (before behind : List ℤ) (client : ℤ) {s : Listener} {g : Stage}
      → s.handlers ≡ before ++ (client ∷ behind)
      → DestructorStep s g
          (record s { handlers = before ++ behind; log = s.log ++ (close_fd client ∷ []) })
          g
  sets_flag :
      {s : Listener}
      → DestructorStep s at_shutdown
          (record s { protocol = record (s.protocol) { stop_flag = true } })
          at_close
  closes :
      {s : Listener}
      → failed s.protocol.listen_socket ≡ false
      → DestructorStep s at_close
          (record s {
            protocol = record (s.protocol) { listen_socket = negsuc 0 };
            log = s.log ++ (close_fd s.protocol.listen_socket ∷ []);
          })
          at_join
  has_none :
      {s : Listener} → failed s.protocol.listen_socket ≡ true → DestructorStep s at_close s at_join
  joins : {s : Listener} → s.place ≡ ended → DestructorStep s at_join s destroyed

-- What is known at each stage.
abbrev pub IsAtStage : Stage → Listener → Type 0
IsAtStage at_shutdown s = Unit
IsAtStage at_close s = s.protocol.stop_flag ≡ true
IsAtStage at_join s = (s.protocol.stop_flag ≡ true) × (failed s.protocol.listen_socket ≡ true)
IsAtStage destroyed s =
    (s.protocol.stop_flag ≡ true) × (failed s.protocol.listen_socket ≡ true) × (s.place ≡ ended)

pub ThreadStep-protocol : {s new : Listener} → ThreadStep s new → new.protocol ≡ s.protocol
ThreadStep-protocol (go_on e k) = refl
ThreadStep-protocol (stop e k) = refl
ThreadStep-protocol (has_socket e k) = refl
ThreadStep-protocol (no_socket e k) = refl
ThreadStep-protocol (call_accept e) = refl
ThreadStep-protocol (accepted socket client e k l) = refl
ThreadStep-protocol (refused socket e) = refl

ThreadStep-ended : {s new : Listener} → ThreadStep s new → ¬ (s.place ≡ ended)
ThreadStep-ended (go_on e k) h = cc (e, h)
ThreadStep-ended (stop e k) h = cc (e, h)
ThreadStep-ended (has_socket e k) h = cc (e, h)
ThreadStep-ended (no_socket e k) h = cc (e, h)
ThreadStep-ended (call_accept e) h = cc (e, h)
ThreadStep-ended (accepted socket client e k l) h = cc (e, h)
ThreadStep-ended (refused socket e) h = cc (e, h)

ThreadStep-IsAtStage :
    (g : Stage) {s new : Listener} → ThreadStep s new → IsAtStage g s → IsAtStage g new
ThreadStep-IsAtStage at_shutdown st h = tt
ThreadStep-IsAtStage at_close st h = ap (λ p. p.stop_flag) (ThreadStep-protocol st) ∙ h
ThreadStep-IsAtStage at_join st h = (
  ap (λ p. p.stop_flag) (ThreadStep-protocol st) ∙ h.0,
  ap (λ p. failed p.listen_socket) (ThreadStep-protocol st) ∙ h.1,
)
ThreadStep-IsAtStage destroyed st h = absurd (ThreadStep-ended st h.2)

handler-IsAtStage :
    (g : Stage) (s : Listener) (handlers : List ℤ) (log : List Call)
    → IsAtStage g s
    → IsAtStage g (record s { handlers = handlers; log = log })
handler-IsAtStage at_shutdown s handlers log h = tt
handler-IsAtStage at_close s handlers log h = h
handler-IsAtStage at_join s handlers log h = h
handler-IsAtStage destroyed s handlers log h = h

DestructorStep-IsAtStage :
    {s new : Listener} {g g' : Stage} → DestructorStep s g new g' → IsAtStage g s → IsAtStage g' new
DestructorStep-IsAtStage (thread_step {g = g} st) h = ThreadStep-IsAtStage g st h
DestructorStep-IsAtStage (handler_step before behind client {s} {g} e) h =
    handler-IsAtStage g s (before ++ behind) (s.log ++ (close_fd client ∷ [])) h
DestructorStep-IsAtStage sets_flag h = refl
DestructorStep-IsAtStage (closes k) h = (h, refl)
DestructorStep-IsAtStage (has_none k) h = (h, k)
DestructorStep-IsAtStage (joins e) h = (h.0, h.1, e)

-- Steps in any order from a state and a stage on, and how many they are.
pub data DestructorRun (start : Listener) (first : Stage) : ℕ → Listener → Stage → Type 0 where
  alive : DestructorRun start first 0 start first
  after_step :
      {k : ℕ} {s new : Listener} {g g' : Stage}
      → DestructorRun start first k s g
      → DestructorStep s g new g'
      → DestructorRun start first (suc k) new g'

DestructorRun-IsAtStage :
    {start : Listener} {first : Stage} {s : Listener} {g : Stage} {k : ℕ}
    → DestructorRun start first k s g
    → IsAtStage first start
    → IsAtStage g s
DestructorRun-IsAtStage alive h = h
DestructorRun-IsAtStage (after_step r st) h =
    DestructorStep-IsAtStage st (DestructorRun-IsAtStage r h)

-- The destructor does what `shutdown` does, and the join changes nothing.
DestructorStep-Run :
    {start s new : Listener} {g g' : Stage} {k : ℕ}
    → DestructorStep s g new g'
    → IsAtStage g s
    → Run start k s
    → (k' : ℕ) × Run start k' new
DestructorStep-Run {k = k} (thread_step own) h run = (suc k, own_step run own)
DestructorStep-Run {k = k} (handler_step before behind client e) h run =
    (k, other_step run (handled before behind client e))
DestructorStep-Run {k = k} sets_flag h run = (k, other_step run set_flag)
DestructorStep-Run {k = k} (closes there) h run = (k, other_step run (close_socket h there))
DestructorStep-Run {k = k} (has_none gone) h run = (k, run)
DestructorStep-Run {k = k} (joins e) h run = (k, run)

DestructorRun-Run :
    {start : Listener} {s : Listener} {g : Stage} {k : ℕ}
    → DestructorRun start at_shutdown k s g
    → (k' : ℕ) × Run start k' s
DestructorRun-Run alive = (0, here)
DestructorRun-Run (after_step r st) =
    DestructorStep-Run st (DestructorRun-IsAtStage r tt) (DestructorRun-Run r).1

-- Until it has returned, the destructor or the accepting thread that it waits for can take a step.
-- (In `accept` that step is the answer of the system.)
pub DestructorStep-progress :
    (s : Listener) (g : Stage)
    → (g ≡ destroyed) ⊎ ((new : Listener) × (g' : Stage) × DestructorStep s g new g')
DestructorStep-progress s at_shutdown = inr (_, _, sets_flag)
DestructorStep-progress s at_close = elim (Bool-cases (failed s.protocol.listen_socket)) [
  | inl gone ↦ inr (_, _, has_none gone)
  | inr there ↦ inr (_, _, closes there)
]
DestructorStep-progress s at_join = elim (can_go_on s) [
  | inl at_end ↦ inr (_, _, joins at_end)
  | inr (new, own) ↦ inr (_, _, thread_step own)
]
DestructorStep-progress s destroyed = inl refl

-- From an `initialize` that succeeds on, in any interleaving with the accepting thread and the handlers,
-- when the destructor has returned, the accepting thread has ended, no socket was closed that was not open,
-- and the sockets left open are those that are still being handled.
pub destructor-open_after :
    (os : Answers) (s : P2PProtocol) (fd : ℤ) (k : ℕ) (last : Listener)
    → let (answer, made, log) = setup_listen_socket os s in
      answer ≡ ok tt
      → DestructorRun (start_listening made) at_shutdown k last destroyed
      → (last.place ≡ ended)
        × (open_after fd 0 (log ++ last.log) ≡ some (times_in fd last.handlers))
destructor-open_after os s fd k last h r =
    let (own, run) = DestructorRun-Run r in
    let (told, gone, at_end) = DestructorRun-IsAtStage r tt in
    (at_end, handle_incoming_connections-open_after os s fd own last h run ∙ ap some (ground arith))
