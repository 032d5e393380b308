-- ===== src/Network/Listening/Returning.antt =====
-- The destructor returns: how many steps are left once it has set the flag.
use synledger_core.Network.Listening.{
  Listener, ThreadStep, go_on, stop, has_socket, no_socket, call_accept, accepted, refused,
}
use synledger_core.Network.Listening.Destructor.{
  Stage, at_shutdown, at_close, at_join, destroyed, DestructorStep, thread_step, handler_step,
  sets_flag, closes, has_none, joins, DestructorRun, alive, after_step, ThreadStep-protocol,
  DestructorStep-progress,
}
use synledger_core.Network.Listening.Ending.{distance, distance_most}
use synledger_core.Prelude.{
  length, length-append, ℕ, ◌+◌, ◌*◌, ◌≤◌, ◌<◌, ◌≡◌, refl, ap, ◌∙◌, ◌⊎◌, true, ◌∷◌, arith,
}

-- The steps that the destructor has left.
abbrev pub left_of : Stage → ℕ
left_of at_shutdown = 3
left_of at_close = 2
left_of at_join = 1
left_of destroyed = 0

-- Every step takes something off: the thread's count twice, since a connection that it accepts is one
-- more to handle.
abbrev pub load_of : Listener → Stage → ℕ
load_of s g = 2 * distance s.place + length s.handlers + left_of g

ThreadStep-load_of :
    {s new : Listener} (g : Stage)
    → ThreadStep s new
    → s.protocol.stop_flag ≡ true
    → load_of new g < load_of s g
ThreadStep-load_of g (go_on e clear) h = cc (h, clear)
ThreadStep-load_of g (stop e k) h = rw e (omega arith)
ThreadStep-load_of g (has_socket e k) h = rw e (omega arith)
ThreadStep-load_of g (no_socket e k) h = rw e (omega arith)
ThreadStep-load_of g (call_accept e) h = rw e (omega arith)
ThreadStep-load_of g (accepted socket client e k l) h = rw e (omega arith)
ThreadStep-load_of g (refused socket e) h = rw e (omega arith)

-- The flag is set from the second stage on.
DestructorStep-load_of :
    {s new : Listener} {g g' : Stage}
    → DestructorStep s g new g'
    → s.protocol.stop_flag ≡ true
    → (new.protocol.stop_flag ≡ true) × (load_of new g' < load_of s g)
DestructorStep-load_of (thread_step {g = g} st) h =
    (ap (λ p. p.stop_flag) (ThreadStep-protocol st) ∙ h, ThreadStep-load_of g st h)
DestructorStep-load_of (handler_step before behind client e) h =
    (h, rw e (omega (arith, length-append before (client ∷ behind), length-append before behind)))
DestructorStep-load_of sets_flag h = (refl, omega arith)
DestructorStep-load_of (closes there) h = (h, omega arith)
DestructorStep-load_of (has_none gone) h = (h, omega arith)
DestructorStep-load_of (joins e) h = (h, omega arith)

DestructorRun-load_of :
    {start : Listener} {first : Stage} {s : Listener} {g : Stage} {k : ℕ}
    → DestructorRun start first k s g
    → start.protocol.stop_flag ≡ true
    → (s.protocol.stop_flag ≡ true) × (k + load_of s g ≤ load_of start first)
DestructorRun-load_of alive h = (h, omega arith)
DestructorRun-load_of (after_step r st) h =
    let (told, most) = DestructorRun-load_of r h in
    let (told', less) = DestructorStep-load_of st told in (told', omega arith)

-- Once the destructor has set the flag, it, the accepting thread and the handlers together take ten steps
-- more at most and one for each connection that is being handled, in whatever order, and until the
-- destructor has returned, it or the accepting thread can take one. (In `accept` that step is the answer
-- of the system, which may keep the thread waiting.)
pub destructor-returns :
    (k : ℕ) (s last : Listener) (g : Stage)
    → s.protocol.stop_flag ≡ true
    → DestructorRun s at_close k last g
    → (k ≤ 10 + length s.handlers)
      × ((g ≡ destroyed) ⊎ ((new : Listener) × (g' : Stage) × DestructorStep last g new g'))
destructor-returns k s last g told r = (
  omega (arith, (DestructorRun-load_of r told).1, distance_most s.place),
  DestructorStep-progress last g,
)
