-- ===== src/Network/Listening/Ending.antt =====
-- Once it is told to stop, the accepting thread ends.
use synledger_core.Network.Listening.{
  go_on, stop, has_socket, no_socket, call_accept, accepted, refused, handled, set_flag,
  close_socket, here, own_step, other_step, Place, at_flag, at_socket, at_accept, in_accept, ended,
  Listener, ThreadStep, OtherStep, Run,
}
use synledger_core.Network.Sockets.{failed}
use synledger_core.Prelude.{Bool-cases, ℕ, ◌+◌, ◌≤◌, ◌<◌, ◌≡◌, refl, ◌⊎◌, inl, inr, true, arith}

-- How many steps the thread has left once the flag is set.
abbrev pub distance : Place → ℕ
distance at_flag = 1
distance at_socket = 4
distance at_accept = 3
distance (in_accept fd) = 2
distance ended = 0

ThreadStep-distance :
    {s new : Listener}
    → ThreadStep s new
    → s.protocol.stop_flag ≡ true
    → (new.protocol.stop_flag ≡ true) × (distance new.place < distance s.place)
ThreadStep-distance (go_on e clear) h = cc (h, clear)
ThreadStep-distance (stop e told) h = (h, rw e (omega arith))
ThreadStep-distance (has_socket e k) h = (h, rw e (omega arith))
ThreadStep-distance (no_socket e k) h = (h, rw e (omega arith))
ThreadStep-distance (call_accept e) h = (h, rw e (omega arith))
ThreadStep-distance (accepted socket client e k l) h = (h, rw e (omega arith))
ThreadStep-distance (refused socket e) h = (h, rw e (omega arith))

OtherStep-distance :
    {s new : Listener}
    → OtherStep s new
    → s.protocol.stop_flag ≡ true
    → (new.protocol.stop_flag ≡ true) × (distance new.place ≡ distance s.place)
OtherStep-distance (handled before after client e) h = (h, refl)
OtherStep-distance set_flag h = (refl, refl)
OtherStep-distance (close_socket e k) h = (h, refl)

Run-distance :
    {start s : Listener} {k : ℕ}
    → Run start k s
    → start.protocol.stop_flag ≡ true
    → (s.protocol.stop_flag ≡ true) × (k + distance s.place ≤ distance start.place)
Run-distance here h = (h, omega arith)
Run-distance (own_step r st) h =
    let (told, most) = Run-distance r h in
    let (told', less) = ThreadStep-distance st told in (told', omega arith)
Run-distance (other_step r st) h =
    let (told, most) = Run-distance r h in
    let (told', same) = OtherStep-distance st told in (told', omega arith)

pub distance_most : (p : Place) → distance p ≤ 4
distance_most at_flag = omega arith
distance_most at_socket = omega arith
distance_most at_accept = omega arith
distance_most (in_accept fd) = omega arith
distance_most ended = omega arith

-- Unless it has ended, the thread can take a step; only in `accept` does it wait for an answer.
pub can_go_on : (s : Listener) → (s.place ≡ ended) ⊎ ((new : Listener) × ThreadStep s new)
can_go_on s = go s.place refl
  where
    go : (p : Place) → s.place ≡ p → (s.place ≡ ended) ⊎ ((new : Listener) × ThreadStep s new)
    go at_flag e = elim (Bool-cases s.protocol.stop_flag) [
      | inl told ↦ inr (_, stop e told)
      | inr clear ↦ inr (_, go_on e clear)
    ]
    go at_socket e = elim (Bool-cases (failed s.protocol.listen_socket)) [
      | inl gone ↦ inr (_, no_socket e gone)
      | inr there ↦ inr (_, has_socket e there)
    ]
    go at_accept e = inr (_, call_accept e)
    go (in_accept fd) e = inr (_, refused fd e)
    go ended e = inl e

-- Once the flag is set, the accepting thread takes four steps more at most, however the other threads
-- interleave, and it has ended or can take a step. (In `accept` that step is the answer of the system,
-- which may keep it waiting.)
pub handle_incoming_connections-ends :
    (k : ℕ) (s new : Listener)
    → s.protocol.stop_flag ≡ true
    → Run s k new
    → (k ≤ 4) × ((new.place ≡ ended) ⊎ ((last : Listener) × ThreadStep new last))
handle_incoming_connections-ends k s new told r =
    (omega (arith, (Run-distance r told).1, distance_most s.place), can_go_on new)
