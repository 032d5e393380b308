-- ===== src/Main/Startup.antt =====
-- How far `main` gets.
use synledger_core.Double.{Double}
use synledger_core.Main.{
  connect_peers, initialize, returned, startup, connected, Outcome, unwinding, main,
}
use synledger_core.Network.Discovery.{
  NodeDiscovery, get_node_address, new_discovery, discover_nodes,
}
use synledger_core.Network.Listening.{at_flag, ended, stop, Listener, start_listening}
use synledger_core.Network.Listening.Destructor.{
  at_shutdown, at_close, destroyed, alive, after_step, sets_flag, thread_step, has_none, closes,
  joins, DestructorRun,
}
use synledger_core.Network.Peers.{P2PProtocol, add_peer, IsListed, add_peer-IsListed, new_protocol}
use synledger_core.Network.Sockets.{Answers, failed, setup_listen_socket}
use synledger_core.Platform.{Platform}
use synledger_core.Prelude.{
  ℕ, List, [], ◌∷◌, Exception, out_of_range, ok, err, Result-cases, codes, ◌≡◌, refl, inl, inr, ◌⊎◌,
  none, some, Result, Bool-cases, Text, ◌↔◌, arith, true,
}
use synledger_core.Prelude.Int.{ℤ}
use synledger_core.Subnet.Start.{Reach, assign_node_to_subnet-throws}

-- Connecting keeps the list of peers in step with their addresses.
pub connect_peers-IsListed :
    (ks : List ℕ) (found : NodeDiscovery) (p : P2PProtocol)
    → IsListed p
    → IsListed (connect_peers ks found p)
unfolding connect_peers
connect_peers-IsListed [] found p h = h
connect_peers-IsListed (k ∷ ks) found p h =
    connect_peers-IsListed ks found (add_peer k (get_node_address k found) p)
      (add_peer-IsListed k (get_node_address k found) p h)

-- The start always throws: in setting up the socket, or else in assigning the node to a subnet.
startup-throws :
    (D : Type 0) ⦃d : Double D⦄ ⦃p : Platform D⦄ (os : Answers) (now : ℤ) (node_id : ℕ)
    → let found = discover_nodes (new_discovery node_id (codes "127.0.0.1")) in
      ((e : Exception) × (initialize os (new_protocol node_id (codes "127.0.0.1")) ≡ err e)
        × (startup {D = D} os now node_id ≡ (none, err e)))
      ⊎ ((l : Listener) × (initialize os (new_protocol node_id (codes "127.0.0.1")) ≡ ok l)
          × (startup {D = D} os now node_id ≡ (some (connected found l), err out_of_range)))
unfolding startup
startup-throws D os now node_id =
    let fresh = new_protocol node_id (codes "127.0.0.1") in
    elim (Result-cases (initialize os fresh)) [
      | inr (e, failed_now) ↦ inl (e, failed_now, rw (failed_now, startup) refl)
      | inl (l, ready) ↦ inr (
        l,
        ready,
        rw (ready, startup)
            (rw ((assign_node_to_subnet-throws 4 node_id Reach.here).0, startup) refl),
      )
    ]

-- How `main` returns: at once, or when the destructor has returned.
pub data Exits : Outcome → ℕ → Type 0 where
  at_once : (status : ℕ) → Exits (returned status) status
  after_join :
      (status k : ℕ) {l last : Listener}
      → DestructorRun l at_shutdown k last destroyed
      → Exits (unwinding status l) status

-- A thread that has just been started may find the flag set at once.
started-Exits : (status : ℕ) (l : Listener) → l.place ≡ at_flag → Exits (unwinding status l) status
started-Exits status l e =
    let flagged : Listener = record l { protocol = record (l.protocol) { stop_flag = true } } in
    let stopped : Listener = record flagged { place = ended } in
    let stopping : DestructorRun l at_shutdown 2 stopped at_close =
      after_step (after_step alive sets_flag) (thread_step (stop e refl)) in
    elim (Bool-cases (failed l.protocol.listen_socket)) [
      | inl none_there ↦
          after_join status 4 (after_step (after_step stopping (has_none none_there)) (joins refl))
      | inr there ↦
          after_join status 4 (after_step (after_step stopping (closes there)) (joins refl))
    ]

initialize-place :
    (os : Answers) (p : P2PProtocol) (l : Listener) → initialize os p ≡ ok l → l.place ≡ at_flag
unfolding initialize start_listening
initialize-place os p l e = elim (Result-cases (setup_listen_socket os p).0) [
  | inl (u, ready) ↦ ground arith
  | inr (x, failed_now) ↦ cc
]

Exits-unwinding :
    {status other : ℕ} {l : Listener} → Exits (unwinding status l) other → other ≡ status
Exits-unwinding (after_join status k r) = refl

Exits-returned : {status other : ℕ} → Exits (returned status) other → other ≡ status
Exits-returned (at_once status) = refl

-- With a node number and a port that parse, `main` never enters its loop, whatever the sockets answer and
-- however many rounds one waits: where `initialize` fails it returns 1; otherwise `~P2PProtocol` has to run, on
-- the protocol whose accepting thread has been started, and `main` returns 1 when that has returned. So it can
-- return with 1, and with no other status. (The destructor joins the thread, which `accept` may keep waiting.)
pub main-returns_one :
    (D : Type 0) ⦃d : Double D⦄ ⦃p : Platform D⦄ (stoul : Text → Result ℕ) (stoi : Text → Result ℤ)
    (a b : Text) (rest : List Text) (rounds : ℕ) (os : Answers) (now : ℤ) (draw : ℕ → ℕ)
    (node_id : ℕ) (port : ℤ) (status : ℕ)
    → stoul a ≡ ok node_id
    → stoi b ≡ ok port
    → let found = discover_nodes (new_discovery node_id (codes "127.0.0.1")) in
      let outcome = main D stoul stoi (a ∷ (b ∷ rest)) rounds os now draw in
      (outcome ≡ elim (initialize os (new_protocol node_id (codes "127.0.0.1"))) [
        | err e ↦ returned 1
        | ok l ↦ unwinding 1 (connected found l)
      ])
      × (Exits outcome status ↔ (status ≡ 1))
unfolding main
main-returns_one D stoul stoi a b rest rounds os now draw node_id port status number port_number =
    let fresh = new_protocol node_id (codes "127.0.0.1") in
    elim (startup-throws D os now node_id) [
      | inl (e, failed_now, thrown) ↦
          rw (number, port_number, thrown, failed_now, main)
            (refl, (Exits-returned, λ one. rw one (at_once 1)))
      | inr (l, ready, thrown) ↦
          let at = initialize-place os fresh l ready in
          rw (number, port_number, thrown, ready, main)
            (refl, (Exits-unwinding, λ one. rw one (started-Exits 1 _ at)))
    ]
