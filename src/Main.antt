-- ===== src/Main.antt =====
-- `main` (src/main.cpp). The answers of the sockets, the clock readings, the draws and the parsers of
-- the arguments are given; the pause between rounds and the messages are left out. The accepting thread that
-- `initialize` starts reads and writes nothing that `main` does until `~P2PProtocol`, so its steps till then
-- are counted to the run of the destructor (Network/Listening/Destructor), which begins with any of them.
pub mod Startup
pub mod Connecting
pub mod Loop
use synledger_core.Block.{new_block}
use synledger_core.Double.{Double}
use synledger_core.Engine.{PoSygEngine, new_engine, run_cycle}
use synledger_core.Governance.{Governance, new_governance, finalize_proposal, create_proposal, vote}
use synledger_core.Ledger.{Ledger, add_block, get_latest_block, new_ledger, validate_chain}
use synledger_core.Network.Discovery.{
  NodeDiscovery, new_discovery, discover_nodes, get_known_nodes, get_node_address,
}
use synledger_core.Network.Listening.{Listener, start_listening}
use synledger_core.Network.Peers.{P2PProtocol, new_protocol, add_peer}
use synledger_core.Network.Sockets.{Answers, setup_listen_socket, send_message}
use synledger_core.Platform.{Platform}
use synledger_core.Prelude.{
  ◌>>=◌, Exception, out_of_range, Result, ok, err, if◌then◌else◌, Text, codes, ℕ, zero, suc, true,
  none, some, List, [], ◌∷◌, Option,
}
use synledger_core.Prelude.Int.{ℤ, pos}
use synledger_core.Subnet.{SubnetManager, new_manager, assign_node_to_subnet, rebalance_subnets}

pub record Node (D : Type 0) : Type 0 where
  pub posyg_engine : PoSygEngine D
  pub p2p_protocol : Listener
  pub node_discovery : NodeDiscovery
  pub ledger : Ledger D
  pub governance : Governance D
  pub subnet_manager : SubnetManager

-- The loop over the known nodes.
unfoldable pub connect_peers : List ℕ → NodeDiscovery → P2PProtocol → P2PProtocol
connect_peers [] found p = p
connect_peers (k ∷ ks) found p = connect_peers ks found (add_peer k (get_node_address k found) p)

-- `initialize`: setting up the socket, and the start of the thread that accepts connections.
unfoldable pub initialize : Answers → P2PProtocol → Result Listener
unfolding start_listening
initialize os p =
    let (r, created_now, _) = setup_listen_socket os p in
    r >>= λ _. ok (start_listening created_now)

-- The protocol with the known nodes as its peers.
abbrev pub connected : NodeDiscovery → Listener → Listener
connected found l = record l { protocol = connect_peers (get_known_nodes found) found l.protocol }

-- What `main` comes to after a number of rounds. After `unwinding`, for an exception, it returns the status
-- once `~P2PProtocol` has returned.
pub data Outcome : Type 0 where
  returned : ℕ → Outcome
  unwinding : ℕ → Listener → Outcome
  terminated : Exception → Outcome
  running : Outcome

module _ {D : Type 0} ⦃p : Platform D⦄ where
  -- The block step of a round: a copy of the latest block is added to the chain.
  unfoldable pub extend_chain : Answers → P2PProtocol → Ledger D → Result (Ledger D)
  extend_chain os protocol l = elim (get_latest_block l) [
    | none ↦ err out_of_range
    | some new_block ↦
        let (checked, valid) = validate_chain l in
        if valid
        then (add_block new_block checked >>= λ extended.
            (send_message os 2 protocol).0 >>= λ _. ok extended)
        else ok checked
  ]

module _ {D : Type 0} ⦃d : Double D⦄ ⦃p : Platform D⦄ where
  -- The `try` block up to the loop: the protocol, if its thread has been started, and the objects, or what
  -- is thrown.
  unfoldable pub startup : Answers → ℤ → ℕ → Option Listener × Result (Node D)
  startup os now node_id =
      let network_address = codes "127.0.0.1" in
      let found = discover_nodes (new_discovery node_id network_address) in
      elim (initialize os (new_protocol node_id network_address)) [
        | err e ↦ (none, err e)
        | ok started ↦ (
          some (connected found started),
          assign_node_to_subnet node_id (new_manager 5) >>= λ subnets. ok (record {
            posyg_engine = new_engine 10;
            p2p_protocol = connected found started;
            node_discovery = found;
            ledger = new_ledger now 3;
            governance = new_governance;
            subnet_manager = subnets;
          }),
        )
      ]

  -- One round of the loop.
  unfoldable pub loop_round : Answers → (ℕ → ℕ) → Node D → Result (Node D)
  loop_round os draw n =
      let engine = run_cycle draw n.posyg_engine in
      extend_chain os n.p2p_protocol.protocol n.ledger >>= λ ledger.
      vote (pos 1) true 0 engine (create_proposal (codes "Increase block reward") n.governance)
      >>= λ voted_on.
          (let (subnets, r) = rebalance_subnets n.subnet_manager in
            r >>= λ _. ok (record n {
              posyg_engine = engine;
              ledger = ledger;
              governance = finalize_proposal (pos 1) voted_on;
              subnet_manager = subnets;
            }))

  unfoldable pub main_loop : ℕ → Answers → (ℕ → ℕ) → Node D → Outcome
  main_loop zero os draw n = running
  main_loop (suc rounds) os draw n = elim (loop_round os draw n) [
    | err e ↦ unwinding 1 n.p2p_protocol
    | ok after ↦ main_loop rounds os draw after
  ]

  abbrev pub enter_loop : ℕ → Answers → (ℕ → ℕ) → Option Listener × Result (Node D) → Outcome
  enter_loop rounds os draw (l, ok n) = main_loop rounds os draw n
  enter_loop rounds os draw (none, err e) = returned 1
  enter_loop rounds os draw (some l, err e) = unwinding 1 l

-- `main`, with the arguments behind the program's name. An argument that does not parse throws
-- outside the `try` block.
unfoldable pub main :
    (D : Type 0) ⦃d : Double D⦄ ⦃p : Platform D⦄
    → (Text → Result ℕ)
    → (Text → Result ℤ)
    → List Text
    → ℕ
    → Answers
    → ℤ
    → (ℕ → ℕ)
    → Outcome
main D stoul stoi [] rounds os now draw = returned 1
main D stoul stoi (a ∷ []) rounds os now draw = returned 1
main D stoul stoi (a ∷ (b ∷ rest)) rounds os now draw = elim (stoul a) [
  | err e ↦ terminated e
  | ok node_id ↦ elim (stoi b) [
    | err e ↦ terminated e
    | ok port ↦ enter_loop rounds os draw (startup {D = D} os now node_id)
  ]
]
