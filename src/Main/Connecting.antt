-- ===== src/Main/Connecting.antt =====
-- The nodes that are discovered become peers: the loop of `main` over the known nodes (src/main.cpp).
use synledger_core.Main.{connect_peers}
use synledger_core.Network.Discovery.{NodeDiscovery, get_node_address, get_known_nodes, IsKnownOnce}
use synledger_core.Network.Peers.{
  P2PProtocol, add_peer, IsListed, add_peer-IsListed, new_protocol, get_active_peers,
  get_peer_address,
}
use synledger_core.Prelude.{
  count, nat_eq, lookup, contains, lookup-insert, contains-insert, if◌then◌else◌, ltb, ==_iff, ℕ,
  ◌≡◌, none, some, List, [], ◌∷◌, arith, contains-eq-lookup, text_key, Text, codes, refl, sym, ◌∙◌,
}
use synledger_core.Prelude.Bag.{bag, bag-eq, bag-count}

-- The addresses after the loop: those that were there stay.
connect_peers-lookup :
    (ks : List ℕ) (found : NodeDiscovery) (p : P2PProtocol) (j : ℕ)
    → lookup j (connect_peers ks found p).peer_addresses ≡ (
        if contains j p.peer_addresses
        then lookup j p.peer_addresses
        else if ltb 0 (count j ks)
        then some (get_node_address j found)
        else none)
unfolding connect_peers add_peer
connect_peers-lookup [] found p j = ground (arith, contains-eq-lookup j p.peer_addresses)
connect_peers-lookup (k ∷ ks) found p j = ground (
  arith,
  connect_peers-lookup ks found (add_peer k (get_node_address k found) p) j,
  lookup-insert k j (get_node_address k found) p.peer_addresses,
  contains-insert k j (get_node_address k found) p.peer_addresses,
  ==_iff k j,
)

connect_peers-IsListed :
    (ks : List ℕ) (found : NodeDiscovery) (p : P2PProtocol)
    → IsListed p
    → IsListed (connect_peers ks found p)
unfolding connect_peers
connect_peers-IsListed [] found p h = h
connect_peers-IsListed (k ∷ ks) found p h =
    connect_peers-IsListed ks found (add_peer k (get_node_address k found) p)
      (add_peer-IsListed k (get_node_address k found) p h)

connect_peers-get_known_nodes :
    (ks : List ℕ) (found : NodeDiscovery) (node_id : ℕ) (network_address : Text) (j : ℕ)
    → IsKnownOnce found
    → ((i : ℕ) → count i ks ≡ count i (get_known_nodes found))
    → let new = connect_peers ks found (new_protocol node_id network_address) in
      (count j (get_active_peers new) ≡ (if contains j found.known_nodes then 1 else 0))
      × (get_peer_address j new
          ≡ (if contains j found.known_nodes then get_node_address j found else codes "Unknown"))
unfolding get_active_peers get_peer_address contains
connect_peers-get_known_nodes ks found node_id network_address j once order =
    let p = new_protocol node_id network_address in
    let new = connect_peers ks found p in
    let there = connect_peers-lookup ks found p j in
    let listed = connect_peers-IsListed ks found p (λ k. refl) j in
    ground (arith, there, listed, order j, once j, contains-eq-lookup j new.peer_addresses)

-- Where the discovery lists its known nodes once each, and they are walked in whatever order, the peers
-- that a new protocol then has are the known nodes, up to order, its own number not excepted, and it
-- answers for each the address that the discovery has, and for others that it is unknown.
pub connect_peers-bag :
    (ks : List ℕ) (found : NodeDiscovery) (node_id : ℕ) (network_address : Text) (j : ℕ)
    → IsKnownOnce found
    → bag ks ≡ bag (get_known_nodes found)
    → let new = connect_peers ks found (new_protocol node_id network_address) in
      (bag (get_active_peers new) ≡ bag (get_known_nodes found))
      × (get_peer_address j new
          ≡ (if contains j found.known_nodes then get_node_address j found else codes "Unknown"))
connect_peers-bag ks found node_id network_address j once order =
    let new = connect_peers ks found (new_protocol node_id network_address) in
    let counts : (i : ℕ) → count i ks ≡ count i (get_known_nodes found) =
      λ i. bag-count i ks (get_known_nodes found) order in
    (
      bag-eq (get_active_peers new) (get_known_nodes found) (λ i.
          (connect_peers-get_known_nodes ks found node_id network_address i once counts).0
          ∙ sym (once i)),
      (connect_peers-get_known_nodes ks found node_id network_address j once counts).1,
    )
