-- ===== src/Network/Peers.antt =====
-- The peers of `class P2PProtocol` (include/network/p2p_protocol.hpp, src/network/p2p_protocol.cpp).
-- Each of these methods holds `peer_mutex` from end to end, so a call is one step.
pub mod Concurrent
use synledger_core.Prelude.{
  count, count-append, nat_eq, text_key, Map, lookup, contains, insert, lookup-insert,
  contains-insert, ◌==◌, if◌then◌else◌, ==_iff, Text, codes, ℕ, ◌≡◌, Bool, false, not, ◌&&◌, none,
  some, List, [], ◌∷◌, ◌++◌, arith,
}
use synledger_core.Prelude.Int.{ℤ, negsuc}

pub record P2PProtocol : Type 0 where
  pub node_id : ℕ
  pub network_address : Text
  pub peers : List ℕ
  pub peer_addresses : Map ℕ Text
  pub listen_socket : ℤ
  pub stop_flag : Bool

-- `P2PProtocol(node_id, network_address)`.
abbrev pub new_protocol : ℕ → Text → P2PProtocol
new_protocol node_id network_address = record {
  node_id = node_id;
  network_address = network_address;
  peers = [];
  peer_addresses = [];
  listen_socket = negsuc 0;
  stop_flag = false;
}

unfoldable pub add_peer : ℕ → Text → P2PProtocol → P2PProtocol
add_peer peer_node_id peer_address s =
    if not (contains peer_node_id s.peer_addresses)
    then record s {
      peers = s.peers ++ (peer_node_id ∷ []);
      peer_addresses = insert peer_node_id peer_address s.peer_addresses;
    }
    else s

unfoldable pub get_active_peers : P2PProtocol → List ℕ
get_active_peers s = s.peers

unfoldable pub get_peer_address : ℕ → P2PProtocol → Text
get_peer_address peer_node_id s = elim (lookup peer_node_id s.peer_addresses) [
  | none ↦ codes "Unknown"
  | some address ↦ address
]

-- The peers that have an address are listed, each once, and no others.
abbrev pub IsListed : P2PProtocol → Type 0
IsListed s = (k : ℕ) → count k (get_active_peers s) ≡ (if contains k s.peer_addresses then 1 else 0)

-- Adding a peer, known or not, keeps the list and the addresses in step.
pub add_peer-IsListed :
    (k : ℕ) (address : Text) (s : P2PProtocol) → IsListed s → IsListed (add_peer k address s)
unfolding add_peer get_active_peers
add_peer-IsListed k address s h j = ground (
  arith,
  h j,
  h k,
  ==_iff k j,
  count-append j s.peers (k ∷ []),
  contains-insert k j address s.peer_addresses,
)

-- The first address that is added for a peer stays, and no other peer's address changes.
pub get_peer_address-add_peer :
    (k j : ℕ) (address : Text) (s : P2PProtocol)
    → get_peer_address j (add_peer k address s)
      ≡ (if k == j && not (contains k s.peer_addresses) then address else get_peer_address j s)
unfolding get_peer_address add_peer
get_peer_address-add_peer k j address s =
    ground (arith, ==_iff k j, lookup-insert k j address s.peer_addresses)
