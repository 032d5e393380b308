-- ===== src/Network/Discovery.antt =====
-- `class NodeDiscovery` (include/network/node_discovery.hpp, src/network/node_discovery.cpp).
use synledger_core.Prelude.{
  nat_eq, text_key, Map, lookup, contains, insert, lookup-insert, ◌==◌, if◌then◌else◌, ==_iff, Text,
  codes, ℕ, ◌≡◌, not, ◌&&◌, ◌||◌, none, some, List, [], map, arith, contains-insert, ap, ◌∙◌, count,
  ◌+◌, ◌∷◌,
}

pub record NodeDiscovery : Type 0 where
  pub node_id : ℕ
  pub network_address : Text
  pub known_nodes : Map ℕ Text

-- `NodeDiscovery(node_id, network_address)`.
abbrev pub new_discovery : ℕ → Text → NodeDiscovery
new_discovery node_id network_address = record {
  node_id = node_id;
  network_address = network_address;
  known_nodes = [];
}

unfoldable pub add_node : ℕ → Text → NodeDiscovery → NodeDiscovery
add_node new_node_id address s =
    if not (contains new_node_id s.known_nodes)
    then record s { known_nodes = insert new_node_id address s.known_nodes }
    else s

unfoldable pub discover_nodes : NodeDiscovery → NodeDiscovery
discover_nodes s =
    add_node 3 (codes "192.168.1.3")
      (add_node 2 (codes "192.168.1.2") (add_node 1 (codes "192.168.1.1") s))

-- The order of an `unordered_map` is not specified; here it is that of insertion.
unfoldable pub get_known_nodes : NodeDiscovery → List ℕ
get_known_nodes s = map (λ node. node.0) s.known_nodes

unfoldable pub get_node_address : ℕ → NodeDiscovery → Text
get_node_address search_node_id s = elim (lookup search_node_id s.known_nodes) [
  | none ↦ codes "Unknown node"
  | some address ↦ address
]

-- The first address that is added for a node stays; a call for a known node changes nothing.
pub get_node_address-add_node :
    (k j : ℕ) (address : Text) (s : NodeDiscovery)
    → get_node_address j (add_node k address s)
      ≡ (if k == j && not (contains k s.known_nodes) then address else get_node_address j s)
unfolding get_node_address add_node
get_node_address-add_node k j address s =
    ground (arith, ==_iff k j, lookup-insert k j address s.known_nodes)

contains-add_node :
    (k j : ℕ) (address : Text) (s : NodeDiscovery)
    → contains j (add_node k address s).known_nodes ≡ (k == j || contains j s.known_nodes)
unfolding add_node
contains-add_node k j address s =
    ground (arith, ==_iff k j, contains-insert k j address s.known_nodes)

-- After a discovery the nodes 1, 2 and 3 are known beside those that were, and no others.
pub discover_nodes-contains :
    (j : ℕ) (s : NodeDiscovery)
    → contains j (discover_nodes s).known_nodes
      ≡ (3 == j || (2 == j || (1 == j || contains j s.known_nodes)))
unfolding discover_nodes
discover_nodes-contains j s =
    let first = add_node 1 (codes "192.168.1.1") s in
    let second = add_node 2 (codes "192.168.1.2") first in
    contains-add_node 3 j (codes "192.168.1.3") second
    ∙ ap (λ b. 3 == j || b)
        (contains-add_node 2 j (codes "192.168.1.2") first
          ∙ ap (λ b. 2 == j || b) (contains-add_node 1 j (codes "192.168.1.1") s))

-- Every known node is listed once, and no other.
abbrev pub IsKnownOnce : NodeDiscovery → Type 0
IsKnownOnce s = (i : ℕ) → count i (get_known_nodes s) ≡ (if contains i s.known_nodes then 1 else 0)

count-insert :
    (k i : ℕ) (address : Text) (m : Map ℕ Text)
    → count i (map (λ node. node.0) (insert k address m))
      ≡ (if contains k m then 0 else if k == i then 1 else 0) + count i (map (λ node. node.0) m)
unfolding insert contains
count-insert k i address [] = ground arith
count-insert k i address ((j, a) ∷ m) = ground (arith, count-insert k i address m)

-- Adding a node, known or not, and a discovery keep this.
pub add_node-IsKnownOnce :
    (k : ℕ) (address : Text) (s : NodeDiscovery)
    → IsKnownOnce s
    → IsKnownOnce (add_node k address s)
unfolding add_node get_known_nodes
add_node-IsKnownOnce k address s h i = ground (
  arith,
  h i,
  count-insert k i address s.known_nodes,
  contains-insert k i address s.known_nodes,
  ==_iff k i,
)

pub discover_nodes-IsKnownOnce :
    (s : NodeDiscovery) → IsKnownOnce s → IsKnownOnce (discover_nodes s)
unfolding discover_nodes
discover_nodes-IsKnownOnce s h =
    let first = add_node 1 (codes "192.168.1.1") s in
    let second = add_node 2 (codes "192.168.1.2") first in
    add_node-IsKnownOnce 3 (codes "192.168.1.3") second (
      add_node-IsKnownOnce 2 (codes "192.168.1.2") first
        (add_node-IsKnownOnce 1 (codes "192.168.1.1") s h))
