-- ===== src/Subnet.antt =====
-- `class SubnetManager` (include/subnet/subnet_manager.hpp, src/subnet/subnet_manager.cpp). Every method
-- holds the mutex from end to end, so a call is one step.
pub mod Nodes
pub mod Start
pub mod Concurrent
pub mod Constructed
use synledger_core.Prelude.{
  length, last_or, nat_eq, Map, lookup, insert, runtime_error, out_of_range, Result, ok, err, ltb,
  ◌==◌, if◌then◌else◌, size_mod, codes, ℕ, zero, suc, ◌+◌, ◌-◌, none, some, List, [], ◌∷◌, ◌++◌,
  map, ◌>>=◌,
}

pub record SubnetManager : Type 0 where
  pub total_subnets : ℕ
  pub node_to_subnet_map : Map ℕ ℕ
  pub subnet_nodes : Map ℕ (List ℕ)

-- `SubnetManager(total_subnets)`.
abbrev pub new_manager : ℕ → SubnetManager
new_manager total_subnets = record {
  total_subnets = total_subnets;
  node_to_subnet_map = [];
  subnet_nodes = [];
}

-- `m[k] = nodes` where keys are walked in order: a new key goes before the first larger one.
unfoldable pub put : ℕ → List ℕ → Map ℕ (List ℕ) → Map ℕ (List ℕ)
put k nodes [] = (k, nodes) ∷ []
put k nodes ((j, v) ∷ m) =
    if j == k
    then (k, nodes) ∷ m
    else if ltb k j
    then (k, nodes) ∷ ((j, v) ∷ m)
    else (j, v) ∷ put k nodes m

-- `m[k]` for reading: an empty vector where there is none.
abbrev pub nodes_at : ℕ → Map ℕ (List ℕ) → List ℕ
nodes_at k m = elim (lookup k m) [ none ↦ [] | some nodes ↦ nodes ]

-- The loop of `find_least_loaded_subnet` from `subnet_id` on, with `rounds` to go; `at` may throw.
unfoldable pub find_loop : ℕ → ℕ → ℕ → ℕ → Map ℕ (List ℕ) → Result ℕ
find_loop zero subnet_id least min_size m = ok least
find_loop (suc rounds) subnet_id least min_size m = elim (lookup subnet_id m) [
  | none ↦ err out_of_range
  | some nodes ↦
      let smaller = ltb (length nodes) min_size in
      find_loop rounds (subnet_id + 1) (if smaller then subnet_id else least)
        (if smaller then length nodes else min_size) m
]

unfoldable pub find_least_loaded_subnet : SubnetManager → Result ℕ
find_least_loaded_subnet s = find_loop s.total_subnets 0 0 (size_mod - 1) s.subnet_nodes

-- `subnet_nodes[subnet].push_back(node_id)` and `node_to_subnet_map[node_id] = subnet`.
unfoldable pub place : ℕ → ℕ → SubnetManager → SubnetManager
place node_id subnet s = record s {
  node_to_subnet_map = insert node_id subnet s.node_to_subnet_map;
  subnet_nodes = put subnet (nodes_at subnet s.subnet_nodes ++ (node_id ∷ [])) s.subnet_nodes;
}

-- The search comes first, so a call that throws has changed nothing.
unfoldable pub assign_node_to_subnet : ℕ → SubnetManager → Result SubnetManager
assign_node_to_subnet node_id s =
    find_least_loaded_subnet s >>= λ least_loaded_subnet. ok (place node_id least_loaded_subnet s)

unfoldable pub get_node_subnet : ℕ → SubnetManager → Result ℕ
get_node_subnet node_id s = elim (lookup node_id s.node_to_subnet_map) [
  | none ↦ err (runtime_error (codes "Node not found in any subnet"))
  | some subnet ↦ ok subnet
]

unfoldable pub get_subnet_nodes : ℕ → SubnetManager → List ℕ
get_subnet_nodes subnet_id s = nodes_at subnet_id s.subnet_nodes

-- All but the last element: `pop_back`.
abbrev pub pop_back : List ℕ → List ℕ
pop_back [] = []
pop_back (x ∷ []) = []
pop_back (x ∷ (y ∷ xs)) = x ∷ pop_back (y ∷ xs)

-- One round of the inner loop of `rebalance_subnets`, with `nodes` the vector of `subnet_id`. The node
-- is taken out before the search, so a search that throws loses it; the state comes back either way.
unfoldable pub move_one : ℕ → SubnetManager → SubnetManager × Result (Unit {0})
move_one subnet_id s = elim (nodes_at subnet_id s.subnet_nodes) [
  | [] ↦ (s, ok tt)
  | x ∷ xs ↦
      let taken : SubnetManager = record s {
        subnet_nodes = put subnet_id (pop_back (x ∷ xs)) s.subnet_nodes;
      } in
      elim (find_least_loaded_subnet taken) [
        | err e ↦ (taken, err e)
        | ok new_subnet ↦ (place (last_or x xs) new_subnet taken, ok tt)
      ]
]

unfoldable pub move_excess : ℕ → ℕ → SubnetManager → SubnetManager × Result (Unit {0})
move_excess zero subnet_id s = (s, ok tt)
move_excess (suc excess) subnet_id s =
    let (moved, r) = move_one subnet_id s in
    elim r [ err e ↦ (moved, err e) | ok _ ↦ move_excess excess subnet_id moved ]

-- The outer loop, over the keys in order.
unfoldable pub rebalance_keys : List ℕ → SubnetManager → SubnetManager × Result (Unit {0})
rebalance_keys [] s = (s, ok tt)
rebalance_keys (subnet_id ∷ rest) s =
    let size = length (nodes_at subnet_id s.subnet_nodes) in
    let (moved, r) =
      move_excess (if ltb s.total_subnets size then size - s.total_subnets else 0) subnet_id s in
    elim r [ err e ↦ (moved, err e) | ok _ ↦ rebalance_keys rest moved ]

unfoldable pub rebalance_subnets : SubnetManager → SubnetManager × Result (Unit {0})
rebalance_subnets s = rebalance_keys (map (λ entry. entry.0) s.subnet_nodes) s
