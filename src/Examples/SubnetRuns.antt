-- ===== src/Examples/SubnetRuns.antt =====
-- The theorems on subnets, applied.
use synledger_core.Locks.{
  at_start, goes_on, enters, looks, acts, leaves, Execution, System, all_waiting,
}
use synledger_core.Prelude.{
  count, nat_eq, lookup, insert, out_of_range, Result, ok, err, ℕ, ◌≡◌, refl, inl, none, List, [],
  ◌∷◌,
}
use synledger_core.Prelude.Bag.{bag}
use synledger_core.Subnet.{
  put, find_loop, find_least_loaded_subnet, SubnetManager, new_manager, assign_node_to_subnet,
  get_node_subnet, get_subnet_nodes, rebalance_subnets,
}
use synledger_core.Subnet.Concurrent.{Command, assigning, rebalancing, program_of}
use synledger_core.Subnet.Constructed.{Execution-new_manager}
use synledger_core.Subnet.Start.{here, next, rebalanced, assign_node_to_subnet-throws}

assign_node_to_subnet-throws_example :
    (assign_node_to_subnet 8 (rebalance_subnets (new_manager 5)).0 ≡ err out_of_range)
    × ((subnet_id : ℕ) → get_subnet_nodes subnet_id (rebalance_subnets (new_manager 5)).0 ≡ [])
assign_node_to_subnet-throws_example =
    assign_node_to_subnet-throws 4 8 (next here (rebalanced {s = new_manager 5}))

-- One thread rebalances, another assigns node 8 and enters first, on a manager of no subnets.
abbrev commands : List Command
commands = rebalancing ∷ (assigning 8 ∷ [])

abbrev with_eight : SubnetManager
with_eight = record {
  total_subnets = 0;
  node_to_subnet_map = (8, 0) ∷ [];
  subnet_nodes = (0, 8 ∷ []) ∷ [];
}

abbrev both_done : System SubnetManager (Result (Unit {0})) Command
both_done = record {
  shared = with_eight;
  waiting = [];
  inside = none;
  readers = 0;
  entered = assigning 8 ∷ (rebalancing ∷ []);
  answers = ok tt ∷ (ok tt ∷ []);
}

-- The rebalancing takes the node out of subnet 0, and puts it back.
both_done-Execution : Execution program_of (all_waiting (new_manager 0) commands) both_done
unfolding program_of lookup find_least_loaded_subnet find_loop insert put
both_done-Execution =
    let assigned =
      goes_on
        (goes_on
          (goes_on
            (goes_on (goes_on at_start (enters (rebalancing ∷ []) [] (assigning 8) refl refl refl))
              (looks _ refl))
            (acts _ _ refl))
          (acts _ _ refl))
        (leaves (ok tt) refl) in
    goes_on
      (goes_on
        (goes_on
          (goes_on
            (goes_on
              (goes_on
                (goes_on
                  (goes_on (goes_on assigned (enters [] [] rebalancing refl refl refl))
                    (looks _ refl))
                  (looks _ refl))
                (looks _ refl))
              (acts _ _ refl))
            (looks _ refl))
          (acts _ _ refl))
        (acts _ _ refl))
      (leaves (ok tt) refl)

Execution-new_manager_example :
    (both_done.answers ≡ ok tt ∷ (ok tt ∷ []))
    × (count 8 (get_subnet_nodes 0 with_eight) ≡ 1)
    × (get_node_subnet 8 with_eight ≡ ok 0)
    × (bag (8 ∷ []) ≡ bag (8 ∷ []))
Execution-new_manager_example = Execution-new_manager 0 8 0 commands both_done-Execution (inl refl)
