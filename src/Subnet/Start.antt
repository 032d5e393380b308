-- ===== src/Subnet/Start.antt =====
-- What a manager can do from its constructor on.
use synledger_core.Prelude.{nat_eq, lookup, out_of_range, ok, err, ℕ, suc, ◌≡◌, refl, ap, ◌∙◌, []}
use synledger_core.Subnet.{
  SubnetManager, new_manager, find_loop, find_least_loaded_subnet, assign_node_to_subnet,
  get_subnet_nodes, rebalance_keys, rebalance_subnets,
}

-- The entries of `subnet_nodes` are never made for a manager with subnets.
pub data Step : SubnetManager → SubnetManager → Type 0 where
  assigned :
      (node_id : ℕ) {s new : SubnetManager} → assign_node_to_subnet node_id s ≡ ok new → Step s new
  rebalanced : {s : SubnetManager} → Step s (rebalance_subnets s).0

pub data Reach (start : SubnetManager) : SubnetManager → Type 0 where
  here : Reach start start
  next : {s new : SubnetManager} → Reach start s → Step s new → Reach start new

pub assign-new :
    (node_id n : ℕ) → assign_node_to_subnet node_id (new_manager (suc n)) ≡ err out_of_range
unfolding assign_node_to_subnet find_least_loaded_subnet find_loop lookup
assign-new node_id n = refl

pub rebalance-new : (n : ℕ) → rebalance_subnets (new_manager n) ≡ (new_manager n, ok tt)
unfolding rebalance_subnets rebalance_keys
rebalance-new n = refl

Step-new :
    (n : ℕ) {s new : SubnetManager}
    → Step s new
    → s ≡ new_manager (suc n)
    → new ≡ new_manager (suc n)
Step-new n (assigned node_id e) h = cc (h, assign-new node_id n)
Step-new n (rebalanced {s}) h =
    ap (λ r. (rebalance_subnets r).0) h ∙ ap (λ r. r.0) (rebalance-new (suc n))

Reach-new : (n : ℕ) {s : SubnetManager} → Reach (new_manager (suc n)) s → s ≡ new_manager (suc n)
Reach-new n here = refl
Reach-new n (next r st) = Step-new n st (Reach-new n r)

-- A manager that is made with one subnet or more never takes a node: nothing makes its subnets'
-- entries, so the search throws for every node, after any sequence of calls.
pub assign_node_to_subnet-throws :
    (n node_id : ℕ) {s : SubnetManager}
    → Reach (new_manager (suc n)) s
    → (assign_node_to_subnet node_id s ≡ err out_of_range)
      × ((subnet_id : ℕ) → get_subnet_nodes subnet_id s ≡ [])
unfolding get_subnet_nodes lookup
assign_node_to_subnet-throws n node_id r =
    let e = Reach-new n r in
    (ap (assign_node_to_subnet node_id) e ∙ assign-new node_id n, λ subnet_id. rw e refl)
