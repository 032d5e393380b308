-- ===== src/Subnet/Concurrent.antt =====
-- The calls that change a manager, from several threads: each holds `subnet_mutex` from end to end, and
-- reads or writes the two maps once at each step.
use synledger_core.Locks.{finish, look, act, exec, Program}
use synledger_core.Prelude.{
  length, last_or, nat_eq, insert, Result, ok, err, ltb, if◌then◌else◌, ℕ, zero, suc, ◌-◌, List, [],
  ◌∷◌, ◌++◌, map, Result-cases, ◌≡◌, refl, ◌∙◌, inl, inr, ◌>>=◌, ap,
}
use synledger_core.Subnet.{
  SubnetManager, place, put, nodes_at, find_least_loaded_subnet, pop_back, assign_node_to_subnet,
  move_one, move_excess, rebalance_subnets, rebalance_keys,
}
use synledger_core.Subnet.Nodes.{List-cases}

-- The calls that change a manager, and a manager after them; a call that throws changes nothing.
pub data Command : Type 0 where
  assigning : ℕ → Command
  rebalancing : Command

abbrev pub or_unchanged : SubnetManager → Result SubnetManager → SubnetManager
or_unchanged s (ok new) = new
or_unchanged s (err e) = s

unfoldable pub carry_out : Command → SubnetManager → SubnetManager
carry_out (assigning node_id) s = or_unchanged s (assign_node_to_subnet node_id s)
carry_out rebalancing s = (rebalance_subnets s).0

-- A call of the manager as a program.
abbrev pub Body : Type 0
Body = Program SubnetManager (Result (Unit {0}))

-- The two writes of a placement, where the search has found a subnet, and then the rest of the call.
unfoldable pub place_then : ℕ → Body → Result ℕ → Body
place_then node_id rest (err e) = finish (err e)
place_then node_id rest (ok subnet) =
    act (λ t. record t { node_to_subnet_map = insert node_id subnet t.node_to_subnet_map })
      (act
        (λ t. record t {
          subnet_nodes =
              put subnet (nodes_at subnet t.subnet_nodes ++ (node_id ∷ [])) t.subnet_nodes;
        })
        rest)

-- `assign_node_to_subnet`.
unfoldable pub assign_program : ℕ → Body
unfolding place_then
assign_program node_id = look λ s. place_then node_id (finish (ok tt)) (find_least_loaded_subnet s)

-- The body of the inner loop of `rebalance_subnets`, on the nodes of the subnet.
unfoldable pub take_then : ℕ → Body → List ℕ → Body
unfolding place_then
take_then subnet_id rest [] = rest
take_then subnet_id rest (x ∷ xs) =
    act (λ t. record t { subnet_nodes = put subnet_id (pop_back (x ∷ xs)) t.subnet_nodes })
      (look λ taken. place_then (last_or x xs) rest (find_least_loaded_subnet taken))

unfoldable pub move_one_then : ℕ → Body → Body
unfolding take_then
move_one_then subnet_id rest =
    look λ s. take_then subnet_id rest (nodes_at subnet_id s.subnet_nodes)

unfoldable pub move_excess_then : ℕ → ℕ → Body → Body
unfolding move_one_then
move_excess_then zero subnet_id rest = rest
move_excess_then (suc excess) subnet_id rest =
    move_one_then subnet_id (move_excess_then excess subnet_id rest)

unfoldable pub rebalance_keys_program : List ℕ → Body
unfolding move_excess_then
rebalance_keys_program [] = finish (ok tt)
rebalance_keys_program (subnet_id ∷ rest) = look λ s.
    let size = length (nodes_at subnet_id s.subnet_nodes) in
    move_excess_then (if ltb s.total_subnets size then size - s.total_subnets else 0) subnet_id
      (rebalance_keys_program rest)

-- `rebalance_subnets`.
unfoldable pub rebalance_program : Body
unfolding rebalance_keys_program
rebalance_program = look λ s. rebalance_keys_program (map (λ entry. entry.0) s.subnet_nodes)

unfoldable pub program_of : Command → Body
unfolding assign_program rebalance_program
program_of (assigning node_id) = assign_program node_id
program_of rebalancing = rebalance_program

-- What a call answers: nothing, or an exception.
abbrev pub answer_of : Result SubnetManager → Result (Unit {0})
answer_of (ok new) = ok tt
answer_of (err e) = err e

unfoldable pub reply : Command → SubnetManager → Result (Unit {0})
reply (assigning node_id) s = answer_of (assign_node_to_subnet node_id s)
reply rebalancing s = (rebalance_subnets s).1

-- What comes after a part of a call that may have thrown.
abbrev onward :
    SubnetManager × Result (Unit {0})
    → (SubnetManager → SubnetManager × Result (Unit {0}))
    → SubnetManager × Result (Unit {0})
onward (s, ok _) f = f s
onward (s, err e) f = (s, err e)

exec-place_then :
    (x : ℕ) (o : Result ℕ) (s : SubnetManager)
    → exec (place_then x (finish (ok tt)) o) s
      ≡ (let new = o >>= λ r. ok (place x r s) in (or_unchanged s new, answer_of new))
unfolding exec place_then place
exec-place_then x (ok r) s = refl
exec-place_then x (err e) s = refl

exec-move_one_then :
    (k : ℕ) (rest : Body) (s : SubnetManager)
    → exec (move_one_then k rest) s ≡ onward (move_one k s) (exec rest)
unfolding exec move_one_then take_then place_then move_one place
exec-move_one_then k rest s = elim (List-cases (nodes_at k s.subnet_nodes)) [
  | inl gone ↦ ap (λ ns. exec (take_then k rest ns) s) gone ∙ rw (gone, move_one) refl
  | inr (x, xs, there) ↦
      let taken : SubnetManager = record s {
        subnet_nodes = put k (pop_back (x ∷ xs)) s.subnet_nodes;
      } in
      ap (λ ns. exec (take_then k rest ns) s) there
      ∙ elim (Result-cases (find_least_loaded_subnet taken)) [
        | inl (r, found) ↦
            ap (λ o. exec (place_then (last_or x xs) rest o) taken) found
            ∙ rw (there, found, move_one) refl
        | inr (e, thrown) ↦
            ap (λ o. exec (place_then (last_or x xs) rest o) taken) thrown
            ∙ rw (there, thrown, move_one) refl
      ]
]

exec-move_excess_then :
    (n k : ℕ) (rest : Body) (s : SubnetManager)
    → exec (move_excess_then n k rest) s ≡ onward (move_excess n k s) (exec rest)
unfolding exec move_excess_then move_excess
exec-move_excess_then zero k rest s = refl
exec-move_excess_then (suc n) k rest s =
    let moved = (move_one k s).0 in
    exec-move_one_then k (move_excess_then n k rest) s
    ∙ elim (move_one k s).1
        as (λ r.
          onward (moved, r) (exec (move_excess_then n k rest))
          ≡ onward (elim r [ err e ↦ (moved, err e) | ok _ ↦ move_excess n k moved ]) (exec rest)) [
            | ok u ↦ exec-move_excess_then n k rest moved
            | err e ↦ refl
          ]

exec-rebalance_keys_program :
    (keys : List ℕ) (s : SubnetManager)
    → exec (rebalance_keys_program keys) s ≡ rebalance_keys keys s
unfolding exec rebalance_keys_program rebalance_keys
exec-rebalance_keys_program [] s = refl
exec-rebalance_keys_program (k ∷ rest) s =
    let size = length (nodes_at k s.subnet_nodes) in
    let excess = if ltb s.total_subnets size then size - s.total_subnets else 0 in
    let (moved, outcome) = move_excess excess k s in
    exec-move_excess_then excess k (rebalance_keys_program rest) s
    ∙ elim outcome
        as (λ r.
          onward (moved, r) (exec (rebalance_keys_program rest))
          ≡ (elim r [ err e ↦ (moved, err e) | ok _ ↦ rebalance_keys rest moved ])) [
            | ok u ↦ exec-rebalance_keys_program rest moved
            | err e ↦ refl
          ]

-- A call by itself does and answers what the method does.
pub exec-program_of :
    (c : Command) (s : SubnetManager) → exec (program_of c) s ≡ (carry_out c s, reply c s)
unfolding exec program_of assign_program rebalance_program carry_out reply assign_node_to_subnet
    rebalance_subnets
exec-program_of (assigning x) s = exec-place_then x (find_least_loaded_subnet s) s
exec-program_of rebalancing s =
    exec-rebalance_keys_program (map (λ entry. entry.0) s.subnet_nodes) s
