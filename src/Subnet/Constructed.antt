-- ===== src/Subnet/Constructed.antt =====
-- What threads make of a manager, from its constructor on.
-- A manager of no subnets, where the nodes `xs` have been assigned: all of them are in subnet 0.
use mathlib.Core.Path.{subst}
use synledger_core.Locks.{exec, serial, System, Execution, all_waiting}
use synledger_core.Locks.Serial.{Execution-IsSerial, Execution-serial}
use synledger_core.Prelude.{
  length, last_or, count, count-append, nat_eq, lookup, lookup-insert, ok, ltb, if◌then◌else◌,
  ==_iff, ℕ, zero, suc, ◌-◌, ◌≡◌, refl, sym, ap, ◌∙◌, inl, inr, none, some, List, [], ◌∷◌, ◌++◌,
  arith, runtime_error, out_of_range, Result, err, ◌==◌, codes, map, ◌+◌, ◌<◌, ◌⊎◌,
}
use synledger_core.Prelude.Bag.{bag, bag-eq}
use synledger_core.Prelude.Totals.{total-perm}
use synledger_core.Subnet.{
  place, SubnetManager, put, nodes_at, find_loop, find_least_loaded_subnet, pop_back, move_one,
  move_excess, rebalance_keys, new_manager, assign_node_to_subnet, get_node_subnet,
  get_subnet_nodes, rebalance_subnets,
}
use synledger_core.Subnet.Concurrent.{
  Command, assigning, rebalancing, carry_out, program_of, reply, exec-program_of,
}
use synledger_core.Subnet.Nodes.{nodes_at-put, pop_back-append, List-cases}
use synledger_core.Subnet.Start.{assign-new, rebalance-new}

record IsAlone (xs : List ℕ) (s : SubnetManager) : Type 0 where
  total : s.total_subnets ≡ 0
  listed : (a : ℕ) → count a (nodes_at 0 s.subnet_nodes) ≡ count a xs
  empty : (k : ℕ) → nodes_at (suc k) s.subnet_nodes ≡ []
  known : (a : ℕ) → lookup a s.node_to_subnet_map ≡ (if ltb 0 (count a xs) then some 0 else none)

search-alone : (s : SubnetManager) → s.total_subnets ≡ 0 → find_least_loaded_subnet s ≡ ok 0
unfolding find_least_loaded_subnet find_loop
search-alone s e = rw (e, find_least_loaded_subnet) refl

place-IsAlone :
    (x : ℕ) (xs : List ℕ) (s : SubnetManager) → IsAlone xs s → IsAlone (x ∷ xs) (place x 0 s)
unfolding place
place-IsAlone x xs s h =
    let nodes = nodes_at 0 s.subnet_nodes ++ (x ∷ []) in
    record {
      total = h.total;
      listed = λ a. ground (
        arith,
        h.listed a,
        nodes_at-put 0 0 nodes s.subnet_nodes,
        count-append a (nodes_at 0 s.subnet_nodes) (x ∷ []),
      );
      empty = λ k. ground (arith, h.empty k, nodes_at-put 0 (suc k) nodes s.subnet_nodes);
      known = λ a. ground (arith, h.known a, lookup-insert x a 0 s.node_to_subnet_map, ==_iff x a);
    }

-- The last node of subnet 0 is taken out, and put back.
moved-IsAlone :
    (x : ℕ) (rest xs : List ℕ) (s : SubnetManager)
    → nodes_at 0 s.subnet_nodes ≡ x ∷ rest
    → IsAlone xs s
    → IsAlone xs (
        place
          (last_or x rest)
          0
          (record s { subnet_nodes = put 0 (pop_back (x ∷ rest)) s.subnet_nodes }))
unfolding place
moved-IsAlone x rest xs s there h =
    let taken = put 0 (pop_back (x ∷ rest)) s.subnet_nodes in
    let last = last_or x rest in
    let left = nodes_at-put 0 0 (pop_back (x ∷ rest)) s.subnet_nodes in
    let back : (a : ℕ) → count a (nodes_at 0 taken ++ (last ∷ [])) ≡ count a xs = (λ a.
      ap (λ ns. count a (ns ++ (last ∷ []))) left
      ∙ ap (count a) (pop_back-append x rest ∙ sym there)
      ∙ h.listed a) in
    record {
      total = h.total;
      listed =
          λ a. ap (count a) (nodes_at-put 0 0 (nodes_at 0 taken ++ (last ∷ [])) taken) ∙ back a;
      empty = λ k. ground (
        arith,
        h.empty k,
        nodes_at-put 0 (suc k) (nodes_at 0 taken ++ (last ∷ [])) taken,
        nodes_at-put 0 (suc k) (pop_back (x ∷ rest)) s.subnet_nodes,
      );
      known = λ a. ground (
        arith,
        h.known a,
        back a,
        count-append a (nodes_at 0 taken) (last ∷ []),
        lookup-insert last a 0 s.node_to_subnet_map,
        ==_iff last a,
      );
    }

move_one-IsAlone :
    (k : ℕ) (xs : List ℕ) (s : SubnetManager)
    → IsAlone xs s
    → ((move_one k s).1 ≡ ok tt) × IsAlone xs (move_one k s).0
unfolding move_one
move_one-IsAlone (suc k) xs s h = rw (h.empty k, move_one) (refl, h)
move_one-IsAlone zero xs s h = elim (List-cases (nodes_at 0 s.subnet_nodes)) [
  | inl gone ↦ rw (gone, move_one) (refl, h)
  | inr (x, rest, there) ↦
      let taken : SubnetManager = record s {
        subnet_nodes = put 0 (pop_back (x ∷ rest)) s.subnet_nodes;
      } in
      rw (there, search-alone taken h.total, move_one) (refl, moved-IsAlone x rest xs s there h)
]

move_excess-IsAlone :
    (n k : ℕ) (xs : List ℕ) (s : SubnetManager)
    → IsAlone xs s
    → ((move_excess n k s).1 ≡ ok tt) × IsAlone xs (move_excess n k s).0
unfolding move_excess
move_excess-IsAlone zero k xs s h = (refl, h)
move_excess-IsAlone (suc n) k xs s h =
    let (done, one) = move_one-IsAlone k xs s h in
    rw (done, move_excess) (move_excess-IsAlone n k xs (move_one k s).0 one)

rebalance_keys-IsAlone :
    (keys xs : List ℕ) (s : SubnetManager)
    → IsAlone xs s
    → ((rebalance_keys keys s).1 ≡ ok tt) × IsAlone xs (rebalance_keys keys s).0
unfolding rebalance_keys
rebalance_keys-IsAlone [] xs s h = (refl, h)
rebalance_keys-IsAlone (k ∷ keys) xs s h =
    let size = length (nodes_at k s.subnet_nodes) in
    let excess = if ltb s.total_subnets size then size - s.total_subnets else 0 in
    let (done, moved) = move_excess-IsAlone excess k xs s h in
    rw (done, rebalance_keys) (rebalance_keys-IsAlone keys xs (move_excess excess k s).0 moved)

IsAlone-reordered :
    (xs ys : List ℕ) (s : SubnetManager)
    → ((a : ℕ) → count a xs ≡ count a ys)
    → IsAlone xs s
    → IsAlone ys s
IsAlone-reordered xs ys s same h = record {
  total = h.total;
  listed = λ a. h.listed a ∙ same a;
  empty = h.empty;
  known = λ a. h.known a ∙ ap (λ n. if ltb 0 n then some 0 else none) (same a);
}

-- The nodes that the calls assign.
abbrev pub arrivals : List Command → List ℕ
arrivals [] = []
arrivals (assigning node_id ∷ cs) = node_id ∷ arrivals cs
arrivals (rebalancing ∷ cs) = arrivals cs

-- What a call answers on a manager that was made with `n` subnets, and the nodes that the calls leave in it.
abbrev pub answer_by : ℕ → Command → Result (Unit {0})
answer_by zero c = ok tt
answer_by (suc n) (assigning node_id) = err out_of_range
answer_by (suc n) rebalancing = ok tt

abbrev pub taken_in : ℕ → List Command → List ℕ
taken_in zero cs = arrivals cs
taken_in (suc n) cs = []

serial-IsAlone :
    (cs : List Command) (xs : List ℕ) (s : SubnetManager)
    → IsAlone xs s
    → IsAlone (arrivals cs ++ xs) (serial program_of cs s).0
      × ((serial program_of cs s).1 ≡ map (answer_by 0) cs)
unfolding serial carry_out reply assign_node_to_subnet rebalance_subnets
serial-IsAlone [] xs s h = (h, refl)
serial-IsAlone (assigning x ∷ cs) xs s h =
    let search = search-alone s h.total in
    let one : exec (program_of (assigning x)) s ≡ (place x 0 s, ok tt) =
      exec-program_of (assigning x) s ∙ rw (search, assign_node_to_subnet) refl in
    let (rest, answers) = serial-IsAlone cs (x ∷ xs) (place x 0 s) (place-IsAlone x xs s h) in
    rw one (
      IsAlone-reordered (arrivals cs ++ (x ∷ xs)) (x ∷ (arrivals cs ++ xs))
          (serial program_of cs (place x 0 s)).0
          (λ a.
            omega (arith, count-append a (arrivals cs) (x ∷ xs), count-append a (arrivals cs) xs))
          rest,
      ap (λ rs. ok tt ∷ rs) answers,
    )
serial-IsAlone (rebalancing ∷ cs) xs s h =
    let (done, kept) = rebalance_keys-IsAlone (map (λ entry. entry.0) s.subnet_nodes) xs s h in
    let one : exec (program_of rebalancing) s ≡ ((rebalance_subnets s).0, ok tt) =
      exec-program_of rebalancing s ∙ ap (λ r. ((rebalance_subnets s).0, r)) done in
    let (rest, answers) = serial-IsAlone cs xs (rebalance_subnets s).0 kept in
    rw one (rest, ap (λ rs. ok tt ∷ rs) answers)

-- A manager that is made with subnets stays as it is made.
serial-stays :
    (n : ℕ) (cs : List Command)
    → serial program_of cs (new_manager (suc n)) ≡ (new_manager (suc n), map (answer_by (suc n)) cs)
unfolding serial carry_out reply
serial-stays n [] = refl
serial-stays n (assigning x ∷ cs) =
    let one : exec (program_of (assigning x)) (new_manager (suc n))
        ≡ (new_manager (suc n), err out_of_range) =
      exec-program_of (assigning x) (new_manager (suc n)) ∙ rw (assign-new x n) refl in
    rw one (ap (λ r. (r.0, err out_of_range ∷ r.1)) (serial-stays n cs))
serial-stays n (rebalancing ∷ cs) =
    let one : exec (program_of rebalancing) (new_manager (suc n)) ≡ (new_manager (suc n), ok tt) =
      exec-program_of rebalancing (new_manager (suc n)) ∙ rebalance-new (suc n) in
    rw one (ap (λ r. (r.0, ok tt ∷ r.1)) (serial-stays n cs))

new_manager-IsAlone : IsAlone [] (new_manager 0)
unfolding lookup
new_manager-IsAlone = record {
  total = refl;
  listed = λ a. refl;
  empty = λ k. refl;
  known = λ a. refl;
}

-- What is to be seen of a manager that was made with `n` subnets, after calls one after the other.
abbrev IsAs : ℕ → List Command → SubnetManager → ℕ → ℕ → Type 0
IsAs n cs s a k =
    (count a (get_subnet_nodes k s) ≡ (if k == 0 then count a (taken_in n cs) else 0))
    × (get_node_subnet a s ≡ (
        if ltb 0 (count a (taken_in n cs))
        then ok 0
        else err (runtime_error (codes "Node not found in any subnet"))))

IsAlone-IsAs :
    (cs : List Command) (s : SubnetManager) (a k : ℕ)
    → IsAlone (arrivals cs ++ []) s
    → IsAs 0 cs s a k
unfolding get_subnet_nodes get_node_subnet
IsAlone-IsAs cs s a zero h = ground (arith, h.listed a, h.known a, count-append a (arrivals cs) [])
IsAlone-IsAs cs s a (suc k) h =
    ground (arith, h.empty k, h.known a, count-append a (arrivals cs) [])

-- A sequence of calls on a manager that was made with `n` subnets.
serial-IsAs :
    (n : ℕ) (cs : List Command) (a k : ℕ)
    → ((serial program_of cs (new_manager n)).1 ≡ map (answer_by n) cs)
      × IsAs n cs (serial program_of cs (new_manager n)).0 a k
unfolding get_subnet_nodes get_node_subnet lookup
serial-IsAs zero cs a k =
    let (alone, answers) = serial-IsAlone cs [] (new_manager 0) new_manager-IsAlone in
    (answers, IsAlone-IsAs cs (serial program_of cs (new_manager 0)).0 a k alone)
serial-IsAs (suc n) cs a k = rw (serial-stays n cs) (refl, (ground arith, refl))

count-arrivals :
    (a : ℕ) (c : Command) (cs : List Command)
    → count a (arrivals (c ∷ cs)) ≡ count a (arrivals (c ∷ [])) + count a (arrivals cs)
count-arrivals a (assigning x) cs = omega arith
count-arrivals a rebalancing cs = omega arith

-- However threads interleave that assign nodes, known or not, and rebalance, on a new manager of any number of
-- subnets, and that read it: when nobody is inside, or somebody reads, the following holds of the calls that
-- have entered. On a manager of no subnets none has thrown, subnet 0 lists each node as often as they assigned
-- it, and it is found there; on any other every assignment has thrown, and no node is listed or found. No other
-- subnet lists any node. The calls that have entered, with those that wait, assign what all calls assign.
pub Execution-new_manager :
    (n a k : ℕ) (calls : List Command) {s : System SubnetManager (Result (Unit {0})) Command}
    → Execution program_of (all_waiting (new_manager n) calls) s
    → (s.inside ≡ none) ⊎ (0 < s.readers)
    → (s.answers ≡ map (answer_by n) s.entered)
      × (count a (get_subnet_nodes k s.shared)
          ≡ (if k == 0 then count a (taken_in n s.entered) else 0))
      × (get_node_subnet a s.shared ≡ (
          if ltb 0 (count a (taken_in n s.entered))
          then ok 0
          else err (runtime_error (codes "Node not found in any subnet"))))
      × (bag (arrivals (s.entered ++ s.waiting)) ≡ bag (arrivals calls))
Execution-new_manager n a k calls {s} r seen =
    let order = (Execution-IsSerial program_of (new_manager n) calls r).order in
    let (answers, seen_so) = serial-IsAs n s.entered a k in
    let same : serial program_of s.entered (new_manager n) ≡ (s.shared, s.answers) =
      Execution-serial program_of (new_manager n) calls r seen in
    let there : IsAs n s.entered s.shared a k =
      subst (λ x. IsAs n s.entered x.0 a k) same seen_so in
    (
      sym (ap (λ x. x.1) same) ∙ answers,
      there.0,
      there.1,
      bag-eq (arrivals (s.entered ++ s.waiting)) (arrivals calls) (λ b.
          total-perm (λ cs. count b (arrivals cs)) (λ c. count b (arrivals (c ∷ [])))
            (count-arrivals b) order),
    )
