-- ===== src/Examples/MainRuns.antt =====
-- The theorems on `main`, applied.
use synledger_core.Double.Fixed.{fixed_double, Fixed}
use synledger_core.Examples.{sample_platform, all_well}
use synledger_core.Main.{returned, main, connect_peers, initialize, connected, unwinding}
use synledger_core.Main.Connecting.{connect_peers-bag}
use synledger_core.Main.Startup.{main-returns_one, Exits}
use synledger_core.Network.Discovery.{
  NodeDiscovery, new_discovery, add_node, discover_nodes, get_known_nodes, get_node_address,
  IsKnownOnce, discover_nodes-IsKnownOnce,
}
use synledger_core.Network.Peers.{new_protocol, get_active_peers, get_peer_address}
use synledger_core.Prelude.{
  invalid_argument, Result, ok, err, Text, codes, ℕ, ◌-◌, ◌≡◌, refl, [], ◌∷◌, nat_eq, text_key,
  contains, insert, if◌then◌else◌, arith, ◌↔◌,
}
use synledger_core.Prelude.Bag.{bag, bag-eq}
use synledger_core.Prelude.Int.{ℤ, pos}

-- Stand-ins for `std::stoul` and `std::stoi` on arguments of one digit.
abbrev one_digit : Text → Result ℕ
one_digit [] = err (invalid_argument (codes "stoul"))
one_digit (c ∷ t) = ok (c - 48)

abbrev one_signed_digit : Text → Result ℤ
one_signed_digit [] = err (invalid_argument (codes "stoi"))
one_signed_digit (c ∷ t) = ok (pos (c - 48))

-- The nodes that the program discovers, walked backwards by node 1.
abbrev found : NodeDiscovery
found = discover_nodes (new_discovery 1 (codes "127.0.0.1"))

main-returns_one_example :
    let outcome =
      main Fixed one_digit one_signed_digit
        (codes "1" ∷ (codes "8" ∷ []))
        3
        all_well
        (pos 7)
        (λ i. 7) in
    (outcome ≡ elim (initialize all_well (new_protocol 1 (codes "127.0.0.1"))) [
      | err e ↦ returned 1
      | ok l ↦ unwinding 1 (connected found l)
    ])
    × (Exits outcome 1 ↔ ◌≡◌ {A = ℕ} 1 1)
main-returns_one_example =
    main-returns_one Fixed one_digit one_signed_digit (codes "1") (codes "8") [] 3 all_well (pos 7)
      (λ i. 7) 1 (pos 8) 1 refl refl

found-IsKnownOnce : IsKnownOnce found
unfolding get_known_nodes contains
found-IsKnownOnce = discover_nodes-IsKnownOnce (new_discovery 1 (codes "127.0.0.1")) (λ i. refl)

backwards : bag (3 ∷ (2 ∷ (1 ∷ []))) ≡ bag (get_known_nodes found)
unfolding get_known_nodes discover_nodes add_node contains insert
backwards = bag-eq (3 ∷ (2 ∷ (1 ∷ []))) (1 ∷ (2 ∷ (3 ∷ []))) (λ i. omega arith)

connect_peers-bag_example :
    let new = connect_peers (3 ∷ (2 ∷ (1 ∷ []))) found (new_protocol 1 (codes "127.0.0.1")) in
    (bag (get_active_peers new) ≡ bag (get_known_nodes found))
    × (get_peer_address 1 new
        ≡ (if contains 1 found.known_nodes then get_node_address 1 found else codes "Unknown"))
connect_peers-bag_example =
    connect_peers-bag (3 ∷ (2 ∷ (1 ∷ []))) found 1 (codes "127.0.0.1") 1 found-IsKnownOnce backwards
