-- ===== src/Subnet/Nodes.antt =====
-- The lists of nodes in `subnet_nodes`.
use synledger_core.Prelude.{
  last_or, nat_eq, Map, lookup, ◌==◌, if◌then◌else◌, ℕ, ◌≡◌, refl, ap, ◌⊎◌, inl, inr, List, [], ◌∷◌,
  ◌++◌, arith,
}
use synledger_core.Subnet.{put, nodes_at, pop_back}

pub nodes_at-put :
    (k j : ℕ) (nodes : List ℕ) (m : Map ℕ (List ℕ))
    → nodes_at j (put k nodes m) ≡ (if k == j then nodes else nodes_at j m)
unfolding put lookup
nodes_at-put k j nodes [] = ground arith
nodes_at-put k j nodes ((i, v) ∷ m) = ground (arith, nodes_at-put k j nodes m)

pub pop_back-append : (x : ℕ) (xs : List ℕ) → pop_back (x ∷ xs) ++ (last_or x xs ∷ []) ≡ x ∷ xs
pop_back-append x [] = refl
pop_back-append x (y ∷ ys) = ap (λ r. x ∷ r) (pop_back-append y ys)

pub List-cases : (xs : List ℕ) → (xs ≡ []) ⊎ ((x : ℕ) × (ys : List ℕ) × (xs ≡ x ∷ ys))
List-cases [] = inl refl
List-cases (x ∷ ys) = inr (x, ys, refl)
