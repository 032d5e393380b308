-- ===== src/Ledger/Merkle/Root.antt =====
-- The Merkle root of a block's transactions.
use mathlib.Core.List.{map-append}
use synledger_core.Block.{Transaction}
use synledger_core.Ledger.Merkle.{merkle_loop, leaf_hash, calculate_merkle_root}
use synledger_core.Ledger.Merkle.Rounds.{
  power_pos, merkle_level_doubled, merkle_loop_step, merkle_loop_total, merkle_loop_fuel,
  merkle_loop-append,
}
use synledger_core.Platform.{Platform}
use synledger_core.Prelude.{
  length, last_or, length-append, Text, ℕ, suc, ◌+◌, ◌%◌, ◌^◌, ◌≤◌, ◌<◌, ◌≡◌, refl, ap, some, List,
  [], ◌∷◌, ◌++◌, arith, sym, ◌∙◌, length-map, map,
}

module _ {D : Type 0} ⦃p : Platform D⦄ where
  -- A root is computed for every list of transactions: the loop ends within its fuel.
  pub calculate_merkle_root-total :
      (txs : List (Transaction D)) → (r : Text) × (calculate_merkle_root txs ≡ some r)
  unfolding calculate_merkle_root
  calculate_merkle_root-total [] = ([], refl)
  calculate_merkle_root-total (tx ∷ txs) =
      merkle_loop_total p.hash (length (tx ∷ txs)) (map leaf_hash (tx ∷ txs)) (omega arith)
        (omega (arith, length-map leaf_hash (tx ∷ txs)))

  calculate_merkle_root-eq-loop :
      (f : ℕ) (txs : List (Transaction D))
      → 0 < length txs
      → length txs ≤ f
      → calculate_merkle_root txs ≡ merkle_loop p.hash f (map leaf_hash txs)
  unfolding calculate_merkle_root
  calculate_merkle_root-eq-loop f [] h k = absurd (omega arith)
  calculate_merkle_root-eq-loop f (tx ∷ txs) h k =
      merkle_loop_fuel p.hash (length (tx ∷ txs)) f (map leaf_hash (tx ∷ txs))
        (omega (arith, length-map leaf_hash (tx ∷ txs)))
        (omega (arith, length-map leaf_hash (tx ∷ txs))) (omega arith)

  -- The root over two lists of 2^k transactions each, one after the other, is the hash of their two
  -- roots joined.
  pub calculate_merkle_root-append :
      (k : ℕ) (xs ys : List (Transaction D)) (x y : Text)
      → length xs ≡ 2 ^ k
      → length ys ≡ 2 ^ k
      → calculate_merkle_root xs ≡ some x
      → calculate_merkle_root ys ≡ some y
      → calculate_merkle_root (xs ++ ys) ≡ some (p.hash (x ++ y))
  calculate_merkle_root-append k xs ys x y ex ey hx hy =
      let f = length xs + length ys in
      calculate_merkle_root-eq-loop (suc f) (xs ++ ys)
        (omega (arith, power_pos k, length-append xs ys)) (omega (arith, length-append xs ys))
      ∙ ap (merkle_loop p.hash (suc f)) (map-append leaf_hash xs ys)
      ∙ merkle_loop-append p.hash k f (map leaf_hash xs) (map leaf_hash ys) x y
          (length-map leaf_hash xs ∙ ex) (length-map leaf_hash ys ∙ ey)
          (sym (calculate_merkle_root-eq-loop f xs (omega (arith, power_pos k)) (omega arith)) ∙ hx)
          (sym (calculate_merkle_root-eq-loop f ys (omega (arith, power_pos k)) (omega arith)) ∙ hy)

  last_or-map :
      (tx : Transaction D) (txs : List (Transaction D))
      → last_or (leaf_hash tx) (map leaf_hash txs) ≡ leaf_hash (last_or tx txs)
  last_or-map tx [] = refl
  last_or-map tx (u ∷ us) = last_or-map u us

  -- An odd number of transactions, three or more, has the same root as the list with its last
  -- transaction written twice: the root does not determine the transactions.
  pub calculate_merkle_root-doubled :
      (tx : Transaction D) (txs : List (Transaction D))
      → length (tx ∷ txs) % 2 ≡ 1
      → 1 < length (tx ∷ txs)
      → calculate_merkle_root ((tx ∷ txs) ++ (last_or tx txs ∷ []))
        ≡ calculate_merkle_root (tx ∷ txs)
  calculate_merkle_root-doubled tx txs odd many =
      let hs = map leaf_hash txs in
      let n = length (tx ∷ txs) in
      let same : map leaf_hash ((tx ∷ txs) ++ (last_or tx txs ∷ []))
          ≡ (leaf_hash tx ∷ hs) ++ (last_or (leaf_hash tx) hs ∷ []) =
        map-append leaf_hash (tx ∷ txs) (last_or tx txs ∷ [])
        ∙ ap (λ h. (leaf_hash tx ∷ hs) ++ (h ∷ [])) (sym (last_or-map tx txs)) in
      let len : length (leaf_hash tx ∷ hs) ≡ n = length-map leaf_hash (tx ∷ txs) in
      calculate_merkle_root-eq-loop (suc n) ((tx ∷ txs) ++ (last_or tx txs ∷ [])) (omega arith)
        (omega (arith, length-append (tx ∷ txs) (last_or tx txs ∷ [])))
      ∙ ap (merkle_loop p.hash (suc n)) same
      ∙ merkle_loop_step p.hash n ((leaf_hash tx ∷ hs) ++ (last_or (leaf_hash tx) hs ∷ []))
          (omega (arith, length-append (leaf_hash tx ∷ hs) (last_or (leaf_hash tx) hs ∷ [])))
      ∙ ap (merkle_loop p.hash n) (merkle_level_doubled p.hash (leaf_hash tx) hs (omega arith))
      ∙ sym (merkle_loop_step p.hash n (leaf_hash tx ∷ hs) (omega arith))
      ∙ sym (calculate_merkle_root-eq-loop (suc n) (tx ∷ txs) (omega arith) (omega arith))
