-- ===== src/Ledger/Merkle.antt =====
-- `Ledger::calculate_merkle_root` (src/ledger/ledger.cpp).
pub mod Rounds
pub mod Root
use mathlib.Core.List.{head?}
use synledger_core.Block.{Transaction}
use synledger_core.Platform.{Platform}
use synledger_core.Prelude.{
  length, last_or, ltb, ◌==◌, if◌then◌else◌, Text, ℕ, zero, suc, ◌%◌, Option, none, some, List, [],
  ◌∷◌, ◌++◌, map,
}

module _ {D : Type 0} ⦃p : Platform D⦄ where
  -- The hash of one transaction.
  unfoldable pub leaf_hash : Transaction D → Text
  leaf_hash tx =
      p.hash (tx.sender ++ (tx.receiver ++ (p.to_string_double tx.amount ++ tx.signature)))

-- `hashes`, with the last one once more if their number is odd.
unfoldable pub padded : List Text → List Text
padded [] = []
padded (a ∷ rest) =
    if (length (a ∷ rest) % 2) == 0 then a ∷ rest else (a ∷ rest) ++ (last_or a rest ∷ [])

module _ (hash : Text → Text) where
  -- The `for` loop, on a list of even length.
  unfoldable pub pair_hashes : List Text → List Text
  pair_hashes [] = []
  pair_hashes (a ∷ []) = []
  pair_hashes (a ∷ (b ∷ rest)) = hash (a ++ b) ∷ pair_hashes rest

  -- One round of the `while` loop.
  unfoldable pub merkle_level : List Text → List Text
  merkle_level hashes = pair_hashes (padded hashes)

  -- The `while` loop and `hashes.front()`; `none` is for fuel that runs out.
  unfoldable pub merkle_loop : ℕ → List Text → Option Text
  merkle_loop zero hashes = none
  merkle_loop (suc fuel) hashes =
      let rest = merkle_loop fuel (merkle_level hashes) in
      if ltb 1 (length hashes) then rest else head? hashes

module _ {D : Type 0} ⦃p : Platform D⦄ where
  -- Fuel for one round for each transaction; every round at least halves the hashes, rounded up.
  unfoldable pub calculate_merkle_root : List (Transaction D) → Option Text
  calculate_merkle_root [] = some []
  calculate_merkle_root (tx ∷ txs) =
      merkle_loop p.hash (length (tx ∷ txs)) (map leaf_hash (tx ∷ txs))
