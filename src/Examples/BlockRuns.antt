-- ===== src/Examples/BlockRuns.antt =====
-- The theorems on blocks, signatures and Merkle roots, applied.
use synledger_core.Block.{Block, new_block, add_transaction, standard_payment}
use synledger_core.Block.Transactions.{appended, add_transaction-forged}
use synledger_core.Double.Fixed.{Fixed}
use synledger_core.Examples.{sample_platform, payment}
use synledger_core.Ledger.Merkle.{leaf_hash, merkle_loop, calculate_merkle_root}
use synledger_core.Ledger.Merkle.Root.{calculate_merkle_root-append, calculate_merkle_root-doubled}
use synledger_core.Prelude.{
  ok, Text, codes, ◌≡◌, refl, some, [], ◌∷◌, ◌++◌, arith, text_eq, show_nat,
}
use synledger_core.Prelude.Int.{pos, show_int}

abbrev open_block : Block Fixed
open_block = new_block (pos 9) 2 (codes "##078") 2

payment_test : add_transaction payment open_block ≡ ok (appended payment open_block)
unfolding add_transaction text_eq
payment_test = refl

add_transaction-forged_example :
    add_transaction (record payment { receiver = codes "mallory"; amount = pos 9000000 }) open_block
    ≡ ok (appended (record payment { receiver = codes "mallory"; amount = pos 9000000 }) open_block)
add_transaction-forged_example =
    add_transaction-forged payment open_block (codes "mallory") (pos 9000000) standard_payment []
      payment_test

abbrev root_of_one : Text
root_of_one = b'#' ∷ codes "alicebob2500signed"

root_test : calculate_merkle_root (payment ∷ []) ≡ some root_of_one
unfolding calculate_merkle_root merkle_loop leaf_hash show_int show_nat
root_test = refl

calculate_merkle_root-append_example :
    calculate_merkle_root ((payment ∷ []) ++ (payment ∷ []))
    ≡ some (sample_platform.hash (root_of_one ++ root_of_one))
calculate_merkle_root-append_example =
    calculate_merkle_root-append 0 (payment ∷ []) (payment ∷ []) root_of_one root_of_one refl refl
      root_test root_test

calculate_merkle_root-doubled_example :
    calculate_merkle_root (payment ∷ (payment ∷ (payment ∷ (payment ∷ []))))
    ≡ calculate_merkle_root (payment ∷ (payment ∷ (payment ∷ [])))
calculate_merkle_root-doubled_example =
    calculate_merkle_root-doubled payment (payment ∷ (payment ∷ [])) refl (omega arith)
