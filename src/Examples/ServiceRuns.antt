-- ===== src/Examples/ServiceRuns.antt =====
-- The theorems on blocks that take laws of `Crypto`, applied to a platform that `Crypto` fills.
use synledger_core.Block.{
  Block, new_block, Transaction, add_transaction, serialize, calculate_block_hash,
}
use synledger_core.Block.Serialization.{type_of}
use synledger_core.Block.Serialization.Fields.{Rereads}
use synledger_core.Block.Serialization.RoundTrip.{IsListable}
use synledger_core.Block.Transactions.{appended, IsHashed}
use synledger_core.Crypto.Service.{
  crypto_platform, crypto-HexHash, signature_of, add_transaction-sign,
}
use synledger_core.Double.Fixed.{Fixed}
use synledger_core.Examples.{payment, first_block, one_block}
use synledger_core.Examples.CryptoRuns.{openssl, openssl-Works, scanner}
use synledger_core.Examples.SerializationRuns.{thousandths, stack, absent, absent-Without}
use synledger_core.Ledger.{Ledger}
use synledger_core.Ledger.Chain.{IsValid}
use synledger_core.Ledger.Export.{oldest_previous, IsWritable, Survives, chain-Survives}
use synledger_core.Platform.{Platform, HexHash}
use synledger_core.Prelude.{ok, codes, ◌≡◌, arith, All, show_nat, refl, [], ◌∷◌, text_eq}
use synledger_core.Prelude.Int.{pos, show_int}
use synledger_core.Streams.{sentry, scan_number}
use synledger_core.Streams.Fields.{Without}

abbrev service : Platform Fixed
service = crypto_platform openssl scanner show_int show_int

service-HexHash : HexHash service
service-HexHash = crypto-HexHash openssl scanner show_int show_int (λ content. (omega arith, tt))

abbrev target : Block Fixed
target = new_block (pos 9) 2 (codes "078") 2

abbrev signed : Transaction Fixed
signed = record payment {
  signature =
      signature_of {D = Fixed} openssl scanner show_int show_int payment.sender (codes "private");
}

add_transaction-sign_example :
    add_transaction ⦃p = service⦄ signed target ≡ ok (appended ⦃p = service⦄ signed target)
unfolding text_eq
add_transaction-sign_example =
    add_transaction-sign openssl scanner show_int show_int payment target (codes "private")
      openssl-Works (omega arith) (omega arith, (omega arith, tt)) (omega arith)

-- A ledger of two blocks, the second with a payment, whose hashes `Crypto` makes.
abbrev start_block : Block Fixed
start_block = calculate_block_hash ⦃p = service⦄ first_block

abbrev paid_block : Block Fixed
paid_block =
    appended ⦃p = service⦄ (record payment { signature = codes "ab05" })
      (new_block (pos 8) 1 start_block.block_hash 2)

abbrev paid : Ledger Fixed
paid = record one_block {
  chain = start_block ∷ (paid_block ∷ []);
  current_block_number = 1;
  current_chain_tip_hash = paid_block.block_hash;
}

paid-IsHashed : All (IsHashed ⦃p = service⦄) paid.chain
unfolding calculate_block_hash
paid-IsHashed = (refl, (refl, tt))

paid-Rereads : Rereads ⦃p = service⦄ thousandths (pos 2500)
unfolding scan_number show_int show_nat sentry
paid-Rereads = record { no_space = λ t. refl; reads = λ t. refl }

paid-IsListable : IsListable ⦃p = service⦄ thousandths (record payment { signature = codes "ab05" })
unfolding absent serialize show_int show_nat type_of
paid-IsListable = (
  record {
    sender = absent-Without b'|' (codes "alice") refl;
    receiver = absent-Without b'|' (codes "bob") refl;
    amount = paid-Rereads;
    signature = absent-Without b'|' (codes "ab05") refl;
    type = refl;
    range = omega arith;
    payload = tt;
  },
  absent-Without b'#' (serialize ⦃p = service⦄ (record payment { signature = codes "ab05" })) refl,
)

paid-IsValid : IsValid paid
unfolding calculate_block_hash
paid-IsValid = record { height = refl; tip = refl; linked = (refl, tt) }

oldest : Without b'|' (oldest_previous paid.chain)
unfolding calculate_block_hash
oldest = (refl, tt)

paid-IsWritable : All (IsWritable ⦃p = service⦄ thousandths stack) paid.chain
unfolding calculate_block_hash
paid-IsWritable = (
  record { number = omega arith; required = omega arith; time = omega arith; transactions = tt },
  (
    record {
      number = omega arith;
      required = omega arith;
      time = omega arith;
      transactions = (paid-IsListable, tt);
    },
    tt,
  ),
)

chain-Survives_example : All (Survives ⦃p = service⦄ thousandths stack) paid.chain
chain-Survives_example =
    chain-Survives ⦃p = service⦄ thousandths stack service-HexHash paid paid-IsValid paid-IsHashed
      paid-IsWritable oldest
