-- ===== src/Examples/SerializationRuns.antt =====
-- The theorems on writing and reading blocks, applied to a block with a transaction.
use synledger_core.Block.{Block, new_block, calculate_block_hash, serialize}
use synledger_core.Block.Serialization.{
  DoubleReader, Uninitialized, deserialize_block, serialize_block, type_of,
}
use synledger_core.Block.Serialization.Fields.{Rereads}
use synledger_core.Block.Serialization.RoundTrip.{
  IsListable, deserialize_block-serialize_block, deserialize_block_total,
}
use synledger_core.Block.Transactions.{IsHashed}
use synledger_core.Double.Fixed.{Fixed}
use synledger_core.Examples.{sample_platform, payment}
use synledger_core.Prelude.{
  Text, codes, ◌==◌, not, ◌&&◌, ◌^◌, ℕ, ◌≡◌, refl, some, Bool, true, [], ◌∷◌, arith, show_nat,
}
use synledger_core.Prelude.Int.{pos, negsuc, show_int}
use synledger_core.Streams.{scan_number, stored_signed, sentry}
use synledger_core.Streams.Fields.{Without}

-- Thousandths, read as they are printed.
abbrev pub thousandths : DoubleReader Fixed
thousandths = record {
  scan_double = λ t.
      let (negative, (digits, behind)) = scan_number t in
      let (value, refused) = stored_signed (10 ^ 15) negative digits in (value, refused, behind);
}

-- What happens to be on the stack.
abbrev pub stack : Uninitialized Fixed
stack = record {
  amount = pos 77;
  type = negsuc 4;
  delimiter = 0;
  block_number = 12345;
  required_signatures = 9;
  timestamp = negsuc 0;
}

abbrev full_block : Block Fixed
full_block = record (new_block (pos 9) 2 (codes "##078") 2) {
  transactions = payment ∷ [];
  validator_signatures = codes "v0" ∷ [];
}

unfoldable pub absent : ℕ → Text → Bool
absent d [] = true
absent d (c ∷ t) = not (c == d) && absent d t

pub absent-Without : (d : ℕ) (t : Text) → absent d t ≡ true → Without d t
unfolding absent
absent-Without d [] h = tt
absent-Without d (c ∷ t) h = ground (arith, absent-Without d t)

payment-Rereads : Rereads thousandths payment.amount
unfolding scan_number show_int show_nat sentry
payment-Rereads = record { no_space = λ t. refl; reads = λ t. refl }

previous : Without b'|' (codes "##078")
unfolding absent
previous = absent-Without b'|' (codes "##078") refl

payment-IsListable : IsListable thousandths payment
unfolding absent serialize show_int show_nat type_of
payment-IsListable = (
  record {
    sender = absent-Without b'|' (codes "alice") refl;
    receiver = absent-Without b'|' (codes "bob") refl;
    amount = payment-Rereads;
    signature = absent-Without b'|' (codes "signed") refl;
    type = refl;
    range = omega arith;
    payload = tt;
  },
  absent-Without b'#' (serialize payment) refl,
)

deserialize_block-serialize_block_example :
    deserialize_block thousandths stack (serialize_block full_block)
    ≡ some (calculate_block_hash (record full_block { validator_signatures = [] }))
deserialize_block-serialize_block_example =
    deserialize_block-serialize_block thousandths stack full_block (omega arith) (omega arith)
      (omega arith) previous (payment-IsListable, tt)

deserialize_block_total_example :
    (b : Block Fixed) × (deserialize_block thousandths stack (codes "x|y") ≡ some b)
    × IsHashed b
    × (b.validator_signatures ≡ [])
deserialize_block_total_example = deserialize_block_total thousandths stack (codes "x|y")
