-- ===== src/Block/Serialization.antt =====
-- `Block::serialize`, `Transaction::deserialize` and `Block::deserialize` (src/ledger/block.cpp).
pub mod Fields
pub mod RoundTrip
use mathlib.Core.Option
use synledger_core.Block.{
  TransactionType, standard_payment, governance, smart_contract_execution, unnamed, Transaction,
  Block, new_block, serialize, calculate_block_hash,
}
use synledger_core.Platform.{Platform}
use synledger_core.Prelude.{
  length, if◌then◌else◌, Text, show_nat, ℕ, zero, suc, ◌^◌, Bool, Option, none, some, List, [], ◌∷◌,
  ◌++◌,
}
use synledger_core.Prelude.Int.{ℤ, pos, eqb_ℤ, show_int}
use synledger_core.Streams.{
  Stream, good_at, is_nil, getline, sentry, read_char, after_number, read_size, read_signed,
}

-- `s >> amount` of a `double`, behind the space: the value that is stored, whether the read fails, and
-- the text that it leaves.
pub record DoubleReader (D : Type 0) : Type 0 where
  pub scan_double : Text → D × Bool × Text

-- What the local variables hold before anything is read into them.
pub record Uninitialized (D : Type 0) : Type 0 where
  pub amount : D
  pub type : ℤ
  pub delimiter : ℕ
  pub block_number : ℕ
  pub required_signatures : ℕ
  pub timestamp : ℤ

unfoldable pub read_double : {D : Type 0} → DoubleReader D → D → Stream → D × Stream
unfolding sentry
read_double r old s =
    let (ready, s') = sentry s in
    let (value, failed, behind) = r.scan_double s'.rest in
    if ready then after_number (value, failed) behind else (old, s')

-- `static_cast<TransactionType>(type)`.
unfoldable pub type_of : ℤ → TransactionType
type_of i =
    if eqb_ℤ i (pos 0)
    then standard_payment
    else if eqb_ℤ i (pos 1)
    then governance
    else if eqb_ℤ i (pos 2)
    then smart_contract_execution
    else unnamed i

module _ {D : Type 0} (r : DoubleReader D) (u : Uninitialized D) where
  -- `Transaction::deserialize`.
  unfoldable pub deserialize_transaction : Text → Transaction D
  unfolding type_of
  deserialize_transaction serialized_transaction =
      let (sender, s1) = getline b'|' [] (good_at serialized_transaction) in
      let (receiver, s2) = getline b'|' [] s1 in
      let (amount, s3) = read_double r u.amount s2 in
      let (delimiter, s4) = read_char u.delimiter s3 in
      let (signature, s5) = getline b'|' [] s4 in
      let (type, s6) = read_signed (2 ^ 31) u.type s5 in
      let (_, s7) = read_char delimiter s6 in
      let (payload, _) = getline b'\n' [] s7 in
      record {
        sender = sender;
        receiver = receiver;
        amount = amount;
        signature = signature;
        type = type_of type;
        payload = payload;
      }

  -- `if (!tx_serialized.empty()) { block.transactions.push_back(…); }`, before the rest of the loop.
  abbrev pub read_one : Text → List (Transaction D) → List (Transaction D)
  read_one line rest = if is_nil line then rest else deserialize_transaction line ∷ rest

  -- The `while` loop; `none` is for fuel that runs out.
  unfoldable pub read_transactions : ℕ → Stream → Option (List (Transaction D))
  read_transactions zero s = none
  read_transactions (suc fuel) s =
      let (line, s') = getline b'#' [] s in
      let rest = Option.map (read_one line) (read_transactions fuel s') in
      if s'.fail then some [] else rest

module _ {D : Type 0} ⦃p : Platform D⦄ where
  -- The loop of `Block::serialize`.
  unfoldable pub serialize_all : List (Transaction D) → Text
  serialize_all [] = []
  serialize_all (tx ∷ txs) = serialize tx ++ (b'#' ∷ serialize_all txs)

  -- `Block::serialize`.
  unfoldable pub serialize_block : Block D → Text
  serialize_block b =
      show_nat b.block_number
      ++ (b'|'
          ∷ (b.previous_block_hash
              ++ (b'|'
                  ∷ (show_int b.timestamp
                      ++ (b'|'
                          ∷ (show_nat b.required_signatures
                              ++ (b'|' ∷ serialize_all b.transactions)))))))

  -- `Block::deserialize` up to its loop: the block so far, and the stream.
  unfoldable pub read_header : Uninitialized D → Text → Block D × Stream
  read_header u serialized_block =
      let (block_number, s1) = read_size u.block_number (good_at serialized_block) in
      let (delimiter, s2) = read_char u.delimiter s1 in
      let (previous_block_hash, s3) = getline b'|' [] s2 in
      let (timestamp, s4) = read_signed (2 ^ 63) u.timestamp s3 in
      let (delimiter', s5) = read_char delimiter s4 in
      let (required_signatures, s6) = read_size u.required_signatures s5 in
      let (_, s7) = read_char delimiter' s6 in
      (new_block timestamp block_number previous_block_hash required_signatures, s7)

  -- `Block::deserialize`. Every line of the loop takes a character at least, so one round for each, and
  -- one to stop, is fuel enough.
  unfoldable pub deserialize_block : DoubleReader D → Uninitialized D → Text → Option (Block D)
  unfolding read_header
  deserialize_block r u serialized_block =
      let (block, s) = read_header u serialized_block in
      Option.map (λ txs. calculate_block_hash (record block { transactions = txs }))
        (read_transactions r u (suc (length s.rest)) s)
