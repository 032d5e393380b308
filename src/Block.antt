-- ===== src/Block.antt =====
-- `struct Transaction` and `class Block` (include/ledger/block.hpp, src/ledger/block.cpp).
pub mod Signing
pub mod Transactions
pub mod Serialization
use synledger_core.Platform.{Platform}
use synledger_core.Prelude.{
  ◌>>=◌, ℕ, Bool, true, false, List, [], ◌∷◌, ◌++◌, ltb, leb, if◌then◌else◌, length, Text, codes,
  Result, ok, err, invalid_argument,
}
use synledger_core.Prelude.Int.{ℤ, show_int, pos}

pub data TransactionType : Type 0 where
  standard_payment : TransactionType
  governance : TransactionType
  smart_contract_execution : TransactionType
  -- What a cast makes of an `int` that no enumerator has.
  unnamed : ℤ → TransactionType

-- `static_cast<int>(type)`.
abbrev pub type_index : TransactionType → ℤ
type_index standard_payment = pos 0
type_index governance = pos 1
type_index smart_contract_execution = pos 2
type_index (unnamed i) = i

-- `payload` is the source's field `data`.
pub record Transaction (D : Type 0) : Type 0 where
  pub sender : Text
  pub receiver : Text
  pub amount : D
  pub signature : Text
  pub type : TransactionType
  pub payload : Text

pub record Block (D : Type 0) : Type 0 where
  pub block_number : ℕ
  pub previous_block_hash : Text
  pub timestamp : ℤ
  pub transactions : List (Transaction D)
  pub block_hash : Text
  pub validator_signatures : List Text
  pub required_signatures : ℕ

-- `Block(block_number, previous_block_hash, required_signatures)`, at the clock reading `now`.
abbrev pub new_block : {D : Type 0} → ℤ → ℕ → Text → ℕ → Block D
new_block now number previous required = record {
  block_number = number;
  previous_block_hash = previous;
  timestamp = now;
  transactions = [];
  block_hash = [];
  validator_signatures = [];
  required_signatures = required;
}

-- `get_signature_count`.
abbrev pub get_signature_count : {D : Type 0} → Block D → ℕ
get_signature_count b = length b.validator_signatures

-- The block after the call, and the value returned.
unfoldable pub sign_block : {D : Type 0} → Text → Block D → Block D × Bool
sign_block validator_signature b =
    if ltb (length b.validator_signatures) b.required_signatures
    then (
      record b { validator_signatures = b.validator_signatures ++ (validator_signature ∷ []) },
      true,
    )
    else (b, false)

unfoldable pub verify_signatures : {D : Type 0} → Block D → Bool
verify_signatures b = leb b.required_signatures (length b.validator_signatures)

module _ {D : Type 0} ⦃p : Platform D⦄ where
  -- The message that is verified is the sender's own address.
  unfoldable pub verify_transaction : Transaction D → Result Bool
  verify_transaction tx = p.verify_signature tx.sender tx.signature tx.sender

  -- `Transaction::serialize`.
  unfoldable pub serialize : Transaction D → Text
  serialize tx =
      tx.sender
      ++ (b'|'
          ∷ (tx.receiver
              ++ (b'|'
                  ∷ (p.show_double tx.amount
                      ++ (b'|'
                          ∷ (tx.signature
                              ++ (b'|'
                                  ∷ (show_int (type_index tx.type) ++ (b'|' ∷ tx.payload)))))))))

  -- The loop of `calculate_block_hash`.
  unfoldable pub append_transactions : Text → List (Transaction D) → Text
  unfolding serialize
  append_transactions content [] = content
  append_transactions content (tx ∷ txs) = append_transactions (content ++ serialize tx) txs

  -- The value that `calculate_block_hash` returns.
  unfoldable pub content_hash : Block D → Text
  unfolding append_transactions
  content_hash b =
      p.hash (append_transactions (b.previous_block_hash ++ show_int b.timestamp) b.transactions)

  -- `calculate_block_hash`: the method is `const`, and writes the `mutable` field `block_hash`.
  unfoldable pub calculate_block_hash : Block D → Block D
  unfolding content_hash
  calculate_block_hash b = record b { block_hash = content_hash b }

  unfoldable pub add_transaction : Transaction D → Block D → Result (Block D)
  unfolding verify_transaction calculate_block_hash
  add_transaction tx b = verify_transaction tx >>= λ valid.
      if valid
      then ok (calculate_block_hash (record b { transactions = b.transactions ++ (tx ∷ []) }))
      else err (invalid_argument (codes "Invalid transaction signature"))
