-- ===== src/Block/Transactions.antt =====
-- What `Block::add_transaction` accepts, and what it does to the cached hash.
use synledger_core.Block.{
  Block, Transaction, content_hash, calculate_block_hash, add_transaction, verify_transaction,
  TransactionType,
}
use synledger_core.Platform.{Platform}
use synledger_core.Prelude.{◌≡◌, ◌↔◌, true, [], ◌∷◌, ◌++◌, arith, Text, ok}

module _ {D : Type 0} ⦃p : Platform D⦄ where
  -- The cached hash is the hash of the block's present contents.
  abbrev pub IsHashed : Block D → Type 0
  IsHashed b = b.block_hash ≡ content_hash b

  -- The block with the transaction appended and its hash brought up to date.
  abbrev pub appended : Transaction D → Block D → Block D
  appended tx b = calculate_block_hash (record b { transactions = b.transactions ++ (tx ∷ []) })

  -- A transaction is added exactly when its signature verifies. The new block has it at its
  -- end and carries the hash of its new contents.
  pub add_transaction-accepts :
      (tx : Transaction D) (b new : Block D)
      → (add_transaction tx b ≡ ok new)
        ↔ ((verify_transaction tx ≡ ok true) × (new ≡ appended tx b))
  unfolding add_transaction
  add_transaction-accepts tx b new = ground arith

  pub add_transaction-IsHashed :
      (tx : Transaction D) (b : Block D) {new : Block D}
      → add_transaction tx b ≡ ok new
      → IsHashed new
        × (new.transactions ≡ b.transactions ++ (tx ∷ []))
        × (new.validator_signatures ≡ b.validator_signatures)
        × (new.previous_block_hash ≡ b.previous_block_hash)
  unfolding add_transaction content_hash
  add_transaction-IsHashed tx b h = ground arith

  -- Where a transaction is added, so is any other with the same sender and signature: receiver, amount,
  -- type and payload are not covered by the signature.
  pub add_transaction-forged :
      (tx : Transaction D) (b : Block D) (receiver : Text) (amount : D) (type : TransactionType)
      (payload : Text) {new : Block D}
      → add_transaction tx b ≡ ok new
      → let forged = record tx {
        receiver = receiver;
        amount = amount;
        type = type;
        payload = payload;
      } in
        add_transaction forged b ≡ ok (appended forged b)
  unfolding add_transaction
  add_transaction-forged tx b receiver amount type payload h = ground arith
