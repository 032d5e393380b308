-- ===== src/Ledger/Export.antt =====
-- The blocks of a chain, written as text and read back.
use synledger_core.Block.{Block, content_hash, calculate_block_hash}
use synledger_core.Block.Serialization.{
  DoubleReader, Uninitialized, serialize_block, deserialize_block,
}
use synledger_core.Block.Serialization.RoundTrip.{IsListable, deserialize_block-serialize_block}
use synledger_core.Block.Transactions.{IsHashed}
use synledger_core.Ledger.{Ledger}
use synledger_core.Ledger.Chain.{LinkedFrom, Linked, IsValid}
use synledger_core.Platform.{Platform, is_hex_digit, HexHash}
use synledger_core.Prelude.{
  All, size_mod, Text, ◌^◌, ◌<◌, ◌≡◌, some, [], ◌∷◌, ◌∙◌, arith, true, sym, ap, List,
}
use synledger_core.Streams.Fields.{Without}
use synledger_core.Streams.Numbers.{Fits}

hex-Without : (t : Text) → All (λ c. is_hex_digit c ≡ true) t → Without b'|' t
hex-Without [] h = tt
hex-Without (c ∷ t) h = (ground arith, hex-Without t h.1)

-- What the first block names as its predecessor.
abbrev pub oldest_previous : {D : Type 0} → List (Block D) → Text
oldest_previous [] = []
oldest_previous (b ∷ bs) = b.previous_block_hash

module _ {D : Type 0} ⦃p : Platform D⦄ (r : DoubleReader D) (u : Uninitialized D) where
  -- The numbers of a block fit their types, and its transactions can be listed.
  pub record IsWritable (b : Block D) : Type 0 where
    pub number : b.block_number < size_mod
    pub required : b.required_signatures < size_mod
    pub time : Fits (2 ^ 63) b.timestamp
    pub transactions : All (IsListable r) b.transactions

  -- A block that is read back as it was, without its signatures.
  abbrev pub Survives : Block D → Type 0
  Survives b =
      deserialize_block r u (serialize_block b) ≡ some (record b { validator_signatures = [] })

  Survives-block :
      (b : Block D) → IsHashed b → IsWritable b → Without b'|' b.previous_block_hash → Survives b
  unfolding calculate_block_hash content_hash
  Survives-block b hashed w previous =
      deserialize_block-serialize_block r u b w.number w.required w.time previous w.transactions
      ∙ ap (λ x. some (record b { validator_signatures = []; block_hash = x })) (sym hashed)

  module _ (hex : HexHash p) where
    hash-Without : (b : Block D) → IsHashed b → Without b'|' b.block_hash
    unfolding content_hash
    hash-Without b hashed = rw hashed (hex-Without (content_hash b) (hex.hash_digits _))

    Survives-from :
        (previous : Block D) (bs : List (Block D))
        → IsHashed previous
        → LinkedFrom previous bs
        → All IsHashed bs
        → All IsWritable bs
        → All Survives bs
    Survives-from previous [] hashed linked all w = tt
    Survives-from previous (b ∷ bs) hashed linked all w = (
      Survives-block b all.0 w.0 (rw linked.0 (hash-Without previous hashed)),
      Survives-from b bs all.0 linked.1 all.1 w.1,
    )

    -- Where hashes are printed in hexadecimal digits, every block of a valid ledger whose blocks carry
    -- their own hashes and are writable, the first one's previous hash without a `|`, is read back from
    -- its text as it was, hash included, but for its signatures.
    pub chain-Survives :
        (l : Ledger D)
        → IsValid l
        → All IsHashed l.chain
        → All IsWritable l.chain
        → Without b'|' (oldest_previous l.chain)
        → All Survives l.chain
    chain-Survives l v hashed w oldest = go l.chain v.linked hashed w oldest
      where
        go :
            (bs : List (Block D))
            → Linked bs
            → All IsHashed bs
            → All IsWritable bs
            → Without b'|' (oldest_previous bs)
            → All Survives bs
        go [] linked hashed w oldest = tt
        go (b ∷ bs) linked hashed w oldest =
            (Survives-block b hashed.0 w.0 oldest, Survives-from b bs hashed.0 linked hashed.1 w.1)
