-- ===== src/Main/Loop.antt =====
-- What a round of the loop would do to the chain.
use synledger_core.Block.{Block}
use synledger_core.Block.Transactions.{IsHashed}
use synledger_core.Ledger.{Ledger, back_hash, add_block, get_latest_block}
use synledger_core.Ledger.Chain.{IsValid}
use synledger_core.Ledger.Validation.{validate_chain-IsValid}
use synledger_core.Main.{extend_chain}
use synledger_core.Network.Peers.{P2PProtocol}
use synledger_core.Network.Sockets.{Answers}
use synledger_core.Platform.{Platform}
use synledger_core.Prelude.{
  last_or, All, invalid_argument, err, codes, text_eq_iff, ◌≡◌, ◌∙◌, ◌≢◌, Option, none, some, List,
  [], ◌∷◌, arith,
}

module _ {D : Type 0} ⦃p : Platform D⦄ where
  latest-tip :
      (l : Ledger D) (b : Block D)
      → IsValid l
      → get_latest_block l ≡ some b
      → l.current_chain_tip_hash ≡ b.block_hash
  unfolding get_latest_block
  latest-tip l b v e = v.tip ∙ by_chain l.chain e
    where
      by_chain :
          (bs : List (Block D))
          → elim bs as (λ x. Option (Block D)) [ [] ↦ none | c ∷ cs ↦ some (last_or c cs) ] ≡ some b
          → back_hash bs ≡ b.block_hash
      by_chain [] h = cc
      by_chain (c ∷ cs) h = ground arith

  -- A round adds a copy of the latest block. On a valid ledger whose blocks carry their own hashes it
  -- throws, unless that block names itself as its predecessor.
  pub extend_chain-throws :
      (os : Answers) (protocol : P2PProtocol) (l : Ledger D) (b : Block D)
      → IsValid l
      → All IsHashed l.chain
      → get_latest_block l ≡ some b
      → b.previous_block_hash ≢ b.block_hash
      → extend_chain os protocol l
        ≡ err (invalid_argument (codes "Block does not fit the current chain tip!"))
  unfolding extend_chain add_block
  extend_chain-throws os protocol l b v h e distinct =
      let tip = latest-tip l b v e in
      rw (e, validate_chain-IsValid l v h, extend_chain)
        (ground (arith, tip, text_eq_iff b.previous_block_hash l.current_chain_tip_hash))
