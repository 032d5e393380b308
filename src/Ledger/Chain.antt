-- ===== src/Ledger/Chain.antt =====
-- The state of a ledger whose blocks have only been added and rolled back.
use synledger_core.Block.{Block}
use synledger_core.Ledger.{Ledger, back_hash, add_block, rollback_chain}
use synledger_core.Prelude.{
  ℕ, zero, suc, ◌+◌, ◌-◌, ◌<◌, ◌≡◌, refl, ap, List, [], ◌∷◌, ◌++◌, arith, size_mod, length, take,
  last_or, length-append, length-take, last_or-append, text_eq_iff, ok,
}

-- Each block names the hash of the one before it.
abbrev pub LinkedFrom : {D : Type 0} → Block D → List (Block D) → Type 0
LinkedFrom previous [] = Unit
LinkedFrom previous (b ∷ bs) = (b.previous_block_hash ≡ previous.block_hash) × LinkedFrom b bs

abbrev pub Linked : {D : Type 0} → List (Block D) → Type 0
Linked [] = Unit
Linked (b ∷ bs) = LinkedFrom b bs

-- The chain is linked and not empty, the height counts the blocks after the first, and the tip is the
-- hash of the last block.
pub record IsValid {D : Type 0} (l : Ledger D) : Type 0 where
  pub height : length l.chain ≡ l.current_block_number + 1
  pub tip : l.current_chain_tip_hash ≡ back_hash l.chain
  pub linked : Linked l.chain

module _ {D : Type 0} where
  LinkedFrom-append :
      (b : Block D) (bs : List (Block D)) (new : Block D)
      → LinkedFrom b bs
      → new.previous_block_hash ≡ (last_or b bs).block_hash
      → LinkedFrom b (bs ++ (new ∷ []))
  LinkedFrom-append b [] new h e = (e, tt)
  LinkedFrom-append b (c ∷ cs) new h e = (h.0, LinkedFrom-append c cs new h.1 e)

  LinkedFrom-take :
      (n : ℕ) (b : Block D) (bs : List (Block D)) → LinkedFrom b bs → LinkedFrom b (take n bs)
  LinkedFrom-take zero b bs h = tt
  LinkedFrom-take (suc n) b [] h = tt
  LinkedFrom-take (suc n) b (c ∷ cs) h = (h.0, LinkedFrom-take n c cs h.1)

  Linked-take : (n : ℕ) (bs : List (Block D)) → Linked bs → Linked (take n bs)
  Linked-take zero bs h = tt
  Linked-take (suc n) [] h = tt
  Linked-take (suc n) (b ∷ bs) h = LinkedFrom-take n b bs h

  Linked-append :
      (bs : List (Block D)) (new : Block D)
      → 0 < length bs
      → Linked bs
      → new.previous_block_hash ≡ back_hash bs
      → Linked (bs ++ (new ∷ []))
  Linked-append [] new p h e = absurd (omega arith)
  Linked-append (b ∷ bs) new p h e = LinkedFrom-append b bs new h e

  back_hash-append :
      (bs : List (Block D)) (new : Block D) → back_hash (bs ++ (new ∷ [])) ≡ new.block_hash
  back_hash-append [] new = refl
  back_hash-append (b ∷ bs) new = ap (λ c. c.block_hash) (last_or-append b bs new)

  -- A block that a valid ledger accepts goes to the end of the chain, and the ledger stays valid, where
  -- `size_t` has room for the new height.
  pub add_block-IsValid :
      (block : Block D) (l : Ledger D) {new : Ledger D}
      → IsValid l
      → l.current_block_number + 1 < size_mod
      → add_block block l ≡ ok new
      → IsValid new × (new.chain ≡ l.chain ++ (block ∷ []))
  unfolding add_block
  add_block-IsValid block l v room e = ground (
    arith,
    text_eq_iff block.previous_block_hash l.current_chain_tip_hash,
    length-append l.chain (block ∷ []),
    back_hash-append l.chain block,
    Linked-append l.chain block,
    v.height,
    v.tip,
    v.linked,
  )

  -- A rollback of fewer blocks than the chain has keeps the ledger valid.
  pub rollback_chain-IsValid :
      (n : ℕ) (l : Ledger D)
      → IsValid l
      → l.current_block_number < size_mod
      → IsValid (rollback_chain n l).0
  unfolding rollback_chain
  rollback_chain-IsValid n l v room =
      ground
        (arith, length-take (length l.chain - n) l.chain, Linked-take (length l.chain - n) l.chain)
