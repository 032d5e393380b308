-- ===== src/Ledger/Selection.antt =====
-- Switching to a fork (`select_fork`), and what it does to the height.
use synledger_core.Block.{Block}
use synledger_core.Ledger.{Ledger, back_hash, select_fork}
use synledger_core.Ledger.Chain.{IsValid, LinkedFrom, Linked}
use synledger_core.Prelude.{
  ◌<◌, ◌≡◌, refl, ◌∙◌, inl, inr, true, some, List, [], ◌∷◌, ◌++◌, arith, Option-cases, length,
  last_or, Text, nat_eq, text_key, lookup,
}

module _ {D : Type 0} where
  LinkedFrom-join :
      (a : Block D) (old : List (Block D)) (b : Block D) (bs : List (Block D))
      → LinkedFrom a old
      → b.previous_block_hash ≡ (last_or a old).block_hash
      → LinkedFrom b bs
      → LinkedFrom a (old ++ (b ∷ bs))
  LinkedFrom-join a [] b bs h e k = (e, k)
  LinkedFrom-join a (c ∷ cs) b bs h e k = (h.0, LinkedFrom-join c cs b bs h.1 e k)

  Linked-join :
      (old : List (Block D)) (b : Block D) (bs : List (Block D))
      → 0 < length old
      → Linked old
      → b.previous_block_hash ≡ back_hash old
      → Linked (b ∷ bs)
      → Linked (old ++ (b ∷ bs))
  Linked-join [] b bs p h e k = absurd (omega arith)
  Linked-join (a ∷ old) b bs p h e k = LinkedFrom-join a old b bs h e k

  -- If a fork of a valid ledger has linked blocks, one or more, and its first names the tip, then after
  -- the switch the chain is linked, holds the old chain followed by the fork, and its tip is the hash of the last block.
  pub select_fork-Linked :
      (t : Text) (l : Ledger D) (b : Block D) (bs : List (Block D))
      → IsValid l
      → lookup t l.forks ≡ some (b ∷ bs)
      → Linked (b ∷ bs)
      → b.previous_block_hash ≡ l.current_chain_tip_hash
      → let new = (select_fork t l).0 in
        (new.chain ≡ l.chain ++ (b ∷ bs))
        × Linked new.chain
        × (new.current_chain_tip_hash ≡ back_hash new.chain)
  unfolding select_fork
  select_fork-Linked t l b bs v known k e =
      rw (known, select_fork)
        (refl, Linked-join l.chain b bs (omega (arith, v.height)) v.linked (e ∙ v.tip) k, refl)

  -- After a switch to any fork that is there, linked or not, the height is the number of blocks, one
  -- more than in a valid ledger: the ledger is not valid.
  pub select_fork-height :
      (t : Text) (l : Ledger D)
      → (select_fork t l).1 ≡ true
      → ((select_fork t l).0.current_block_number ≡ length (select_fork t l).0.chain)
        × (¬ IsValid (select_fork t l).0)
  unfolding select_fork
  select_fork-height t l h = elim (Option-cases (lookup t l.forks)) [
    | inl missing ↦ cc (h, missing)
    | inr (f, e) ↦ rw (e, select_fork) (refl, λ v. omega (arith, v.height))
  ]
