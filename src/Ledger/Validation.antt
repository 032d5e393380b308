-- ===== src/Ledger/Validation.antt =====
-- What `validate_chain` accepts, and what it does to the cached hashes.
use mathlib.Core.Path.{ap₂, subst}
use synledger_core.Block.{Block, calculate_block_hash, content_hash}
use synledger_core.Block.Transactions.{IsHashed}
use synledger_core.Ledger.{Ledger, validate_from, validate_blocks, validate_chain, back_hash}
use synledger_core.Ledger.Chain.{LinkedFrom, Linked, IsValid}
use synledger_core.Platform.{Platform}
use synledger_core.Prelude.{
  ◌≡◌, refl, ◌↔◌, true, List, [], ◌∷◌, ◌++◌, map, arith, All, Text, text_eq_refl, text_eq_iff,
  last_or, last_or-append, Bool-cases, sym, ap, ◌∙◌, inl, inr,
}

module _ {D : Type 0} ⦃p : Platform D⦄ where
  -- The blocks after the first, with their hashes computed afresh.
  abbrev pub rehashed : List (Block D) → List (Block D)
  rehashed [] = []
  rehashed (b ∷ bs) = b ∷ map calculate_block_hash bs

  -- The blocks with other cached hashes.
  abbrev pub with_hashes : (Block D → Text) → List (Block D) → List (Block D)
  with_hashes f [] = []
  with_hashes f (b ∷ bs) = record b { block_hash = f b } ∷ with_hashes f bs

  validate_from_iff :
      (previous : Block D) (bs : List (Block D))
      → ((validate_from previous bs).1 ≡ true) ↔ LinkedFrom previous (map calculate_block_hash bs)
  unfolding validate_from
  validate_from_iff previous [] = ground arith
  validate_from_iff previous (b ∷ bs) = ground (
    arith,
    text_eq_iff b.previous_block_hash previous.block_hash,
    text_eq_refl (content_hash b),
    validate_from_iff (calculate_block_hash b) bs,
  )

  validate_from-rehashed :
      (previous : Block D) (bs : List (Block D))
      → (validate_from previous bs).1 ≡ true
      → (validate_from previous bs).0 ≡ map calculate_block_hash bs
  unfolding validate_from
  validate_from-rehashed previous [] h = refl
  validate_from-rehashed previous (b ∷ bs) h =
      ground (arith, validate_from-rehashed (calculate_block_hash b) bs)

  pub validate_blocks_iff :
      (bs : List (Block D)) → ((validate_blocks bs).1 ≡ true) ↔ Linked (rehashed bs)
  unfolding validate_blocks
  validate_blocks_iff [] = ground arith
  validate_blocks_iff (b ∷ bs) = validate_from_iff b bs

  pub validate_blocks-rehashed :
      (bs : List (Block D)) → (validate_blocks bs).1 ≡ true → (validate_blocks bs).0 ≡ rehashed bs
  unfolding validate_blocks
  validate_blocks-rehashed [] h = refl
  validate_blocks-rehashed (b ∷ bs) h = ground (arith, validate_from-rehashed b bs)

  -- The chain passes exactly when its blocks are linked by their hashes computed afresh, the first
  -- block's cached hash being taken as it is.
  pub validate_chain_iff :
      (l : Ledger D) → ((validate_chain l).1 ≡ true) ↔ Linked (rehashed l.chain)
  unfolding validate_chain
  validate_chain_iff l = validate_blocks_iff l.chain

  -- A chain that passes has the hashes computed afresh as its cached hashes afterwards.
  pub validate_chain-rehashed :
      (l : Ledger D)
      → (validate_chain l).1 ≡ true
      → (validate_chain l).0 ≡ record l { chain = rehashed l.chain }
  unfolding validate_chain
  validate_chain-rehashed l h =
      ap (λ bs. record l { chain = bs }) (validate_blocks-rehashed l.chain h)

  rehash-IsHashed : (bs : List (Block D)) → All IsHashed bs → map calculate_block_hash bs ≡ bs
  unfolding calculate_block_hash
  rehash-IsHashed [] h = refl
  rehash-IsHashed (b ∷ bs) h = ap₂ (λ x y. x ∷ y) (ground arith) (rehash-IsHashed bs h.1)

  rehashed-IsHashed : (bs : List (Block D)) → All IsHashed bs → rehashed bs ≡ bs
  rehashed-IsHashed [] h = refl
  rehashed-IsHashed (b ∷ bs) h = ap (λ r. b ∷ r) (rehash-IsHashed bs h.1)

  -- A valid ledger whose blocks carry their own hashes passes, and stays as it is.
  pub validate_chain-IsValid :
      (l : Ledger D) → IsValid l → All IsHashed l.chain → validate_chain l ≡ (l, true)
  validate_chain-IsValid l v h =
      let same = rehashed-IsHashed l.chain h in
      let passed = (validate_chain_iff l).1 (rw same v.linked) in
      ap₂ (λ x y. (x, y))
        (validate_chain-rehashed l passed ∙ ap (λ bs. record l { chain = bs }) same) passed

  -- The chain with other cached hashes behind its first block.
  abbrev pub tampered : (Block D → Text) → List (Block D) → List (Block D)
  tampered f [] = []
  tampered f (b ∷ bs) = b ∷ with_hashes f bs

  rehash-with_hashes :
      (f : Block D → Text) (bs : List (Block D))
      → map calculate_block_hash (with_hashes f bs) ≡ map calculate_block_hash bs
  unfolding calculate_block_hash
  rehash-with_hashes f [] = refl
  rehash-with_hashes f (b ∷ bs) = ap (λ r. calculate_block_hash b ∷ r) (rehash-with_hashes f bs)

  rehashed-tampered :
      (f : Block D → Text) (bs : List (Block D)) → rehashed (tampered f bs) ≡ rehashed bs
  rehashed-tampered f [] = refl
  rehashed-tampered f (b ∷ bs) = ap (λ r. b ∷ r) (rehash-with_hashes f bs)

  -- The cached hash of a block after the first plays no part in the verdict: whatever hashes are put
  -- in their place, the chain passes or fails as before.
  pub validate_chain-ignores_cached :
      (l : Ledger D) (f : Block D → Text)
      → (validate_chain (record l { chain = tampered f l.chain })).1 ≡ (validate_chain l).1
  validate_chain-ignores_cached l f =
      let wrong = record l { chain = tampered f l.chain } in
      let same = rw (rehashed-tampered f l.chain) at (validate_chain_iff wrong) in
      let own = (validate_chain_iff l) in
      elim (Bool-cases (validate_chain l).1) [
        | inl pass ↦ same.1 (own.0 pass) ∙ sym pass
        | inr fail ↦ elim (Bool-cases (validate_chain wrong).1) [
          | inl q ↦ cc (own.1 (same.0 q))
          | inr q ↦ q ∙ sym fail
        ]
      ]

  last_or-map :
      (b : Block D) (bs : List (Block D)) (c : Block D)
      → last_or b (map calculate_block_hash (bs ++ (c ∷ []))) ≡ calculate_block_hash c
  last_or-map b [] c = refl
  last_or-map b (d ∷ ds) c = last_or-map (calculate_block_hash d) ds c

  -- Where the last of several blocks carries a hash that is not its own, a chain that passes leaves
  -- the ledger with a tip that is no longer the hash of its last block.
  pub validate_chain-stale_tip :
      (l : Ledger D) (b : Block D) (bs : List (Block D)) (c : Block D)
      → IsValid l
      → l.chain ≡ b ∷ (bs ++ (c ∷ []))
      → ¬ IsHashed c
      → (validate_chain l).1 ≡ true
      → ¬ IsValid (validate_chain l).0
  unfolding calculate_block_hash
  validate_chain-stale_tip l b bs c v e stale passed after =
      let tip : l.current_chain_tip_hash ≡ c.block_hash =
        v.tip ∙ ap back_hash e ∙ ap (λ x. x.block_hash) (last_or-append b bs c) in
      let moved : IsValid (record l { chain = rehashed l.chain }) =
        subst IsValid (validate_chain-rehashed l passed) after in
      let last : l.current_chain_tip_hash ≡ content_hash c =
        moved.tip
        ∙ ap (λ x. back_hash (rehashed x)) e
        ∙ ap (λ x. x.block_hash) (last_or-map b bs c) in
      stale (sym tip ∙ last)
