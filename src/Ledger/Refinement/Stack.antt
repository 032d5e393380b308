-- ===== src/Ledger/Refinement/Stack.antt =====
-- The blocks of a stack, as a chain with the oldest first.
use synledger_core.Block.{Block}
use synledger_core.Ledger.{Ledger, back_hash, get_latest_block}
use synledger_core.Ledger.Refinement.{top_hash, top, drop}
use synledger_core.Prelude.{
  length, take, length-append, take_all, last_or-append, ℕ, zero, suc, ◌-◌, ◌≤◌, ◌<◌, ◌≡◌, refl, ap,
  ◌∙◌, some, List, [], ◌∷◌, ◌++◌, arith,
}

module _ {D : Type 0} where
  -- The chain of a stack: oldest first.
  abbrev pub chain_of : List (Block D) → List (Block D)
  chain_of [] = []
  chain_of (b ∷ bs) = chain_of bs ++ (b ∷ [])

  pub length-chain_of : (bs : List (Block D)) → length (chain_of bs) ≡ length bs
  length-chain_of [] = refl
  length-chain_of (b ∷ bs) = omega (arith, length-append (chain_of bs) (b ∷ []), length-chain_of bs)

  back_hash-push : (bs : List (Block D)) (b : Block D) → back_hash (bs ++ (b ∷ [])) ≡ b.block_hash
  back_hash-push [] b = refl
  back_hash-push (c ∷ cs) b = ap (λ x. x.block_hash) (last_or-append c cs b)

  pub back_hash-chain_of : (bs : List (Block D)) → back_hash (chain_of bs) ≡ top_hash bs
  back_hash-chain_of [] = refl
  back_hash-chain_of (b ∷ bs) = back_hash-push (chain_of bs) b

  take_short : (n : ℕ) (xs ys : List (Block D)) → n ≤ length xs → take n (xs ++ ys) ≡ take n xs
  take_short zero xs ys h = refl
  take_short (suc n) [] ys h = absurd (omega arith)
  take_short (suc n) (x ∷ xs) ys h = ap (λ r. x ∷ r) (take_short n xs ys (omega arith))

  pub take-chain_of :
      (n : ℕ) (bs : List (Block D))
      → n ≤ length bs
      → take (length bs - n) (chain_of bs) ≡ chain_of (drop n bs)
  take-chain_of zero bs h =
      take_all (length bs - 0) (chain_of bs) (omega (arith, length-chain_of bs))
  take-chain_of (suc n) [] h = absurd (omega arith)
  take-chain_of (suc n) (b ∷ bs) h =
      let e : length (b ∷ bs) - suc n ≡ length bs - n = omega arith in
      rw e (
        take_short (length bs - n) (chain_of bs) (b ∷ []) (omega (arith, length-chain_of bs))
        ∙ take-chain_of n bs (omega arith))

  pub length-drop : (n : ℕ) (bs : List (Block D)) → length (drop n bs) ≡ length bs - n
  length-drop zero bs = omega arith
  length-drop (suc n) [] = omega arith
  length-drop (suc n) (b ∷ bs) = omega (arith, length-drop n bs)

  latest-push :
      (bs : List (Block D)) (b : Block D) (l : Ledger D)
      → l.chain ≡ bs ++ (b ∷ [])
      → get_latest_block l ≡ some b
  unfolding get_latest_block
  latest-push [] b l e = rw (e, get_latest_block) refl
  latest-push (c ∷ cs) b l e = rw (e, get_latest_block) (ap some (last_or-append c cs b))

  pub latest-chain_of :
      (bs : List (Block D)) (l : Ledger D)
      → 0 < length bs
      → l.chain ≡ chain_of bs
      → get_latest_block l ≡ top bs
  latest-chain_of [] l h e = absurd (omega arith)
  latest-chain_of (b ∷ bs) l h e = latest-push (chain_of bs) b l e
