-- ===== src/Ledger/Bookkeeping.antt =====
-- Every method keeps the lengths and the difficulties of the forks right.
use synledger_core.Block.{Block, calculate_block_hash}
use synledger_core.Ledger.{
  Ledger, touch, prune_loop, prune_forks, validate_from, validate_blocks, validate_fork,
}
use synledger_core.Ledger.Forks.{IsCounted}
use synledger_core.Ledger.Pruning.{prune_loop-lookup}
use synledger_core.Platform.{Platform}
use synledger_core.Prelude.{
  length, Text, text_eq_iff, text_key, Map, lookup, lookup-insert, sub_size, Option-cases, ℕ, ◌≡◌,
  refl, inl, inr, some, List, [], ◌∷◌, arith, nat_eq,
}

lookup-touch :
    (t u : Text) (m : Map Text ℕ) (n : ℕ) → lookup u m ≡ some n → lookup u (touch t m) ≡ some n
lookup-touch t u m n h = ground (arith, text_eq_iff t u, lookup-insert t u 0 m)

module _ {D : Type 0} where
  prune_loop-lengths :
      (limit : ℕ) (lens : Map Text ℕ) (fs : Map Text (List (Block D))) (u : Text) (n : ℕ)
      → lookup u lens ≡ some n
      → lookup u (prune_loop limit lens fs).0 ≡ some n
  unfolding prune_loop
  prune_loop-lengths limit lens [] u n h = h
  prune_loop-lengths limit lens ((t, f) ∷ fs) u n h =
      prune_loop-lengths limit (touch t lens) fs u n (lookup-touch t u lens n h)

  -- A fork that is left was there before.
  prune_loop-kept :
      (limit : ℕ) (lens : Map Text ℕ) (fs : Map Text (List (Block D))) (u : Text)
      (f : List (Block D))
      → lookup u (prune_loop limit lens fs).1 ≡ some f
      → lookup u fs ≡ some f
  prune_loop-kept limit lens fs u f h = ground (arith, prune_loop-lookup limit lens fs u)

  pub prune_forks-IsCounted : (l : Ledger D) → IsCounted l → IsCounted (prune_forks l)
  unfolding prune_forks
  prune_forks-IsCounted l c u f kept =
      let limit = sub_size l.current_block_number 10 in
      let (lens, diff) = c u f (prune_loop-kept limit l.fork_lengths l.forks u f kept) in
      (prune_loop-lengths limit l.fork_lengths l.forks u (length f) lens, diff)

  module _ ⦃p : Platform D⦄ where
    length-validate_from :
        (b : Block D) (bs : List (Block D)) → length (validate_from b bs).0 ≡ length bs
    unfolding validate_from
    length-validate_from b [] = refl
    length-validate_from b (c ∷ bs) =
        ground (arith, length-validate_from (calculate_block_hash c) bs)

    length-validate_blocks : (bs : List (Block D)) → length (validate_blocks bs).0 ≡ length bs
    unfolding validate_blocks
    length-validate_blocks [] = refl
    length-validate_blocks (b ∷ bs) = omega (arith, length-validate_from b bs)

    pub validate_fork-IsCounted :
        (t : Text) (l : Ledger D) → IsCounted l → IsCounted (validate_fork t l).0
    unfolding validate_fork
    validate_fork-IsCounted t l c = elim (Option-cases (lookup t l.forks)) [
      | inl missing ↦ rw (missing, validate_fork) c
      | inr (fork, found) ↦
          rw (found, validate_fork)
            (λ u f e. ground (
              arith,
              text_eq_iff t u,
              lookup-insert t u (validate_blocks fork).0 l.forks,
              length-validate_blocks fork,
              c u f,
              c t fork,
            ))
    ]
