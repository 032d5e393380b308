-- ===== src/Ledger/Pruning.antt =====
-- Dropping short forks (`prune_forks`).
use synledger_core.Block.{Block}
use synledger_core.Ledger.{value_at, touch, Ledger, prune_loop, prune_forks}
use synledger_core.Prelude.{
  ℕ, ◌-◌, ◌≤◌, ◌<◌, ◌≡◌, none, List, [], ◌∷◌, arith, ltb, if◌then◌else◌, size_mod, sub_size, Text,
  text_eq_iff, nat_eq, text_key, Map, lookup, lookup-insert,
}

value_at-touch : (t u : Text) (m : Map Text ℕ) → value_at u (touch t m) ≡ value_at u m
value_at-touch t u m = ground (arith, text_eq_iff t u, lookup-insert t u 0 m)

module _ {D : Type 0} where
  pub prune_loop-lookup :
      (limit : ℕ) (lens : Map Text ℕ) (fs : Map Text (List (Block D))) (u : Text)
      → lookup u (prune_loop limit lens fs).1
        ≡ (if ltb (value_at u lens) limit then none else lookup u fs)
  unfolding prune_loop lookup
  prune_loop-lookup limit lens [] u = ground arith
  prune_loop-lookup limit lens ((t, f) ∷ fs) u =
      ground (
        arith,
        text_eq_iff t u,
        value_at-touch t u lens,
        prune_loop-lookup limit (touch t lens) fs u,
      )

  -- From height 10 on, and below 2^64, a fork is dropped exactly when its length is below the height less 10.
  pub prune_forks-lookup :
      (l : Ledger D) (u : Text)
      → 10 ≤ l.current_block_number
      → l.current_block_number < size_mod
      → lookup u (prune_forks l).forks ≡ (
          if ltb (value_at u l.fork_lengths) (l.current_block_number - 10)
          then none
          else lookup u l.forks)
  unfolding prune_forks
  prune_forks-lookup l u high room =
      let e : sub_size l.current_block_number 10 ≡ l.current_block_number - 10 = omega arith in
      rw (← e) (prune_loop-lookup (sub_size l.current_block_number 10) l.fork_lengths l.forks u)

  -- Below height 10 the limit wraps around, and every fork of any real length is dropped.
  pub prune_forks-wraps :
      (l : Ledger D) (u : Text)
      → l.current_block_number < 10
      → value_at u l.fork_lengths < size_mod - 10
      → lookup u (prune_forks l).forks ≡ none
  unfolding prune_forks
  prune_forks-wraps l u low short =
      ground
        (arith, prune_loop-lookup (sub_size l.current_block_number 10) l.fork_lengths l.forks u)
