-- ===== src/Ledger/ForkValidation.antt =====
-- `validate_fork`, and the switch to a fork that it has passed.
use synledger_core.Block.{Block, calculate_block_hash}
use synledger_core.Ledger.{Ledger, back_hash, select_fork, validate_fork}
use synledger_core.Ledger.Chain.{Linked, IsValid}
use synledger_core.Ledger.Selection.{select_fork-Linked}
use synledger_core.Ledger.Validation.{rehashed, validate_blocks_iff, validate_blocks-rehashed}
use synledger_core.Platform.{Platform}
use synledger_core.Prelude.{
  text_key, lookup, Text, ◌≡◌, ◌↔◌, true, some, List, ◌∷◌, ◌++◌, nat_eq, insert, lookup-insert_self,
  ap, map,
}

module _ {D : Type 0} ⦃p : Platform D⦄ where
  -- A fork that is there passes exactly when its blocks are linked by their hashes computed afresh, the
  -- first block's cached hash being taken as it is.
  pub validate_fork_iff :
      (t : Text) (l : Ledger D) (fork : List (Block D))
      → lookup t l.forks ≡ some fork
      → ((validate_fork t l).1 ≡ true) ↔ Linked (rehashed fork)
  unfolding validate_fork
  validate_fork_iff t l fork known = rw (known, validate_fork) (validate_blocks_iff fork)

  -- A fork that passes has the hashes computed afresh as its cached hashes afterwards.
  pub validate_fork-rehashed :
      (t : Text) (l : Ledger D) (fork : List (Block D))
      → lookup t l.forks ≡ some fork
      → (validate_fork t l).1 ≡ true
      → (validate_fork t l).0 ≡ record l { forks = insert t (rehashed fork) l.forks }
  unfolding validate_fork
  validate_fork-rehashed t l fork known passes =
      rw (known, validate_fork)
        (ap (λ bs. record l { forks = insert t bs l.forks })
          (validate_blocks-rehashed fork (rw (known, validate_fork) at passes)))

  -- Where the fork of a valid ledger passes `validate_fork` and its first block names the tip, the
  -- switch to it gives a chain that is linked: the old chain followed by the fork, with the hashes after
  -- its first computed afresh.
  pub validate_fork-select_fork :
      (t : Text) (l : Ledger D) (b : Block D) (bs : List (Block D))
      → IsValid l
      → lookup t l.forks ≡ some (b ∷ bs)
      → b.previous_block_hash ≡ l.current_chain_tip_hash
      → (validate_fork t l).1 ≡ true
      → let new = (select_fork t (validate_fork t l).0).0 in
        (new.chain ≡ l.chain ++ rehashed (b ∷ bs))
        × Linked new.chain
        × (new.current_chain_tip_hash ≡ back_hash new.chain)
  validate_fork-select_fork t l b bs v known names passes =
      let checked : Ledger D = record l { forks = insert t (rehashed (b ∷ bs)) l.forks } in
      let linked = (validate_fork_iff t l (b ∷ bs) known).0 passes in
      rw (validate_fork-rehashed t l (b ∷ bs) known passes) (
        select_fork-Linked t checked b (map calculate_block_hash bs)
          (record { height = v.height; tip = v.tip; linked = v.linked })
          (lookup-insert_self t (rehashed (b ∷ bs)) l.forks) linked names)
