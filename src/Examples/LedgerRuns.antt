-- ===== src/Examples/LedgerRuns.antt =====
-- The theorems on the ledger, applied to ledgers of one and two blocks.
use mathlib.Core.Path.{subst}
use synledger_core.Block.{Block, content_hash, new_block}
use synledger_core.Block.Transactions.{IsHashed}
use synledger_core.Double.Fixed.{Fixed}
use synledger_core.Examples.{sample_platform, second_block, third_block, one_block, two_blocks}
use synledger_core.Ledger.{
  Ledger, back_hash, add_block, add_fork_block, rollback_chain, select_fork, new_ledger,
  validate_chain, genesis_block, validate_fork,
}
use synledger_core.Ledger.Behaviour.{
  Request, adding, extending, rolling_back, selecting, validating, validating_fork, pruning,
  asking_fork, asking_chain, serve_all, consult_all,
}
use synledger_core.Ledger.Behaviour.Simulation.{serve_all-new_ledger}
use synledger_core.Ledger.Chain.{Linked, IsValid}
use synledger_core.Ledger.ForkValidation.{validate_fork-select_fork}
use synledger_core.Ledger.Forks.{IsCounted, add_fork_block-IsCounted}
use synledger_core.Ledger.History.{Reach, here, next, added, rolled_back, Reach-IsValid}
use synledger_core.Ledger.Refinement.{
  Call, add, rollback, latest, size, add_fork, prune, mark, is_marked, run, ask_all,
}
use synledger_core.Ledger.Refinement.Simulation.{run-new_ledger}
use synledger_core.Ledger.Validation.{rehashed, validate_chain_iff, validate_chain-IsValid}
use synledger_core.Prelude.{
  text_key, All, nat_eq, lookup, contains, insert, ok, size_mod, codes, text_eq, ◌<◌, ◌≡◌, refl,
  ◌↔◌, true, none, some, [], ◌∷◌, ◌++◌, arith, show_nat, ◌+◌, sym, false, List,
}
use synledger_core.Prelude.Int.{pos, show_int}

new_ledger_test : new_ledger (pos 7) 3 ≡ one_block
unfolding new_ledger show_int show_nat
new_ledger_test = refl

pub two_blocks-IsValid : IsValid two_blocks
two_blocks-IsValid = record { height = refl; tip = refl; linked = (refl, tt) }

one_block-IsValid : IsValid one_block
one_block-IsValid = record { height = refl; tip = refl; linked = tt }

room_for_one : 0 + 1 < size_mod
room_for_one = omega arith

rolled_back_test : rollback_chain 1 two_blocks ≡ (one_block, true)
unfolding rollback_chain
rolled_back_test = refl

grown : Reach one_block two_blocks
unfolding add_block text_eq
grown =
    next
      (next (next here (added second_block {l = one_block} {new = two_blocks} room_for_one refl))
        (rolled_back 1 {l = two_blocks} {new = one_block} (omega arith) rolled_back_test))
      (added second_block {l = one_block} {new = two_blocks} room_for_one refl)

Reach-IsValid_example : IsValid two_blocks
Reach-IsValid_example =
    Reach-IsValid (pos 7) 3 (subst (λ l. Reach l two_blocks) (sym new_ledger_test) grown)

added_test : add_block second_block one_block ≡ ok two_blocks
unfolding add_block text_eq
added_test = refl

validate_chain_iff_example :
    ((validate_chain two_blocks).1 ≡ true) ↔ Linked (rehashed two_blocks.chain)
validate_chain_iff_example = validate_chain_iff two_blocks

pub blocks-IsHashed : All IsHashed two_blocks.chain
unfolding content_hash show_int show_nat
blocks-IsHashed = (refl, (refl, tt))

validate_chain-IsValid_example : validate_chain two_blocks ≡ (two_blocks, true)
validate_chain-IsValid_example =
    validate_chain-IsValid two_blocks two_blocks-IsValid blocks-IsHashed

-- A fork of one block on top of the two.
abbrev forked : Ledger Fixed
forked = record two_blocks {
  forks = (codes "a", third_block ∷ []) ∷ [];
  fork_lengths = (codes "a", 1) ∷ [];
  fork_difficulties = (codes "a", 3) ∷ [];
}

fork_test : add_fork_block (codes "a") third_block two_blocks ≡ forked
unfolding add_fork_block lookup contains insert text_eq
fork_test = refl

forked_lookup : lookup (codes "a") forked.forks ≡ some (third_block ∷ [])
unfolding lookup text_eq
forked_lookup = refl

abbrev switched : Ledger Fixed
switched = (select_fork (codes "a") forked).0

switched_test : (select_fork (codes "a") forked).1 ≡ true
unfolding select_fork lookup text_eq
switched_test = refl

two_blocks-IsCounted : IsCounted two_blocks
unfolding lookup
two_blocks-IsCounted t f h = cc h

add_fork_block-IsCounted_example : IsCounted (add_fork_block (codes "a") third_block two_blocks)
add_fork_block-IsCounted_example =
    add_fork_block-IsCounted (codes "a") third_block two_blocks two_blocks-IsCounted

-- A block is refused, one is added, it is confirmed, marked and taken off again.
abbrev calls : List (Call Fixed)
calls =
    add third_block
    ∷ (add second_block
        ∷ (latest
            ∷ (mark (codes "##078") true
                ∷ (is_marked (codes "##078")
                    ∷ (add_fork (codes "a") third_block ∷ (prune ∷ (rollback 1 ∷ (size ∷ []))))))))

run-new_ledger_example :
    run calls (new_ledger (pos 7) 3)
    ≡ ask_all calls (record { blocks = genesis_block (pos 7) ∷ []; marks = λ h. false })
run-new_ledger_example = run-new_ledger (pos 7) 3 calls (omega arith)

-- A fork of two blocks that goes on from the tip.
abbrev fourth_block : Block Fixed
fourth_block = new_block (pos 10) 3 (codes "###0789") 2

abbrev longer : Ledger Fixed
longer = record two_blocks { forks = (codes "a", third_block ∷ (fourth_block ∷ [])) ∷ [] }

longer_lookup : lookup (codes "a") longer.forks ≡ some (third_block ∷ (fourth_block ∷ []))
unfolding lookup text_eq
longer_lookup = refl

longer_passes : (validate_fork (codes "a") longer).1 ≡ true
unfolding validate_fork lookup text_eq show_int show_nat
longer_passes = refl

validate_fork-select_fork_example :
    let new = (select_fork (codes "a") (validate_fork (codes "a") longer).0).0 in
    (new.chain ≡ two_blocks.chain ++ rehashed (third_block ∷ (fourth_block ∷ [])))
    × Linked new.chain
    × (new.current_chain_tip_hash ≡ back_hash new.chain)
validate_fork-select_fork_example =
    validate_fork-select_fork (codes "a") longer third_block (fourth_block ∷ [])
      (record { height = refl; tip = refl; linked = (refl, tt) }) longer_lookup refl longer_passes

-- Two forks are opened, the ledger grows and is rolled back, a fork is pruned, checked and taken.
abbrev requests : List (Request Fixed)
requests =
    extending (codes "a") third_block
    ∷ (adding third_block
        ∷ (adding second_block
            ∷ (validating
                ∷ (validating_fork (codes "a")
                    ∷ (rolling_back 1
                        ∷ (extending (codes "b") second_block
                            ∷ (selecting (codes "b")
                                ∷ (pruning ∷ (asking_fork (codes "a") ∷ (asking_chain ∷ []))))))))))

serve_all-new_ledger_example :
    serve_all requests (new_ledger (pos 7) 3)
    ≡ consult_all requests (record {
      chain = genesis_block {D = Fixed} (pos 7) ∷ [];
      height = 0;
      tip = (genesis_block {D = Fixed} (pos 7)).block_hash;
      marks = λ h. false;
      forks = λ t. none;
    })
serve_all-new_ledger_example = serve_all-new_ledger (pos 7) 3 requests
