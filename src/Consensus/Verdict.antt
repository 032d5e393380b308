-- ===== src/Consensus/Verdict.antt =====
-- What `handle_multisig` reports when its rounds are done.
use synledger_core.Block.{Block, verify_signatures}
use synledger_core.Consensus.Multisig.{
  Reach, Collection, start_collection, handle_multisig-count, IsDone,
}
use synledger_core.Prelude.{if◌then◌else◌, leb, Text, codes, ℕ, ◌≡◌, [], ◌++◌, arith, show_nat}

module _ {D : Type 0} where
  abbrev pub block_says : Block D → Text → Text
  block_says b what = codes "Block " ++ (show_nat b.block_number ++ what)

  unfoldable pub verdict : Collection D → Text
  verdict c =
      if verify_signatures c.block_copy
      then block_says c.block_copy (codes " verified with enough signatures.")
      else block_says c.block_copy (codes " does not have enough signatures.")

  -- However the rounds interleave, an unsigned block is reported as verified exactly when there are as
  -- many validators as it needs signatures.
  pub verdict_lem :
      (n : ℕ) (b : Block D) {c : Collection D}
      → b.validator_signatures ≡ []
      → Reach (start_collection n b) c
      → IsDone c
      → verdict c
        ≡ block_says c.block_copy (
            if leb b.required_signatures n
            then codes " verified with enough signatures."
            else codes " does not have enough signatures.")
  unfolding verdict
  verdict_lem n b unsigned r done = ground (arith, handle_multisig-count n b unsigned r done)
