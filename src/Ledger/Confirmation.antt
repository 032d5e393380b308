-- ===== src/Ledger/Confirmation.antt =====
-- Confirming blocks (`confirm_block`, `set_block_confirmation`, `is_block_confirmed`).
use synledger_core.Block.{Block, get_signature_count, verify_signatures}
use synledger_core.Ledger.{Ledger}
use synledger_core.Prelude.{
  nat_eq, text_key, lookup-insert, if◌then◌else◌, Text, text_eq, ◌≤◌, ◌≡◌, ◌↔◌, Bool, true, arith,
  lookup, insert, leb, false, ◌&&◌, none, some,
}

module _ {D : Type 0} where
  -- The method prints and returns; it writes nothing.
  unfoldable pub confirm_block : Block D → Ledger D → Bool
  unfolding verify_signatures
  confirm_block block l = leb block.block_number l.current_block_number && verify_signatures block

  unfoldable pub set_block_confirmation : Text → Bool → Ledger D → Ledger D
  set_block_confirmation block_hash confirmed l = record l {
    confirmed_blocks = insert block_hash confirmed l.confirmed_blocks;
  }

  unfoldable pub is_block_confirmed : Text → Ledger D → Bool
  is_block_confirmed block_hash l = elim (lookup block_hash l.confirmed_blocks) [
    | none ↦ false
    | some confirmed ↦ confirmed
  ]

  -- A block is confirmed exactly when it is not above the height and has the signatures it needs.
  pub confirm_block_iff :
      (b : Block D) (l : Ledger D)
      → (confirm_block b l ≡ true) ↔ (
          (b.block_number ≤ l.current_block_number)
          × (b.required_signatures ≤ get_signature_count b))
  unfolding confirm_block
  confirm_block_iff b l = ground arith

  -- A status that is set is read back, and the status of every other hash stays.
  pub is_block_confirmed-set :
      (h j : Text) (c : Bool) (l : Ledger D)
      → is_block_confirmed j (set_block_confirmation h c l)
        ≡ (if text_eq h j then c else is_block_confirmed j l)
  unfolding is_block_confirmed set_block_confirmation
  is_block_confirmed-set h j c l = ground (arith, lookup-insert h j c l.confirmed_blocks)
