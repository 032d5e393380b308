-- ===== src/Ledger/History.antt =====
-- Every ledger that `add_block` and `rollback_chain` can reach.
use mathlib.Core.Path.{subst}
use synledger_core.Block.{Block}
use synledger_core.Ledger.{Ledger, add_block, rollback_chain, new_ledger}
use synledger_core.Ledger.Chain.{IsValid, add_block-IsValid, rollback_chain-IsValid}
use synledger_core.Platform.{Platform}
use synledger_core.Prelude.{
  ℕ, ◌+◌, ◌<◌, ◌≡◌, refl, true, [], ◌∷◌, arith, size_mod, length-append, take-push, text_eq_iff, ok,
}
use synledger_core.Prelude.Int.{ℤ}

module _ {D : Type 0} where
  -- One call that succeeds, with room in `size_t` for the height.
  pub data Step : Ledger D → Ledger D → Type 0 where
    added :
        (block : Block D) {l new : Ledger D}
        → l.current_block_number + 1 < size_mod
        → add_block block l ≡ ok new
        → Step l new
    rolled_back :
        (n : ℕ) {l new : Ledger D}
        → l.current_block_number < size_mod
        → rollback_chain n l ≡ (new, true)
        → Step l new

  pub data Reach (start : Ledger D) : Ledger D → Type 0 where
    here : Reach start start
    next : {l new : Ledger D} → Reach start l → Step l new → Reach start new

  Step-IsValid : {l new : Ledger D} → Step l new → IsValid l → IsValid new
  Step-IsValid (added block {l} room e) v = (add_block-IsValid block l v room e).0
  Step-IsValid (rolled_back n {l} room e) v =
      subst (λ r. IsValid r.0) e (rollback_chain-IsValid n l v room)

  Reach-keeps : {start l : Ledger D} → IsValid start → Reach start l → IsValid l
  Reach-keeps v here = v
  Reach-keeps v (next r s) = Step-IsValid s (Reach-keeps v r)

  -- Rolling back one block right after adding it to a valid ledger, with room in `size_t` for the new
  -- height, gives the ledger back, as it was.
  pub rollback_chain-add_block :
      (block : Block D) (l : Ledger D) {new : Ledger D}
      → IsValid l
      → l.current_block_number + 1 < size_mod
      → add_block block l ≡ ok new
      → rollback_chain 1 new ≡ (l, true)
  unfolding add_block rollback_chain
  rollback_chain-add_block block l v room e = ground (
    arith,
    text_eq_iff block.previous_block_hash l.current_chain_tip_hash,
    length-append l.chain (block ∷ []),
    take-push l.chain block,
    v.height,
    v.tip,
  )

module _ {D : Type 0} ⦃p : Platform D⦄ where
  new_ledger-IsValid : (now : ℤ) (difficulty : ℕ) → IsValid {D = D} (new_ledger now difficulty)
  unfolding new_ledger
  new_ledger-IsValid now difficulty = record { height = refl; tip = refl; linked = tt }

  -- Whatever sequence of successful additions and rollbacks a new ledger has seen, each with room in
  -- `size_t` for the height, its blocks are linked, its height counts them, and its tip is the hash of
  -- the last one.
  pub Reach-IsValid :
      (now : ℤ) (difficulty : ℕ) {l : Ledger D} → Reach (new_ledger now difficulty) l → IsValid l
  Reach-IsValid now difficulty r = Reach-keeps (new_ledger-IsValid now difficulty) r
