-- ===== src/Ledger/Refinement.antt =====
-- What a client of `class Ledger` sees: a stack of blocks, and marks on hashes.
pub mod Stack
pub mod Simulation
use synledger_core.Block.{Block, get_signature_count}
use synledger_core.Ledger.{
  Ledger, add_block, add_fork_block, get_latest_block, rollback_chain, get_blockchain_length,
  prune_forks,
}
use synledger_core.Ledger.Confirmation.{confirm_block, set_block_confirmation, is_block_confirmed}
use synledger_core.Prelude.{
  length, Exception, invalid_argument, Result, ok, err, ltb, leb, if◌then◌else◌, Text, codes,
  text_eq, ℕ, zero, suc, Bool, true, false, ◌&&◌, Option, none, some, List, [], ◌∷◌,
}

-- The calls, but for the switch to a fork and for validation, which rewrite the chain.
pub data Call (D : Type 0) : Type 0 where
  add : Block D → Call D
  rollback : ℕ → Call D
  latest : Call D
  size : Call D
  confirm : Block D → Call D
  add_fork : Text → Block D → Call D
  prune : Call D
  mark : Text → Bool → Call D
  is_marked : Text → Call D

-- What a call shows: that it has thrown, a Boolean, a block, a number, or nothing.
pub data Reply (D : Type 0) : Type 0 where
  thrown : Exception → Reply D
  answer : Bool → Reply D
  shown : Option (Block D) → Reply D
  counted : ℕ → Reply D
  done : Reply D

-- The specification's state: the blocks, newest first, and the marks.
pub record Spec (D : Type 0) : Type 0 where
  pub blocks : List (Block D)
  pub marks : Text → Bool

module _ {D : Type 0} where
  abbrev pub after_add : Ledger D → Result (Ledger D) → Ledger D × Reply D
  after_add l (ok new) = (new, done)
  after_add l (err e) = (l, thrown e)

  abbrev pub after_rollback : Ledger D × Bool → Ledger D × Reply D
  after_rollback (new, removed) = (new, answer removed)

  unfoldable pub call : Call D → Ledger D → Ledger D × Reply D
  call (add b) l = after_add l (add_block b l)
  call (rollback n) l = after_rollback (rollback_chain n l)
  call latest l = (l, shown (get_latest_block l))
  call size l = (l, counted (get_blockchain_length l))
  call (confirm b) l = (l, answer (confirm_block b l))
  call (add_fork t b) l = (add_fork_block t b l, done)
  call prune l = (prune_forks l, done)
  call (mark h c) l = (set_block_confirmation h c l, done)
  call (is_marked h) l = (l, answer (is_block_confirmed h l))

  unfoldable pub run : List (Call D) → Ledger D → List (Reply D)
  run [] l = []
  run (c ∷ cs) l = let (new, reply) = call c l in reply ∷ run cs new

  abbrev pub top_hash : List (Block D) → Text
  top_hash [] = []
  top_hash (b ∷ bs) = b.block_hash

  abbrev pub top : List (Block D) → Option (Block D)
  top [] = none
  top (b ∷ bs) = some b

  abbrev pub drop : ℕ → List (Block D) → List (Block D)
  drop zero bs = bs
  drop (suc n) [] = []
  drop (suc n) (b ∷ bs) = drop n bs

  -- The specification: a block is put on top if it names the top; a rollback takes off as many blocks as
  -- it says, if one stays; a block is confirmed if its number is below the number of blocks and it has
  -- the signatures that it needs; forks show nowhere.
  unfoldable pub ask : Call D → Spec D → Spec D × Reply D
  ask (add b) s =
      if text_eq b.previous_block_hash (top_hash s.blocks)
      then (record s { blocks = b ∷ s.blocks }, done)
      else (s, thrown (invalid_argument (codes "Block does not fit the current chain tip!")))
  ask (rollback n) s =
      if ltb n (length s.blocks)
      then (record s { blocks = drop n s.blocks }, answer true)
      else (s, answer false)
  ask latest s = (s, shown (top s.blocks))
  ask size s = (s, counted (length s.blocks))
  ask (confirm b) s = (
    s,
    answer
        (ltb b.block_number (length s.blocks) && leb b.required_signatures (get_signature_count b)),
  )
  ask (add_fork t b) s = (s, done)
  ask prune s = (s, done)
  ask (mark h c) s = (record s { marks = λ j. if text_eq h j then c else s.marks j }, done)
  ask (is_marked h) s = (s, answer (s.marks h))

  unfoldable pub ask_all : List (Call D) → Spec D → List (Reply D)
  ask_all [] s = []
  ask_all (c ∷ cs) s = let (new, reply) = ask c s in reply ∷ ask_all cs new
