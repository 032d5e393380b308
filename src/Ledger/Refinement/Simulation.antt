-- ===== src/Ledger/Refinement/Simulation.antt =====
-- The ledger shows what the specification shows.
use mathlib.Core.Path.{ap₂}
use synledger_core.Block.{Block}
use synledger_core.Ledger.{
  Ledger, back_hash, add_block, open_fork, extend_fork, add_fork_block, rollback_chain,
  get_blockchain_length, prune_forks, genesis_block, new_ledger,
}
use synledger_core.Ledger.Confirmation.{
  is_block_confirmed-set, confirm_block, set_block_confirmation, is_block_confirmed,
}
use synledger_core.Ledger.Refinement.{
  Call, add, rollback, latest, size, confirm, add_fork, prune, mark, is_marked, Reply, answer,
  shown, counted, Spec, call, run, top_hash, drop, ask, ask_all,
}
use synledger_core.Ledger.Refinement.Stack.{
  chain_of, length-chain_of, back_hash-chain_of, take-chain_of, length-drop, latest-chain_of,
}
use synledger_core.Platform.{Platform}
use synledger_core.Prelude.{
  length, take, nat_eq, text_key, lookup, ltb, leb, if◌then◌else◌, ltb→lt, Bool-cases, size_mod,
  Text, text_eq, ℕ, ◌+◌, ◌-◌, ◌≤◌, ◌<◌, ◌≡◌, refl, ap, ◌∙◌, inl, inr, true, false, List, [], ◌∷◌,
  ◌++◌, arith,
}
use synledger_core.Prelude.Int.{ℤ}

module _ {D : Type 0} where
  -- The ledger holds the stack, its height and tip are those of the stack, and the marks agree.
  pub record Represents (l : Ledger D) (s : Spec D) : Type 0 where
    pub chain : l.chain ≡ chain_of s.blocks
    pub some_block : 0 < length s.blocks
    pub height : l.current_block_number + 1 ≡ length s.blocks
    pub tip : l.current_chain_tip_hash ≡ top_hash s.blocks
    pub marks : (h : Text) → is_block_confirmed h l ≡ s.marks h

  -- After one call the two agree again, and the replies are the same.
  abbrev pub Agrees : Ledger D × Reply D → Spec D × Reply D → Type 0
  Agrees (l, reply) (s, wanted) = Represents l s × (reply ≡ wanted)

  add-Agrees :
      (b : Block D) (l : Ledger D) (s : Spec D)
      → length s.blocks < size_mod
      → Represents l s
      → Agrees (call (add b) l) (ask (add b) s)
  unfolding call ask add_block is_block_confirmed
  add-Agrees b l s room r = elim (Bool-cases (text_eq b.previous_block_hash (top_hash s.blocks))) [
    | inl fits ↦
        let fits' : text_eq b.previous_block_hash l.current_chain_tip_hash ≡ true =
          ap (text_eq b.previous_block_hash) r.tip ∙ fits in
        rw (fits, fits')
          (
            record {
              chain = ap (λ c. c ++ (b ∷ [])) r.chain;
              some_block = omega arith;
              height = omega (arith, r.height);
              tip = refl;
              marks = r.marks;
            },
            refl,
          )
    | inr other ↦
        let other' : text_eq b.previous_block_hash l.current_chain_tip_hash ≡ false =
          ap (text_eq b.previous_block_hash) r.tip ∙ other in
        rw (other, other') (r, refl)
  ]

  rollback-Agrees :
      (n : ℕ) (l : Ledger D) (s : Spec D)
      → length s.blocks < size_mod
      → Represents l s
      → Agrees (call (rollback n) l) (ask (rollback n) s)
  unfolding call ask rollback_chain is_block_confirmed
  rollback-Agrees n l s room r =
      let len : length l.chain ≡ length s.blocks = ap length r.chain ∙ length-chain_of s.blocks in
      elim (Bool-cases (ltb n (length s.blocks))) [
        | inl fewer ↦
            let below = ltb→lt n (length s.blocks) fewer in
            let fewer' : leb (length l.chain) n ≡ false = ground arith in
            let kept : take (length l.chain - n) l.chain ≡ chain_of (drop n s.blocks) =
              ap₂ (λ k c. take (k - n) c) len r.chain ∙ take-chain_of n s.blocks (omega arith) in
            rw (fewer, fewer')
              (
                record {
                  chain = kept;
                  some_block = omega (arith, length-drop n s.blocks);
                  height = omega (arith, length-drop n s.blocks, r.height);
                  tip = ap back_hash kept ∙ back_hash-chain_of (drop n s.blocks);
                  marks = r.marks;
                },
                refl,
              )
        | inr all ↦
            let all' : leb (length l.chain) n ≡ true = ground arith in rw (all, all') (r, refl)
      ]

  -- The parts of the state that forks leave alone.
  pub record Same (l new : Ledger D) : Type 0 where
    pub chain : new.chain ≡ l.chain
    pub height : new.current_block_number ≡ l.current_block_number
    pub tip : new.current_chain_tip_hash ≡ l.current_chain_tip_hash
    pub marks : new.confirmed_blocks ≡ l.confirmed_blocks

  Same-Represents : (l new : Ledger D) (s : Spec D) → Same l new → Represents l s → Represents new s
  unfolding is_block_confirmed
  Same-Represents l new s same r = record {
    chain = same.chain ∙ r.chain;
    some_block = r.some_block;
    height = omega (arith, same.height, r.height);
    tip = same.tip ∙ r.tip;
    marks = λ h. rw (same.marks, is_block_confirmed) (r.marks h);
  }

  pub add_fork_block-Same : (t : Text) (b : Block D) (l : Ledger D) → Same l (add_fork_block t b l)
  unfolding add_fork_block open_fork extend_fork
  add_fork_block-Same t b l = ground arith

  pub prune_forks-Same : (l : Ledger D) → Same l (prune_forks l)
  unfolding prune_forks
  prune_forks-Same l = record { chain = refl; height = refl; tip = refl; marks = refl }

  call-Agrees :
      (c : Call D) (l : Ledger D) (s : Spec D)
      → length s.blocks < size_mod
      → Represents l s
      → Agrees (call c l) (ask c s)
  unfolding call ask get_blockchain_length confirm_block is_block_confirmed set_block_confirmation
  call-Agrees (add b) l s room r = add-Agrees b l s room r
  call-Agrees (rollback n) l s room r = rollback-Agrees n l s room r
  call-Agrees latest l s room r = (r, ap shown (latest-chain_of s.blocks l r.some_block r.chain))
  call-Agrees size l s room r = (r, ap counted (ap length r.chain ∙ length-chain_of s.blocks))
  call-Agrees (confirm b) l s room r = (r, ap answer (ground (arith, r.height)))
  call-Agrees (add_fork t b) l s room r =
      (Same-Represents l (add_fork_block t b l) s (add_fork_block-Same t b l) r, refl)
  call-Agrees prune l s room r = (Same-Represents l (prune_forks l) s (prune_forks-Same l) r, refl)
  call-Agrees (mark h c) l s room r = (
    record {
      chain = r.chain;
      some_block = r.some_block;
      height = r.height;
      tip = r.tip;
      marks =
          λ j. is_block_confirmed-set h j c l ∙ ap (λ v. if text_eq h j then c else v) (r.marks j);
    },
    refl,
  )
  call-Agrees (is_marked h) l s room r = (r, ap answer (r.marks h))

  -- A call adds one block at most.
  length-ask : (c : Call D) (s : Spec D) → length (ask c s).0.blocks ≤ length s.blocks + 1
  unfolding ask
  length-ask (add b) s = ground arith
  length-ask (rollback n) s = ground (arith, length-drop n s.blocks)
  length-ask latest s = omega arith
  length-ask size s = omega arith
  length-ask (confirm b) s = omega arith
  length-ask (add_fork t b) s = omega arith
  length-ask prune s = omega arith
  length-ask (mark h c) s = omega arith
  length-ask (is_marked h) s = omega arith

  run-ask_all :
      (cs : List (Call D)) (l : Ledger D) (s : Spec D)
      → length s.blocks + length cs ≤ size_mod
      → Represents l s
      → run cs l ≡ ask_all cs s
  unfolding run ask_all
  run-ask_all [] l s room r = refl
  run-ask_all (c ∷ cs) l s room r =
      let (r', same) = call-Agrees c l s (omega arith) r in
      ap₂ (λ x xs. x ∷ xs) same
        (run-ask_all cs (call c l).0 (ask c s).0 (omega (arith, length-ask c s)) r')

module _ {D : Type 0} ⦃p : Platform D⦄ where
  -- From the constructor on, with fewer than 2^64 calls, every sequence of calls shows exactly what the
  -- specification shows that starts from the genesis block and no marks.
  pub run-new_ledger :
      (now : ℤ) (difficulty : ℕ) (cs : List (Call D))
      → length cs < size_mod
      → run cs (new_ledger now difficulty)
        ≡ ask_all cs (record { blocks = genesis_block now ∷ []; marks = λ h. false })
  unfolding new_ledger is_block_confirmed lookup
  run-new_ledger now difficulty cs room =
      run-ask_all cs (new_ledger now difficulty)
        (record { blocks = genesis_block now ∷ []; marks = λ h. false }) (omega arith)
        (record {
          chain = refl;
          some_block = omega arith;
          height = refl;
          tip = refl;
          marks = λ h. refl;
        })
