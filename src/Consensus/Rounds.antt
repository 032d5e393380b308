-- ===== src/Consensus/Rounds.antt =====
-- A consensus round (`initiate_consensus`) and the block that it makes.
use synledger_core.Block.{Block}
use synledger_core.Consensus.{
  World, create_new_block, validate_block, dynamic_network_management, settle, initiate_consensus,
  validate_and_slash, distribute_rewards,
}
use synledger_core.Double.{Double}
use synledger_core.Ledger.{Ledger, get_latest_block}
use synledger_core.Network.Sockets.{Answers}
use synledger_core.Prelude.{
  Option-cases, ◌≡◌, inl, inr, false, some, arith, Result-cases, refl, ap, ◌>>=◌,
}
use synledger_core.Prelude.Int.{ℤ}

module _ {D : Type 0} where
  -- A block is accepted exactly when it names a previous hash and carries a hash; the block that
  -- `create_new_block` makes carries none and is never accepted.
  pub create_new_block-invalid :
      (now : ℤ) (l : Ledger D) {b : Block D}
      → create_new_block now l ≡ some b
      → validate_block b ≡ false
  unfolding create_new_block validate_block
  create_new_block-invalid now l {b} e = elim (Option-cases (get_latest_block l)) [
    | inl missing ↦ ground arith
    | inr (latest, found) ↦ ground arith
  ]

module _ {D : Type 0} ⦃d : Double D⦄ where
  settle_keeps :
      (w : World D)
      → ((settle w).0.ledger ≡ w.ledger)
        × ((settle w).0.p2p_network ≡ w.p2p_network)
        × ((settle w).0.consensus ≡ w.consensus)
  unfolding settle
  settle_keeps w =
      let c = w.consensus in
      elim (Result-cases (
        validate_and_slash c.validators w.posyg_engine >>= λ e.
        distribute_rewards c.reward_for_validators c.validators e)) [
          | inl (e, done) ↦ rw (done, settle) (refl, refl, refl)
          | inr (x, thrown) ↦ rw (thrown, settle) (refl, refl, refl)
        ]

  -- A round never finalizes a block: whatever the network answers, the ledger and the current block
  -- are the same afterwards, and the outcome does not depend on the network's answers.
  initiate_consensus-finalizes_nothing :
      (os other : Answers) (now : ℤ) (w : World D)
      → let new = (initiate_consensus os now w).0 in
        (new.ledger ≡ w.ledger)
        × (new.consensus.current_block ≡ w.consensus.current_block)
        × (initiate_consensus os now w ≡ initiate_consensus other now w)
  unfolding initiate_consensus dynamic_network_management
  initiate_consensus-finalizes_nothing os other now w =
      let managed : World D = record w { consensus = dynamic_network_management w.consensus } in
      let kept = settle_keeps managed in
      elim (Option-cases (create_new_block now w.ledger)) [
        | inl missing ↦ rw (missing, initiate_consensus) (refl, refl, refl)
        | inr (b, made) ↦
            rw (made, create_new_block-invalid now w.ledger made, initiate_consensus)
              (kept.0, ap (λ c. c.current_block) kept.2, refl)
      ]
