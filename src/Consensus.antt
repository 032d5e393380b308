-- ===== src/Consensus.antt =====
-- `class Consensus` (include/consensus/consensus.hpp, src/consensus/consensus.cpp). The network, the
-- engine and the ledger that it refers to stand beside it in `World`. Progress messages and the block
-- time are left out. An exception inside a parallel loop, which ends the program, is the `err` of the
-- call.
pub mod Multisig
pub mod Rounds
pub mod Rewards
pub mod Progress
pub mod Verdict
pub mod Orders
pub mod History
use synledger_core.Block.{Block, new_block}
use synledger_core.Double.{Double}
use synledger_core.Engine.{PoSygEngine, get_participant, put_participant}
use synledger_core.Ledger.{Ledger, get_latest_block, get_blockchain_length}
use synledger_core.Network.Peers.{P2PProtocol}
use synledger_core.Network.Sockets.{Answers, send_message}
use synledger_core.Participant.{Participant, detect_suspicious_behavior, apply_slash}
use synledger_core.Prelude.{
  ◌>>=◌, Result, ok, err, if◌then◌else◌, Text, ℕ, zero, suc, ◌+◌, Bool, true, false, Option, none,
  some, List, [], ◌∷◌,
}
use synledger_core.Prelude.Int.{ℤ}

pub record Consensus (D : Type 0) : Type 0 where
  pub num_validators : ℕ
  pub validators : List ℕ
  pub current_block : Block D
  pub slashing_penalty : D
  pub reward_for_validators : D

pub record World (D : Type 0) : Type 0 where
  pub consensus : Consensus D
  pub p2p_network : P2PProtocol
  pub posyg_engine : PoSygEngine D
  pub ledger : Ledger D

-- `i, i + 1, …`, `n` numbers: the loop of the constructor.
unfoldable pub numbers_from : ℕ → ℕ → List ℕ
numbers_from zero i = []
numbers_from (suc n) i = i ∷ numbers_from n (i + 1)

-- `empty()`.
abbrev pub is_empty : Text → Bool
is_empty [] = true
is_empty (c ∷ t) = false

module _ {D : Type 0} where
  -- `create_new_block`, at the clock reading `now`; `none` where there is no latest block.
  unfoldable pub create_new_block : ℤ → Ledger D → Option (Block D)
  create_new_block now l = elim (get_latest_block l) [
    | none ↦ none
    | some latest ↦ some (new_block now (get_blockchain_length l) latest.block_hash 2)
  ]

  unfoldable pub validate_block : Block D → Bool
  validate_block b =
      if is_empty b.previous_block_hash
      then false
      else if is_empty b.block_hash
      then false
      else true

  -- `finalize_block`: the block is kept before the message is sent, which may throw.
  unfoldable pub finalize_block : Answers → Block D → World D → World D × Result (Unit {0})
  finalize_block os block w = (
    record w { consensus = record (w.consensus) { current_block = block } },
    (send_message os 0 w.p2p_network).0,
  )

module _ {D : Type 0} ⦃d : Double D⦄ where
  -- `Consensus(num_validators, network, posyg_engine, ledger)`, at the clock reading `now`.
  unfoldable pub new_consensus : ℤ → ℕ → Consensus D
  new_consensus now num_validators = record {
    num_validators = num_validators;
    validators = numbers_from num_validators 0;
    current_block = new_block now 0 [] 2;
    slashing_penalty = d.literal 1000 1;
    reward_for_validators = d.literal 500 1;
  }

  unfoldable pub slash_validator : ℕ → PoSygEngine D → Result (PoSygEngine D)
  slash_validator validator_id e =
      get_participant validator_id e >>= λ x. ok (put_participant validator_id (apply_slash x) e)

  -- The body of the loop of `validate_and_slash`, and the loop.
  unfoldable pub slash_if_suspicious : ℕ → PoSygEngine D → Result (PoSygEngine D)
  slash_if_suspicious validator e = get_participant validator e >>= λ x.
      if detect_suspicious_behavior x then slash_validator validator e else ok e

  unfoldable pub validate_and_slash : List ℕ → PoSygEngine D → Result (PoSygEngine D)
  validate_and_slash [] e = ok e
  validate_and_slash (v ∷ vs) e = slash_if_suspicious v e >>= λ e'. validate_and_slash vs e'

  abbrev pub rewarded : D → Participant D → Participant D
  rewarded reward x = record x { reward = d.add x.reward reward }

  unfoldable pub reward_validator : D → ℕ → PoSygEngine D → Result (PoSygEngine D)
  reward_validator reward validator e =
      get_participant validator e >>= λ x. ok (put_participant validator (rewarded reward x) e)

  -- The loop of `distribute_rewards`.
  unfoldable pub distribute_rewards : D → List ℕ → PoSygEngine D → Result (PoSygEngine D)
  distribute_rewards reward [] e = ok e
  distribute_rewards reward (v ∷ vs) e =
      reward_validator reward v e >>= λ e'. distribute_rewards reward vs e'

  unfoldable pub dynamic_network_management : Consensus D → Consensus D
  dynamic_network_management c = record c {
    slashing_penalty = d.mul c.slashing_penalty (d.literal 105 2);
    reward_for_validators = d.mul c.reward_for_validators (d.literal 102 2);
  }

  -- A throw inside a parallel loop ends the program, so the state that is left plays no part.
  abbrev pub after_settling : World D → Result (PoSygEngine D) → World D × Result (Unit {0})
  after_settling w done = elim done [
    | err x ↦ (w, err x)
    | ok e ↦ (record w { posyg_engine = e }, ok tt)
  ]

  -- The last two calls of `initiate_consensus`.
  unfoldable pub settle : World D → World D × Result (Unit {0})
  settle w =
      let c = w.consensus in
      let done = validate_and_slash c.validators w.posyg_engine >>= λ e.
      distribute_rewards c.reward_for_validators c.validators e in
      after_settling w done

  -- `initiate_consensus`. `handle_multisig` signs a copy of the block and drops it, so it is no step of
  -- the state (module Multisig). On a ledger with no block nothing is done.
  unfoldable pub initiate_consensus : Answers → ℤ → World D → World D × Result (Unit {0})
  initiate_consensus os now w =
      let managed : World D = record w { consensus = dynamic_network_management w.consensus } in
      elim (create_new_block now w.ledger) [
        | none ↦ (managed, ok tt)
        | some block ↦
            if validate_block block
            then (let (kept, sent) = finalize_block os block managed in
                elim sent [ err x ↦ (kept, err x) | ok _ ↦ settle kept ])
            else settle managed
      ]
