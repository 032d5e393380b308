-- ===== src/Consensus/History.antt =====
-- Any number of consensus rounds, one after the other: what they leave of the validators and of the
-- parameters.
use synledger_core.Block.{Block, new_block}
use synledger_core.Consensus.{
  Consensus, World, numbers_from, create_new_block, validate_and_slash, rewarded,
  distribute_rewards, dynamic_network_management, after_settling, settle, initiate_consensus,
}
use synledger_core.Consensus.Orders.{
  slashed_if_suspicious, with, numbers_from-IsSchedule, validate_and_slash-run_rounds,
  distribute_rewards-run_rounds, length-run_rounds,
}
use synledger_core.Consensus.Rounds.{create_new_block-invalid}
use synledger_core.Double.{Double}
use synledger_core.Ledger.{get_latest_block, get_blockchain_length}
use synledger_core.Network.Sockets.{Answers}
use synledger_core.Participant.{Participant}
use synledger_core.Prelude.{
  ◌>>=◌, length, Result, ok, err, ℕ, zero, suc, ◌≤◌, ◌≡◌, refl, ap, ◌∙◌, some, List, [], ◌∷◌, arith,
  sym,
}
use synledger_core.Prelude.Int.{ℤ}
use synledger_core.Schedules.{run_rounds, IsSchedule-below}
use synledger_core.Schedules.First.{
  on_first, on_first-on_first, run_rounds-on_first, on_first_id, length-on_first,
}

module _ {D : Type 0} ⦃d : Double D⦄ where
  -- `initiate_consensus` again and again, with the answers of the sockets and the clock for each round, up
  -- to one that throws.
  unfoldable pub initiate_all : List (Answers × ℤ) → World D → World D × Result (Unit {0})
  initiate_all [] w = (w, ok tt)
  initiate_all ((os, now) ∷ rest) w =
      let (new, r) = initiate_consensus os now w in
      elim r [ err e ↦ (new, err e) | ok _ ↦ initiate_all rest new ]

  -- The parameters after `k` rounds.
  abbrev pub managed_after : ℕ → Consensus D → Consensus D
  managed_after zero c = c
  managed_after (suc k) c = managed_after k (dynamic_network_management c)

  -- One round for one validator: a slash for a suspect, and then the reward.
  abbrev pub settled_by : D → Participant D → Participant D
  settled_by reward x = rewarded reward (slashed_if_suspicious x)

  -- `k` rounds for one validator, with the reward of the round before the first.
  abbrev pub paid_after : ℕ → D → Participant D → Participant D
  paid_after zero reward x = x
  paid_after (suc k) reward x =
      let raised = d.mul reward (d.literal 102 2) in paid_after k raised (settled_by raised x)

  settle-on_first :
      (n : ℕ) (w : World D)
      → w.consensus.validators ≡ numbers_from n 0
      → n ≤ length w.posyg_engine.participants
      → settle w ≡ (
        record w {
          posyg_engine = with w.posyg_engine (
              on_first n
                (settled_by w.consensus.reward_for_validators)
                w.posyg_engine.participants);
        },
        ok tt,
      )
  unfolding settle
  settle-on_first n w listed room =
      let e = w.posyg_engine in
      let reward = w.consensus.reward_for_validators in
      let order = numbers_from n 0 in
      let once = numbers_from-IsSchedule n in
      let all = IsSchedule-below n order once in
      let slashed = with e (run_rounds (λ k. slashed_if_suspicious) order e.participants) in
      let fewer : n ≤ length slashed.participants =
        omega (arith, length-run_rounds slashed_if_suspicious order e.participants) in
      ap (after_settling w) (
        ap (λ o. validate_and_slash o e >>= λ e'. distribute_rewards reward o e') listed
        ∙ ap (λ r. r >>= λ e'. distribute_rewards reward order e')
            (validate_and_slash-run_rounds n order e room all)
        ∙ distribute_rewards-run_rounds reward n order slashed fewer all
        ∙ ap (λ xs. ok (with e xs))
            (run_rounds-on_first n (rewarded reward) order slashed.participants once
              ∙ ap (on_first n (rewarded reward))
                  (run_rounds-on_first n slashed_if_suspicious order e.participants once)
              ∙ on_first-on_first n (rewarded reward) slashed_if_suspicious e.participants))

  -- A round on a ledger with a block: the block that it makes is refused, and the validators are settled.
  initiate_consensus-settle :
      (os : Answers) (now : ℤ) (w : World D) (latest : Block D)
      → get_latest_block w.ledger ≡ some latest
      → initiate_consensus os now w
        ≡ settle (record w { consensus = dynamic_network_management w.consensus })
  unfolding initiate_consensus create_new_block
  initiate_consensus-settle os now w latest e =
      let block = new_block now (get_blockchain_length w.ledger) latest.block_hash 2 in
      let made : create_new_block now w.ledger ≡ some block = rw (e, create_new_block) refl in
      rw (made, create_new_block-invalid now w.ledger made, initiate_consensus) refl

  -- On a ledger with a block, and with the validators that the constructor lists and as many participants
  -- or more, no number of rounds ever throws, whatever the network answers: the ledger, the peers and the
  -- current block stay, the parameters are raised once for each round, and every validator's participant
  -- is slashed where it looks suspicious and then gets the reward of each round, slashed or not; the other
  -- participants stay.
  pub initiate_all-paid_after :
      (n : ℕ) (steps : List (Answers × ℤ)) (w : World D) (latest : Block D)
      → get_latest_block w.ledger ≡ some latest
      → w.consensus.validators ≡ numbers_from n 0
      → n ≤ length w.posyg_engine.participants
      → initiate_all steps w ≡ (
        record w {
          consensus = managed_after (length steps) w.consensus;
          posyg_engine = record (w.posyg_engine) {
            participants =
                on_first n
                  (paid_after (length steps) w.consensus.reward_for_validators)
                  w.posyg_engine.participants;
          };
        },
        ok tt,
      )
  unfolding initiate_all dynamic_network_management
  initiate_all-paid_after n [] w latest e listed room =
      ap (λ xs. (record w { posyg_engine = record (w.posyg_engine) { participants = xs } }, ok tt))
        (sym (on_first_id n w.posyg_engine.participants))
  initiate_all-paid_after n ((os, now) ∷ steps) w latest e listed room =
      let raised : World D = record w { consensus = dynamic_network_management w.consensus } in
      let one =
        initiate_consensus-settle os now w latest e ∙ settle-on_first n raised listed room in
      let reward = raised.consensus.reward_for_validators in
      let xs = w.posyg_engine.participants in
      let after_one : World D = record raised {
        posyg_engine = with w.posyg_engine (on_first n (settled_by reward) xs);
      } in
      ap (λ r. elim r.1 [ err e ↦ (r.0, err e) | ok _ ↦ initiate_all steps r.0 ]) one
      ∙ initiate_all-paid_after n steps after_one latest e listed
          (omega (arith, length-on_first n (settled_by reward) xs))
      ∙ ap
          (λ ys. (
            record w {
              consensus = managed_after (length steps) raised.consensus;
              posyg_engine = record (w.posyg_engine) { participants = ys };
            },
            ok tt,
          ))
          (on_first-on_first n (paid_after (length steps) reward) (settled_by reward) xs)
