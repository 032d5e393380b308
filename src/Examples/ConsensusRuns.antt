-- ===== src/Examples/ConsensusRuns.antt =====
-- The theorems on rounds of consensus, on rewards and on collecting signatures, applied.
use Prim.Native.Nat.{min}
use synledger_core.Block.{Block, new_block, get_signature_count, verify_signatures, sign_block}
use synledger_core.Consensus.{World, new_consensus, numbers_from, settle}
use synledger_core.Consensus.History.{
  initiate_all, managed_after, paid_after, initiate_all-paid_after,
}
use synledger_core.Consensus.Multisig.{
  Step, enter, lock, sign, store, unlock, unlocked, IsDone, Collection, start_collection,
  sign_in_turn, handle_multisig-count,
}
use synledger_core.Consensus.Orders.{settle_in, settle_in-settle}
use synledger_core.Consensus.Progress.{
  Steps-Reach, Steps, no_step, one_more, handle_multisig-finishes,
}
use synledger_core.Double.Fixed.{fixed_double, Fixed}
use synledger_core.Examples.{two_blocks, engine_of_two, all_well, second_block}
use synledger_core.Ledger.{get_latest_block}
use synledger_core.Network.Peers.{new_protocol}
use synledger_core.Network.Sockets.{Answers}
use synledger_core.Prelude.{
  ok, codes, ◌≤◌, ◌≡◌, refl, ◌↔◌, true, false, [], ◌∷◌, arith, ◌⊎◌, zero, suc, length, some, List,
  show_nat,
}
use synledger_core.Prelude.Int.{pos, negsuc, ℤ}
use synledger_core.Schedules.{IsSchedule}
use synledger_core.Schedules.First.{on_first}

abbrev world : World Fixed
world = record {
  consensus = new_consensus (pos 7) 2;
  p2p_network = new_protocol 1 (codes "127.0.0.1");
  posyg_engine = engine_of_two;
  ledger = two_blocks;
}

abbrev none_well : Answers
none_well = record all_well { socket = negsuc 0 }

-- A block that needs one signature, and two validators: both enter before either signs.
abbrev wanted : Block Fixed
wanted = new_block (pos 9) 2 (codes "##078") 1

abbrev both_inside : Collection Fixed
both_inside = record {
  waiting = [];
  inside = 1 ∷ (0 ∷ []);
  mtx = unlocked;
  block_copy = wanted;
  block_signed = false;
}

-- The second is refused, and sets the flag.
abbrev full : Collection Fixed
full = record {
  waiting = [];
  inside = [];
  mtx = unlocked;
  block_copy = record wanted { validator_signatures = (codes "Signature_0") ∷ [] };
  block_signed = true;
}

two-Steps : Steps (start_collection 2 wanted) 2 both_inside
unfolding start_collection numbers_from
two-Steps =
    one_more (one_more no_step (enter [] (1 ∷ []) 0 {c = start_collection 2 wanted} refl refl))
      (enter [] [] 1 refl refl)

nine-Steps : Steps (start_collection 2 wanted) 9 full
unfolding sign_in_turn sign_block show_nat
nine-Steps =
    one_more
      (one_more
        (one_more
          (one_more
            (one_more
              (one_more (one_more two-Steps (lock (1 ∷ []) [] 0 {c = both_inside} refl refl))
                (sign 0 refl))
              (unlock refl))
            (lock [] [] 1 refl refl))
          (sign 1 refl))
        (store refl))
      (unlock refl)

full-IsDone : IsDone full
full-IsDone = record { all_read = refl; all_through = refl; open_again = refl }

handle_multisig-count_example :
    (get_signature_count full.block_copy ≡ min 2 1)
    × ((verify_signatures full.block_copy ≡ true) ↔ (1 ≤ 2))
handle_multisig-count_example =
    handle_multisig-count 2 wanted refl (Steps-Reach nine-Steps) full-IsDone

handle_multisig-finishes_example :
    (9 ≤ 10)
    × ((IsDone full × (get_signature_count full.block_copy ≡ min 2 1))
        ⊎ ((new : Collection Fixed) × Step full new))
handle_multisig-finishes_example = handle_multisig-finishes 2 9 wanted refl nine-Steps

backwards-IsSchedule : IsSchedule 2 (1 ∷ (0 ∷ []))
backwards-IsSchedule zero = refl
backwards-IsSchedule (suc zero) = refl
backwards-IsSchedule (suc (suc j)) = ground arith

world-validators : world.consensus.validators ≡ numbers_from 2 0
unfolding new_consensus
world-validators = refl

settle_in-settle_example : settle_in (1 ∷ (0 ∷ [])) (1 ∷ (0 ∷ [])) world ≡ settle world
settle_in-settle_example =
    settle_in-settle (1 ∷ (0 ∷ [])) (1 ∷ (0 ∷ [])) 2 world world-validators (omega arith)
      backwards-IsSchedule backwards-IsSchedule

latest_test : get_latest_block two_blocks ≡ some second_block
unfolding get_latest_block
latest_test = refl

listed_test : world.consensus.validators ≡ numbers_from 2 0
unfolding new_consensus numbers_from
listed_test = refl

room_test : 2 ≤ length engine_of_two.participants
room_test = omega arith

-- Two rounds, in the second of which no message can be sent.
abbrev two_rounds : List (Answers × ℤ)
two_rounds = (all_well, pos 9) ∷ ((none_well, pos 19) ∷ [])

initiate_all-paid_after_example : initiate_all two_rounds world ≡ (
  record world {
    consensus = managed_after 2 world.consensus;
    posyg_engine = record engine_of_two {
      participants =
          on_first 2
            (paid_after 2 world.consensus.reward_for_validators)
            engine_of_two.participants;
    };
  },
  ok tt,
)
initiate_all-paid_after_example =
    initiate_all-paid_after 2 two_rounds world second_block latest_test listed_test room_test
