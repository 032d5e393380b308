-- ===== src/Examples.antt =====
-- Concrete values on which the theorems are applied, one child module for each part.
mod LedgerRuns
mod BlockRuns
mod SerializationRuns
mod EngineRuns
mod GovernanceRuns
mod SubnetRuns
mod NetworkRuns
mod ListeningRuns
mod ConsensusRuns
mod CryptoRuns
mod ServiceRuns
mod MainRuns
use synledger_core.Block.{Transaction, Block, new_block, standard_payment}
use synledger_core.Crypto.Digests.{hash, verify_signature}
use synledger_core.Double.Fixed.{Fixed}
use synledger_core.Engine.{PoSygEngine}
use synledger_core.Ledger.{Ledger}
use synledger_core.Network.Sockets.{Answers}
use synledger_core.Participant.{Participant, slash_penalty}
use synledger_core.Platform.{Platform}
use synledger_core.Prelude.{ok, codes, text_eq, ℕ, false, [], ◌∷◌}
use synledger_core.Prelude.Int.{pos, show_int}

-- A hash that marks its text, a signature that is right for everybody, and numbers in thousandths.
instance abbrev pub sample_platform : Platform Fixed
sample_platform = record {
  hash = λ t. b'#' ∷ t;
  verify_signature = λ message signature public_key. ok (text_eq signature (codes "signed"));
  show_double = show_int;
  to_string_double = show_int;
}

abbrev pub payment : Transaction Fixed
payment = record {
  sender = codes "alice";
  receiver = codes "bob";
  amount = pos 2500;
  signature = codes "signed";
  type = standard_payment;
  payload = [];
}

abbrev pub first_block : Block Fixed
first_block = record {
  block_number = 0;
  previous_block_hash = codes "0";
  timestamp = pos 7;
  transactions = [];
  block_hash = codes "#07";
  validator_signatures = codes "Genesis Block Signature" ∷ [];
  required_signatures = 1;
}

abbrev pub second_block : Block Fixed
second_block = record (new_block (pos 8) 1 (codes "#07") 2) { block_hash = codes "##078" }

abbrev pub third_block : Block Fixed
third_block = record (new_block (pos 9) 2 (codes "##078") 2) { block_hash = codes "###0789" }

-- The ledger that the constructor makes at the clock reading 7, and the same with one block more.
abbrev pub one_block : Ledger Fixed
one_block = record {
  chain = first_block ∷ [];
  difficulty = 3;
  current_block_number = 0;
  forks = [];
  current_chain_tip_hash = codes "#07";
  fork_lengths = [];
  fork_difficulties = [];
  confirmed_blocks = [];
  transaction_pool = [];
}

abbrev pub two_blocks : Ledger Fixed
two_blocks = record one_block {
  chain = first_block ∷ (second_block ∷ []);
  current_block_number = 1;
  current_chain_tip_hash = codes "##078";
}

abbrev pub sample_participant : ℕ → Participant Fixed
sample_participant id = record {
  id = id;
  synergy = pos 100000;
  reward = pos 0;
  penalty = pos 0;
  violations_count = pos 0;
  behavior = pos 1;
  economic_activity = pos 1;
  governance_activity = pos 1;
  slashed = false;
  economic_contribution = pos 0;
}

abbrev pub engine_of_two : PoSygEngine Fixed
engine_of_two = record {
  num_participants = 2;
  participants = sample_participant 0 ∷ (sample_participant 1 ∷ []);
  dynamic_synergy_gain = pos 10000;
  dynamic_penalty_increment = pos 5000;
  dynamic_conversion_rate = pos 100;
  slash_penalty = pos 100000;
  total_economic_activity = pos 0;
}

-- Answers with which every socket call succeeds, on descriptor 3.
abbrev pub all_well : Answers
all_well = record {
  socket = pos 3;
  setsockopt = pos 0;
  bind = pos 0;
  listen = pos 0;
  connect = pos 0;
  send = pos 5;
  inet_pton = λ address. pos 1;
}
