-- ===== src/Ledger.antt =====
-- `class Ledger` (include/ledger/ledger.hpp, src/ledger/ledger.cpp): the chain and its forks. The marks
-- of confirmed blocks are in Confirmation. Progress messages are left out.
pub mod Chain
pub mod History
pub mod Validation
pub mod Forks
pub mod Selection
pub mod ForkValidation
pub mod Export
pub mod Behaviour
pub mod Bookkeeping
pub mod Pruning
pub mod Merkle
pub mod Confirmation
pub mod Refinement
use synledger_core.Block.{Block, Transaction, new_block, sign_block, calculate_block_hash}
use synledger_core.Platform.{Platform}
use synledger_core.Prelude.{
  ℕ, ◌-◌, Bool, true, false, not, Option, none, some, List, [], ◌∷◌, ◌++◌, ltb, leb, if◌then◌else◌,
  add_size, sub_size, length, take, last_or, Text, codes, text_eq, nat_eq, text_key, Map, lookup,
  contains, insert, Result, ok, err, invalid_argument, show_nat, map,
}
use synledger_core.Prelude.Int.{ℤ}

pub record Ledger (D : Type 0) : Type 0 where
  pub chain : List (Block D)
  pub difficulty : ℕ
  pub current_block_number : ℕ
  pub forks : Map Text (List (Block D))
  pub current_chain_tip_hash : Text
  pub fork_lengths : Map Text ℕ
  pub fork_difficulties : Map Text ℕ
  pub confirmed_blocks : Map Text Bool
  pub transaction_pool : List (Transaction D)

-- `blocks.back().get_block_hash()`. The source calls it where the vector is not empty.
abbrev pub back_hash : {D : Type 0} → List (Block D) → Text
back_hash [] = []
back_hash (b ∷ bs) = (last_or b bs).block_hash

-- `map[k]` of a map to numbers: a missing key is inserted with 0.
abbrev pub touch : Text → Map Text ℕ → Map Text ℕ
touch k m = elim (lookup k m) [ none ↦ insert k 0 m | some _ ↦ m ]

abbrev pub value_at : Text → Map Text ℕ → ℕ
value_at k m = elim (lookup k m) [ none ↦ 0 | some n ↦ n ]

module _ {D : Type 0} where
  unfoldable pub add_block : Block D → Ledger D → Result (Ledger D)
  add_block block l =
      if text_eq block.previous_block_hash l.current_chain_tip_hash
      then ok (record l {
        chain = l.chain ++ (block ∷ []);
        current_block_number = add_size l.current_block_number 1;
        current_chain_tip_hash = block.block_hash;
      })
      else err (invalid_argument (codes "Block does not fit the current chain tip!"))

  -- The branch of `add_fork_block` for a fork that is not there yet.
  unfoldable pub open_fork : Text → Ledger D → Ledger D
  open_fork fork_tip l = if contains fork_tip l.forks then l else record l {
    forks = insert fork_tip [] l.forks;
    fork_lengths = insert fork_tip 0 l.fork_lengths;
    fork_difficulties = insert fork_tip 0 l.fork_difficulties;
  }

  -- `forks[fork_tip]`, once the fork is there.
  abbrev pub fork_at : Text → Map Text (List (Block D)) → List (Block D)
  fork_at t m = elim (lookup t m) [ none ↦ [] | some f ↦ f ]

  -- The rest of `add_fork_block`.
  unfoldable pub extend_fork : Text → Block D → Ledger D → Ledger D
  extend_fork fork_tip block l =
      let fork = fork_at fork_tip l.forks ++ (block ∷ []) in
      record l {
        forks = insert fork_tip fork l.forks;
        fork_lengths = insert fork_tip (length fork) l.fork_lengths;
        fork_difficulties =
            insert fork_tip (add_size (value_at fork_tip l.fork_difficulties) l.difficulty)
              l.fork_difficulties;
      }

  unfoldable pub add_fork_block : Text → Block D → Ledger D → Ledger D
  unfolding open_fork extend_fork
  add_fork_block fork_tip block l = extend_fork fork_tip block (open_fork fork_tip l)

  abbrev pub get_chain : Ledger D → List (Block D)
  get_chain l = l.chain

  abbrev pub get_forks : Ledger D → Map Text (List (Block D))
  get_forks l = l.forks

  -- `get_latest_block`: `chain.back()`.
  unfoldable pub get_latest_block : Ledger D → Option (Block D)
  get_latest_block l = elim l.chain [ [] ↦ none | b ∷ bs ↦ some (last_or b bs) ]

  unfoldable pub rollback_chain : ℕ → Ledger D → Ledger D × Bool
  rollback_chain blocks_to_rollback l =
      if leb (length l.chain) blocks_to_rollback
      then (l, false)
      else (let rest = take (length l.chain - blocks_to_rollback) l.chain in
          (
            record l {
              chain = rest;
              current_block_number = sub_size l.current_block_number blocks_to_rollback;
              current_chain_tip_hash = back_hash rest;
            },
            true,
          ))

  unfoldable pub get_blockchain_length : Ledger D → ℕ
  get_blockchain_length l = length l.chain

  unfoldable pub select_fork : Text → Ledger D → Ledger D × Bool
  select_fork fork_tip l = elim (lookup fork_tip l.forks) [
    | none ↦ (l, false)
    | some fork_chain ↦
        let chain = l.chain ++ fork_chain in
        (
          record l {
            chain = chain;
            current_block_number = length chain;
            current_chain_tip_hash = back_hash chain;
          },
          true,
        )
  ]

  -- The loop of `prune_forks` over the forks: the lengths, in which `[]` may insert, and what is kept.
  unfoldable pub prune_loop :
      ℕ → Map Text ℕ → Map Text (List (Block D)) → Map Text ℕ × Map Text (List (Block D))
  prune_loop limit lengths [] = (lengths, [])
  prune_loop limit lengths ((tip, fork) ∷ rest) =
      let (after, kept) = prune_loop limit (touch tip lengths) rest in
      (after, if ltb (value_at tip lengths) limit then kept else (tip, fork) ∷ kept)

  unfoldable pub prune_forks : Ledger D → Ledger D
  unfolding prune_loop
  prune_forks l =
      let (lengths, kept) =
        prune_loop (sub_size l.current_block_number 10) l.fork_lengths l.forks in
      record l { fork_lengths = lengths; forks = kept }

  -- The lines that `log_chain_state` prints.
  abbrev pub block_line : Block D → Text
  block_line b = codes "Block #" ++ (show_nat b.block_number ++ (codes " | Hash: " ++ b.block_hash))

  unfoldable pub log_chain_state : Ledger D → List Text
  log_chain_state l =
      (codes "Current blockchain length: " ++ show_nat (length l.chain))
      ∷ ((codes "Current block number: " ++ show_nat l.current_block_number)
          ∷ ((codes "Current chain tip hash: " ++ l.current_chain_tip_hash)
              ∷ map block_line l.chain))

module _ {D : Type 0} ⦃p : Platform D⦄ where
  -- The genesis block that the constructor makes, at the clock reading `now`.
  unfoldable pub genesis_block : ℤ → Block D
  unfolding sign_block calculate_block_hash
  genesis_block now =
      calculate_block_hash
        (sign_block (codes "Genesis Block Signature") (new_block now 0 (codes "0") 1)).0

  -- `Ledger(initial_difficulty)`.
  unfoldable pub new_ledger : ℤ → ℕ → Ledger D
  unfolding genesis_block
  new_ledger now initial_difficulty = record {
    chain = genesis_block now ∷ [];
    difficulty = initial_difficulty;
    current_block_number = 0;
    forks = [];
    current_chain_tip_hash = (genesis_block now).block_hash;
    fork_lengths = [];
    fork_difficulties = [];
    confirmed_blocks = [];
    transaction_pool = [];
  }

  -- The loop of `validate_chain` and `validate_fork` from `i` on, with `blocks[i - 1]`. The blocks come
  -- back with the hashes that `calculate_block_hash` caches. Both operands of the second comparison are
  -- references to the block's `block_hash`, read after that call.
  unfoldable pub validate_from : Block D → List (Block D) → List (Block D) × Bool
  unfolding calculate_block_hash
  validate_from previous [] = ([], true)
  validate_from previous (current ∷ rest) =
      let hashed = calculate_block_hash current in
      let (blocks, valid) = validate_from hashed rest in
      if not (text_eq current.previous_block_hash previous.block_hash)
      then (current ∷ rest, false)
      else if not (text_eq hashed.block_hash hashed.block_hash)
      then (hashed ∷ rest, false)
      else (hashed ∷ blocks, valid)

  unfoldable pub validate_blocks : List (Block D) → List (Block D) × Bool
  unfolding validate_from
  validate_blocks [] = ([], true)
  validate_blocks (first ∷ rest) =
      let (blocks, valid) = validate_from first rest in (first ∷ blocks, valid)

  unfoldable pub validate_chain : Ledger D → Ledger D × Bool
  unfolding validate_blocks
  validate_chain l =
      let (blocks, valid) = validate_blocks l.chain in (record l { chain = blocks }, valid)

  unfoldable pub validate_fork : Text → Ledger D → Ledger D × Bool
  unfolding validate_blocks
  validate_fork fork_tip l = elim (lookup fork_tip l.forks) [
    | none ↦ (l, false)
    | some fork ↦
        let (blocks, valid) = validate_blocks fork in
        (record l { forks = insert fork_tip blocks l.forks }, valid)
  ]
