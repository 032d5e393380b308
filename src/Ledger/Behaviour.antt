-- ===== src/Ledger/Behaviour.antt =====
-- Every public method of `class Ledger`, on the class and on a specification without its bookkeeping: forks
-- and marks are functions, and the maps of lengths and difficulties and the pool are gone.
pub mod Simulation
use synledger_core.Block.{Block, verify_signatures}
use synledger_core.Ledger.{
  Ledger, back_hash, add_block, add_fork_block, get_latest_block, rollback_chain,
  get_blockchain_length, select_fork, prune_forks, validate_blocks, validate_chain, validate_fork,
  get_chain, get_forks,
}
use synledger_core.Ledger.Confirmation.{confirm_block, set_block_confirmation, is_block_confirmed}
use synledger_core.Platform.{Platform}
use synledger_core.Prelude.{
  length, take, last_or, Exception, invalid_argument, Result, ok, err, ltb, leb, add_size, sub_size,
  if◌then◌else◌, Text, codes, text_eq, text_key, lookup, ℕ, ◌-◌, Bool, true, false, ◌&&◌, Option,
  none, some, List, [], ◌∷◌, ◌++◌, nat_eq,
}

pub data Request (D : Type 0) : Type 0 where
  adding : Block D → Request D
  extending : Text → Block D → Request D
  rolling_back : ℕ → Request D
  selecting : Text → Request D
  validating : Request D
  validating_fork : Text → Request D
  confirming : Block D → Request D
  marking : Text → Bool → Request D
  pruning : Request D
  asking_mark : Text → Request D
  asking_latest : Request D
  asking_size : Request D
  asking_chain : Request D
  asking_fork : Text → Request D

-- What a request shows: an exception, a Boolean, a number, the latest block, some blocks, or nothing.
pub data Response (D : Type 0) : Type 0 where
  raised : Exception → Response D
  yes_no : Bool → Response D
  shown_number : ℕ → Response D
  newest : Option (Block D) → Response D
  shown_blocks : Option (List (Block D)) → Response D
  silent : Response D

pub record Book (D : Type 0) : Type 0 where
  pub chain : List (Block D)
  pub height : ℕ
  pub tip : Text
  pub marks : Text → Bool
  pub forks : Text → Option (List (Block D))

module _ {D : Type 0} where
  abbrev pub after_adding : Ledger D → Result (Ledger D) → Ledger D × Response D
  after_adding l (ok new) = (new, silent)
  after_adding l (err e) = (l, raised e)

  abbrev pub judged : Ledger D × Bool → Ledger D × Response D
  judged (new, verdict) = (new, yes_no verdict)

  abbrev pub fork_of : Option (List (Block D)) → List (Block D)
  fork_of o = elim o [ none ↦ [] | some f ↦ f ]

  abbrev pub newest_of : List (Block D) → Option (Block D)
  newest_of c = elim c [ [] ↦ none | b ∷ bs ↦ some (last_or b bs) ]

  -- A function with another value at one text.
  abbrev pub with_fork :
      Text → List (Block D) → (Text → Option (List (Block D))) → Text → Option (List (Block D))
  with_fork t f forks u = if text_eq t u then some f else forks u

  abbrev pub long_enough : ℕ → Option (List (Block D)) → Option (List (Block D))
  long_enough limit none = none
  long_enough limit (some f) = if ltb (length f) limit then none else some f

  -- What is left of a ledger without its bookkeeping.
  abbrev pub book_of : Ledger D → Book D
  book_of l = record {
    chain = l.chain;
    height = l.current_block_number;
    tip = l.current_chain_tip_hash;
    marks = λ h. is_block_confirmed h l;
    forks = λ t. lookup t l.forks;
  }

module _ {D : Type 0} ⦃p : Platform D⦄ where
  unfoldable pub serve : Request D → Ledger D → Ledger D × Response D
  serve (adding b) l = after_adding l (add_block b l)
  serve (extending t b) l = (add_fork_block t b l, silent)
  serve (rolling_back n) l = judged (rollback_chain n l)
  serve (selecting t) l = judged (select_fork t l)
  serve validating l = judged (validate_chain l)
  serve (validating_fork t) l = judged (validate_fork t l)
  serve (confirming b) l = (l, yes_no (confirm_block b l))
  serve (marking h c) l = (set_block_confirmation h c l, silent)
  serve pruning l = (prune_forks l, silent)
  serve (asking_mark h) l = (l, yes_no (is_block_confirmed h l))
  serve asking_latest l = (l, newest (get_latest_block l))
  serve asking_size l = (l, shown_number (get_blockchain_length l))
  serve asking_chain l = (l, shown_blocks (some (get_chain l)))
  serve (asking_fork t) l = (l, shown_blocks (lookup t (get_forks l)))

  unfoldable pub serve_all : List (Request D) → Ledger D → List (Response D)
  serve_all [] l = []
  serve_all (q ∷ qs) l = let (new, response) = serve q l in response ∷ serve_all qs new

  -- The specification of the two requests on a fork that may be missing.
  abbrev pub select_in : Option (List (Block D)) → Book D → Book D × Response D
  select_in none s = (s, yes_no false)
  select_in (some f) s = (
    record s {
      chain = s.chain ++ f;
      height = length (s.chain ++ f);
      tip = back_hash (s.chain ++ f);
    },
    yes_no true,
  )

  abbrev pub validate_in : Text → Option (List (Block D)) → Book D → Book D × Response D
  validate_in t none s = (s, yes_no false)
  validate_in t (some f) s =
      let (checked, valid) = validate_blocks f in
      (record s { forks = with_fork t checked s.forks }, yes_no valid)

  unfoldable pub consult : Request D → Book D → Book D × Response D
  consult (adding b) s =
      if text_eq b.previous_block_hash s.tip
      then (
        record s { chain = s.chain ++ (b ∷ []); height = add_size s.height 1; tip = b.block_hash },
        silent,
      )
      else (s, raised (invalid_argument (codes "Block does not fit the current chain tip!")))
  consult (extending t b) s =
      (record s { forks = with_fork t (fork_of (s.forks t) ++ (b ∷ [])) s.forks }, silent)
  consult (rolling_back n) s =
      if leb (length s.chain) n
      then (s, yes_no false)
      else (let rest = take (length s.chain - n) s.chain in
          (
            record s { chain = rest; height = sub_size s.height n; tip = back_hash rest },
            yes_no true,
          ))
  consult (selecting t) s = select_in (s.forks t) s
  consult validating s =
      let (checked, valid) = validate_blocks s.chain in (record s { chain = checked }, yes_no valid)
  consult (validating_fork t) s = validate_in t (s.forks t) s
  consult (confirming b) s = (s, yes_no (leb b.block_number s.height && verify_signatures b))
  consult (marking h c) s = (record s { marks = λ j. if text_eq h j then c else s.marks j }, silent)
  consult pruning s =
      (record s { forks = λ u. long_enough (sub_size s.height 10) (s.forks u) }, silent)
  consult (asking_mark h) s = (s, yes_no (s.marks h))
  consult asking_latest s = (s, newest (newest_of s.chain))
  consult asking_size s = (s, shown_number (length s.chain))
  consult asking_chain s = (s, shown_blocks (some s.chain))
  consult (asking_fork t) s = (s, shown_blocks (s.forks t))

  unfoldable pub consult_all : List (Request D) → Book D → List (Response D)
  consult_all [] s = []
  consult_all (q ∷ qs) s = let (new, response) = consult q s in response ∷ consult_all qs new
