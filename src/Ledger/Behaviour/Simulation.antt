-- ===== src/Ledger/Behaviour/Simulation.antt =====
-- The class shows what the specification shows.
use synledger_core.Block.{Block}
use synledger_core.Ledger.{
  Ledger, add_block, add_fork_block, get_latest_block, rollback_chain, get_blockchain_length,
  select_fork, prune_forks, validate_chain, validate_blocks, validate_fork, genesis_block,
  new_ledger,
}
use synledger_core.Ledger.Behaviour.{
  Book, book_of, Request, adding, extending, rolling_back, selecting, validating, validating_fork,
  confirming, marking, pruning, asking_mark, asking_latest, asking_size, asking_chain, asking_fork,
  silent, yes_no, long_enough, serve, consult, serve_all, consult_all,
}
use synledger_core.Ledger.Bookkeeping.{prune_forks-IsCounted, validate_fork-IsCounted}
use synledger_core.Ledger.Confirmation.{
  is_block_confirmed-set, is_block_confirmed, confirm_block, set_block_confirmation,
}
use synledger_core.Ledger.Forks.{IsCounted, lookup-add_fork_block, add_fork_block-IsCounted}
use synledger_core.Ledger.Pruning.{prune_loop-lookup}
use synledger_core.Ledger.Refinement.Simulation.{Same, add_fork_block-Same, prune_forks-Same}
use synledger_core.Platform.{Platform}
use synledger_core.Prelude.{
  Text, text_key, lookup, insert, lookup-insert, ◌≡◌, nat_eq, sym, ap, ◌∙◌, false, none, some,
  length, leb, Bool-cases, Option-cases, sub_size, text_eq, ℕ, refl, inl, inr, arith, List, [], ◌∷◌,
}
use synledger_core.Prelude.Int.{ℤ}

module _ {D : Type 0} where
  book-eq :
      (l new : Ledger D) (s : Book D)
      → Same l new
      → ((t : Text) → s.forks t ≡ lookup t new.forks)
      → s.chain ≡ l.chain
      → s.height ≡ l.current_block_number
      → s.tip ≡ l.current_chain_tip_hash
      → ((h : Text) → s.marks h ≡ is_block_confirmed h l)
      → s ≡ book_of new
  unfolding is_block_confirmed
  book-eq l new s same forks chain height tip marks = λ i. record {
    chain = (chain ∙ sym same.chain) i;
    height = (height ∙ sym same.height) i;
    tip = (tip ∙ sym same.tip) i;
    marks = λ h.
        (marks h ∙ ap (λ m. elim (lookup h m) [ none ↦ false | some c ↦ c ]) (sym same.marks)) i;
    forks = λ t. forks t i;
  }

  prune_forks-long_enough :
      (l : Ledger D) (u : Text)
      → IsCounted l
      → long_enough (sub_size l.current_block_number 10) (lookup u l.forks)
        ≡ lookup u (prune_forks l).forks
  unfolding prune_forks
  prune_forks-long_enough l u c =
      let limit = sub_size l.current_block_number 10 in
      elim (Option-cases (lookup u l.forks)) [
        | inl missing ↦ ground (arith, prune_loop-lookup limit l.fork_lengths l.forks u)
        | inr (f, found) ↦ ground (arith, prune_loop-lookup limit l.fork_lengths l.forks u, c u f)
      ]

module _ {D : Type 0} ⦃p : Platform D⦄ where
  -- The specification, asked about what is left of a ledger, does what the ledger does.
  abbrev pub Agrees : Request D → Ledger D → Type 0
  Agrees q l = consult q (book_of l) ≡ (book_of (serve q l).0, (serve q l).1)

  adding-Agrees : (b : Block D) (l : Ledger D) → Agrees (adding b) l
  unfolding consult serve add_block is_block_confirmed
  adding-Agrees b l = elim (Bool-cases (text_eq b.previous_block_hash l.current_chain_tip_hash)) [
    | inl fits ↦ rw fits refl
    | inr other ↦ rw other refl
  ]

  extending-Agrees : (t : Text) (b : Block D) (l : Ledger D) → Agrees (extending t b) l
  unfolding consult serve
  extending-Agrees t b l =
      ap (λ s. (s, silent))
        (book-eq l (add_fork_block t b l) _ (add_fork_block-Same t b l)
          (λ u. sym (lookup-add_fork_block t u b l)) refl refl refl (λ h. refl))

  rolling_back-Agrees : (n : ℕ) (l : Ledger D) → Agrees (rolling_back n) l
  unfolding consult serve rollback_chain is_block_confirmed
  rolling_back-Agrees n l = elim (Bool-cases (leb (length l.chain) n)) [
    | inl all ↦ rw all refl
    | inr fewer ↦ rw fewer refl
  ]

  selecting-Agrees : (t : Text) (l : Ledger D) → Agrees (selecting t) l
  unfolding consult serve select_fork is_block_confirmed
  selecting-Agrees t l = elim (Option-cases (lookup t l.forks)) [
    | inl missing ↦ rw (missing, serve, select_fork) refl
    | inr (f, found) ↦ rw (found, serve, select_fork) refl
  ]

  validating_fork-Agrees : (t : Text) (l : Ledger D) → Agrees (validating_fork t) l
  unfolding consult serve validate_fork is_block_confirmed
  validating_fork-Agrees t l = elim (Option-cases (lookup t l.forks)) [
    | inl missing ↦ rw (missing, serve, validate_fork) refl
    | inr (f, found) ↦
        rw (found, serve, validate_fork)
          (ap (λ s. (s, yes_no (validate_blocks f).1))
            (book-eq l (record l { forks = insert t (validate_blocks f).0 l.forks }) _
              record { chain = refl; height = refl; tip = refl; marks = refl }
              (λ u. sym (lookup-insert t u (validate_blocks f).0 l.forks)) refl refl refl
              (λ h. refl)))
  ]

  pruning-Agrees : (l : Ledger D) → IsCounted l → Agrees pruning l
  unfolding consult serve
  pruning-Agrees l c =
      ap (λ s. (s, silent))
        (book-eq l (prune_forks l) _ (prune_forks-Same l) (λ u. prune_forks-long_enough l u c) refl
          refl refl (λ h. refl))

  serve-Agrees : (q : Request D) (l : Ledger D) → IsCounted l → Agrees q l
  unfolding consult serve validate_chain confirm_block set_block_confirmation is_block_confirmed
      get_latest_block get_blockchain_length
  serve-Agrees (adding b) l c = adding-Agrees b l
  serve-Agrees (extending t b) l c = extending-Agrees t b l
  serve-Agrees (rolling_back n) l c = rolling_back-Agrees n l
  serve-Agrees (selecting t) l c = selecting-Agrees t l
  serve-Agrees validating l c = refl
  serve-Agrees (validating_fork t) l c = validating_fork-Agrees t l
  serve-Agrees (confirming b) l c = refl
  serve-Agrees (marking h v) l c =
      ap (λ s. (s, silent))
        (λ i. record (book_of l) { marks = λ j. sym (is_block_confirmed-set h j v l) i })
  serve-Agrees pruning l c = pruning-Agrees l c
  serve-Agrees (asking_mark h) l c = refl
  serve-Agrees asking_latest l c = refl
  serve-Agrees asking_size l c = refl
  serve-Agrees asking_chain l c = refl
  serve-Agrees (asking_fork t) l c = refl

  add_block-IsCounted :
      (b : Block D) (l : Ledger D) → IsCounted l → IsCounted (serve (adding b) l).0
  unfolding serve add_block
  add_block-IsCounted b l c =
      elim (Bool-cases (text_eq b.previous_block_hash l.current_chain_tip_hash)) [
        | inl fits ↦ rw (fits, serve, add_block) c
        | inr other ↦ rw (other, serve, add_block) c
      ]

  rollback_chain-IsCounted : (n : ℕ) (l : Ledger D) → IsCounted l → IsCounted (rollback_chain n l).0
  unfolding rollback_chain
  rollback_chain-IsCounted n l c = elim (Bool-cases (leb (length l.chain) n)) [
    | inl all ↦ rw (all, rollback_chain) c
    | inr fewer ↦ rw (fewer, rollback_chain) c
  ]

  select_fork-IsCounted : (t : Text) (l : Ledger D) → IsCounted l → IsCounted (select_fork t l).0
  unfolding select_fork
  select_fork-IsCounted t l c = elim (Option-cases (lookup t l.forks)) [
    | inl missing ↦ rw (missing, select_fork) c
    | inr (f, found) ↦ rw (found, select_fork) c
  ]

  -- No request of the class loses count of a fork.
  serve-IsCounted : (q : Request D) (l : Ledger D) → IsCounted l → IsCounted (serve q l).0
  unfolding serve validate_chain set_block_confirmation
  serve-IsCounted (adding b) l c = add_block-IsCounted b l c
  serve-IsCounted (extending t b) l c = add_fork_block-IsCounted t b l c
  serve-IsCounted (rolling_back n) l c = rollback_chain-IsCounted n l c
  serve-IsCounted (selecting t) l c = select_fork-IsCounted t l c
  serve-IsCounted validating l c = c
  serve-IsCounted (validating_fork t) l c = validate_fork-IsCounted t l c
  serve-IsCounted (confirming b) l c = c
  serve-IsCounted (marking h v) l c = c
  serve-IsCounted pruning l c = prune_forks-IsCounted l c
  serve-IsCounted (asking_mark h) l c = c
  serve-IsCounted asking_latest l c = c
  serve-IsCounted asking_size l c = c
  serve-IsCounted asking_chain l c = c
  serve-IsCounted (asking_fork t) l c = c

  serve_all-consult_all :
      (qs : List (Request D)) (l : Ledger D)
      → IsCounted l
      → serve_all qs l ≡ consult_all qs (book_of l)
  unfolding serve_all consult_all
  serve_all-consult_all [] l c = refl
  serve_all-consult_all (q ∷ qs) l c =
      ap (λ r. (serve q l).1 ∷ r) (serve_all-consult_all qs (serve q l).0 (serve-IsCounted q l c))
      ∙ ap (λ r. r.1 ∷ consult_all qs r.0) (sym (serve-Agrees q l c))

  new_ledger-IsCounted : (now : ℤ) (d : ℕ) → IsCounted {D = D} (new_ledger now d)
  unfolding new_ledger lookup
  new_ledger-IsCounted now d t f e = absurd (cc)

  -- From the constructor on, any requests get from the class the responses that they get from the
  -- specification, whose first state is the genesis block at height 0, with no marks and no forks.
  pub serve_all-new_ledger :
      (now : ℤ) (difficulty : ℕ) (qs : List (Request D))
      → serve_all qs (new_ledger now difficulty)
        ≡ consult_all qs (record {
          chain = genesis_block {D = D} now ∷ [];
          height = 0;
          tip = (genesis_block {D = D} now).block_hash;
          marks = λ h. false;
          forks = λ t. none;
        })
  unfolding new_ledger is_block_confirmed lookup
  serve_all-new_ledger now difficulty qs =
      serve_all-consult_all qs (new_ledger now difficulty) (new_ledger-IsCounted now difficulty)
