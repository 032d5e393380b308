-- ===== src/Ledger/Forks.antt =====
-- The three maps of forks (`add_fork_block`).
use synledger_core.Block.{Block}
use synledger_core.Ledger.{Ledger, add_fork_block, open_fork, extend_fork, fork_at, value_at}
use synledger_core.Prelude.{
  ℕ, ◌+◌, ◌*◌, ◌%◌, ◌≡◌, false, some, List, [], ◌∷◌, ◌++◌, arith, if◌then◌else◌, size_mod, add_size,
  length, length-append, Text, text_eq, text_eq_iff, nat_eq, text_key, lookup, lookup-insert,
  lookup-insert_self, contains-eq-lookup, contains-lookup,
}

difficulty_step : (d n k : ℕ) → k ≡ n + 1 → add_size ((d * n) % size_mod) d ≡ (d * k) % size_mod
difficulty_step d n k e = rw e (omega arith)

module _ {D : Type 0} where
  -- The length and the difficulty that are kept for a fork are those of its blocks.
  abbrev pub IsCounted : Ledger D → Type 0
  IsCounted l =
      (t : Text) (f : List (Block D))
      → lookup t l.forks ≡ some f
      → (lookup t l.fork_lengths ≡ some (length f))
        × (lookup t l.fork_difficulties ≡ some ((l.difficulty * length f) % size_mod))

  open_fork-IsCounted : (t : Text) (l : Ledger D) → IsCounted l → IsCounted (open_fork t l)
  unfolding open_fork
  open_fork-IsCounted t l c u f e = ground (
    arith,
    c u f,
    lookup-insert t u [] l.forks,
    lookup-insert t u 0 l.fork_lengths,
    lookup-insert t u 0 l.fork_difficulties,
  )

  open_fork-lookup :
      (t : Text) (l : Ledger D) → lookup t (open_fork t l).forks ≡ some (fork_at t l.forks)
  unfolding open_fork
  open_fork-lookup t l = ground (
    arith,
    contains-lookup t l.forks,
    contains-eq-lookup t l.forks,
    lookup-insert_self t [] l.forks,
  )

  extend_fork-IsCounted :
      (t : Text) (b : Block D) (l : Ledger D) (f : List (Block D))
      → lookup t l.forks ≡ some f
      → IsCounted l
      → IsCounted (extend_fork t b l)
  unfolding extend_fork
  extend_fork-IsCounted t b l f known c u g e = ground (
    arith,
    c u g,
    c t f,
    text_eq_iff t u,
    length-append f (b ∷ []),
    difficulty_step l.difficulty (length f) (length g),
    lookup-insert t u (f ++ (b ∷ [])) l.forks,
    lookup-insert t u (length (f ++ (b ∷ []))) l.fork_lengths,
    lookup-insert t u (add_size (value_at t l.fork_difficulties) l.difficulty) l.fork_difficulties,
  )

  -- Adding a block to a fork keeps every fork's length and difficulty right.
  pub add_fork_block-IsCounted :
      (t : Text) (b : Block D) (l : Ledger D) → IsCounted l → IsCounted (add_fork_block t b l)
  unfolding add_fork_block
  add_fork_block-IsCounted t b l c =
      extend_fork-IsCounted t b (open_fork t l) (fork_at t l.forks) (open_fork-lookup t l)
        (open_fork-IsCounted t l c)

  lookup-extend_fork :
      (t u : Text) (b : Block D) (l : Ledger D) (f : List (Block D))
      → lookup t l.forks ≡ some f
      → lookup u (extend_fork t b l).forks
        ≡ (if text_eq t u then some (f ++ (b ∷ [])) else lookup u l.forks)
  unfolding extend_fork
  lookup-extend_fork t u b l f known =
      ground (arith, known, lookup-insert t u (f ++ (b ∷ [])) l.forks)

  lookup-open_fork_ne :
      (t u : Text) (l : Ledger D)
      → text_eq t u ≡ false
      → lookup u (open_fork t l).forks ≡ lookup u l.forks
  unfolding open_fork
  lookup-open_fork_ne t u l h = ground (arith, lookup-insert t u [] l.forks)

  -- The block goes to the end of its fork, new or old; the other forks stay.
  pub lookup-add_fork_block :
      (t u : Text) (b : Block D) (l : Ledger D)
      → lookup u (add_fork_block t b l).forks
        ≡ (if text_eq t u then some (fork_at t l.forks ++ (b ∷ [])) else lookup u l.forks)
  unfolding add_fork_block
  lookup-add_fork_block t u b l = ground (
    arith,
    lookup-extend_fork t u b (open_fork t l) (fork_at t l.forks) (open_fork-lookup t l),
    lookup-open_fork_ne t u l,
  )
