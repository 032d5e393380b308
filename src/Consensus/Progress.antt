-- ===== src/Consensus/Progress.antt =====
-- `handle_multisig` comes to an end, however its rounds interleave.
use Prim.Native.Nat.{min}
use synledger_core.Block.{Block, get_signature_count}
use synledger_core.Consensus.Multisig.{
  Step, skip, enter, lock, sign, store, unlock, Reach, here, next, Mutex, unlocked, signing,
  storing, leaving, IsDone, handle_multisig-count, Collection, start_collection, sign_in_turn,
  length-numbers_from,
}
use synledger_core.Prelude.{
  length, set, length-append, Bool-cases, ℕ, suc, ◌+◌, ◌*◌, ◌≤◌, ◌<◌, ◌≡◌, refl, ap, ◌⊎◌, inl, inr,
  List, [], ◌∷◌, arith,
}

-- What there is to do: five steps for a round that has not read the flag, four for one that waits for the mutex,
-- and what the round that holds it has to do.
abbrev inside_left : Mutex → ℕ
inside_left unlocked = 0
inside_left (signing i) = 3
inside_left storing = 2
inside_left leaving = 1

module _ {D : Type 0} where
  -- A number of steps, one after the other.
  pub data Steps (start : Collection D) : ℕ → Collection D → Type 0 where
    no_step : Steps start 0 start
    one_more :
        {k : ℕ} {c new : Collection D} → Steps start k c → Step c new → Steps start (suc k) new

  pub Steps-Reach : {start c : Collection D} {k : ℕ} → Steps start k c → Reach start c
  Steps-Reach no_step = here
  Steps-Reach (one_more s st) = next (Steps-Reach s) st

  -- What is left of all rounds.
  abbrev pub left : Collection D → ℕ
  left c = 5 * length c.waiting + 4 * length c.inside + inside_left c.mtx

  Step-left : {c new : Collection D} → Step c new → left new < left c
  unfolding sign_in_turn
  Step-left (skip before after i {c} e flag) =
      omega (arith, ap length e, length-append before (i ∷ after), length-append before after)
  Step-left (enter before after i {c} e flag) =
      omega (arith, ap length e, length-append before (i ∷ after), length-append before after)
  Step-left (lock before after i {c} e open_now) = omega (
    arith,
    ap length e,
    ap inside_left open_now,
    length-append before (i ∷ after),
    length-append before after,
  )
  Step-left (sign i {c} e) = ground (arith, ap inside_left e)
  Step-left (store {c} e) = omega (arith, ap inside_left e)
  Step-left (unlock {c} e) = omega (arith, ap inside_left e)

  Steps-left : {start c : Collection D} {k : ℕ} → Steps start k c → k + left c ≤ left start
  Steps-left no_step = omega arith
  Steps-left (one_more s st) = omega (arith, Steps-left s, Step-left st)

  -- While a round is left, some step can be taken.
  can_go_on : (c : Collection D) → IsDone c ⊎ ((new : Collection D) × Step c new)
  can_go_on c = go c.mtx c.waiting c.inside refl refl refl
    where
      go :
          (m : Mutex) (waiting inside : List ℕ)
          → c.mtx ≡ m
          → c.waiting ≡ waiting
          → c.inside ≡ inside
          → IsDone c ⊎ ((new : Collection D) × Step c new)
      go (signing i) waiting inside m w n = inr (_, sign i m)
      go storing waiting inside m w n = inr (_, store m)
      go leaving waiting inside m w n = inr (_, unlock m)
      go unlocked [] [] m w n = inl (record { all_read = w; all_through = n; open_again = m })
      go unlocked [] (i ∷ rest) m w n = inr (_, lock [] rest i n m)
      go unlocked (i ∷ rest) inside m w n = elim (Bool-cases c.block_signed) [
        | inl set ↦ inr (_, skip [] rest i w set)
        | inr clear ↦ inr (_, enter [] rest i w clear)
      ]

  -- With `n` validators no interleaving on an unsigned block takes more than 5 n steps, and whatever it has done
  -- so far, another step can be taken, or all rounds are done, the mutex is free, and the copy has one signature
  -- for each validator, up to the number it needs.
  pub handle_multisig-finishes :
      (n k : ℕ) (b : Block D) {c : Collection D}
      → b.validator_signatures ≡ []
      → Steps (start_collection n b) k c
      → (k ≤ 5 * n)
        × ((IsDone c × (get_signature_count c.block_copy ≡ min n b.required_signatures))
            ⊎ ((new : Collection D) × Step c new))
  unfolding start_collection
  handle_multisig-finishes n k b {c} none_yet s = (
    omega (arith, Steps-left s, length-numbers_from n 0),
    elim (can_go_on c) [
      | inl done ↦ inl (done, (handle_multisig-count n b none_yet (Steps-Reach s) done).0)
      | inr step ↦ inr step
    ],
  )
