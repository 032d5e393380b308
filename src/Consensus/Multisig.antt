-- ===== src/Consensus/Multisig.antt =====
-- `Consensus::handle_multisig`: the rounds of its parallel loop, in any interleaving. A round reads the
-- atomic flag; then it locks the mutex, signs the copy, sets the flag if that was refused, and unlocks the
-- mutex, one step each.
use Prim.Native.Nat.{min}
use synledger_core.Block.{Block, get_signature_count, sign_block, verify_signatures}
use synledger_core.Consensus.{numbers_from}
use synledger_core.Prelude.{
  length, length-append, if◌then◌else◌, codes, show_nat, ℕ, ◌+◌, ◌≤◌, ◌≡◌, ap, ◌⊎◌, Bool, true,
  false, not, List, [], ◌∷◌, ◌++◌, arith, Bool-cases, zero, suc, refl, ◌↔◌, inl, inr,
}

-- The mutex: nobody holds it, or a round that is to sign, to set the flag, or to unlock it.
pub data Mutex : Type 0 where
  unlocked : Mutex
  signing : ℕ → Mutex
  storing : Mutex
  leaving : Mutex

-- The rounds that have not read the flag, those that have found it clear and wait for the mutex, the
-- mutex, the copy of the block, and the flag.
pub record Collection (D : Type 0) : Type 0 where
  pub waiting : List ℕ
  pub inside : List ℕ
  pub mtx : Mutex
  pub block_copy : Block D
  pub block_signed : Bool

-- A round that holds the mutex and has not signed yet.
abbrev unsigned : Mutex → ℕ
unsigned unlocked = 0
unsigned (signing i) = 1
unsigned storing = 0
unsigned leaving = 0

pub length-numbers_from : (n i : ℕ) → length (numbers_from n i) ≡ n
unfolding numbers_from
length-numbers_from zero i = refl
length-numbers_from (suc n) i = ap suc (length-numbers_from n (i + 1))

module _ {D : Type 0} where
  unfoldable pub start_collection : ℕ → Block D → Collection D
  start_collection num_validators block = record {
    waiting = numbers_from num_validators 0;
    inside = [];
    mtx = unlocked;
    block_copy = block;
    block_signed = false;
  }

  -- The call of `sign_block` by round `i`, and the test of its answer.
  unfoldable pub sign_in_turn : ℕ → Collection D → Collection D
  sign_in_turn i c =
      let (signed, is_signed) = sign_block (codes "Signature_" ++ show_nat i) c.block_copy in
      record c { block_copy = signed; mtx = if not is_signed then storing else leaving }

  pub data Step : Collection D → Collection D → Type 0 where
    skip :
        (before after : List ℕ) (i : ℕ) {c : Collection D}
        → c.waiting ≡ before ++ (i ∷ after)
        → c.block_signed ≡ true
        → Step c (record c { waiting = before ++ after })
    enter :
        (before after : List ℕ) (i : ℕ) {c : Collection D}
        → c.waiting ≡ before ++ (i ∷ after)
        → c.block_signed ≡ false
        → Step c (record c { waiting = before ++ after; inside = i ∷ c.inside })
    lock :
        (before after : List ℕ) (i : ℕ) {c : Collection D}
        → c.inside ≡ before ++ (i ∷ after)
        → c.mtx ≡ unlocked
        → Step c (record c { inside = before ++ after; mtx = signing i })
    sign : (i : ℕ) {c : Collection D} → c.mtx ≡ signing i → Step c (sign_in_turn i c)
    store :
        {c : Collection D}
        → c.mtx ≡ storing
        → Step c (record c { block_signed = true; mtx = leaving })
    unlock : {c : Collection D} → c.mtx ≡ leaving → Step c (record c { mtx = unlocked })

  pub data Reach (start : Collection D) : Collection D → Type 0 where
    here : Reach start start
    next : {c new : Collection D} → Reach start c → Step c new → Reach start new

  -- The rounds that may still sign.
  abbrev pending : Collection D → ℕ
  pending c = length c.waiting + length c.inside + unsigned c.mtx

  -- With `n` rounds in all: the copy never has more signatures than it needs, the flag is set, or about to be,
  -- only once it has them, and until then every finished round has left a signature.
  record IsSound (n required : ℕ) (c : Collection D) : Type 0 where
    needs : c.block_copy.required_signatures ≡ required
    most : get_signature_count c.block_copy ≤ required
    rounds : get_signature_count c.block_copy + pending c ≤ n
    full : c.block_signed ≡ true → get_signature_count c.block_copy ≡ required
    refused : c.mtx ≡ storing → get_signature_count c.block_copy ≡ required
    signed :
        (get_signature_count c.block_copy ≡ required)
        ⊎ (get_signature_count c.block_copy + pending c ≡ n)

  Step-IsSound :
      {n required : ℕ} {c new : Collection D}
      → Step c new
      → IsSound n required c
      → IsSound n required new
  unfolding sign_in_turn sign_block
  Step-IsSound (skip before after i {c} e flag) s = ground (
    arith,
    s.needs,
    s.most,
    s.rounds,
    s.full,
    s.refused,
    s.signed,
    ap length e,
    length-append before (i ∷ after),
    length-append before after,
  )
  Step-IsSound (enter before after i {c} e flag) s = ground (
    arith,
    s.needs,
    s.most,
    s.rounds,
    s.full,
    s.refused,
    s.signed,
    ap length e,
    length-append before (i ∷ after),
    length-append before after,
  )
  Step-IsSound (lock before after i {c} e open_now) s = ground (
    arith,
    s.needs,
    s.most,
    s.rounds,
    s.full,
    s.signed,
    ap unsigned open_now,
    ap length e,
    length-append before (i ∷ after),
    length-append before after,
  )
  Step-IsSound (sign i {c} e) s = ground (
    arith,
    s.needs,
    s.most,
    s.rounds,
    s.full,
    s.signed,
    ap unsigned e,
    length-append c.block_copy.validator_signatures ((codes "Signature_" ++ show_nat i) ∷ []),
  )
  Step-IsSound (store {c} e) s =
      ground (arith, s.needs, s.most, s.rounds, s.refused e, s.signed, ap unsigned e)
  Step-IsSound (unlock {c} e) s =
      ground (arith, s.needs, s.most, s.rounds, s.full, s.signed, ap unsigned e)

  start-IsSound :
      (n : ℕ) (b : Block D)
      → b.validator_signatures ≡ []
      → IsSound n b.required_signatures (start_collection n b)
  unfolding start_collection
  start-IsSound n b none_yet = ground (arith, length-numbers_from n 0)

  Reach-IsSound :
      {n required : ℕ} {start c : Collection D}
      → IsSound n required start
      → Reach start c
      → IsSound n required c
  Reach-IsSound s here = s
  Reach-IsSound s (next r st) = Step-IsSound st (Reach-IsSound s r)

  -- All rounds are done, and the mutex is free.
  pub record IsDone (c : Collection D) : Type 0 where
    pub all_read : c.waiting ≡ []
    pub all_through : c.inside ≡ []
    pub open_again : c.mtx ≡ unlocked

  -- However the rounds are interleaved, when all of them are done the copy of an unsigned block has
  -- one signature for each validator, up to the number it needs; so it is verified exactly when there
  -- are as many validators as that.
  pub handle_multisig-count :
      (n : ℕ) (b : Block D) {c : Collection D}
      → b.validator_signatures ≡ []
      → Reach (start_collection n b) c
      → IsDone c
      → (get_signature_count c.block_copy ≡ min n b.required_signatures)
        × ((verify_signatures c.block_copy ≡ true) ↔ (b.required_signatures ≤ n))
  unfolding verify_signatures
  handle_multisig-count n b {c} none_yet r done =
      let s = Reach-IsSound (start-IsSound n b none_yet) r in
      ground (
        arith,
        s.needs,
        s.most,
        s.rounds,
        s.signed,
        ap length done.all_read,
        ap length done.all_through,
        ap unsigned done.open_again,
      )

  -- In every interleaving, at every moment, the copy has no more signatures than it needs, and the
  -- flag is set only when it has them all.
  pub handle_multisig-bound :
      (n : ℕ) (b : Block D) {c : Collection D}
      → b.validator_signatures ≡ []
      → Reach (start_collection n b) c
      → (get_signature_count c.block_copy ≤ b.required_signatures)
        × ((c.block_signed ≡ false) ⊎ (get_signature_count c.block_copy ≡ b.required_signatures))
  handle_multisig-bound n b {c} none_yet r =
      let s = Reach-IsSound (start-IsSound n b none_yet) r in
      elim (Bool-cases c.block_signed) [
        | inl set_now ↦ (s.most, inr (s.full set_now))
        | inr clear ↦ (s.most, inl clear)
      ]
