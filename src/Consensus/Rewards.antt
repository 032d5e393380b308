-- ===== src/Consensus/Rewards.antt =====
-- `Consensus::distribute_rewards` over the validators that the constructor lists.
use mathlib.Core.Option
use native.Mathlib.Decide.{dec_lt}
use synledger_core.Consensus.{
  rewarded, reward_validator, numbers_from, new_consensus, distribute_rewards,
}
use synledger_core.Double.{Double}
use synledger_core.Engine.{PoSygEngine, get_participant, put_participant}
use synledger_core.Prelude.{
  length, get_elem?, set, length-set, get_elem?-set, get_elem?-some, ok, ◌==◌, if◌then◌else◌,
  ==_iff, ℕ, ◌<◌, ◌≡◌, arith, out_of_range, err, ltb, leb, zero, suc, ◌+◌, ◌≤◌, refl, ◌&&◌,
  get_elem?-none,
}
use synledger_core.Prelude.Int.{ℤ}

module _ {D : Type 0} ⦃d : Double D⦄ where
  -- One validator is rewarded, and nobody else.
  reward_validator_lem :
      (reward : D) (i : ℕ) (e : PoSygEngine D)
      → i < length e.participants
      → (new : PoSygEngine D) × (reward_validator reward i e ≡ ok new)
        × (length new.participants ≡ length e.participants)
        × ((j : ℕ)
            → get_elem? new.participants j ≡ (
                if i == j
                then Option.map (rewarded reward) (get_elem? e.participants j)
                else get_elem? e.participants j))
  unfolding reward_validator get_participant put_participant
  reward_validator_lem reward i e h =
      let (x, got) = get_elem?-some e.participants i h in
      (
        record e { participants = set e.participants i (rewarded reward x) },
        ground (arith, got),
        length-set e.participants i (rewarded reward x),
        λ j. ground (arith, got, ==_iff i j, get_elem?-set e.participants i j (rewarded reward x)),
      )

  -- The loop over `n` validators from `i` on.
  distribute_rewards-from :
      (reward : D) (n i : ℕ) (e : PoSygEngine D)
      → i + n ≤ length e.participants
      → (new : PoSygEngine D) × (distribute_rewards reward (numbers_from n i) e ≡ ok new)
        × ((j : ℕ)
            → get_elem? new.participants j ≡ (
                if leb i j && ltb j (i + n)
                then Option.map (rewarded reward) (get_elem? e.participants j)
                else get_elem? e.participants j))
  unfolding numbers_from distribute_rewards
  distribute_rewards-from reward zero i e h = (e, refl, λ j. ground arith)
  distribute_rewards-from reward (suc n) i e h =
      let (one, done, size, at_i) = reward_validator_lem reward i e (omega arith) in
      let (new, rest, there) = distribute_rewards-from reward n (i + 1) one (omega (arith, size)) in
      (new, rw (done, distribute_rewards) rest, λ j. ground (arith, at_i j, there j))

  -- With as many participants as validators or more, every validator's participant gets the reward
  -- once, and the other participants are left alone.
  pub distribute_rewards-once :
      (now : ℤ) (n : ℕ) (reward : D) (e : PoSygEngine D)
      → n ≤ length e.participants
      → (new : PoSygEngine D) × (distribute_rewards reward
            (new_consensus {D = D} now n).validators
            e
          ≡ ok new)
        × ((j : ℕ)
            → get_elem? new.participants j ≡ (
                if ltb j n
                then Option.map (rewarded reward) (get_elem? e.participants j)
                else get_elem? e.participants j))
  unfolding new_consensus
  distribute_rewards-once now n reward e h =
      let (new, done, each) = distribute_rewards-from reward n 0 e (omega arith) in
      (new, done, λ j. ground (arith, each j))

  reward_validator-none :
      (reward : D) (i : ℕ) (e : PoSygEngine D)
      → length e.participants ≤ i
      → reward_validator reward i e ≡ err out_of_range
  unfolding reward_validator get_participant
  reward_validator-none reward i e h = ground (arith, get_elem?-none e.participants i h)

  -- With fewer participants than validators the loop throws.
  distribute_rewards-short :
      (reward : D) (n i : ℕ) (e : PoSygEngine D)
      → i ≤ length e.participants
      → length e.participants < i + n
      → distribute_rewards reward (numbers_from n i) e ≡ err out_of_range
  unfolding numbers_from distribute_rewards
  distribute_rewards-short reward zero i e h k = absurd (omega arith)
  distribute_rewards-short reward (suc n) i e h k = elim (dec_lt i (length e.participants)) [
    | yes inside ↦
        let (one, done, size, _) = reward_validator_lem reward i e inside in
        rw (done, distribute_rewards)
          (distribute_rewards-short reward n (i + 1) one (omega (arith, size))
            (omega (arith, size)))
    | no outside ↦ rw (reward_validator-none reward i e (omega arith), distribute_rewards)
  ]

  -- With more validators than participants the distribution throws.
  pub distribute_rewards-throws :
      (now : ℤ) (n : ℕ) (reward : D) (e : PoSygEngine D)
      → length e.participants < n
      → distribute_rewards reward (new_consensus {D = D} now n).validators e ≡ err out_of_range
  unfolding new_consensus
  distribute_rewards-throws now n reward e h =
      distribute_rewards-short reward n 0 e (omega arith) (omega arith)
