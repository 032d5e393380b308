-- ===== src/Consensus/Orders.antt =====
-- The parallel loops of `validate_and_slash` and `distribute_rewards` in any order of their rounds.
use synledger_core.Consensus.{
  rewarded, reward_validator, numbers_from, slash_validator, slash_if_suspicious,
  validate_and_slash, distribute_rewards, World, settle, after_settling,
}
use synledger_core.Double.{Double}
use synledger_core.Engine.{PoSygEngine, get_participant, put_participant}
use synledger_core.Participant.{Participant, apply_slash, detect_suspicious_behavior}
use synledger_core.Prelude.{
  length, get_elem?-some, ok, if◌then◌else◌, ℕ, ◌<◌, ◌≡◌, List, arith, count, zero, suc, ◌+◌, leb,
  ltb, ◌&&◌, ==_iff, get_elem?, All, length-set, Result, Option-cases, ◌≤◌, refl, sym, ap, ◌∙◌, inl,
  inr, [], ◌∷◌, ◌>>=◌, set-same,
}
use synledger_core.Schedules.{IsSchedule, run_round, run_rounds, IsSchedule-below, run_rounds-eq}

-- The validators that the constructor lists are each there once.
count-numbers_from :
    (n i j : ℕ) → count j (numbers_from n i) ≡ (if leb i j && ltb j (i + n) then 1 else 0)
unfolding numbers_from
count-numbers_from zero i j = ground arith
count-numbers_from (suc n) i j = ground (arith, count-numbers_from n (i + 1) j, ==_iff i j)

pub numbers_from-IsSchedule : (n : ℕ) → IsSchedule n (numbers_from n 0)
numbers_from-IsSchedule n j = ground (arith, count-numbers_from n 0 j)

module _ {D : Type 0} where
  length-run_round :
      (body : Participant D → Participant D) (i : ℕ) (xs : List (Participant D))
      → length (run_round (λ k. body) i xs) ≡ length xs
  unfolding run_round
  length-run_round body i xs = elim (Option-cases (get_elem? xs i)) [
    | inl missing ↦ rw (missing, run_round) refl
    | inr (x, found) ↦ rw (found, run_round) (length-set xs i (body x))
  ]

  pub length-run_rounds :
      (body : Participant D → Participant D) (order : List ℕ) (xs : List (Participant D))
      → length (run_rounds (λ k. body) order xs) ≡ length xs
  unfolding run_rounds
  length-run_rounds body [] xs = refl
  length-run_rounds body (i ∷ order) xs =
      length-run_rounds body order (run_round (λ k. body) i xs) ∙ length-run_round body i xs

  abbrev pub with : PoSygEngine D → List (Participant D) → PoSygEngine D
  with e xs = record e { participants = xs }

module _ {D : Type 0} ⦃d : Double D⦄ where
  abbrev pub slashed_if_suspicious : Participant D → Participant D
  slashed_if_suspicious x = if detect_suspicious_behavior x then apply_slash x else x

  reward_validator-run_round :
      (reward : D) (i : ℕ) (e : PoSygEngine D)
      → i < length e.participants
      → reward_validator reward i e
        ≡ ok (with e (run_round (λ k. rewarded reward) i e.participants))
  unfolding reward_validator get_participant put_participant run_round
  reward_validator-run_round reward i e h =
      let (x, got) = get_elem?-some e.participants i h in ground (arith, got)

  slash_if_suspicious-run_round :
      (i : ℕ) (e : PoSygEngine D)
      → i < length e.participants
      → slash_if_suspicious i e
        ≡ ok (with e (run_round (λ k. slashed_if_suspicious) i e.participants))
  unfolding slash_if_suspicious slash_validator get_participant put_participant run_round
  slash_if_suspicious-run_round i e h =
      let (x, got) = get_elem?-some e.participants i h in
      ground (arith, got, set-same e.participants i x)

  -- A loop that throws where a validator has no participant, and else does to one participant what
  -- `body` says.
  module _ (loop : List ℕ → PoSygEngine D → Result (PoSygEngine D))
      (step : ℕ → PoSygEngine D → Result (PoSygEngine D)) (body : Participant D → Participant D)
      (nothing : (e : PoSygEngine D) → loop [] e ≡ ok e)
      (further : (i : ℕ) (rest : List ℕ) (e new : PoSygEngine D)
        → step i e ≡ ok new
        → loop (i ∷ rest) e ≡ loop rest new)
      (one : (i : ℕ) (e : PoSygEngine D)
        → i < length e.participants
        → step i e ≡ ok (with e (run_round (λ k. body) i e.participants))) where
    loop-run_rounds :
        (n : ℕ) (order : List ℕ) (e : PoSygEngine D)
        → n ≤ length e.participants
        → All (λ i. i < n) order
        → loop order e ≡ ok (with e (run_rounds (λ k. body) order e.participants))
    unfolding run_rounds
    loop-run_rounds n [] e room all = nothing e
    loop-run_rounds n (i ∷ order) e room all =
        let after = run_round (λ k. body) i e.participants in
        further i order e (with e after) (one i e (omega (arith, all.0)))
        ∙ loop-run_rounds n order (with e after)
            (omega (arith, length-run_round body i e.participants)) all.1

    loop-any_order :
        (n : ℕ) (order : List ℕ) (e : PoSygEngine D)
        → n ≤ length e.participants
        → IsSchedule n order
        → loop order e ≡ loop (numbers_from n 0) e
    loop-any_order n order e room once =
        let usual = numbers_from-IsSchedule n in
        loop-run_rounds n order e room (IsSchedule-below n order once)
        ∙ ap (λ xs. ok (with e xs))
            (run_rounds-eq (λ k. body) order (numbers_from n 0) e.participants
              (λ j. once j ∙ sym (usual j)))
        ∙ sym (
            loop-run_rounds n (numbers_from n 0) e room
              (IsSchedule-below n (numbers_from n 0) usual))

  pub validate_and_slash-run_rounds :
      (n : ℕ) (order : List ℕ) (e : PoSygEngine D)
      → n ≤ length e.participants
      → All (λ i. i < n) order
      → validate_and_slash order e
        ≡ ok (with e (run_rounds (λ k. slashed_if_suspicious) order e.participants))
  unfolding validate_and_slash
  validate_and_slash-run_rounds =
      loop-run_rounds validate_and_slash slash_if_suspicious slashed_if_suspicious (λ e. refl)
        (λ i rest e new done. rw (done, validate_and_slash) refl) slash_if_suspicious-run_round

  validate_and_slash-any_order :
      (n : ℕ) (order : List ℕ) (e : PoSygEngine D)
      → n ≤ length e.participants
      → IsSchedule n order
      → validate_and_slash order e ≡ validate_and_slash (numbers_from n 0) e
  unfolding validate_and_slash
  validate_and_slash-any_order =
      loop-any_order validate_and_slash slash_if_suspicious slashed_if_suspicious (λ e. refl)
        (λ i rest e new done. rw (done, validate_and_slash) refl) slash_if_suspicious-run_round

  pub distribute_rewards-run_rounds :
      (reward : D) (n : ℕ) (order : List ℕ) (e : PoSygEngine D)
      → n ≤ length e.participants
      → All (λ i. i < n) order
      → distribute_rewards reward order e
        ≡ ok (with e (run_rounds (λ k. rewarded reward) order e.participants))
  unfolding distribute_rewards
  distribute_rewards-run_rounds reward =
      loop-run_rounds (distribute_rewards reward) (reward_validator reward) (rewarded reward)
        (λ e. refl) (λ i rest e new done. rw (done, distribute_rewards) refl)
        (reward_validator-run_round reward)

  distribute_rewards-any_order :
      (reward : D) (n : ℕ) (order : List ℕ) (e : PoSygEngine D)
      → n ≤ length e.participants
      → IsSchedule n order
      → distribute_rewards reward order e ≡ distribute_rewards reward (numbers_from n 0) e
  unfolding distribute_rewards
  distribute_rewards-any_order reward =
      loop-any_order (distribute_rewards reward) (reward_validator reward) (rewarded reward)
        (λ e. refl) (λ i rest e new done. rw (done, distribute_rewards) refl)
        (reward_validator-run_round reward)

  abbrev pub slash_and_reward : D → List ℕ → List ℕ → PoSygEngine D → Result (PoSygEngine D)
  slash_and_reward reward slash_order reward_order e =
      validate_and_slash slash_order e >>= λ e'. distribute_rewards reward reward_order e'

  -- `settle` with the orders in which the rounds of its two loops run.
  unfoldable pub settle_in : List ℕ → List ℕ → World D → World D × Result (Unit {0})
  settle_in slash_order reward_order w =
      after_settling w
        (slash_and_reward w.consensus.reward_for_validators slash_order reward_order w.posyg_engine)

  -- With the validators that the constructor lists, and as many participants or more, the slashing and
  -- the rewards of a round of consensus come to the same in whatever order the rounds of the two
  -- parallel loops run, if each runs once.
  pub settle_in-settle :
      (slash_order reward_order : List ℕ) (n : ℕ) (w : World D)
      → w.consensus.validators ≡ numbers_from n 0
      → n ≤ length w.posyg_engine.participants
      → IsSchedule n slash_order
      → IsSchedule n reward_order
      → settle_in slash_order reward_order w ≡ settle w
  unfolding settle_in settle
  settle_in-settle slash_order reward_order n w listed room slash_once reward_once =
      let e = w.posyg_engine in
      let all = IsSchedule-below n (numbers_from n 0) (numbers_from-IsSchedule n) in
      let slashed =
        with e (run_rounds (λ k. slashed_if_suspicious) (numbers_from n 0) e.participants) in
      let done : validate_and_slash (numbers_from n 0) e ≡ ok slashed =
        validate_and_slash-run_rounds n (numbers_from n 0) e room all in
      let reward = w.consensus.reward_for_validators in
      let fewer : n ≤ length slashed.participants =
        omega (arith, length-run_rounds slashed_if_suspicious (numbers_from n 0) e.participants) in
      ap (after_settling w) (
        ap (λ r. r >>= λ e'. distribute_rewards reward reward_order e')
          (validate_and_slash-any_order n slash_order e room slash_once ∙ done)
        ∙ distribute_rewards-any_order reward n reward_order slashed fewer reward_once
        ∙ sym (ap (λ r. r >>= λ e'. distribute_rewards reward (numbers_from n 0) e') done)
        ∙ sym (ap (λ o. slash_and_reward reward o o e) listed))
