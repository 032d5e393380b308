-- ===== src/Engine/Cycle.antt =====
-- What a consensus cycle keeps of every participant.
use synledger_core.Double.{Double, nought, IsOrdered}
use synledger_core.Engine.{
  PoSygEngine, adjust_network_parameters, behave, behave_all, slash_violator, process_slashing,
  add_synergy, reward_share, distribute_rewards, run_cycle,
}
use synledger_core.Participant.{participant_honest, participant_dishonest, Participant}
use synledger_core.Participant.Soundness.{IsSound, update_synergy-IsSound, apply_slash-IsSound}
use synledger_core.Prelude.{
  length, All, All-map, ltb, if◌then◌else◌, ℕ, suc, ◌+◌, ◌≡◌, refl, ap, List, [], ◌∷◌, arith,
}

module _ {D : Type 0} ⦃d : Double D⦄ where
  pub length-behave_all :
      (draw : ℕ → ℕ) (i : ℕ) (xs : List (Participant D)) → length (behave_all draw i xs) ≡ length xs
  unfolding behave_all
  length-behave_all draw i [] = refl
  length-behave_all draw i (x ∷ xs) = ap suc (length-behave_all draw (i + 1) xs)

  module _ (laws : IsOrdered D) where
    behave-IsSound : (r : ℕ) (x : Participant D) → IsSound x → IsSound (behave r x)
    unfolding behave
    behave-IsSound r x s =
        update_synergy-IsSound laws
          (record x { behavior = if ltb r 3 then participant_dishonest else participant_honest })
          (record { nonneg = s.nonneg; slashed_zero = s.slashed_zero })

    behave_all-IsSound :
        (draw : ℕ → ℕ) (i : ℕ) (xs : List (Participant D))
        → All IsSound xs
        → All IsSound (behave_all draw i xs)
    unfolding behave_all
    behave_all-IsSound draw i [] s = tt
    behave_all-IsSound draw i (x ∷ xs) s =
        (behave-IsSound (draw i) x s.0, behave_all-IsSound draw (i + 1) xs s.1)

    pub slash_violator-IsSound : (x : Participant D) → IsSound x → IsSound (slash_violator x)
    unfolding slash_violator
    slash_violator-IsSound x s = ground (arith, apply_slash-IsSound laws x s)

    reward_share-IsSound :
        (total activity : D) (x : Participant D)
        → IsSound x
        → IsSound (reward_share total activity x)
    unfolding reward_share
    reward_share-IsSound total activity x s = ground (arith, s.nonneg, s.slashed_zero)

    distribute_rewards-IsSound :
        (e : PoSygEngine D)
        → All IsSound e.participants
        → All IsSound (distribute_rewards e).participants
    unfolding distribute_rewards
    distribute_rewards-IsSound e s =
        let total = add_synergy nought e.participants in
        ground (
          arith,
          All-map IsSound (reward_share total e.total_economic_activity)
              (reward_share-IsSound total e.total_economic_activity) e.participants s,
        )

    -- Where every participant has a synergy that is not negative, and every slashed one none, this is
    -- so after a cycle too, whatever is drawn and on any doubles whose order has the laws of IsOrdered.
    pub run_cycle-IsSound :
        (draw : ℕ → ℕ) (e : PoSygEngine D)
        → All IsSound e.participants
        → All IsSound (run_cycle draw e).participants
    unfolding run_cycle process_slashing adjust_network_parameters
    run_cycle-IsSound draw e s =
        let adjusted = adjust_network_parameters e in
        let behaved = behave_all draw 0 adjusted.participants in
        distribute_rewards-IsSound (process_slashing (record adjusted { participants = behaved })) (
          All-map IsSound slash_violator slash_violator-IsSound behaved
            (behave_all-IsSound draw 0 e.participants s))
