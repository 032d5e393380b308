-- ===== src/Examples/EngineRuns.antt =====
-- The theorems on participants and the engine, applied to an engine of two.
use mathlib.Core.List
use synledger_core.Double.{nought}
use synledger_core.Double.Fixed.{fixed_double, Fixed, Fixed-IsOrdered}
use synledger_core.Engine.{
  convert_synergy_to_tokens, PoSygEngine, count_honest, count_dishonest, new_engine, run_cycle,
  new_participants, get_participant, put_participant, apply_slashing_mechanism,
}
use synledger_core.Engine.Conversion.{
  IsSpent, IsFiniteRate, convert_synergy_to_tokens-tokens_of, tokens_of,
}
use synledger_core.Engine.Lifetime.{
  Uses, used, unused, on_participant, cycled, converted, slashing, apply, Uses-IsSound,
}
use synledger_core.Engine.Limits.{IsLimited, Uses-IsLimited}
use synledger_core.Engine.Rounds.{run_cycle_in, run_cycle_in-run_cycle}
use synledger_core.Engine.Slashing.{Reach, here, next, cycle, IsQuiet, Reach-IsQuiet}
use synledger_core.Engine.Statistics.{get_statistics-counts, no_stats, get_statistics}
use synledger_core.Examples.{sample_participant, engine_of_two}
use synledger_core.Participant.{Participant, new_participant}
use synledger_core.Participant.Soundness.{IsSound}
use synledger_core.Prelude.{All, ℕ, zero, suc, ◌+◌, ◌≡◌, refl, [], ◌∷◌, arith, ok, map}
use synledger_core.Prelude.Int.{pos}
use synledger_core.Schedules.{IsSchedule}

-- The first participant draws dishonesty, the second does not.
abbrev draws : ℕ → ℕ
draws zero = 1
draws (suc i) = 7

new_engine_test : new_engine 2 ≡ engine_of_two
unfolding new_engine new_participants fixed_double new_participant
new_engine_test = refl

two_cycles : Reach (new_engine {D = Fixed} 2) (run_cycle draws (run_cycle draws (new_engine 2)))
two_cycles = next (next here (cycle draws)) (cycle draws)

Reach-IsQuiet_example :
    All IsQuiet (run_cycle draws (run_cycle draws (new_engine {D = Fixed} 2))).participants
Reach-IsQuiet_example = Reach-IsQuiet 2 two_cycles

abbrev liar : Participant Fixed
liar = record (sample_participant 1) { behavior = pos 0 }

abbrev mixed : PoSygEngine Fixed
mixed = record engine_of_two { participants = sample_participant 0 ∷ (liar ∷ []) }

get_statistics-counts_example :
    let s = get_statistics ((liar ∷ []) ∷ ((sample_participant 0 ∷ []) ∷ [])) no_stats in
    (s.honest_count ≡ pos (count_honest mixed.participants))
    × (s.dishonest_count ≡ pos (count_dishonest mixed.participants))
    × (count_honest mixed.participants + count_dishonest mixed.participants ≡ 2)
unfolding List.flatten
get_statistics-counts_example =
    get_statistics-counts ((liar ∷ []) ∷ ((sample_participant 0 ∷ []) ∷ [])) no_stats mixed
      (omega arith) (List.Perm.swap (sample_participant 0) liar [])

backwards-IsSchedule : IsSchedule 2 (1 ∷ (0 ∷ []))
backwards-IsSchedule zero = refl
backwards-IsSchedule (suc zero) = refl
backwards-IsSchedule (suc (suc j)) = ground arith

forwards-IsSchedule : IsSchedule 2 (0 ∷ (1 ∷ []))
forwards-IsSchedule zero = refl
forwards-IsSchedule (suc zero) = refl
forwards-IsSchedule (suc (suc j)) = ground arith

run_cycle_in-run_cycle_example :
    run_cycle_in (1 ∷ (0 ∷ [])) (0 ∷ (1 ∷ [])) (1 ∷ (0 ∷ [])) draws engine_of_two
    ≡ ok (run_cycle draws engine_of_two)
run_cycle_in-run_cycle_example =
    run_cycle_in-run_cycle (1 ∷ (0 ∷ [])) (0 ∷ (1 ∷ [])) (1 ∷ (0 ∷ [])) draws engine_of_two refl
      backwards-IsSchedule forwards-IsSchedule backwards-IsSchedule

first_participant : get_participant 0 (new_engine {D = Fixed} 2) ≡ ok (sample_participant 0)
unfolding get_participant new_engine new_participants fixed_double new_participant
first_participant = refl

-- The first participant is slashed, and a cycle and a conversion follow.
abbrev slashed_first : PoSygEngine Fixed
slashed_first = put_participant 0 (apply slashing (sample_participant 0)) (new_engine 2)

much_used :
    Uses
      (new_engine {D = Fixed} 2)
      (convert_synergy_to_tokens (pos 100) (run_cycle draws slashed_first)).0
much_used =
    used
      (used (used unused (on_participant 0 (sample_participant 0) slashing first_participant))
        (cycled draws))
      (converted (pos 100))

Uses-IsSound_example :
    All IsSound (convert_synergy_to_tokens (pos 100) (run_cycle draws slashed_first)).0.participants
Uses-IsSound_example = Uses-IsSound Fixed-IsOrdered 2 much_used

zero_rate : IsFiniteRate {D = Fixed} (pos 100)
unfolding fixed_double
zero_rate = record { zero_mul = refl; zero_add = refl }

two-IsSound : All IsSound engine_of_two.participants
unfolding fixed_double
two-IsSound = (
  record { nonneg = refl; slashed_zero = λ h. cc h },
  (record { nonneg = refl; slashed_zero = λ h. cc h }, tt),
)

convert_synergy_to_tokens-tokens_of_example :
    let (paid, total) = convert_synergy_to_tokens (pos 50) engine_of_two in
    (total ≡ tokens_of (pos 50) nought engine_of_two.participants)
    × All IsSpent paid.participants
    × (convert_synergy_to_tokens (pos 100) paid ≡ (paid, nought))
convert_synergy_to_tokens-tokens_of_example =
    convert_synergy_to_tokens-tokens_of (pos 50) (pos 100) engine_of_two
      ((λ h. two-IsSound.0.slashed_zero h), ((λ h. two-IsSound.1.0.slashed_zero h), tt)) zero_rate

Uses-IsLimited_example :
    let e = (convert_synergy_to_tokens (pos 100) (run_cycle draws slashed_first)).0 in
    All IsLimited e.participants
    × (apply_slashing_mechanism e ≡ e)
    × (map (λ x. x.slashed) (run_cycle draws e).participants ≡ map (λ x. x.slashed) e.participants)
Uses-IsLimited_example = Uses-IsLimited 2 draws much_used
