-- ===== src/Engine/Size.antt =====
-- What the program's calls on an engine leave as the constructor set it.
use synledger_core.Double.{Double, nought}
use synledger_core.Engine.{
  PoSygEngine, put_participant, new_participants, new_engine, adjust_network_parameters, behave_all,
  slash_violator, process_slashing, add_synergy, reward_share, distribute_rewards, run_cycle,
  convert_all, convert_synergy_to_tokens, apply_slashing_mechanism,
}
use synledger_core.Engine.Cycle.{length-behave_all}
use synledger_core.Engine.Slashing.{
  Step, cycle, slashing_pass, conversion, economic_update, rewarded, slashed_suspect, Reach, here,
  next,
}
use synledger_core.Participant.{Participant}
use synledger_core.Prelude.{
  length, length-set, length-map, ℕ, zero, suc, ◌+◌, ◌≡◌, refl, ap, List, [], ◌∷◌, arith,
  if◌then◌else◌, not,
}

module _ {D : Type 0} ⦃d : Double D⦄ where
  -- There are `n` participants, as many as the engine says, and no economic activity is on record.
  pub record IsSized (n : ℕ) (e : PoSygEngine D) : Type 0 where
    pub size : length e.participants ≡ n
    pub number : e.num_participants ≡ n
    pub no_activity : e.total_economic_activity ≡ nought

  length-convert_all :
      (rate total : D) (xs : List (Participant D))
      → length (convert_all rate total xs).0 ≡ length xs
  unfolding convert_all
  length-convert_all rate total [] = refl
  length-convert_all rate total (x ∷ xs) = ap suc (
      length-convert_all rate (if not x.slashed then d.add total (d.mul x.synergy rate) else total)
        xs)

  distribute_rewards-IsSized :
      (n : ℕ) (e : PoSygEngine D) → IsSized n e → IsSized n (distribute_rewards e)
  unfolding distribute_rewards
  distribute_rewards-IsSized n e s =
      let total = add_synergy nought e.participants in
      ground (
        arith,
        s.size,
        s.number,
        s.no_activity,
        length-map (reward_share total e.total_economic_activity) e.participants,
      )

  process_slashing-IsSized :
      (n : ℕ) (e : PoSygEngine D) → IsSized n e → IsSized n (process_slashing e)
  unfolding process_slashing
  process_slashing-IsSized n e s =
      ground (arith, s.size, s.number, s.no_activity, length-map slash_violator e.participants)

  behaved-IsSized :
      (n : ℕ) (draw : ℕ → ℕ) (e : PoSygEngine D)
      → IsSized n e
      → let adjusted = adjust_network_parameters e in
        IsSized n (record adjusted { participants = behave_all draw 0 adjusted.participants })
  unfolding adjust_network_parameters
  behaved-IsSized n draw e s =
      ground (arith, s.size, s.number, s.no_activity, length-behave_all draw 0 e.participants)

  run_cycle-IsSized :
      (n : ℕ) (draw : ℕ → ℕ) (e : PoSygEngine D) → IsSized n e → IsSized n (run_cycle draw e)
  unfolding run_cycle
  run_cycle-IsSized n draw e s =
      distribute_rewards-IsSized n _ (process_slashing-IsSized n _ (behaved-IsSized n draw e s))

  put_participant-IsSized :
      (n i : ℕ) (x : Participant D) (e : PoSygEngine D)
      → IsSized n e
      → IsSized n (put_participant i x e)
  unfolding put_participant
  put_participant-IsSized n i x e s =
      ground (arith, s.size, s.number, s.no_activity, length-set e.participants i x)

  Step-IsSized : {n : ℕ} {e new : PoSygEngine D} → Step e new → IsSized n e → IsSized n new
  unfolding apply_slashing_mechanism convert_synergy_to_tokens
  Step-IsSized {n} (cycle draw {e}) s = run_cycle-IsSized n draw e s
  Step-IsSized {n} (slashing_pass {e}) s = process_slashing-IsSized n e s
  Step-IsSized {n} (conversion rate {e}) s =
      ground (arith, s.size, s.number, s.no_activity, length-convert_all rate nought e.participants)
  Step-IsSized {n} (economic_update i x contribution {e} h) s = put_participant-IsSized n i _ e s
  Step-IsSized {n} (rewarded i x reward {e} h) s = put_participant-IsSized n i _ e s
  Step-IsSized {n} (slashed_suspect i x {e} h suspicious) s = put_participant-IsSized n i _ e s

  Reach-keeps : {n : ℕ} {start e : PoSygEngine D} → IsSized n start → Reach start e → IsSized n e
  Reach-keeps s here = s
  Reach-keeps s (next r st) = Step-IsSized st (Reach-keeps s r)

length-new_participants :
    (D : Type 0) ⦃d : Double D⦄ (n i : ℕ) → length (new_participants {D = D} n i) ≡ n
unfolding new_participants
length-new_participants D zero i = refl
length-new_participants D (suc n) i = ap suc (length-new_participants D n (i + 1))

-- Whatever the program does to a new engine of `n` participants, it keeps `n` of them, and its total
-- economic activity, by which rewards are multiplied, stays 0.
pub Reach-IsSized :
    {D : Type 0} ⦃d : Double D⦄ (n : ℕ) {e : PoSygEngine D} → Reach (new_engine n) e → IsSized n e
unfolding new_engine
Reach-IsSized {D} n r =
    Reach-keeps (record { size = length-new_participants D n 0; number = refl; no_activity = refl })
      r
