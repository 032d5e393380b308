-- ===== src/Engine/Lifetime.antt =====
-- Everything that a caller can do with an engine and, through `get_participant`, with its participants.
use synledger_core.Double.{Double, nought, IsOrdered}
use synledger_core.Engine.{
  PoSygEngine, new_engine, new_participants, run_cycle, apply_slashing_mechanism, convert_all,
  convert_synergy_to_tokens, get_participant, put_participant, process_slashing, slash_violator,
}
use synledger_core.Engine.Cycle.{run_cycle-IsSound, slash_violator-IsSound}
use synledger_core.Participant.{
  Participant, update_synergy, apply_slash, restore_after_slash, update_economic_activity,
  participant_honest,
}
use synledger_core.Participant.Soundness.{
  IsSound, update_synergy-IsSound, apply_slash-IsSound, restore_after_slash-IsSound,
  new_participant-IsSound,
}
use synledger_core.Prelude.{
  All, All-map, All-set, All-get_elem?, ok, ℕ, zero, suc, ◌+◌, ◌≡◌, List, [], ◌∷◌, arith,
  if◌then◌else◌, not,
}

-- The methods of a participant that write it, and a write of its reward.
pub data Method (D : Type 0) : Type 0 where
  updating : Method D
  slashing : Method D
  restoring : Method D
  contributing : D → Method D
  rewarding : D → Method D

module _ {D : Type 0} ⦃d : Double D⦄ where
  abbrev pub apply : Method D → Participant D → Participant D
  apply updating x = update_synergy x
  apply slashing x = apply_slash x
  apply restoring x = restore_after_slash x
  apply (contributing contribution) x = update_economic_activity contribution x
  apply (rewarding reward) x = record x { reward = reward }

  pub data Use : PoSygEngine D → PoSygEngine D → Type 0 where
    cycled : (draw : ℕ → ℕ) {e : PoSygEngine D} → Use e (run_cycle draw e)
    all_slashed : {e : PoSygEngine D} → Use e (apply_slashing_mechanism e)
    converted : (rate : D) {e : PoSygEngine D} → Use e (convert_synergy_to_tokens rate e).0
    on_participant :
        (i : ℕ) (x : Participant D) (m : Method D) {e : PoSygEngine D}
        → get_participant i e ≡ ok x
        → Use e (put_participant i (apply m x) e)

  pub data Uses (start : PoSygEngine D) : PoSygEngine D → Type 0 where
    unused : Uses start start
    used : {e new : PoSygEngine D} → Uses start e → Use e new → Uses start new

  module _ (laws : IsOrdered D) where
    apply-IsSound : (m : Method D) (x : Participant D) → IsSound x → IsSound (apply m x)
    unfolding update_economic_activity
    apply-IsSound updating x s = update_synergy-IsSound laws x s
    apply-IsSound slashing x s = apply_slash-IsSound laws x s
    apply-IsSound restoring x s = restore_after_slash-IsSound laws x s
    apply-IsSound (contributing contribution) x s = record {
      nonneg = s.nonneg;
      slashed_zero = s.slashed_zero;
    }
    apply-IsSound (rewarding reward) x s = record {
      nonneg = s.nonneg;
      slashed_zero = s.slashed_zero;
    }

    convert_all-IsSound :
        (rate total : D) (xs : List (Participant D))
        → All IsSound xs
        → All IsSound (convert_all rate total xs).0
    unfolding convert_all
    convert_all-IsSound rate total [] s = tt
    convert_all-IsSound rate total (x ∷ xs) s = ground (
      arith,
      laws.irreflexive nought,
      s.0.nonneg,
      s.0.slashed_zero,
      convert_all-IsSound rate (if not x.slashed then d.add total (d.mul x.synergy rate) else total)
          xs s.1,
    )

    Use-IsSound :
        {e new : PoSygEngine D}
        → Use e new
        → All IsSound e.participants
        → All IsSound new.participants
    unfolding apply_slashing_mechanism process_slashing convert_synergy_to_tokens get_participant
        put_participant
    Use-IsSound (cycled draw {e}) s = run_cycle-IsSound laws draw e s
    Use-IsSound (all_slashed {e}) s =
        All-map IsSound slash_violator (slash_violator-IsSound laws) e.participants s
    Use-IsSound (converted rate {e}) s = convert_all-IsSound rate nought e.participants s
    Use-IsSound (on_participant i x m {e} h) s =
        All-set IsSound e.participants i (apply m x) s
          (apply-IsSound m x (All-get_elem? IsSound e.participants i x s (ground arith)))

    Uses-keeps :
        {start e : PoSygEngine D}
        → All IsSound start.participants
        → Uses start e
        → All IsSound e.participants
    Uses-keeps s unused = s
    Uses-keeps s (used r u) = Use-IsSound u (Uses-keeps s r)

    new_participants-IsSound : (n i : ℕ) → All IsSound (new_participants {D = D} n i)
    unfolding new_participants
    new_participants-IsSound zero i = tt
    new_participants-IsSound (suc n) i =
        (new_participant-IsSound laws i participant_honest, new_participants-IsSound n (i + 1))

    -- From the constructor on, whatever methods of the engine and of its participants are called, no
    -- synergy is negative, and a slashed participant has none, on any doubles whose order has the laws
    -- of IsOrdered.
    pub Uses-IsSound :
        (n : ℕ) {e : PoSygEngine D} → Uses (new_engine n) e → All IsSound e.participants
    unfolding new_engine
    Uses-IsSound n r = Uses-keeps (new_participants-IsSound n 0) r
