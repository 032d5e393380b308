-- ===== src/Participant/Soundness.antt =====
-- What every operation of a participant keeps: no negative synergy, none at all once slashed.
use synledger_core.Double.{Double, nought, IsOrdered}
use synledger_core.Participant.{
  Participant, lose, clamp, update_synergy, gain, new_participant, apply_slash, restore_after_slash,
}
use synledger_core.Prelude.{◌≡◌, true, false, arith, ℕ}
use synledger_core.Prelude.Int.{ℤ}

module _ {D : Type 0} ⦃d : Double D⦄ where
  -- The synergy is not below zero, and is zero for a slashed participant.
  pub record IsSound (x : Participant D) : Type 0 where
    pub nonneg : d.lt x.synergy nought ≡ false
    pub slashed_zero : x.slashed ≡ true → x.synergy ≡ nought

  module _ (laws : IsOrdered D) where
    open laws use {irreflexive, literal_nonneg}

    clamp-nonneg : (x : Participant D) → d.lt (clamp x).synergy nought ≡ false
    unfolding clamp
    clamp-nonneg x = ground (arith, irreflexive (nought {D = D}))

    clamp-slashed :
        (x : Participant D)
        → (x.slashed ≡ true → x.synergy ≡ nought)
        → (clamp x).slashed ≡ true
        → (clamp x).synergy ≡ nought
    unfolding clamp
    clamp-slashed x h s = ground arith

    clamp-IsSound :
        (x : Participant D) → (x.slashed ≡ true → x.synergy ≡ nought) → IsSound (clamp x)
    clamp-IsSound x h = record { nonneg = clamp-nonneg x; slashed_zero = clamp-slashed x h }

    -- Whatever the behaviour and the activity, a participant's synergy is not negative after an
    -- update, and a participant that the update slashes is left with none.
    pub update_synergy-IsSound : (x : Participant D) → IsSound x → IsSound (update_synergy x)
    unfolding update_synergy
    update_synergy-IsSound x s =
        ground
          (arith, clamp-IsSound (gain x), clamp-IsSound (lose x), clamp-IsSound x, s.slashed_zero)

    -- A slashed participant stays as it is, whatever its behaviour.
    pub update_synergy-slashed :
        (x : Participant D) → IsSound x → x.slashed ≡ true → update_synergy x ≡ x
    unfolding update_synergy
    update_synergy-slashed x s h = ground (arith, s.slashed_zero, irreflexive (nought {D = D}))

    pub apply_slash-IsSound : (x : Participant D) → IsSound x → IsSound (apply_slash x)
    unfolding apply_slash
    apply_slash-IsSound x s = ground (arith, s.slashed_zero, s.nonneg, irreflexive (nought {D = D}))

    pub restore_after_slash-IsSound :
        (x : Participant D) → IsSound x → IsSound (restore_after_slash x)
    unfolding restore_after_slash
    restore_after_slash-IsSound x s = ground (arith, s.slashed_zero, s.nonneg, literal_nonneg 500 1)

    pub new_participant-IsSound : (id : ℕ) (behavior : ℤ) → IsSound (new_participant id behavior)
    unfolding new_participant
    new_participant-IsSound id behavior = ground (arith, literal_nonneg 1000 1)
