-- ===== src/Economic.antt =====
-- `class SynergyModel` (include/economic/synergy_model.hpp, src/economic/synergy_model.cpp).
use synledger_core.Double.{Double, IsOrdered, nought, max}
use synledger_core.Participant.{initial_synergy}
use synledger_core.Prelude.{◌≡◌, false, Bool-cases, inl, inr}

module _ {D : Type 0} ⦃d : Double D⦄ where
  unfoldable pub calculate_synergy : D → D → D → D
  calculate_synergy initial_synergy economic_activity governance_activity =
      let synergy_gain =
        d.add (d.mul economic_activity (d.literal 6 1))
          (d.mul governance_activity (d.literal 4 1)) in
      max (d.add initial_synergy synergy_gain) nought

  unfoldable pub apply_penalty : D → D → D
  apply_penalty synergy penalty = max (d.sub synergy penalty) nought

  unfoldable pub convert_synergy_to_tokens : D → D → D
  convert_synergy_to_tokens synergy conversion_rate = d.mul synergy conversion_rate

  unfoldable pub adjust_conversion_rate : D → D → D
  adjust_conversion_rate current_rate network_conditions =
      d.mul current_rate (d.add (d.literal 10 1) (d.mul network_conditions (d.literal 5 2)))

  max-nonneg : IsOrdered D → (a : D) → d.lt (max a nought) nought ≡ false
  max-nonneg o a = elim (Bool-cases (d.lt a nought)) [
    | inl below ↦ rw below (o.irreflexive nought)
    | inr above ↦ rw above above
  ]

  -- Whatever activity is counted and whatever penalty is then applied, neither score is below 0.
  pub apply_penalty-nonneg :
      (o : IsOrdered D) (initial economic governance penalty : D)
      → (d.lt (calculate_synergy initial economic governance) nought ≡ false)
        × (d.lt (apply_penalty (calculate_synergy initial economic governance) penalty) nought
            ≡ false)
  unfolding calculate_synergy apply_penalty
  apply_penalty-nonneg o initial economic governance penalty = (
    max-nonneg o
        (d.add initial (d.add (d.mul economic (d.literal 6 1)) (d.mul governance (d.literal 4 1)))),
    max-nonneg o (d.sub (calculate_synergy initial economic governance) penalty),
  )
