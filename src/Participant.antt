-- ===== src/Participant.antt =====
-- `struct Participant` (include/consensus/posyg_engine.hpp, src/consensus/posyg_engine.cpp).
pub mod Soundness
use synledger_core.Double.{Double, nought}
use synledger_core.Prelude.{if◌then◌else◌, ℕ, Bool, true, false, not, ◌&&◌}
use synledger_core.Prelude.Int.{ℤ, pos, ltb_ℤ, eqb_ℤ, min_ℤ}

-- PARTICIPANT_HONEST and PARTICIPANT_DISHONEST.
abbrev pub participant_honest : ℤ
participant_honest = pos 1

abbrev pub participant_dishonest : ℤ
participant_dishonest = pos 0

abbrev pub max_economic_activity : ℤ
max_economic_activity = pos 10

pub record Participant (D : Type 0) : Type 0 where
  pub id : ℕ
  pub synergy : D
  pub reward : D
  pub penalty : D
  pub violations_count : ℤ
  pub behavior : ℤ
  pub economic_activity : ℤ
  pub governance_activity : ℤ
  pub slashed : Bool
  pub economic_contribution : D

module _ {D : Type 0} where
  unfoldable pub detect_suspicious_behavior : Participant D → Bool
  detect_suspicious_behavior x =
      ltb_ℤ (pos 4) x.economic_activity && ltb_ℤ (pos 2) x.governance_activity

module _ {D : Type 0} ⦃d : Double D⦄ where
  -- INITIAL_SYNERGY, PENALTY_INCREMENT, REWARD_INCREMENT, SLASH_PENALTY, INITIAL_RESTORE_SYNERGY.
  abbrev pub initial_synergy : D
  initial_synergy = d.literal 1000 1

  abbrev pub penalty_increment : D
  penalty_increment = d.literal 50 1

  abbrev pub reward_increment : D
  reward_increment = d.literal 50 1

  abbrev pub slash_penalty : D
  slash_penalty = d.literal 1000 1

  abbrev pub initial_restore_synergy : D
  initial_restore_synergy = d.literal 500 1

  -- `Participant(id, behavior)`.
  unfoldable pub new_participant : ℕ → ℤ → Participant D
  new_participant id behavior = record {
    id = id;
    synergy = initial_synergy;
    reward = nought;
    penalty = nought;
    violations_count = pos 0;
    behavior = behavior;
    economic_activity = pos 1;
    governance_activity = pos 1;
    slashed = false;
    economic_contribution = nought;
  }

  unfoldable pub apply_slash : Participant D → Participant D
  apply_slash x =
      if not x.slashed
      then record x { slashed = true; penalty = d.add x.penalty slash_penalty; synergy = nought }
      else x

  unfoldable pub restore_after_slash : Participant D → Participant D
  restore_after_slash x =
      if x.slashed then record x { slashed = false; synergy = initial_restore_synergy } else x

  -- The two branches of `update_synergy`, and its last statement.
  unfoldable pub gain : Participant D → Participant D
  gain x =
      let activity = d.of_int x.economic_activity in
      record x {
        synergy = d.add x.synergy (d.mul (d.literal 100 1) activity);
        reward = d.add x.reward (d.mul reward_increment activity);
      }

  unfoldable pub lose : Participant D → Participant D
  unfolding apply_slash detect_suspicious_behavior
  lose x =
      let activity = d.of_int x.economic_activity in
      let lower : Participant D = record x {
        synergy = d.sub x.synergy (d.mul (d.literal 100 1) activity);
        penalty = d.add x.penalty (d.mul penalty_increment activity);
      } in
      if detect_suspicious_behavior lower
      then apply_slash (record lower { penalty = d.add lower.penalty (d.literal 100 1) })
      else lower

  unfoldable pub clamp : Participant D → Participant D
  clamp x = if d.lt x.synergy nought then record x { synergy = nought } else x

  unfoldable pub update_synergy : Participant D → Participant D
  unfolding gain lose clamp
  update_synergy x =
      if eqb_ℤ x.behavior participant_honest && not x.slashed
      then clamp (gain x)
      else if not x.slashed
      then clamp (lose x)
      else clamp x

  unfoldable pub update_economic_activity : D → Participant D → Participant D
  update_economic_activity contribution x = record x {
    economic_contribution = d.add x.economic_contribution contribution;
    economic_activity =
        min_ℤ (d.trunc (d.div contribution (d.literal 100 1))) max_economic_activity;
  }
