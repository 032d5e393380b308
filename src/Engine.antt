-- ===== src/Engine.antt =====
-- `class PoSygEngine` (include/consensus/posyg_engine.hpp, src/consensus/posyg_engine.cpp). A parallel
-- loop whose rounds touch one participant each is the map of its body; a reduction is the sum in the
-- order of the indices. The draws of `dis(gen)` are an argument.
pub mod Cycle
pub mod Slashing
pub mod Lifetime
pub mod Limits
pub mod Conversion
pub mod Statistics
pub mod Size
pub mod Rounds
use synledger_core.Double.{Double, nought}
use synledger_core.Participant.{
  participant_honest, participant_dishonest, Participant, penalty_increment, slash_penalty,
  new_participant, apply_slash, update_synergy,
}
use synledger_core.Prelude.{
  get_elem?, set, out_of_range, Result, ok, err, ltb, if◌then◌else◌, ℕ, zero, suc, ◌+◌, Bool, not,
  ◌&&◌, none, some, List, [], ◌∷◌, map,
}
use synledger_core.Prelude.Int.{pos, ltb_ℤ, eqb_ℤ}

pub record PoSygEngine (D : Type 0) : Type 0 where
  pub num_participants : ℕ
  pub participants : List (Participant D)
  pub dynamic_synergy_gain : D
  pub dynamic_penalty_increment : D
  pub dynamic_conversion_rate : D
  pub slash_penalty : D
  pub total_economic_activity : D

abbrev pub is_honest : {D : Type 0} → Participant D → Bool
is_honest x = eqb_ℤ x.behavior participant_honest

-- The counters of `adjust_network_parameters`.
unfoldable pub count_honest : {D : Type 0} → List (Participant D) → ℕ
count_honest [] = 0
count_honest (x ∷ xs) = (if is_honest x then 1 else 0) + count_honest xs

unfoldable pub count_dishonest : {D : Type 0} → List (Participant D) → ℕ
count_dishonest [] = 0
count_dishonest (x ∷ xs) = (if is_honest x then 0 else 1) + count_dishonest xs

module _ {D : Type 0} where
  -- `participants.at(participant_id)`.
  unfoldable pub get_participant : ℕ → PoSygEngine D → Result (Participant D)
  get_participant participant_id e = elim (get_elem? e.participants participant_id) [
    | none ↦ err out_of_range
    | some x ↦ ok x
  ]

  -- A write through the reference that `get_participant` returns.
  unfoldable pub put_participant : ℕ → Participant D → PoSygEngine D → PoSygEngine D
  put_participant participant_id x e = record e {
    participants = set e.participants participant_id x;
  }

module _ {D : Type 0} ⦃d : Double D⦄ where
  -- The loop of the constructor.
  unfoldable pub new_participants : ℕ → ℕ → List (Participant D)
  new_participants zero i = []
  new_participants (suc n) i = new_participant i participant_honest ∷ new_participants n (i + 1)

  -- `PoSygEngine(num_participants)`.
  unfoldable pub new_engine : ℕ → PoSygEngine D
  new_engine num_participants = record {
    num_participants = num_participants;
    participants = new_participants num_participants 0;
    dynamic_synergy_gain = d.literal 100 1;
    dynamic_penalty_increment = penalty_increment;
    dynamic_conversion_rate = d.literal 1 1;
    slash_penalty = d.literal 1000 1;
    total_economic_activity = nought;
  }

  unfoldable pub adjust_network_parameters : PoSygEngine D → PoSygEngine D
  adjust_network_parameters e =
      let ratio =
        d.div (d.of_size (count_dishonest e.participants)) (d.of_size e.num_participants) in
      let many = d.lt (d.literal 5 1) ratio in
      record e {
        dynamic_penalty_increment =
            d.mul e.dynamic_penalty_increment (if many then d.literal 11 1 else d.literal 95 2);
        dynamic_synergy_gain =
            d.mul e.dynamic_synergy_gain (if many then d.literal 9 1 else d.literal 105 2);
        dynamic_conversion_rate = d.add (d.literal 1 1) (d.mul ratio (d.literal 5 2));
      }

  -- The body of the loop of `run_cycle`, on the value drawn.
  unfoldable pub behave : ℕ → Participant D → Participant D
  behave rand_val x =
      update_synergy (record x {
        behavior = if ltb rand_val 3 then participant_dishonest else participant_honest;
      })

  unfoldable pub behave_all : (ℕ → ℕ) → ℕ → List (Participant D) → List (Participant D)
  behave_all draw i [] = []
  behave_all draw i (x ∷ xs) = behave (draw i) x ∷ behave_all draw (i + 1) xs

  unfoldable pub slash_violator : Participant D → Participant D
  slash_violator x = if ltb_ℤ (pos 3) x.violations_count && not x.slashed then apply_slash x else x

  unfoldable pub process_slashing : PoSygEngine D → PoSygEngine D
  process_slashing e = record e { participants = map slash_violator e.participants }

  -- The reduction of `distribute_rewards`.
  unfoldable pub add_synergy : D → List (Participant D) → D
  add_synergy total [] = total
  add_synergy total (x ∷ xs) =
      add_synergy (if not x.slashed then d.add total x.synergy else total) xs

  unfoldable pub reward_share : D → D → Participant D → Participant D
  reward_share total_synergy activity x =
      if not x.slashed
      then record x { reward = d.add x.reward (d.mul (d.div x.synergy total_synergy) activity) }
      else x

  unfoldable pub distribute_rewards : PoSygEngine D → PoSygEngine D
  distribute_rewards e =
      let total_synergy = add_synergy nought e.participants in
      if d.lt nought total_synergy
      then record e {
        participants = map (reward_share total_synergy e.total_economic_activity) e.participants;
      }
      else e

  -- `run_cycle`; it always returns 0.
  unfoldable pub run_cycle : (ℕ → ℕ) → PoSygEngine D → PoSygEngine D
  run_cycle draw e =
      let adjusted = adjust_network_parameters e in
      distribute_rewards (
        process_slashing
          (record adjusted { participants = behave_all draw 0 adjusted.participants }))

  -- `convert_synergy_to_tokens`: the participants after the loop, and `total_tokens`.
  unfoldable pub convert_all : D → D → List (Participant D) → List (Participant D) × D
  convert_all rate total [] = ([], total)
  convert_all rate total (x ∷ xs) =
      let (ys, sum) =
        convert_all rate (if not x.slashed then d.add total (d.mul x.synergy rate) else total) xs in
      ((if not x.slashed then record x { synergy = nought } else x) ∷ ys, sum)

  unfoldable pub convert_synergy_to_tokens : D → PoSygEngine D → PoSygEngine D × D
  convert_synergy_to_tokens conversion_rate e =
      let (xs, total_tokens) = convert_all conversion_rate nought e.participants in
      (record e { participants = xs }, total_tokens)

  unfoldable pub apply_slashing_mechanism : PoSygEngine D → PoSygEngine D
  apply_slashing_mechanism e = process_slashing e
