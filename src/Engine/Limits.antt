-- ===== src/Engine/Limits.antt =====
-- What no caller of an engine and of its participants can change.
use mathlib.Core.Path.{ap₂}
use synledger_core.Double.{Double, nought}
use synledger_core.Engine.{
  distribute_rewards, convert_synergy_to_tokens, PoSygEngine, get_participant, put_participant,
  new_participants, new_engine, adjust_network_parameters, behave, behave_all, slash_violator,
  process_slashing, add_synergy, reward_share, run_cycle, convert_all, apply_slashing_mechanism,
}
use synledger_core.Engine.Lifetime.{
  Method, updating, slashing, restoring, contributing, rewarding, apply, Use, Uses, unused, used,
  cycled, all_slashed, converted, on_participant,
}
use synledger_core.Participant.{
  participant_honest, participant_dishonest, max_economic_activity, Participant,
  detect_suspicious_behavior, new_participant, apply_slash, restore_after_slash, update_synergy,
  update_economic_activity,
}
use synledger_core.Prelude.{
  All, All-map, All-get_elem?, All-set, ltb, if◌then◌else◌, ℕ, zero, suc, ◌+◌, ◌≡◌, refl, ap, ◌∙◌,
  false, not, List, [], ◌∷◌, map, arith,
}
use synledger_core.Prelude.Int.{pos, ltb_ℤ}

module _ {D : Type 0} ⦃d : Double D⦄ where
  -- No violation is on record, the governance activity is the initial one, and the economic activity is
  -- not above its limit.
  pub record IsLimited (x : Participant D) : Type 0 where
    pub no_violation : x.violations_count ≡ pos 0
    pub initial_activity : x.governance_activity ≡ pos 1
    pub few : ltb_ℤ max_economic_activity x.economic_activity ≡ false

  apply-IsLimited : (m : Method D) (x : Participant D) → IsLimited x → IsLimited (apply m x)
  unfolding update_synergy apply_slash restore_after_slash update_economic_activity
  apply-IsLimited updating x q = ground (arith, q.no_violation, q.initial_activity, q.few)
  apply-IsLimited slashing x q = ground (arith, q.no_violation, q.initial_activity, q.few)
  apply-IsLimited restoring x q = ground (arith, q.no_violation, q.initial_activity, q.few)
  apply-IsLimited (contributing contribution) x q =
      ground (arith, q.no_violation, q.initial_activity)
  apply-IsLimited (rewarding reward) x q = record {
    no_violation = q.no_violation;
    initial_activity = q.initial_activity;
    few = q.few;
  }

  -- Such a participant is not slashed by an update, nor restored.
  update_synergy-slashed_flag :
      (x : Participant D) → IsLimited x → (update_synergy x).slashed ≡ x.slashed
  unfolding update_synergy detect_suspicious_behavior
  update_synergy-slashed_flag x q = ground (arith, q.initial_activity)

  behave_all-IsLimited :
      (draw : ℕ → ℕ) (i : ℕ) (xs : List (Participant D))
      → All IsLimited xs
      → All IsLimited (behave_all draw i xs)
        × (map (λ x. x.slashed) (behave_all draw i xs) ≡ map (λ x. x.slashed) xs)
  unfolding behave_all behave
  behave_all-IsLimited draw i [] q = (tt, refl)
  behave_all-IsLimited draw i (x ∷ xs) q =
      let drawn : Participant D = record x {
        behavior = if ltb (draw i) 3 then participant_dishonest else participant_honest;
      } in
      let limited : IsLimited drawn = record {
        no_violation = q.0.no_violation;
        initial_activity = q.0.initial_activity;
        few = q.0.few;
      } in
      let (rest, flags) = behave_all-IsLimited draw (i + 1) xs q.1 in
      (
        (apply-IsLimited updating drawn limited, rest),
        ap₂ (λ y ys. y ∷ ys) (update_synergy-slashed_flag drawn limited) flags,
      )

  slash_violator-IsLimited : (x : Participant D) → IsLimited x → slash_violator x ≡ x
  unfolding slash_violator
  slash_violator-IsLimited x q = ground (arith, q.no_violation)

  map-slash_violator : (xs : List (Participant D)) → All IsLimited xs → map slash_violator xs ≡ xs
  map-slash_violator [] q = refl
  map-slash_violator (x ∷ xs) q =
      ap₂ (λ y ys. y ∷ ys) (slash_violator-IsLimited x q.0) (map-slash_violator xs q.1)

  pub process_slashing-IsLimited :
      (e : PoSygEngine D) → All IsLimited e.participants → process_slashing e ≡ e
  unfolding process_slashing
  process_slashing-IsLimited e q =
      ap (λ xs. record e { participants = xs }) (map-slash_violator e.participants q)

  reward_share-IsLimited :
      (total activity : D) (x : Participant D)
      → IsLimited x
      → IsLimited (reward_share total activity x)
  unfolding reward_share
  reward_share-IsLimited total activity x q =
      ground (arith, q.no_violation, q.initial_activity, q.few)

  map-reward_share :
      (total activity : D) (xs : List (Participant D))
      → map (λ x. x.slashed) (map (reward_share total activity) xs) ≡ map (λ x. x.slashed) xs
  unfolding reward_share
  map-reward_share total activity [] = refl
  map-reward_share total activity (x ∷ xs) =
      ap₂ (λ y ys. y ∷ ys) (ground arith) (map-reward_share total activity xs)

  distribute_rewards-IsLimited :
      (e : PoSygEngine D)
      → All IsLimited e.participants
      → All IsLimited (distribute_rewards e).participants
        × (map (λ x. x.slashed) (distribute_rewards e).participants
            ≡ map (λ x. x.slashed) e.participants)
  unfolding distribute_rewards
  distribute_rewards-IsLimited e q =
      let total = add_synergy nought e.participants in
      let activity = e.total_economic_activity in
      ground (
        arith,
        All-map IsLimited (reward_share total activity) (reward_share-IsLimited total activity)
            e.participants q,
        map-reward_share total activity e.participants,
      )

  -- A cycle slashes and restores nobody.
  pub run_cycle-IsLimited :
      (draw : ℕ → ℕ) (e : PoSygEngine D)
      → All IsLimited e.participants
      → All IsLimited (run_cycle draw e).participants
        × (map (λ x. x.slashed) (run_cycle draw e).participants
            ≡ map (λ x. x.slashed) e.participants)
  unfolding run_cycle adjust_network_parameters
  run_cycle-IsLimited draw e q =
      let adjusted = adjust_network_parameters e in
      let behaved = record adjusted { participants = behave_all draw 0 adjusted.participants } in
      let (limited, flags) = behave_all-IsLimited draw 0 e.participants q in
      let (rewarded, same) = distribute_rewards-IsLimited behaved limited in
      rw (process_slashing-IsLimited behaved limited) (rewarded, same ∙ flags)

  convert_all-IsLimited :
      (rate total : D) (xs : List (Participant D))
      → All IsLimited xs
      → All IsLimited (convert_all rate total xs).0
  unfolding convert_all
  convert_all-IsLimited rate total [] q = tt
  convert_all-IsLimited rate total (x ∷ xs) q = ground (
    arith,
    q.0.no_violation,
    q.0.initial_activity,
    q.0.few,
    convert_all-IsLimited rate (if not x.slashed then d.add total (d.mul x.synergy rate) else total)
        xs q.1,
  )

  Use-IsLimited :
      {e new : PoSygEngine D}
      → Use e new
      → All IsLimited e.participants
      → All IsLimited new.participants
  unfolding apply_slashing_mechanism convert_synergy_to_tokens get_participant put_participant
  Use-IsLimited (cycled draw {e}) q = (run_cycle-IsLimited draw e q).0
  Use-IsLimited (all_slashed {e}) q = rw (process_slashing-IsLimited e q) q
  Use-IsLimited (converted rate {e}) q = convert_all-IsLimited rate nought e.participants q
  Use-IsLimited (on_participant i x m {e} h) q =
      All-set IsLimited e.participants i (apply m x) q
        (apply-IsLimited m x (All-get_elem? IsLimited e.participants i x q (ground arith)))

  pub Uses-keeps :
      {start e : PoSygEngine D}
      → All IsLimited start.participants
      → Uses start e
      → All IsLimited e.participants
  Uses-keeps q unused = q
  Uses-keeps q (used r u) = Use-IsLimited u (Uses-keeps q r)

pub new_participants-IsLimited :
    (D : Type 0) ⦃d : Double D⦄ (n i : ℕ) → All IsLimited (new_participants {D = D} n i)
unfolding new_participants new_participant
new_participants-IsLimited D zero i = tt
new_participants-IsLimited D (suc n) i = (
  record { no_violation = refl; initial_activity = refl; few = refl },
  new_participants-IsLimited D n (i + 1),
)

-- From the constructor on, whatever methods of the engine and of its participants are called, nobody's
-- economic activity is above its limit, the slashing pass changes nothing, and a cycle slashes and
-- restores nobody.
pub Uses-IsLimited :
    {D : Type 0} ⦃d : Double D⦄ (n : ℕ) (draw : ℕ → ℕ) {e : PoSygEngine D}
    → Uses (new_engine n) e
    → All IsLimited e.participants
      × (apply_slashing_mechanism e ≡ e)
      × (map (λ x. x.slashed) (run_cycle draw e).participants ≡ map (λ x. x.slashed) e.participants)
unfolding new_engine apply_slashing_mechanism
Uses-IsLimited {D} n draw {e} r =
    let limited = Uses-keeps (new_participants-IsLimited D n 0) r in
    (limited, process_slashing-IsLimited e limited, (run_cycle-IsLimited draw e limited).1)
