-- ===== src/Engine/Rounds.antt =====
-- The parallel loops of `run_cycle` in any order of their rounds.
use mathlib.Core.Path.{subst}
use synledger_core.Double.{Double, nought}
use synledger_core.Engine.{
  distribute_rewards, PoSygEngine, adjust_network_parameters, behave, behave_all, slash_violator,
  process_slashing, add_synergy, reward_share, run_cycle, get_participant, put_participant,
}
use synledger_core.Engine.Cycle.{length-behave_all}
use synledger_core.Participant.{
  Participant, participant_honest, participant_dishonest, apply_slash, update_synergy,
}
use synledger_core.Prelude.{
  length, length-map, if◌then◌else◌, ℕ, ◌+◌, ◌≡◌, refl, sym, ap, ◌∙◌, List, [], ◌∷◌, map, ◌>>=◌,
  get_elem?, set, All, length-set, set-same, set-set, get_elem?-set, get_elem?-some, Result, ok,
  ltb, ==_iff, Bool-cases, Option-cases, ◌<◌, inl, inr, not, ◌&&◌, some, arith,
}
use synledger_core.Prelude.Int.{pos, ltb_ℤ}
use synledger_core.Schedules.{
  IsSchedule, run_rounds, map_from, run_rounds-map_from, IsSchedule-below, run_round,
}

module _ {D : Type 0} ⦃d : Double D⦄ where
  -- The bodies of the loops of `run_cycle`, `process_slashing` and `distribute_rewards`. A round has the whole
  -- engine, and reads and writes it through `participants[i]`, at each statement anew. (Out of range the source
  -- is undefined; here it throws.)
  unfoldable pub behave_round : (ℕ → ℕ) → ℕ → PoSygEngine D → Result (PoSygEngine D)
  behave_round dis i e = get_participant i e >>= λ x.
      (let marked =
          put_participant i
            (record x {
              behavior = if ltb (dis i) 3 then participant_dishonest else participant_honest;
            })
            e in
        get_participant i marked >>= λ y. ok (put_participant i (update_synergy y) marked))

  unfoldable pub slash_round : ℕ → PoSygEngine D → Result (PoSygEngine D)
  slash_round i e = get_participant i e >>= λ x.
      if ltb_ℤ (pos 3) x.violations_count && not x.slashed
      then ok (put_participant i (apply_slash x) e)
      else ok e

  unfoldable pub reward_round : D → ℕ → PoSygEngine D → Result (PoSygEngine D)
  reward_round total_synergy i e = get_participant i e >>= λ x.
      if not x.slashed
      then ok (
          put_participant i
            (record x {
              reward =
                  d.add x.reward (d.mul (d.div x.synergy total_synergy) e.total_economic_activity);
            })
            e)
      else ok e

  -- The rounds in the order in which they run.
  unfoldable pub loop_in :
      (ℕ → PoSygEngine D → Result (PoSygEngine D)) → List ℕ → PoSygEngine D → Result (PoSygEngine D)
  loop_in round [] e = ok e
  loop_in round (i ∷ order) e = round i e >>= λ e'. loop_in round order e'

  -- `distribute_rewards`. The reduction adds up in the order of the indices.
  unfoldable pub reward_in : List ℕ → PoSygEngine D → Result (PoSygEngine D)
  unfolding loop_in
  reward_in order e =
      let total_synergy = add_synergy nought e.participants in
      if d.lt nought total_synergy then loop_in (reward_round total_synergy) order e else ok e

  -- `run_cycle`, with the order of the rounds of each loop.
  unfoldable pub run_cycle_in :
      List ℕ → List ℕ → List ℕ → (ℕ → ℕ) → PoSygEngine D → Result (PoSygEngine D)
  unfolding loop_in reward_in
  run_cycle_in behave_order slash_order reward_order dis e =
      loop_in (behave_round dis) behave_order (adjust_network_parameters e) >>= λ behaved.
      loop_in slash_round slash_order behaved >>= λ slashed. reward_in reward_order slashed

  length-run_round :
      (body : ℕ → Participant D → Participant D) (i : ℕ) (xs : List (Participant D))
      → length (run_round body i xs) ≡ length xs
  unfolding run_round
  length-run_round body i xs = elim (Option-cases (get_elem? xs i)) [
    | inl missing ↦ rw (missing, run_round) refl
    | inr (x, found) ↦ rw (found, run_round) (length-set xs i (body i x))
  ]

  abbrev with : PoSygEngine D → List (Participant D) → PoSygEngine D
  with e xs = record e { participants = xs }

  -- A round reads and writes its own participant, and no other.
  behave_round-run_round :
      (dis : ℕ → ℕ) (i : ℕ) (e : PoSygEngine D)
      → i < length e.participants
      → behave_round dis i e ≡ ok (with e (run_round (λ k. behave (dis k)) i e.participants))
  unfolding behave_round behave get_participant put_participant run_round
  behave_round-run_round dis i e h =
      let (x, got) = get_elem?-some e.participants i h in
      let marked : Participant D = record x {
        behavior = if ltb (dis i) 3 then participant_dishonest else participant_honest;
      } in
      let again : get_elem? (set e.participants i marked) i ≡ some marked =
        ground (arith, got, get_elem?-set e.participants i i marked, ==_iff i i) in
      rw (got, behave_round, get_participant, run_round)
        (rw (again, behave_round, get_participant)
          (ap (λ xs. ok (with e xs)) (set-set e.participants i marked (update_synergy marked))))

  slash_round-run_round :
      (i : ℕ) (e : PoSygEngine D)
      → i < length e.participants
      → slash_round i e ≡ ok (with e (run_round (λ k. slash_violator) i e.participants))
  unfolding slash_round slash_violator get_participant put_participant run_round
  slash_round-run_round i e h =
      let (x, got) = get_elem?-some e.participants i h in
      ground (arith, got, set-same e.participants i x)

  reward_round-run_round :
      (total : D) (i : ℕ) (e : PoSygEngine D)
      → i < length e.participants
      → reward_round total i e
        ≡ ok (
            with e (run_round (λ k. reward_share total e.total_economic_activity) i e.participants))
  unfolding reward_round reward_share get_participant put_participant run_round
  reward_round-run_round total i e h =
      let (x, got) = get_elem?-some e.participants i h in
      ground (arith, got, set-same e.participants i x)

  -- A loop whose rounds do `body` to their own participants.
  module _ (round : ℕ → PoSygEngine D → Result (PoSygEngine D))
      (body : ℕ → Participant D → Participant D) (e : PoSygEngine D)
      (one : (i : ℕ) (xs : List (Participant D))
        → i < length xs
        → round i (with e xs) ≡ ok (with e (run_round body i xs))) where
    loop_in-run_rounds :
        (n : ℕ) (order : List ℕ) (xs : List (Participant D))
        → length xs ≡ n
        → All (λ i. i < n) order
        → loop_in round order (with e xs) ≡ ok (with e (run_rounds body order xs))
    unfolding loop_in run_rounds
    loop_in-run_rounds n [] xs room all = refl
    loop_in-run_rounds n (i ∷ order) xs room all =
        ap (λ r. r >>= λ e'. loop_in round order e') (one i xs (omega (arith, room, all.0)))
        ∙ loop_in-run_rounds n order (run_round body i xs) (length-run_round body i xs ∙ room) all.1

    -- In any order, each round once, it is the loop in the order of the indices.
    loop_in-map_from :
        (order : List ℕ) (xs : List (Participant D))
        → IsSchedule (length xs) order
        → loop_in round order (with e xs) ≡ ok (with e (map_from body 0 xs))
    loop_in-map_from order xs once =
        loop_in-run_rounds (length xs) order xs refl (IsSchedule-below (length xs) order once)
        ∙ ap (λ ys. ok (with e ys)) (run_rounds-map_from body order xs once)

  map_from-map :
      (f : Participant D → Participant D) (i : ℕ) (xs : List (Participant D))
      → map_from (λ k. f) i xs ≡ map f xs
  map_from-map f i [] = refl
  map_from-map f i (x ∷ xs) = ap (λ ys. f x ∷ ys) (map_from-map f (i + 1) xs)

  map_from-behave_all :
      (draw : ℕ → ℕ) (i : ℕ) (xs : List (Participant D))
      → map_from (λ k. behave (draw k)) i xs ≡ behave_all draw i xs
  unfolding behave_all
  map_from-behave_all draw i [] = refl
  map_from-behave_all draw i (x ∷ xs) =
      ap (λ ys. behave (draw i) x ∷ ys) (map_from-behave_all draw (i + 1) xs)

  reward_in-distribute_rewards :
      (order : List ℕ) (e : PoSygEngine D)
      → IsSchedule (length e.participants) order
      → reward_in order e ≡ ok (distribute_rewards e)
  unfolding reward_in distribute_rewards
  reward_in-distribute_rewards order e once =
      let total = add_synergy nought e.participants in
      let share = reward_share total e.total_economic_activity in
      let looped =
        loop_in-map_from (reward_round total) (λ k. share) e
          (λ i xs. reward_round-run_round total i (with e xs)) order e.participants once in
      elim (Bool-cases (d.lt nought total)) [
        | inl some_synergy ↦
            rw some_synergy
              (looped ∙ ap (λ xs. ok (with e xs)) (map_from-map share 0 e.participants))
        | inr no_synergy ↦ rw no_synergy refl
      ]

  -- A cycle of an engine that has as many participants as it says, whose parallel loops run their rounds one by
  -- one in any order, each round once, never leaves the participants' range, and comes to the cycle in the order
  -- of the indices, for the same draws: a round writes no participant but its own, and reads no other.
  pub run_cycle_in-run_cycle :
      (behave_order slash_order reward_order : List ℕ) (draw : ℕ → ℕ) (e : PoSygEngine D)
      → length e.participants ≡ e.num_participants
      → IsSchedule e.num_participants behave_order
      → IsSchedule e.num_participants slash_order
      → IsSchedule e.num_participants reward_order
      → run_cycle_in behave_order slash_order reward_order draw e ≡ ok (run_cycle draw e)
  unfolding run_cycle_in run_cycle process_slashing adjust_network_parameters
  run_cycle_in-run_cycle behave_order slash_order reward_order draw e size b s r =
      let adjusted = adjust_network_parameters e in
      let behaved = behave_all draw 0 e.participants in
      let slashed = map slash_violator behaved in
      let same : length behaved ≡ e.num_participants =
        length-behave_all draw 0 e.participants ∙ size in
      let many : length slashed ≡ e.num_participants = length-map slash_violator behaved ∙ same in
      let first : loop_in (behave_round draw) behave_order adjusted ≡ ok (with adjusted behaved) =
        loop_in-map_from (behave_round draw) (λ k. behave (draw k)) adjusted
          (λ i xs. behave_round-run_round draw i (with adjusted xs)) behave_order e.participants
          (subst (λ n. IsSchedule n behave_order) (sym size) b)
        ∙ ap (λ xs. ok (with adjusted xs)) (map_from-behave_all draw 0 e.participants) in
      let second : loop_in slash_round slash_order (with adjusted behaved)
          ≡ ok (with adjusted slashed) =
        loop_in-map_from slash_round (λ k. slash_violator) adjusted
          (λ i xs. slash_round-run_round i (with adjusted xs)) slash_order behaved
          (subst (λ n. IsSchedule n slash_order) (sym same) s)
        ∙ ap (λ xs. ok (with adjusted xs)) (map_from-map slash_violator 0 behaved) in
      ap (λ o. o >>= λ e'. loop_in slash_round slash_order e' >>= λ e''. reward_in reward_order e'')
        first
      ∙ ap (λ o. o >>= λ e'. reward_in reward_order e') second
      ∙ reward_in-distribute_rewards reward_order (with adjusted slashed)
          (subst (λ n. IsSchedule n reward_order) (sym many) r)
