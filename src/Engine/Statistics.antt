-- ===== src/Engine/Statistics.antt =====
-- `get_statistics` and `struct Stats`: the threads of a parallel region count, and add up one by one.
use mathlib.Core.List.{Perm, flatten}
use synledger_core.Double.{Double, nought}
use synledger_core.Engine.{is_honest, count_honest, count_dishonest, PoSygEngine}
use synledger_core.Participant.{Participant}
use synledger_core.Prelude.{
  length, if◌then◌else◌, ℕ, ◌+◌, ◌≡◌, refl, List, [], ◌∷◌, ◌++◌, arith, length-append, Bool-cases,
  ◌^◌, ◌<◌, ap, ◌∙◌, inl, inr,
}
use synledger_core.Prelude.Int.{ℤ, pos, ◌+ℤ◌, wrap_int, wrap_int-sum}
use synledger_core.Prelude.Totals.{total-perm}

pub record Stats (D : Type 0) : Type 0 where
  pub honest_count : ℤ
  pub dishonest_count : ℤ
  pub total_rewards : D
  pub total_penalties : D
  pub slashed_participants : D
  pub total_economic_contribution : D

module _ {D : Type 0} ⦃d : Double D⦄ where
  abbrev pub no_stats : Stats D
  no_stats = record {
    honest_count = pos 0;
    dishonest_count = pos 0;
    total_rewards = nought;
    total_penalties = nought;
    slashed_participants = nought;
    total_economic_contribution = nought;
  }

  -- One round of the loop of `get_statistics`, on a thread's statistics.
  unfoldable pub tally : Stats D → Participant D → Stats D
  tally s x = record s {
    honest_count = if is_honest x then wrap_int (s.honest_count +ℤ pos 1) else s.honest_count;
    dishonest_count =
        if is_honest x then s.dishonest_count else wrap_int (s.dishonest_count +ℤ pos 1);
    total_rewards = d.add s.total_rewards x.reward;
    total_penalties = d.add s.total_penalties x.penalty;
    slashed_participants =
        if x.slashed then d.add s.slashed_participants (d.literal 1 0) else s.slashed_participants;
  }

  unfoldable pub tally_all : Stats D → List (Participant D) → Stats D
  tally_all s [] = s
  tally_all s (x ∷ xs) = tally_all (tally s x) xs

  -- The critical section.
  unfoldable pub merge : Stats D → Stats D → Stats D
  merge s t = record s {
    honest_count = wrap_int (s.honest_count +ℤ t.honest_count);
    dishonest_count = wrap_int (s.dishonest_count +ℤ t.dishonest_count);
    total_rewards = d.add s.total_rewards t.total_rewards;
    total_penalties = d.add s.total_penalties t.total_penalties;
    slashed_participants = d.add s.slashed_participants t.slashed_participants;
  }

  unfoldable pub merge_all : Stats D → List (List (Participant D)) → Stats D
  merge_all s [] = s
  merge_all s (share ∷ shares) = merge_all (merge s (tally_all no_stats share)) shares

  -- `get_statistics(stats)`, where `shares` are the participants that each thread goes through, in the
  -- order in which the threads enter the critical section.
  unfoldable pub get_statistics : List (List (Participant D)) → Stats D → Stats D
  get_statistics shares stats =
      let local_stats = merge_all no_stats shares in
      record stats {
        honest_count = local_stats.honest_count;
        dishonest_count = local_stats.dishonest_count;
        total_rewards = local_stats.total_rewards;
        total_penalties = local_stats.total_penalties;
        slashed_participants = local_stats.slashed_participants;
      }

module _ {D : Type 0} where
  count_honest-append :
      (xs ys : List (Participant D)) → count_honest (xs ++ ys) ≡ count_honest xs + count_honest ys
  unfolding count_honest
  count_honest-append [] ys = omega arith
  count_honest-append (x ∷ xs) ys = omega (arith, count_honest-append xs ys)

  count_dishonest-append :
      (xs ys : List (Participant D))
      → count_dishonest (xs ++ ys) ≡ count_dishonest xs + count_dishonest ys
  unfolding count_dishonest
  count_dishonest-append [] ys = omega arith
  count_dishonest-append (x ∷ xs) ys = omega (arith, count_dishonest-append xs ys)

  count_honest-perm :
      {xs ys : List (Participant D)} → Perm xs ys → count_honest xs ≡ count_honest ys
  unfolding count_honest
  count_honest-perm = total-perm count_honest (λ x. if is_honest x then 1 else 0) (λ x xs. refl)

  count_dishonest-perm :
      {xs ys : List (Participant D)} → Perm xs ys → count_dishonest xs ≡ count_dishonest ys
  unfolding count_dishonest
  count_dishonest-perm =
      total-perm count_dishonest (λ x. if is_honest x then 0 else 1) (λ x xs. refl)

  -- Everybody is counted once.
  count_sum : (xs : List (Participant D)) → count_honest xs + count_dishonest xs ≡ length xs
  unfolding count_honest count_dishonest
  count_sum [] = omega arith
  count_sum (x ∷ xs) = ground (arith, count_sum xs)

module _ {D : Type 0} ⦃d : Double D⦄ where
  -- The two counts of a thread or of the total.
  abbrev Counts : Stats D → ℕ → ℕ → Type 0
  Counts s honest dishonest = (s.honest_count ≡ pos honest) × (s.dishonest_count ≡ pos dishonest)

  tally-Counts :
      (s : Stats D) (x : Participant D) (h k : ℕ)
      → h + k + 1 < 2147483648
      → Counts s h k
      → Counts (tally s x) (h + (if is_honest x then 1 else 0)) (k + (if is_honest x then 0 else 1))
  unfolding tally
  tally-Counts s x h k small c = elim (Bool-cases (is_honest x)) [
    | inl honest ↦
        rw (honest, tally) (wrap_int-sum c.0 refl (omega arith), c.1 ∙ ap pos (omega arith))
    | inr lies ↦ rw (lies, tally) (c.0 ∙ ap pos (omega arith), wrap_int-sum c.1 refl (omega arith))
  ]

  tally_all-Counts :
      (s : Stats D) (xs : List (Participant D)) (h k : ℕ)
      → h + k + length xs < 2147483648
      → Counts s h k
      → Counts (tally_all s xs) (h + count_honest xs) (k + count_dishonest xs)
  unfolding tally_all count_honest count_dishonest
  tally_all-Counts s [] h k small c = (c.0 ∙ ap pos (omega arith), c.1 ∙ ap pos (omega arith))
  tally_all-Counts s (x ∷ xs) h k small c =
      let one : ℕ = if is_honest x then 1 else 0 in
      let other : ℕ = if is_honest x then 0 else 1 in
      let rest =
        tally_all-Counts (tally s x) xs (h + one) (k + other) (ground arith)
          (tally-Counts s x h k (omega arith) c) in
      (rest.0 ∙ ap pos (omega arith), rest.1 ∙ ap pos (omega arith))

  merge_all-Counts :
      (s : Stats D) (shares : List (List (Participant D))) (h k : ℕ)
      → h + k + length (flatten shares) < 2147483648
      → Counts s h k
      → let xs = flatten shares in
        Counts (merge_all s shares) (h + count_honest xs) (k + count_dishonest xs)
  unfolding merge_all merge count_honest count_dishonest flatten
  merge_all-Counts s [] h k small c = (c.0 ∙ ap pos (omega arith), c.1 ∙ ap pos (omega arith))
  merge_all-Counts s (share ∷ shares) h k small c =
      let many = length-append share (flatten shares) in
      let own = tally_all-Counts no_stats share 0 0 (omega (arith, many, small)) (refl, refl) in
      let sum = count_sum share in
      let rest =
        merge_all-Counts (merge s (tally_all no_stats share)) shares (h + (0 + count_honest share))
          (k + (0 + count_dishonest share)) (omega (arith, many, small, sum))
          (
            wrap_int-sum c.0 own.0 (omega (arith, many, small, sum)),
            wrap_int-sum c.1 own.1 (omega (arith, many, small, sum)),
          ) in
      (
        rest.0 ∙ ap pos (omega (arith, count_honest-append share (flatten shares))),
        rest.1 ∙ ap pos (omega (arith, count_dishonest-append share (flatten shares))),
      )

  -- However the threads share fewer than 2^31 participants, and in whatever order they merge, the honest and
  -- the dishonest are counted right, and together they are all the participants.
  pub get_statistics-counts :
      (shares : List (List (Participant D))) (stats : Stats D) (e : PoSygEngine D)
      → length e.participants < 2 ^ 31
      → Perm (flatten shares) e.participants
      → let s = get_statistics shares stats in
        (s.honest_count ≡ pos (count_honest e.participants))
        × (s.dishonest_count ≡ pos (count_dishonest e.participants))
        × (count_honest e.participants + count_dishonest e.participants ≡ length e.participants)
  unfolding get_statistics
  get_statistics-counts shares stats e few p =
      let as_many =
        total-perm length (λ x. 1) (λ (x : Participant D) (xs : List (Participant D)). omega arith)
          p in
      let c = merge_all-Counts no_stats shares 0 0 (omega (arith, few, as_many)) (refl, refl) in
      (
        c.0 ∙ ap pos (omega (arith, count_honest-perm p)),
        c.1 ∙ ap pos (omega (arith, count_dishonest-perm p)),
        count_sum e.participants,
      )
