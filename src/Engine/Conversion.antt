-- ===== src/Engine/Conversion.antt =====
-- Paying synergy out as tokens (`convert_synergy_to_tokens`).
use mathlib.Core.List
use synledger_core.Economic
use mathlib.Core.Path.{ap₂}
use synledger_core.Double.{Double, nought}
use synledger_core.Engine.{PoSygEngine, convert_all, convert_synergy_to_tokens}
use synledger_core.Participant.{Participant}
use synledger_core.Prelude.{
  All, if◌then◌else◌, not, ◌≡◌, refl, List, [], ◌∷◌, arith, sym, ap, ◌∙◌, Bool-cases, inl, inr, map,
  true,
}

module _ {D : Type 0} ⦃d : Double D⦄ where
  -- Nothing is left to pay.
  abbrev pub IsSpent : Participant D → Type 0
  IsSpent x = x.synergy ≡ nought

  -- Who is slashed has no synergy.
  abbrev pub IsForfeited : Participant D → Type 0
  IsForfeited x = x.slashed ≡ true → x.synergy ≡ nought

  convert_all-IsSpent :
      (rate total : D) (xs : List (Participant D))
      → All IsForfeited xs
      → All IsSpent (convert_all rate total xs).0
  unfolding convert_all
  convert_all-IsSpent rate total [] s = tt
  convert_all-IsSpent rate total (x ∷ xs) s = ground (
    arith,
    s.0,
    convert_all-IsSpent rate (if not x.slashed then d.add total (d.mul x.synergy rate) else total)
        xs s.1,
  )

  spent-eq : (x : Participant D) → IsSpent x → record x { synergy = nought } ≡ x
  spent-eq x h = λ i. record x { synergy = sym h i }

  -- 0 times the rate is 0, and not -0 or no number, as it is for a finite rate that is not negative; and
  -- 0 added to 0 is 0.
  pub record IsFiniteRate (rate : D) : Type 0 where
    pub zero_mul : d.mul nought rate ≡ nought
    pub zero_add : d.add nought nought ≡ nought

  convert_all-spent :
      (rate : D) (xs : List (Participant D))
      → IsFiniteRate rate
      → All IsSpent xs
      → convert_all rate nought xs ≡ (xs, nought)
  unfolding convert_all
  convert_all-spent rate [] f s = refl
  convert_all-spent rate (x ∷ xs) f s =
      let paid : (if not x.slashed then d.add nought (d.mul x.synergy rate) else nought) ≡ nought =
        ground (arith, s.0, f.zero_mul, f.zero_add) in
      let same : (if not x.slashed then record x { synergy = nought } else x) ≡ x =
        ground (arith, spent-eq x s.0) in
      ap
        (λ total.
          let (ys, sum) = convert_all rate total xs in
          ((if not x.slashed then record x { synergy = nought } else x) ∷ ys, sum))
        paid
      ∙ ap₂ (λ y r. (y ∷ r.0, r.1)) same (convert_all-spent rate xs f s.1)

  -- Those who are paid.
  abbrev pub unslashed : List (Participant D) → List (Participant D)
  unslashed [] = []
  unslashed (x ∷ xs) = if x.slashed then unslashed xs else x ∷ unslashed xs

  -- The tokens of the economic model, summed up in the order of the participants.
  abbrev pub tokens_of : D → D → List (Participant D) → D
  tokens_of rate total xs =
      List.foldl d.add total
        (map (λ x. Economic.convert_synergy_to_tokens x.synergy rate) (unslashed xs))

  convert_all-tokens_of :
      (rate total : D) (xs : List (Participant D))
      → (convert_all rate total xs).1 ≡ tokens_of rate total xs
  unfolding convert_all Economic.convert_synergy_to_tokens
  convert_all-tokens_of rate total [] = refl
  convert_all-tokens_of rate total (x ∷ xs) = elim (Bool-cases x.slashed) [
    | inl out ↦ rw (out, convert_all) (convert_all-tokens_of rate total xs)
    | inr in_play ↦
        rw (in_play, convert_all)
          (convert_all-tokens_of rate (d.add total (d.mul x.synergy rate)) xs)
  ]

  -- Where every slashed participant has no synergy, 0 times the rate of a second conversion is 0, and 0 added
  -- to 0 is 0: a conversion pays the sum, over the participants who are not slashed, of the tokens that the
  -- economic model gives for their synergy, and leaves nobody any, and the second one pays nothing and
  -- changes nothing: no synergy is paid twice.
  pub convert_synergy_to_tokens-tokens_of :
      (rate again : D) (e : PoSygEngine D)
      → All IsForfeited e.participants
      → IsFiniteRate again
      → let (paid, total) = convert_synergy_to_tokens rate e in
        (total ≡ tokens_of rate nought e.participants)
        × All IsSpent paid.participants
        × (convert_synergy_to_tokens again paid ≡ (paid, nought))
  unfolding convert_synergy_to_tokens
  convert_synergy_to_tokens-tokens_of rate again e s f =
      let spent = convert_all-IsSpent rate nought e.participants s in
      (
        convert_all-tokens_of rate nought e.participants,
        spent,
        ap (λ r. (record e { participants = r.0 }, r.1))
            (convert_all-spent again (convert_all rate nought e.participants).0 f spent),
      )
