-- ===== src/Ledger/Merkle/Rounds.antt =====
-- The rounds of the Merkle loop: lengths, fuel and concatenation.
use mathlib.Core.Path.{ap₂}
use native.Mathlib.Nat.{pow-suc}
use synledger_core.Ledger.Merkle.{pair_hashes, merkle_level, merkle_loop, padded}
use synledger_core.Prelude.{
  length, last_or, length-append, Text, ℕ, zero, suc, ◌+◌, ◌/◌, ◌%◌, ◌^◌, ◌≤◌, ◌<◌, ◌≡◌, refl, ap,
  some, List, [], ◌∷◌, ◌++◌, arith, ◌==◌, lt→ltb, ==_iff, Bool-cases, sym, ◌∙◌, ◌⊎◌, inl, inr, ◌*◌,
}

pub power_pos : (k : ℕ) → 0 < 2 ^ k
power_pos zero = omega arith
power_pos (suc k) = omega (arith, pow-suc 2 k, power_pos k)

mod_two : (n : ℕ) → (n % 2 ≡ 0) ⊎ (n % 2 ≡ 1)
mod_two n = omega arith

padded_even : (hs : List Text) → length hs % 2 ≡ 0 → padded hs ≡ hs
unfolding padded
padded_even [] h = refl
padded_even (a ∷ hs) h = rw ((==_iff _ 0).1 h)

padded_odd :
    (a : Text) (hs : List Text)
    → length (a ∷ hs) % 2 ≡ 1
    → padded (a ∷ hs) ≡ (a ∷ hs) ++ (last_or a hs ∷ [])
unfolding padded
padded_odd a hs h = elim (Bool-cases ((length (a ∷ hs) % 2) == 0)) [
  | inl e ↦ absurd (omega (arith, (==_iff (length (a ∷ hs) % 2) 0).0 e))
  | inr e ↦ rw e
]

length-padded : (hs : List Text) → length (padded hs) ≡ length hs + length hs % 2
length-padded [] = rw (padded_even [] refl)
length-padded (a ∷ hs) = elim (mod_two (length (a ∷ hs))) [
  | inl e ↦ rw (padded_even (a ∷ hs) e) (omega arith)
  | inr e ↦ rw (padded_odd a hs e) (omega (arith, length-append (a ∷ hs) (last_or a hs ∷ [])))
]

module _ (hash : Text → Text) where
  length-pair_hashes : (hs : List Text) → length (pair_hashes hash hs) ≡ length hs / 2
  unfolding pair_hashes
  length-pair_hashes [] = refl
  length-pair_hashes (a ∷ []) = refl
  length-pair_hashes (a ∷ (b ∷ hs)) = omega (arith, length-pair_hashes hs)

  pair_hashes-append :
      (xs ys : List Text)
      → length xs % 2 ≡ 0
      → pair_hashes hash (xs ++ ys) ≡ pair_hashes hash xs ++ pair_hashes hash ys
  unfolding pair_hashes
  pair_hashes-append [] ys h = refl
  pair_hashes-append (a ∷ []) ys h = absurd (omega arith)
  pair_hashes-append (a ∷ (b ∷ xs)) ys h =
      ap (λ r. hash (a ++ b) ∷ r) (pair_hashes-append xs ys (omega arith))

  merkle_level_even :
      (hs : List Text) → length hs % 2 ≡ 0 → merkle_level hash hs ≡ pair_hashes hash hs
  unfolding merkle_level
  merkle_level_even hs h = ap (pair_hashes hash) (padded_even hs h)

  length-merkle_level : (hs : List Text) → length (merkle_level hash hs) ≡ (length hs + 1) / 2
  unfolding merkle_level
  length-merkle_level hs = omega (arith, length-pair_hashes (padded hs), length-padded hs)

  -- An odd last hash may as well be written twice.
  pub merkle_level_doubled :
      (a : Text) (hs : List Text)
      → length (a ∷ hs) % 2 ≡ 1
      → merkle_level hash ((a ∷ hs) ++ (last_or a hs ∷ [])) ≡ merkle_level hash (a ∷ hs)
  unfolding merkle_level
  merkle_level_doubled a hs h = ap (pair_hashes hash) (
      padded_even ((a ∷ hs) ++ (last_or a hs ∷ []))
        (omega (arith, length-append (a ∷ hs) (last_or a hs ∷ [])))
      ∙ sym (padded_odd a hs h))

  pub merkle_loop_step :
      (f : ℕ) (hs : List Text)
      → 1 < length hs
      → merkle_loop hash (suc f) hs ≡ merkle_loop hash f (merkle_level hash hs)
  unfolding merkle_loop
  merkle_loop_step f hs h = rw (lt→ltb 1 (length hs) h)

  -- With fuel for each hash the loop returns, and more fuel makes no difference.
  pub merkle_loop_total :
      (fuel : ℕ) (hs : List Text)
      → 0 < length hs
      → length hs ≤ fuel
      → (r : Text) × (merkle_loop hash fuel hs ≡ some r)
  unfolding merkle_loop
  merkle_loop_total zero hs p h = absurd (omega arith)
  merkle_loop_total (suc fuel) [] p h = absurd (omega arith)
  merkle_loop_total (suc fuel) (a ∷ []) p h = (a, refl)
  merkle_loop_total (suc fuel) (a ∷ (b ∷ hs)) p h =
      rw (merkle_loop_step fuel (a ∷ (b ∷ hs)) (omega arith)) (
        merkle_loop_total fuel (merkle_level hash (a ∷ (b ∷ hs)))
          (omega (arith, length-merkle_level (a ∷ (b ∷ hs))))
          (omega (arith, length-merkle_level (a ∷ (b ∷ hs)))))

  pub merkle_loop_fuel :
      (f g : ℕ) (hs : List Text)
      → length hs ≤ f
      → length hs ≤ g
      → 0 < length hs
      → merkle_loop hash f hs ≡ merkle_loop hash g hs
  unfolding merkle_loop
  merkle_loop_fuel zero g hs h k p = absurd (omega arith)
  merkle_loop_fuel (suc f) zero hs h k p = absurd (omega arith)
  merkle_loop_fuel (suc f) (suc g) [] h k p = refl
  merkle_loop_fuel (suc f) (suc g) (a ∷ []) h k p = refl
  merkle_loop_fuel (suc f) (suc g) (a ∷ (b ∷ hs)) h k p =
      merkle_loop_step f (a ∷ (b ∷ hs)) (omega arith)
      ∙ merkle_loop_fuel f g (merkle_level hash (a ∷ (b ∷ hs)))
          (omega (arith, length-merkle_level (a ∷ (b ∷ hs))))
          (omega (arith, length-merkle_level (a ∷ (b ∷ hs))))
          (omega (arith, length-merkle_level (a ∷ (b ∷ hs))))
      ∙ sym (merkle_loop_step g (a ∷ (b ∷ hs)) (omega arith))

  merkle_loop-one :
      (f : ℕ) (xs : List Text) (x : Text)
      → length xs ≡ 1
      → merkle_loop hash f xs ≡ some x
      → (xs ≡ x ∷ []) × (0 < f)
  unfolding merkle_loop
  merkle_loop-one zero xs x e h = cc
  merkle_loop-one (suc f) [] x e h = absurd (omega arith)
  merkle_loop-one (suc f) (a ∷ []) x e h = ground arith
  merkle_loop-one (suc f) (a ∷ (b ∷ xs)) x e h = absurd (omega arith)

  merkle_loop-pair :
      (f : ℕ) (x y : Text) → 0 < f → merkle_loop hash (suc f) (x ∷ (y ∷ [])) ≡ some (hash (x ++ y))
  unfolding merkle_loop merkle_level padded pair_hashes
  merkle_loop-pair zero x y h = absurd (omega arith)
  merkle_loop-pair (suc f) x y h = refl

  merkle_level-append :
      (xs ys : List Text)
      → length xs % 2 ≡ 0
      → length ys % 2 ≡ 0
      → merkle_level hash (xs ++ ys) ≡ merkle_level hash xs ++ merkle_level hash ys
  merkle_level-append xs ys ex ey =
      merkle_level_even (xs ++ ys) (omega (arith, length-append xs ys))
      ∙ pair_hashes-append xs ys ex
      ∙ sym (ap₂ (λ a b. a ++ b) (merkle_level_even xs ex) (merkle_level_even ys ey))

  pub merkle_loop-append :
      (k f : ℕ) (xs ys : List Text) (x y : Text)
      → length xs ≡ 2 ^ k
      → length ys ≡ 2 ^ k
      → merkle_loop hash f xs ≡ some x
      → merkle_loop hash f ys ≡ some y
      → merkle_loop hash (suc f) (xs ++ ys) ≡ some (hash (x ++ y))
  unfolding merkle_loop
  merkle_loop-append zero f xs ys x y ex ey hx hy =
      let one = merkle_loop-one f xs x ex hx in
      let other = merkle_loop-one f ys y ey hy in rw (one.0, other.0) (merkle_loop-pair f x y one.1)
  merkle_loop-append (suc k) zero xs ys x y ex ey hx hy = cc
  merkle_loop-append (suc k) (suc f) xs ys x y ex ey hx hy =
      let ex' : length xs ≡ 2 ^ k * 2 = ex ∙ pow-suc 2 k in
      let ey' : length ys ≡ 2 ^ k * 2 = ey ∙ pow-suc 2 k in
      let long : 1 < length xs = omega (arith, power_pos k) in
      let long' : 1 < length ys = omega (arith, power_pos k) in
      merkle_loop_step (suc f) (xs ++ ys) (omega (arith, length-append xs ys))
      ∙ ap (merkle_loop hash (suc f)) (merkle_level-append xs ys (omega arith) (omega arith))
      ∙ merkle_loop-append k f (merkle_level hash xs) (merkle_level hash ys) x y
          (omega (arith, length-merkle_level xs)) (omega (arith, length-merkle_level ys))
          (sym (merkle_loop_step f xs long) ∙ hx) (sym (merkle_loop_step f ys long') ∙ hy)
