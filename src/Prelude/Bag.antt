-- ===== src/Prelude/Bag.antt =====
-- Lists of numbers without their order: a quotient.
use mathlib.Core.Quot
use mathlib.Core.Quot.{Quot, Quot-set}
use native.Mathlib.Nat.{ℕ_set}
use synledger_core.Prelude.{count, ap, List, ℕ, ◌≡◌}

-- Two lists hold the same numbers, each as often.
abbrev pub SameItems : List ℕ → List ℕ → Type 0
SameItems xs ys = (a : ℕ) → count a xs ≡ count a ys

abbrev pub Bag : Type 0
Bag = Quot SameItems

abbrev pub bag : List ℕ → Bag
bag xs = Quot.mk xs

unfoldable occurrences : ℕ → Bag → ℕ
occurrences a = Quot.lift ℕ_set (count a) (λ xs ys h. h a)

pub bag-eq : (xs ys : List ℕ) → SameItems xs ys → bag xs ≡ bag ys
bag-eq xs ys h = Quot.sound h

-- What is equal without its order has each number as often.
pub bag-count : (a : ℕ) (xs ys : List ℕ) → bag xs ≡ bag ys → count a xs ≡ count a ys
unfolding occurrences
bag-count a xs ys e = ap (occurrences a) e
