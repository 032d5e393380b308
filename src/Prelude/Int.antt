-- ===== src/Prelude/Int.antt =====
-- Signed integers over the native numbers: `int` and `std::time_t`. Sums and orders go through the
-- two parts of an integer, which are numbers that `omega` reads.
use mathlib.Core.Path.{ap₂}
use synledger_core.Prelude.{
  ℕ, suc, ◌+◌, ◌-◌, ◌*◌, ◌≤◌, ◌≡◌, Bool, true, false, arith, ltb, leb, ◌==◌, ◌&&◌, if◌then◌else◌,
  Text, show_nat, ◌∷◌, ◌<◌, ap, ◌∙◌,
}

-- `negsuc n` is -(n + 1).
pub data ℤ : Type 0 where
  pos : ℕ → ℤ
  negsuc : ℕ → ℤ

abbrev pub pos_part : ℤ → ℕ
pos_part (pos n) = n
pos_part (negsuc n) = 0

abbrev pub neg_part : ℤ → ℕ
neg_part (pos n) = 0
neg_part (negsuc n) = suc n

abbrev pub sub_ℕ : ℕ → ℕ → ℤ
sub_ℕ a b = if leb b a then pos (a - b) else negsuc (b - a - 1)

infixl 65 ◌+ℤ◌ ◌-ℤ◌
infixl 70 ◌*ℤ◌
infix 50 ◌≤ℤ◌
unfoldable pub ◌+ℤ◌ : ℤ → ℤ → ℤ
a +ℤ b = sub_ℕ (pos_part a + pos_part b) (neg_part a + neg_part b)

unfoldable pub ◌-ℤ◌ : ℤ → ℤ → ℤ
a -ℤ b = sub_ℕ (pos_part a + neg_part b) (neg_part a + pos_part b)

unfoldable pub ◌*ℤ◌ : ℤ → ℤ → ℤ
a *ℤ b =
    sub_ℕ (pos_part a * pos_part b + neg_part a * neg_part b)
      (pos_part a * neg_part b + neg_part a * pos_part b)

abbrev pub ◌≤ℤ◌ : ℤ → ℤ → Type 0
a ≤ℤ b = pos_part a + neg_part b ≤ pos_part b + neg_part a

abbrev pub ltb_ℤ : ℤ → ℤ → Bool
ltb_ℤ a b = ltb (pos_part a + neg_part b) (pos_part b + neg_part a)

abbrev pub leb_ℤ : ℤ → ℤ → Bool
leb_ℤ a b = leb (pos_part a + neg_part b) (pos_part b + neg_part a)

abbrev pub eqb_ℤ : ℤ → ℤ → Bool
eqb_ℤ a b = pos_part a == pos_part b && neg_part a == neg_part b

-- A sum of two `int`s, as an `int`: beyond its range it wraps around.
unfoldable pub wrap_int : ℤ → ℤ
wrap_int a =
    if leb_ℤ (pos 2147483648) a
    then a -ℤ pos 4294967296
    else if ltb_ℤ a (negsuc 2147483647)
    then a +ℤ pos 4294967296
    else a

-- `std::min`.
abbrev pub min_ℤ : ℤ → ℤ → ℤ
min_ℤ a b = if ltb_ℤ b a then b else a

-- `std::to_string` of a signed number of at most 64 bits.
unfoldable pub show_int : ℤ → Text
show_int (pos n) = show_nat n
show_int (negsuc n) = b'-' ∷ show_nat (suc n)

-- One lemma for each operation lets `omega` work with the operations shut.
pub +ℤ_parts :
    (a b : ℤ)
    → pos_part (a +ℤ b) + neg_part a + neg_part b ≡ neg_part (a +ℤ b) + pos_part a + pos_part b
unfolding ◌+ℤ◌
+ℤ_parts a b = ground arith

pub eq_of_parts : (a b : ℤ) → pos_part a + neg_part b ≡ pos_part b + neg_part a → a ≡ b
eq_of_parts a b h = ground arith

pub ruleset int_laws = (arith, +ℤ_parts, eq_of_parts)

pub eqb_ℤ-refl : (a : ℤ) → eqb_ℤ a a ≡ true
eqb_ℤ-refl a = ground arith

pub eqb_ℤ-below : (a b : ℤ) → a +ℤ pos 1 ≤ℤ b → eqb_ℤ a b ≡ false
eqb_ℤ-below a b h = ground (arith, +ℤ_parts a (pos 1))

-- Where an `int` holds the sum, nothing wraps around.
pub wrap_int-small : (n : ℕ) → n < 2147483648 → wrap_int (pos n) ≡ pos n
unfolding wrap_int
wrap_int-small n h = ground arith

pub add_pos : (m n : ℕ) → pos m +ℤ pos n ≡ pos (m + n)
unfolding ◌+ℤ◌
add_pos m n = ground arith

pub wrap_int-add : (m n : ℕ) → m + n < 2147483648 → wrap_int (pos m +ℤ pos n) ≡ pos (m + n)
wrap_int-add m n h = ap wrap_int (add_pos m n) ∙ wrap_int-small (m + n) h

pub wrap_int-sum :
    {a b : ℤ} {m n : ℕ}
    → a ≡ pos m
    → b ≡ pos n
    → m + n < 2147483648
    → wrap_int (a +ℤ b) ≡ pos (m + n)
wrap_int-sum {a} {b} {m} {n} e f small = ap₂ (λ x y. wrap_int (x +ℤ y)) e f ∙ wrap_int-add m n small
