-- ===== src/Double/Fixed.antt =====
-- Signed fixed-point numbers with three decimals: a value at which the definitions that take a
-- `Double` can be run, and which meets the laws that theorems name.
use synledger_core.Double.{Double, IsOrdered}
use synledger_core.Prelude.Int.{ℤ, pos, pos_part, neg_part, sub_ℕ, ◌+ℤ◌, ◌-ℤ◌, ◌*ℤ◌, ltb_ℤ}
use synledger_core.Prelude.{arith, ℕ, ◌+◌, ◌*◌, ◌/◌, ◌^◌, if◌then◌else◌}

-- The number of thousandths.
abbrev pub Fixed : Type 0
Fixed = ℤ

-- Division that drops the fraction, by sign and magnitude.
abbrev quot : ℤ → ℕ → ℤ
quot a n = sub_ℕ (pos_part a / n) (neg_part a / n)

abbrev divide : Fixed → Fixed → Fixed
divide a b =
    let magnitude = pos_part b + neg_part b in
    let scaled = quot (a *ℤ pos 1000) magnitude in
    if ltb_ℤ b (pos 0) then pos 0 -ℤ scaled else scaled

instance unfoldable pub fixed_double : Double Fixed
unfolding ◌+ℤ◌ ◌-ℤ◌ ◌*ℤ◌
fixed_double = record {
  literal = λ m k. pos (m * 1000 / 10 ^ k);
  of_int = λ n. n *ℤ pos 1000;
  of_size = λ n. pos (n * 1000);
  trunc = λ a. quot a 1000;
  add = ◌+ℤ◌;
  sub = ◌-ℤ◌;
  mul = λ a b. quot (a *ℤ b) 1000;
  div = divide;
  lt = ltb_ℤ;
}

pub Fixed-IsOrdered : IsOrdered Fixed
unfolding fixed_double ◌+ℤ◌ ◌-ℤ◌ ◌*ℤ◌
Fixed-IsOrdered = record {
  asymmetric = λ a b h. ground arith;
  irreflexive = λ a. ground arith;
  literal_nonneg = λ m k. ground arith;
}
